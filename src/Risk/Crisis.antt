-- ===== src/Risk/Crisis.antt =====
-- src/risk/risk_engine.py: the response to a crisis, which closes the most volatile positions until
-- half of the exposure is gone and widens the stops of the others.
-- `sorted` with `reverse` is stable and written as an insertion sort. The elapsed time is left out,
-- and the two events that are published hold what the result holds.
pub mod Order
pub mod Response
mod Tests
use text.Mathlib.Text.{◌==◌ as str_eq}
use ig_trading_bot.Common.{
  String, Bool, true, false, Option, none, some, List, [], ◌∷◌, ◌++◌, Arith, if◌then◌else◌, Dict,
  insert,
}
use ig_trading_bot.Risk.Stops
use ig_trading_bot.Risk.Stops.{long, short, widen_stop_for_event}

pub record CrisisPosition (A : Arith) : Type 0 where
  pub instrument : String
  pub direction : String
  pub notional_value : A.Num
  pub atr : A.Num
  pub entry_price : A.Num
  pub current_stop : A.Num

pub record CrisisResponseResult (A : Arith) : Type 0 where
  pub positions_closed : List String
  pub positions_widened : List String
  pub new_stops : Dict A.Num
  pub exposure_reduction_pct : A.Num
  pub notification_sent : Bool

module _ (A : Arith) where
  open A use {Num, dec, add, mul, div, lt}

  -- `sorted(positions, key=lambda p: p.atr, reverse=True)`
  pub place : CrisisPosition A → List (CrisisPosition A) → List (CrisisPosition A)
  place p [] = p ∷ []
  place p (q ∷ qs) = if lt p.atr q.atr then q ∷ place p qs else p ∷ q ∷ qs

  pub sort_by_atr : List (CrisisPosition A) → List (CrisisPosition A)
  unfolding place
  sort_by_atr [] = []
  sort_by_atr (p ∷ ps) = place p (sort_by_atr ps)

  abbrev pub exposure_from : Num → List (CrisisPosition A) → Num
  exposure_from total [] = total
  exposure_from total (p ∷ ps) = exposure_from (add total p.notional_value) ps

  -- The loop of the second step: what is closed, what is kept, and the exposure closed.
  pub record Split : Type 0 where
    pub closed : List (CrisisPosition A)
    pub kept : List (CrisisPosition A)
    pub exposure_closed : Num

  pub close_until : Num → Num → List (CrisisPosition A) → Split
  close_until target done [] = record { closed = []; kept = []; exposure_closed = done }
  close_until target done (p ∷ ps) =
      let on = close_until target (add done p.notional_value) ps in
      let off = close_until target done ps in
      if lt done target
      then record on { closed = p ∷ on.closed }
      else record off { kept = p ∷ off.kept }

  abbrev pub instruments : List (CrisisPosition A) → List String
  instruments [] = []
  instruments (p ∷ ps) = p.instrument ∷ instruments ps

  abbrev pub stop_position : CrisisPosition A → Stops.Position A
  stop_position p = record {
    entry_price = p.entry_price;
    direction = (if str_eq p.direction "LONG" then long else short);
    initial_stop = p.current_stop;
    current_stop = p.current_stop;
    atr_at_entry = p.atr;
  }

  pub widened : CrisisPosition A → Num
  widened p = widen_stop_for_event A (stop_position p) p.atr (dec 20 1)

  abbrev pub new_stops_from : Dict Num → List (CrisisPosition A) → Dict Num
  new_stops_from stops [] = stops
  new_stops_from stops (p ∷ ps) = new_stops_from (insert p.instrument (widened p) stops) ps

  abbrev pub target_of : List (CrisisPosition A) → Num
  target_of ps = mul (exposure_from (dec 0 0) ps) (dec 5 1)

  -- The second step on the positions of an account.
  pub split_positions : List (CrisisPosition A) → Split
  unfolding sort_by_atr close_until
  split_positions ps =
      let sorted = sort_by_atr ps in close_until (target_of sorted) (dec 0 0) sorted

  abbrev empty_response : CrisisResponseResult A
  empty_response = record {
    positions_closed = [];
    positions_widened = [];
    new_stops = [];
    exposure_reduction_pct = dec 0 0;
    notification_sent = false;
  }

  pub handle_crisis_response : List (CrisisPosition A) → CrisisResponseResult A
  unfolding split_positions widened
  handle_crisis_response [] = empty_response
  handle_crisis_response (p ∷ ps) =
      let total = exposure_from (dec 0 0) (sort_by_atr (p ∷ ps)) in
      let parts = split_positions (p ∷ ps) in
      record {
        positions_closed = instruments parts.closed;
        positions_widened = instruments parts.kept;
        new_stops = new_stops_from [] parts.kept;
        exposure_reduction_pct =
            (if lt (dec 0 0) total
              then mul (div parts.exposure_closed total) (dec 100 0)
              else dec 0 0);
        notification_sent = true;
      }

  -- The keys of a position's dict in the payload, and `Decimal(str(x))` on those that are there.
  pub record PositionData : Type 0 where
    pub instrument : Option String
    pub direction : Option String
    pub notional_value : Option Num
    pub atr : Option Num
    pub entry_price : Option Num
    pub current_stop : Option Num

  abbrev get_or {ℓ} : {B : Type ℓ} → B → Option B → B
  get_or d none = d
  get_or d (some b) = b

  abbrev pub crisis_position : PositionData → CrisisPosition A
  crisis_position p = record {
    instrument = get_or "UNKNOWN" p.instrument;
    direction = get_or "LONG" p.direction;
    notional_value = get_or (dec 0 0) p.notional_value;
    atr = get_or (dec 0 0) p.atr;
    entry_price = get_or (dec 0 0) p.entry_price;
    current_stop = get_or (dec 0 0) p.current_stop;
  }

  abbrev crisis_positions : List PositionData → List (CrisisPosition A)
  crisis_positions [] = []
  crisis_positions (p ∷ ps) = crisis_position p ∷ crisis_positions ps

  -- `_handle_crisis_alert`, on the payload's list, which is empty where the key is missing.
  pub handle_crisis_alert : Option (List PositionData) → CrisisResponseResult A
  unfolding handle_crisis_response
  handle_crisis_alert positions = handle_crisis_response (crisis_positions (get_or [] positions))
