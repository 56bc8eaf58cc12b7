-- ===== src/Risk/Sentiment.antt =====
-- src/risk/sentiment_stop_handler.py: the stops that news against a position tighten.
-- `Decimal` prices are numbers of `A`, scores numbers of `F`, and `upper` is the language's. What the
-- providers give for an instrument is an argument; they and the callback do not raise. The updates
-- that the callback is called with are listed in order.
pub mod Tightening
mod Tests
use text.Mathlib.Text.{◌==◌ as str_eq}
use ig_trading_bot.Common.{
  String, Bool, true, false, negate, Option, none, some, List, [], ◌∷◌, ◌++◌, Arith, abs_of, equal,
  if◌then◌else◌,
}
use ig_trading_bot.Risk.Stops
use ig_trading_bot.Risk.Stops.{Direction, long, short, tighten_stop_on_news}

-- The keys of a position's dict.
pub record PositionData (A : Arith) : Type 0 where
  pub position_id : Option String
  pub instrument : Option String
  pub direction : Option String
  pub current_stop : Option A.Num
  pub entry_price : Option A.Num
  pub initial_stop : Option A.Num
  pub atr_at_entry : Option A.Num

pub data Reason (F : Arith) : Type 0 where
  not_opposing : Reason F
  opposed : F.Num → Reason F
  not_tighter : Reason F

pub record StopTightenResult (A F : Arith) : Type 0 where
  pub position_id : String
  pub instrument : String
  pub direction : Direction
  pub original_stop : A.Num
  pub new_stop : A.Num
  pub tightened : Bool
  pub reason : Reason F

pub record SentimentStopHandler (F : Arith) : Type 0 where
  pub has_callback : Bool
  pub sentiment_threshold : F.Num

-- What the three providers give.
pub record Providers (A : Arith) : Type 0 where
  pub open_positions : String → List (PositionData A)
  pub current_price : String → Option A.Num
  pub current_atr : String → Option A.Num

abbrev pub or_text : Option String → String → String
or_text none d = d
or_text (some s) d = s

module _ (A F : Arith) (upper : String → String) where
  open A use {Num}

  pub is_opposing_sentiment : SentimentStopHandler F → Direction → F.Num → Bool
  is_opposing_sentiment h long score = F.lt score (F.neg h.sentiment_threshold)
  is_opposing_sentiment h short score = F.lt h.sentiment_threshold score

  -- The results and the updates.
  abbrev pub Handled : Type 0
  Handled = List (StopTightenResult A F) × List (String × Num)

  abbrev pub both : Handled → Handled → Handled
  both a b = (a.0 ++ b.0, a.1 ++ b.1)

  -- The direction, where the text is one of the two.
  abbrev pub direction_of : String → Option Direction
  direction_of text =
      if str_eq text "LONG" then some long else if str_eq text "SHORT" then some short else none

  abbrev or_number : Option Num → Num → Num
  or_number none d = d
  or_number (some x) d = x

  abbrev pub stop_position : PositionData A → Direction → Num → Num → Num → Stops.Position A
  stop_position p d stop entry atr = record {
    entry_price = entry;
    direction = d;
    initial_stop = or_number p.initial_stop stop;
    current_stop = stop;
    atr_at_entry = or_number p.atr_at_entry atr;
  }

  -- The result of a stop, with the update that it calls for.
  abbrev pub result_of :
      SentimentStopHandler F → PositionData A → Direction → Num → Num → Bool → Reason F → Handled
  result_of h p d stop new_stop tightened reason =
      let id = or_text p.position_id "unknown" in
      (
        record {
          position_id = id;
          instrument = or_text p.instrument "unknown";
          direction = d;
          original_stop = stop;
          new_stop = new_stop;
          tightened = tightened;
          reason = reason;
        }
            ∷ [],
        (if tightened then (if h.has_callback then (id, new_stop) ∷ [] else []) else []),
      )

  pub evaluate_directed :
      SentimentStopHandler F → PositionData A → F.Num → Num → Num → Num → Num → Direction → Handled
  unfolding is_opposing_sentiment
  evaluate_directed h p score price atr stop entry d =
      let new_stop = tighten_stop_on_news A (stop_position p d stop entry atr) price atr in
      if negate (is_opposing_sentiment h d score)
      then result_of h p d stop stop false not_opposing
      else if equal A new_stop stop
      then result_of h p d stop new_stop false not_tighter
      else result_of h p d stop new_stop true (opposed score)

  abbrev pub evaluate_known :
      SentimentStopHandler F
      → PositionData A
      → F.Num
      → Num
      → Num
      → Option Num
      → Option Num
      → Option Direction
      → Handled
  evaluate_known h p score price atr (some stop) (some entry) (some d) =
      evaluate_directed h p score price atr stop entry d
  evaluate_known h p score price atr _ _ _ = ([], [])

  pub evaluate_position : SentimentStopHandler F → PositionData A → F.Num → Num → Num → Handled
  unfolding evaluate_directed
  evaluate_position h p score price atr =
      evaluate_known h p score price atr p.current_stop p.entry_price
        (direction_of (upper (or_text p.direction "")))

  pub evaluate_each : SentimentStopHandler F → List (PositionData A) → F.Num → Num → Num → Handled
  unfolding evaluate_position
  evaluate_each h [] score price atr = ([], [])
  evaluate_each h (p ∷ ps) score price atr =
      both (evaluate_position h p score price atr) (evaluate_each h ps score price atr)

  abbrev pub with_quotes :
      SentimentStopHandler F → List (PositionData A) → F.Num → Option Num → Option Num → Handled
  with_quotes h ps score (some price) (some atr) = evaluate_each h ps score price atr
  with_quotes h ps score _ _ = ([], [])

  -- Without positions, no quote is asked for, and there is no result either way.
  pub process_instrument : SentimentStopHandler F → Providers A → String → F.Num → Handled
  unfolding evaluate_each
  process_instrument h v i score =
      with_quotes h (v.open_positions i) score (v.current_price i) (v.current_atr i)

  pub process_each : SentimentStopHandler F → Providers A → List String → F.Num → Handled
  unfolding process_instrument
  process_each h v [] score = ([], [])
  process_each h v (i ∷ is) score =
      both (process_instrument h v i score) (process_each h v is score)

  -- `handle_high_impact_news`, on the payload's score and instruments.
  pub handle_high_impact_news :
      SentimentStopHandler F → Providers A → Option F.Num → List String → Handled
  unfolding process_each
  handle_high_impact_news h v none is = ([], [])
  handle_high_impact_news h v (some score) is =
      if F.le (abs_of F score) h.sentiment_threshold then ([], []) else process_each h v is score
