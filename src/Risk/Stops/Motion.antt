-- ===== src/Risk/Stops/Motion.antt =====
-- Stops that move only in the profitable direction.
use ig_trading_bot.Common.{
  ◌≡◌, refl, ◌∙◌, Bool, true, Option, none, some, List, [], ◌∷◌, Arith, IsOrdered, arith, abs_of,
}
use ig_trading_bot.Risk.Stops.{
  Direction, long, short, Position, update_trailing_stop, tighten_stop_on_news, advanced, profit_of,
}

-- The two ways in which a caller moves a stop, each at a price and a volatility.
pub data Move (A : Arith) : Type 0 where
  trail tighten : A.Num → A.Num → Move A

module _ (A : Arith) (int : A.Num → A.Num) where
  abbrev moved : Position A → Option A.Num → Position A
  moved p none = p
  moved p (some stop) = record p { current_stop = stop }

  move : Position A → Move A → Position A
  move p (trail price atr) = moved p (update_trailing_stop A int p price atr)
  move p (tighten price atr) = record p { current_stop = tighten_stop_on_news A p price atr }

  pub move_all : Position A → List (Move A) → Position A
  unfolding move
  move_all p [] = p
  move_all p (m ∷ ms) = move_all (move p m) ms

module _ (A : Arith) where
  -- A stop is no worse than another for a direction.
  abbrev pub advances : Direction → A.Num → A.Num → Bool
  advances long old new = A.le old new
  advances short old new = A.le new old

  pub record IsAdvance (p q : Position A) : Type 0 where
    pub entry_is : q.entry_price ≡ p.entry_price
    pub direction_is : q.direction ≡ p.direction
    pub initial_is : q.initial_stop ≡ p.initial_stop
    pub stop_advances : advances p.direction p.current_stop q.current_stop ≡ true

module _ (A : Arith) (int : A.Num → A.Num) (o : IsOrdered A) where
  open o use {le_refl, le_trans, le_total, lt_not_le}

  advances_refl : (d : Direction) (a : A.Num) → advances A d a a ≡ true
  advances_refl long a = le_refl a
  advances_refl short a = le_refl a

  advances_trans :
      (d : Direction) (a b c : A.Num)
      → advances A d a b ≡ true
      → advances A d b c ≡ true
      → advances A d a c ≡ true
  advances_trans long a b c h k = le_trans a b c h k
  advances_trans short a b c h k = le_trans c b a k h

  advanced-advances :
      (p : Position A) (gain : A.Num)
      → advances A p.direction p.current_stop (moved A int p (advanced A p gain)).current_stop
        ≡ true
  advanced-advances p gain =
      let above = A.add p.entry_price gain in
      let below = A.sub p.entry_price gain in
      ground (
        arith,
        le_refl p.current_stop,
        le_total above p.current_stop,
        le_total p.current_stop below,
      )

  trail-advances :
      (p : Position A) (price atr : A.Num)
      → advances A p.direction p.current_stop
          (moved A int p (update_trailing_stop A int p price atr)).current_stop
        ≡ true
  unfolding update_trailing_stop
  trail-advances p price atr =
      let risk = abs_of A (A.sub p.entry_price p.initial_stop) in
      let step = A.mul atr (A.dec 5 1) in
      ground (
        arith,
        advances_refl p.direction p.current_stop,
        advanced-advances p (A.mul step (int (A.div (A.sub (profit_of A p price) risk) step))),
      )

  tighten-advances :
      (p : Position A) (price atr : A.Num)
      → advances A p.direction p.current_stop (tighten_stop_on_news A p price atr) ≡ true
  unfolding tighten_stop_on_news
  tighten-advances p price atr =
      let below = A.sub price (A.mul atr (A.dec 5 1)) in
      let above = A.add price (A.mul atr (A.dec 5 1)) in
      ground (
        arith,
        le_refl p.current_stop,
        lt_not_le below p.current_stop,
        lt_not_le p.current_stop above,
      )

  move-IsAdvance : (p : Position A) (m : Move A) → IsAdvance A p (move A int p m)
  unfolding move
  move-IsAdvance p (trail price atr) = record {
    entry_is = ground arith;
    direction_is = ground arith;
    initial_is = ground arith;
    stop_advances = trail-advances p price atr;
  }
  move-IsAdvance p (tighten price atr) = record {
    entry_is = refl;
    direction_is = refl;
    initial_is = refl;
    stop_advances = tighten-advances p price atr;
  }

  IsAdvance-trans : (p q r : Position A) → IsAdvance A p q → IsAdvance A q r → IsAdvance A p r
  IsAdvance-trans p q r h k = record {
    entry_is = k.entry_is ∙ h.entry_is;
    direction_is = k.direction_is ∙ h.direction_is;
    initial_is = k.initial_is ∙ h.initial_is;
    stop_advances =
        advances_trans p.direction p.current_stop q.current_stop r.current_stop h.stop_advances
          (rw h.direction_is at k.stop_advances);
  }

  -- Trailing a stop and tightening it on news never move it against the position, in any order and
  -- at any prices and volatilities, be these negative: the stop of a long position is never lowered
  -- and that of a short one never raised, and the entry, the direction and the initial stop stay.
  -- The order of the prices is total.
  pub stops_move_one_way :
      (p : Position A) (ms : List (Move A)) → IsAdvance A p (move_all A int p ms)
  unfolding move_all
  stops_move_one_way p [] = record {
    entry_is = refl;
    direction_is = refl;
    initial_is = refl;
    stop_advances = advances_refl p.direction p.current_stop;
  }
  stops_move_one_way p (m ∷ ms) =
      IsAdvance-trans p (move A int p m) (move_all A int (move A int p m) ms) (move-IsAdvance p m)
        (stops_move_one_way (move A int p m) ms)
