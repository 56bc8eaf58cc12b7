-- ===== src/Trading/TrailingStops/Motion.antt =====
-- Trailing stops: a stop moves only in the profitable direction, and follows the price.
use mathlib.Core.Path.{subst}
use text.Mathlib.Text.{◌==◌}
use ig_trading_bot.Common.{
  ◌≡◌, refl, String, Bool, true, false, some, List, [], ◌∷◌, Arith, IsOrdered, IsMonotone, arith,
  Dict, lookup, Bool-cases, inl, inr, ◌∙◌, negate, sym, false-ne-true, none-ne-some,
}
use ig_trading_bot.Trading.OrderData.{OrderManager, TrailingStopConfig}
use ig_trading_bot.Trading.TrailingStops.{
  advance_buy, advance_sell, advance, tick_one, tick_each, update_trailing_stops,
}

module _ (A : Arith) where
  -- The ticks of any instruments, one after another.
  pub run_ticks : OrderManager A → List (String × A.Num) → OrderManager A
  run_ticks m [] = m
  run_ticks m ((i, p) ∷ ts) = run_ticks (update_trailing_stops A m i p) ts

module _ (A : Arith) (ordered : IsOrdered A) where
  le_of_lt : (a b : A.Num) → A.lt a b ≡ true → A.le a b ≡ true
  le_of_lt a b h = ordered.le_total b a (flip (A.le b a) (sym (ordered.lt_not_le a b) ∙ h))
    where
      flip : (x : Bool) → negate x ≡ true → x ≡ false
      flip x e = ground arith

  le_of_not_lt : (a b : A.Num) → A.lt a b ≡ false → A.le b a ≡ true
  le_of_not_lt a b h = flip (A.le b a) (sym (ordered.lt_not_le a b) ∙ h)
    where
      flip : (x : Bool) → negate x ≡ false → x ≡ true
      flip x e = ground arith

  -- The settings of a configuration stay, and its stop has not moved backward.
  record Advances (c c' : TrailingStopConfig A) : Type 0 where
    same_deal : c'.deal_id ≡ c.deal_id
    same_instrument : c'.instrument ≡ c.instrument
    same_direction : c'.direction ≡ c.direction
    same_distance : c'.trail_distance ≡ c.trail_distance
    up : (c.direction == "BUY") ≡ true → A.le c.current_stop c'.current_stop ≡ true
    down :
        (c.direction == "BUY") ≡ false
        → (c.direction == "SELL") ≡ true
        → A.le c'.current_stop c.current_stop ≡ true

  Advances-refl : (c : TrailingStopConfig A) → Advances c c
  Advances-refl c = record {
    same_deal = refl;
    same_instrument = refl;
    same_direction = refl;
    same_distance = refl;
    up = λ h. ordered.le_refl c.current_stop;
    down = λ h k. ordered.le_refl c.current_stop;
  }

  Advances-trans : (c d e : TrailingStopConfig A) → Advances c d → Advances d e → Advances c e
  Advances-trans c d e f g = record {
    same_deal = g.same_deal ∙ f.same_deal;
    same_instrument = g.same_instrument ∙ f.same_instrument;
    same_direction = g.same_direction ∙ f.same_direction;
    same_distance = g.same_distance ∙ f.same_distance;
    up = λ h. ordered.le_trans _ _ _ (f.up h) (g.up (rw f.same_direction h));
    down = λ h k.
        ordered.le_trans _ _ _ (g.down (rw f.same_direction h) (rw f.same_direction k))
          (f.down h k);
  }

  advance_buy-moves :
      (c : TrailingStopConfig A) (p : A.Num)
      → let c' = (advance_buy A c p).0 in
        (A.le c.current_stop c'.current_stop ≡ true)
        × (c'.deal_id ≡ c.deal_id)
        × (c'.instrument ≡ c.instrument)
        × (c'.direction ≡ c.direction)
        × (c'.trail_distance ≡ c.trail_distance)
  unfolding advance_buy
  advance_buy-moves c p = ground (
    arith,
    ordered.le_refl c.current_stop,
    le_of_lt c.current_stop (A.sub p c.trail_distance),
    le_of_lt c.current_stop (A.sub c.highest_price c.trail_distance),
  )

  advance_sell-moves :
      (c : TrailingStopConfig A) (p : A.Num)
      → let c' = (advance_sell A c p).0 in
        (A.le c'.current_stop c.current_stop ≡ true)
        × (c'.deal_id ≡ c.deal_id)
        × (c'.instrument ≡ c.instrument)
        × (c'.direction ≡ c.direction)
        × (c'.trail_distance ≡ c.trail_distance)
  unfolding advance_sell
  advance_sell-moves c p = ground (
    arith,
    ordered.le_refl c.current_stop,
    le_of_lt (A.add p c.trail_distance) c.current_stop,
    le_of_lt (A.add c.lowest_price c.trail_distance) c.current_stop,
  )

  advance-Advances : (c : TrailingStopConfig A) (p : A.Num) → Advances c (advance A c p).0
  unfolding advance
  advance-Advances c p = elim (Bool-cases (c.direction == "BUY")) [
    | inl buy ↦
        let m = advance_buy-moves c p in
        rw (buy, advance)
          (record {
            same_deal = m.1;
            same_instrument = m.2;
            same_direction = m.3;
            same_distance = m.4;
            up = λ h. m.0;
            down = λ h k. absurd (false-ne-true (sym h ∙ buy));
          })
    | inr other ↦ elim (Bool-cases (c.direction == "SELL")) [
      | inl sell ↦
          let m = advance_sell-moves c p in
          rw (other, sell, advance)
            (record {
              same_deal = m.1;
              same_instrument = m.2;
              same_direction = m.3;
              same_distance = m.4;
              up = λ h. absurd (false-ne-true (sym other ∙ h));
              down = λ h k. m.0;
            })
      | inr neither ↦ rw (other, neither, advance) (Advances-refl c)
    ]
  ]

  tick_one-Advances :
      (i : String) (p : A.Num) (deal : String) (c : TrailingStopConfig A)
      → Advances c (tick_one A i p deal c).0
  unfolding tick_one
  tick_one-Advances i p deal c = elim (Bool-cases (c.instrument == i)) [
    | inl same ↦ rw (same, tick_one) (advance-Advances c p)
    | inr other ↦ rw (other, tick_one) (Advances-refl c)
  ]

  -- A tick keeps each configuration under its deal, advanced.
  tick_each-Advances :
      (i : String) (p : A.Num) (d : Dict (TrailingStopConfig A)) (deal : String)
      (c : TrailingStopConfig A)
      → lookup deal d ≡ some c
      → (c' : TrailingStopConfig A) × (lookup deal (tick_each A i p d).0 ≡ some c') × Advances c c'
  unfolding tick_each lookup
  tick_each-Advances i p [] deal c e = absurd (none-ne-some c e)
  tick_each-Advances i p ((j, c₀) ∷ d) deal c e = elim (Bool-cases (j == deal)) [
    | inl same ↦
        let q : c₀ ≡ c = ground arith in
        (
          (tick_one A i p j c₀).0,
          rw same,
          subst (λ x. Advances x (tick_one A i p j c₀).0) q (tick_one-Advances i p j c₀),
        )
    | inr other ↦ rw other (tick_each-Advances i p d deal c (rw other at e))
  ]

  run_ticks-Advances :
      (ts : List (String × A.Num)) (m : OrderManager A) (deal : String) (c : TrailingStopConfig A)
      → lookup deal m.active_trailing_stops ≡ some c
      → (c' : TrailingStopConfig A) × (lookup deal (run_ticks A m ts).active_trailing_stops
          ≡ some c')
        × Advances c c'
  unfolding run_ticks update_trailing_stops
  run_ticks-Advances [] m deal c e = (c, e, Advances-refl c)
  run_ticks-Advances ((i, p) ∷ ts) m deal c e =
      let (d, found, moved) = tick_each-Advances i p m.active_trailing_stops deal c e in
      let (c', found', moved') =
        run_ticks-Advances ts (update_trailing_stops A m i p) deal d found in
      (c', found', Advances-trans c d c' moved moved')

  -- Whatever ticks arrive, a trailing stop stays in place under its deal with its direction and its
  -- distance, the stop of a BUY position is never lowered, and that of a SELL position is never
  -- raised. The order of the prices is total.
  pub stops_never_retreat :
      (ts : List (String × A.Num)) (m : OrderManager A) (deal : String) (c : TrailingStopConfig A)
      → lookup deal m.active_trailing_stops ≡ some c
      → (c' : TrailingStopConfig A) × (lookup deal (run_ticks A m ts).active_trailing_stops
          ≡ some c')
        × (c'.direction ≡ c.direction)
        × (c'.trail_distance ≡ c.trail_distance)
        × (c.direction ≡ "BUY" → A.le c.current_stop c'.current_stop ≡ true)
        × (c.direction ≡ "SELL" → A.le c'.current_stop c.current_stop ≡ true)
  stops_never_retreat ts m deal c e =
      let (c', found, a) = run_ticks-Advances ts m deal c e in
      (c', found, a.same_direction, a.same_distance, λ h. a.up (rw h), λ h. a.down (rw h) (rw h))

  module _ (monotone : IsMonotone A) where
    advance_buy-trails :
        (c : TrailingStopConfig A) (p : A.Num)
        → A.le (A.sub p c.trail_distance) (advance_buy A c p).0.current_stop ≡ true
    unfolding advance_buy
    advance_buy-trails c p =
        let d = c.trail_distance in
        ground (
          arith,
          ordered.le_refl (A.sub p d),
          le_of_not_lt c.current_stop (A.sub p d),
          le_of_not_lt c.current_stop (A.sub c.highest_price d),
          le_of_not_lt c.highest_price p,
          monotone.sub_mono p c.highest_price d,
          ordered.le_trans (A.sub p d) (A.sub c.highest_price d) c.current_stop,
        )

    advance_sell-trails :
        (c : TrailingStopConfig A) (p : A.Num)
        → A.le (advance_sell A c p).0.current_stop (A.add p c.trail_distance) ≡ true
    unfolding advance_sell
    advance_sell-trails c p =
        let d = c.trail_distance in
        ground (
          arith,
          ordered.le_refl (A.add p d),
          le_of_not_lt (A.add p d) c.current_stop,
          le_of_not_lt (A.add c.lowest_price d) c.current_stop,
          le_of_not_lt p c.lowest_price,
          monotone.add_mono c.lowest_price p d,
          ordered.le_trans c.current_stop (A.add c.lowest_price d) (A.add p d),
        )

    -- After a tick at a price, the stop of a BUY position is no further below that price than the
    -- trail distance, and the stop of a SELL position no further above it. The order of the
    -- numbers is total, and sums and differences keep it.
    pub tick_trails_price :
        (c : TrailingStopConfig A) (p : A.Num)
        → let c' = (advance A c p).0 in
          (c.direction ≡ "BUY" → A.le (A.sub p c.trail_distance) c'.current_stop ≡ true)
          × (c.direction ≡ "SELL" → A.le c'.current_stop (A.add p c.trail_distance) ≡ true)
    unfolding advance
    tick_trails_price c p = (
      λ h.
          let buy : (c.direction == "BUY") ≡ true = rw h in
          rw (buy, advance) (advance_buy-trails c p),
      λ h.
          let other : (c.direction == "BUY") ≡ false = rw h in
          let sell : (c.direction == "SELL") ≡ true = rw h in
          rw (other, sell, advance) (advance_sell-trails c p),
    )
