-- ===== src/Risk/Hft/Rates.antt =====
-- The rate limits: how many orders the counters hold when each order is checked first.
use native.Mathlib.Nat.{le_trans}
use ig_trading_bot.Common.{
  ℕ, ◌+◌, ◌≤◌, ◌<◌, ◌≡◌, refl, String, true, List, [], ◌∷◌, ◌++◌, Arith, arith, length,
  length-append, length-keep-le, leb, leb→gt, Bool-cases, Option-cases, inl, false-ne-true,
  none-ne-some, max, min, inr, if◌then◌else◌, lookup, lookup-insert_self, Every, Every-insert,
}
use ig_trading_bot.Risk.Hft.{
  HftRiskManager, SlidingWindowCounter, RateLimitStatus, prune, record_event, count, record_order,
  record_rejection, check_rate_limit, counter_of, count_instrument, judge_rate, count_global,
  refused, RateReason, global_exceeded, instrument_exceeded, new,
}

module _ (F : Arith) where
  size : SlidingWindowCounter F → ℕ
  size c = length c.timestamps

  count-size : (c : SlidingWindowCounter F) (now : F.Num) → size (count F c now).0 ≤ size c
  unfolding size count prune
  count-size c now = length-keep-le _ c.timestamps

  count-eq-size :
      (c : SlidingWindowCounter F) (now : F.Num) → (count F c now).1 ≡ size (count F c now).0
  unfolding size count
  count-eq-size c now = refl

  size-new : (w : F.Num) → 0 ≡ size (record { window_seconds = w; timestamps = [] })
  unfolding size
  size-new w = refl

  record_event-size :
      (c : SlidingWindowCounter F) (t now : F.Num) → size (record_event F c t now) ≤ size c + 1
  unfolding size record_event prune
  record_event-size c t now = omega (
    arith,
    length-keep-le (λ u. F.lt (F.sub now c.window_seconds) u) (c.timestamps ++ t ∷ []),
    length-append c.timestamps (t ∷ []),
  )

-- What a caller does: it asks, and records the order if that is allowed.
pub record Attempt (F : Arith) : Type 0 where
  pub instrument : String
  pub asked : ℕ → F.Num
  pub recorded : ℕ → F.Num

module _ (A F : Arith) where
  abbrev pub submit : HftRiskManager A F → Attempt F → HftRiskManager A F
  submit m a =
      let (m', s) = check_rate_limit A F m a.instrument a.asked in
      if s.allowed then record_order A F m' a.instrument a.recorded else m'

  unfoldable pub submit_all : HftRiskManager A F → List (Attempt F) → HftRiskManager A F
  submit_all m [] = m
  submit_all m (a ∷ attempts) = submit_all (submit m a) attempts

module _ (A F : Arith) (most each : ℕ) where
  -- No counter of orders is over its limit.
  record IsLimited (m : HftRiskManager A F) : Type 0 where
    most_is : m.max_order_rate ≡ most
    each_is : m.max_per_instrument_rate ≡ each
    total : size F m.global_rate_counter ≤ most
    single : Every (λ c. size F c ≤ each) m.instrument_rate_counters

  -- Reading the counter of an instrument prunes it and gives its size.
  record Counted (m : HftRiskManager A F) (i : String) (out : HftRiskManager A F × ℕ) : Type 0 where
    limited : IsLimited out.0
    global : out.0.global_rate_counter ≡ m.global_rate_counter
    exact : out.1 ≡ size F (counter_of A F out.0 i)

  count_instrument-Counted :
      (m : HftRiskManager A F) (i : String) (now : F.Num)
      → IsLimited m
      → Counted m i (count_instrument A F m i now)
  count_instrument-Counted m i now h = elim (Option-cases (lookup i m.instrument_rate_counters)) [
    | inl absent ↦
        rw (absent, count_instrument)
          (record {
            limited = h;
            global = refl;
            exact = rw (absent, counter_of) (size-new F (F.dec 10 1));
          })
    | inr (c, found) ↦
        rw (found, count_instrument)
          (record {
            limited = record {
              most_is = h.most_is;
              each_is = h.each_is;
              total = h.total;
              single =
                  Every-insert (λ c. size F c ≤ each) i (count F c now).0 m.instrument_rate_counters
                    (le_trans (count-size F c now) (h.single i c found)) h.single;
            };
            global = refl;
            exact =
                rw (counter_of, lookup-insert_self i (count F c now).0 m.instrument_rate_counters)
                  (count-eq-size F c now);
          })
  ]

  -- What an allowed check says of the counters that it leaves.
  record Checked (i : String) (out : HftRiskManager A F × RateLimitStatus) : Type 0 where
    limited : IsLimited out.0
    room : out.1.allowed ≡ true → size F out.0.global_rate_counter < most
    room_each : out.1.allowed ≡ true → size F (counter_of A F out.0 i) < each

  refused-Checked :
      (m : HftRiskManager A F) (i : String) (t now : F.Num) (r : RateReason) (g n : ℕ)
      → IsLimited m
      → Checked i (record_rejection A F m t now, refused A F r g n)
  unfolding record_rejection
  refused-Checked m i t now r g n h = record {
    limited = record {
      most_is = h.most_is;
      each_is = h.each_is;
      total = h.total;
      single = h.single;
    };
    room = λ e. absurd (false-ne-true e);
    room_each = λ e. absurd (false-ne-true e);
  }

  judge_rate-Checked :
      (m : HftRiskManager A F) (i : String) (now : ℕ → F.Num) (g n : ℕ)
      → IsLimited m
      → g ≡ size F m.global_rate_counter
      → n ≡ size F (counter_of A F m i)
      → Checked i (judge_rate A F m i now g n)
  unfolding judge_rate
  judge_rate-Checked m i now g n h exact exact_each = elim (Bool-cases (leb m.max_order_rate g)) [
    | inl full ↦
        rw full (refused-Checked m i (now 2) (now 3) (global_exceeded g m.max_order_rate) g n h)
    | inr free ↦ elim (Bool-cases (leb m.max_per_instrument_rate n)) [
      | inl full ↦
          rw (free, full)
            (refused-Checked m i (now 2) (now 3) (instrument_exceeded i n m.max_per_instrument_rate)
              g n h)
      | inr free_each ↦
          rw (free, free_each)
            (record {
              limited = h;
              room = λ _. omega (arith, leb→gt _ _ free, h.most_is, exact);
              room_each = λ _. omega (arith, leb→gt _ _ free_each, h.each_is, exact_each);
            })
    ]
  ]

  count_global-IsLimited :
      (m : HftRiskManager A F) (now : F.Num) → IsLimited m → IsLimited (count_global A F m now).0
  count_global-IsLimited m now h = record {
    most_is = h.most_is;
    each_is = h.each_is;
    total = le_trans (count-size F m.global_rate_counter now) h.total;
    single = h.single;
  }

  check_rate_limit-Checked :
      (m : HftRiskManager A F) (i : String) (now : ℕ → F.Num)
      → IsLimited m
      → Checked i (check_rate_limit A F m i now)
  unfolding check_rate_limit
  check_rate_limit-Checked m i now h =
      let m' = (count_global A F m (now 0)).0 in
      let c = count_instrument-Counted m' i (now 1) (count_global-IsLimited m (now 0) h) in
      let out = count_instrument A F m' i (now 1) in
      judge_rate-Checked out.0 i now (count_global A F m (now 0)).1 out.1 c.limited
        (rw c.global (count-eq-size F m.global_rate_counter (now 0))) c.exact

  record_order-IsLimited :
      (m : HftRiskManager A F) (i : String) (clock : ℕ → F.Num)
      → IsLimited m
      → size F m.global_rate_counter < most
      → size F (counter_of A F m i) < each
      → IsLimited (record_order A F m i clock)
  unfolding record_order
  record_order-IsLimited m i clock h room room_each = record {
    most_is = h.most_is;
    each_is = h.each_is;
    total = omega (arith, room, record_event-size F m.global_rate_counter (clock 0) (clock 1));
    single =
        Every-insert (λ c. size F c ≤ each) i
          (record_event F (counter_of A F m i) (clock 2) (clock 3)) m.instrument_rate_counters
          (omega (arith, room_each, record_event-size F (counter_of A F m i) (clock 2) (clock 3)))
          h.single;
  }

  submit-IsLimited :
      (m : HftRiskManager A F) (a : Attempt F) → IsLimited m → IsLimited (submit A F m a)
  submit-IsLimited m a h =
      let c = check_rate_limit-Checked m a.instrument a.asked h in
      let out = check_rate_limit A F m a.instrument a.asked in
      elim (Bool-cases out.1.allowed) [
        | inl granted ↦ rw granted (
            record_order-IsLimited out.0 a.instrument a.recorded c.limited (c.room granted)
              (c.room_each granted))
        | inr refusal ↦ rw refusal c.limited
      ]

  submit_all-IsLimited :
      (m : HftRiskManager A F) (attempts : List (Attempt F))
      → IsLimited m
      → IsLimited (submit_all A F m attempts)
  unfolding submit_all
  submit_all-IsLimited m [] h = h
  submit_all-IsLimited m (a ∷ attempts) h =
      submit_all-IsLimited (submit A F m a) attempts (submit-IsLimited m a h)

module _ (A F : Arith) where
  new-IsLimited : (rate each : ℕ) → IsLimited A F (max 10 (min 500 rate)) each (new A F rate each)
  unfolding new size lookup
  new-IsLimited rate each = record {
    most_is = refl;
    each_is = refl;
    total = omega arith;
    single = λ i c e. absurd (none-ne-some c e);
  }

  -- A new manager whose callers record an order exactly when `check_rate_limit` has just allowed it
  -- never holds more orders in its window than the clamped limit, and never more of one instrument
  -- than the limit per instrument, whatever the clock reads at each check and at each recording.
  pub rate_limits_hold :
      (rate each : ℕ) (attempts : List (Attempt F))
      → let m = submit_all A F (new A F rate each) attempts in
        (length m.global_rate_counter.timestamps ≤ max 10 (min 500 rate))
        × Every (λ c. length c.timestamps ≤ each) m.instrument_rate_counters
  rate_limits_hold rate each attempts =
      let h =
        submit_all-IsLimited A F (max 10 (min 500 rate)) each (new A F rate each) attempts
          (new-IsLimited rate each) in
      (unfold size in h.total, unfold size in h.single)
