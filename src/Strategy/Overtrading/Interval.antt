-- ===== src/Strategy/Overtrading/Interval.antt =====
-- The second rule: the interval between trades on one instrument.
use text.Mathlib.Text.{◌==◌}
use text.Mathlib.TextEquality.{eq_iff}
use ig_trading_bot.Common.{
  ℕ, ◌+◌, ◌≤◌, ◌<◌, ◌≡◌, refl, String, true, false, some, List, [], ◌∷◌, Arith, arith, All, lookup,
  lookup-insert, lookup-insert_self, Bool-cases, inl, inr, ◌∙◌, ◌⊎◌, ap,
}
use ig_trading_bot.Strategy.Overtrading.{
  OvertradingGuard, Call, try_call, loss_call, win_call, reset_call, too_soon, record_trade,
  record_loss, record_win, reset_daily, can_trade, try_trade, step, run,
}
use ig_trading_bot.Strategy.Overtrading.Limits.{Decided, can_trade-Decided, try_trade-hft}

-- The last trade on the instrument was at `t`.
record TradedAt (i : String) (t duration : ℕ) (g : OvertradingGuard) : Type 0 where
  pos : 1 ≤ g.max_trades_per_day
  last : lookup i g.last_trade_times ≡ some t
  wait : g.min_interval ≡ duration

record_trade-TradedAt :
    (i : String) (t duration : ℕ) (g : OvertradingGuard) (s i' : String) (now : ℕ)
    → TradedAt i t duration g
    → (i' == i) ≡ false
    → TradedAt i t duration (record_trade g s i' now)
unfolding record_trade
record_trade-TradedAt i t duration g s i' now v other = record {
  pos = v.pos;
  last = rw (lookup-insert, other) v.last;
  wait = v.wait;
}

module _ (A : Arith) where
  -- Attempts read a clock before `t`, and those of the HFT pipeline are on other instruments.
  abbrev pub Before : String → ℕ → Call A → Type 0
  Before i t (try_call s j now w false) = now < t
  Before i t (try_call s j now w true) = (j == i) ≡ false
  Before i t _ = Unit

  try_trade-refused :
      (i : String) (t duration : ℕ) (g : OvertradingGuard) (s : String) (now : ℕ) (w : A.Num)
      → TradedAt i t duration g
      → now < t + duration
      → (try_trade A g s i now w false).1 ≡ false
  unfolding try_trade
  try_trade-refused i t duration g s now w v early =
      let d = can_trade-Decided A g s i now w v.pos in
      elim (Bool-cases (can_trade A g s i now w false).1.allowed) [
        | inl yes_ ↦ absurd (rested (d.rested yes_))
        | inr no_ ↦ rw (no_, try_trade)
      ]
    where
      rested : too_soon g now (lookup i g.last_trade_times) ≡ false → ⊥
      rested h = ground (arith, v)

  try_trade-TradedAt :
      (i : String) (t duration : ℕ) (g : OvertradingGuard) (s i' : String) (now : ℕ) (w : A.Num)
      → TradedAt i t duration g
      → now < t + duration
      → TradedAt i t duration (try_trade A g s i' now w false).0
  unfolding try_trade
  try_trade-TradedAt i t duration g s i' now w v early =
      let d = can_trade-Decided A g s i' now w v.pos in
      elim (Bool-cases (can_trade A g s i' now w false).1.allowed) [
        | inl yes_ ↦ rw (yes_, try_trade) (moved d yes_ (Bool-cases (i' == i)))
        | inr no_ ↦
            rw (no_, try_trade)
              (record {
                pos = rw d.most v.pos;
                last = rw d.times v.last;
                wait = d.interval ∙ v.wait;
              })
      ]
    where
      moved :
          Decided g s i' now g.max_trades_per_day (can_trade A g s i' now w false)
          → (can_trade A g s i' now w false).1.allowed ≡ true
          → ((i' == i) ≡ true) ⊎ ((i' == i) ≡ false)
          → TradedAt i t duration (record_trade (can_trade A g s i' now w false).0 s i' now)
      moved d yes_ (inl same) = absurd (
          soon (d.rested yes_)
            (ap (λ j. lookup j g.last_trade_times) ((eq_iff i' i).0 same) ∙ v.last))
        where
          soon :
              too_soon g now (lookup i' g.last_trade_times) ≡ false
              → lookup i' g.last_trade_times ≡ some t
              → ⊥
          soon h e = ground (arith, v)
      moved d yes_ (inr other) =
          record_trade-TradedAt i t duration (can_trade A g s i' now w false).0 s i' now
            (record { pos = rw d.most v.pos; last = rw d.times v.last; wait = d.interval ∙ v.wait })
            other

  step-TradedAt :
      (i : String) (t duration : ℕ) (g : OvertradingGuard) (c : Call A)
      → TradedAt i t duration g
      → Before i (t + duration) c
      → TradedAt i t duration (step A g c)
  unfolding step record_loss record_win reset_daily
  step-TradedAt i t duration g (try_call s i' now w false) v early =
      try_trade-TradedAt i t duration g s i' now w v early
  step-TradedAt i t duration g (try_call s i' now w true) v other =
      rw (try_trade-hft A g s i' now w) (record_trade-TradedAt i t duration g s i' now v other)
  step-TradedAt i t duration g (loss_call i' now) v early = record {
    pos = v.pos;
    last = v.last;
    wait = v.wait;
  }
  step-TradedAt i t duration g (win_call i') v early = record {
    pos = v.pos;
    last = v.last;
    wait = v.wait;
  }
  step-TradedAt i t duration g reset_call v early = record {
    pos = v.pos;
    last = v.last;
    wait = v.wait;
  }

  run-TradedAt :
      (i : String) (t duration : ℕ) (g : OvertradingGuard) (cs : List (Call A))
      → TradedAt i t duration g
      → All (Before i (t + duration)) cs
      → TradedAt i t duration (run A g cs)
  unfolding run
  run-TradedAt i t duration g [] v early = v
  run-TradedAt i t duration g (c ∷ cs) v early =
      run-TradedAt i t duration (step A g c) cs (step-TradedAt i t duration g c v early.0) early.1

  -- Once a trade on an instrument has been recorded at time t, every attempt outside the HFT pipeline
  -- by any strategy on that instrument whose clock reads less than t plus the minimum interval is
  -- refused, whatever attempts with such clocks, losses, wins and daily resets come between. Between
  -- them there are also trades of the HFT pipeline on other instruments, which pass the guard.
  pub interval_locks_out :
      (g : OvertradingGuard) (s s' i : String) (t now : ℕ) (w : A.Num) (cs : List (Call A))
      → 1 ≤ g.max_trades_per_day
      → All (Before i (t + g.min_interval)) cs
      → now < t + g.min_interval
      → (try_trade A (run A (record_trade g s i t) cs) s' i now w false).1 ≡ false
  unfolding record_trade
  interval_locks_out g s s' i t now w cs pos early before =
      try_trade-refused i t g.min_interval (run A (record_trade g s i t) cs) s' now w
        (run-TradedAt i t g.min_interval (record_trade g s i t) cs
          (record { pos = pos; last = lookup-insert_self i t g.last_trade_times; wait = refl })
          early)
        before
