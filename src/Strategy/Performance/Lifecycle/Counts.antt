-- ===== src/Strategy/Performance/Lifecycle/Counts.antt =====
-- The count of low evaluations of a strategy, and what it means.
use ig_trading_bot.Common.{
  ℕ, suc, ◌≤◌, ◌≡◌, refl, String, true, false, Option, none, some, List, [], ◌∷◌, ◌++◌, Arith,
  arith, leb, lookup, Bool-cases, inl, inr,
}
use ig_trading_bot.Strategy.Performance.{
  PerformanceMetrics, StrategyState, Callbacks, Readings, fresh, new, is_suspended, is_active,
  is_disabled,
}
use ig_trading_bot.Strategy.Performance.Lifecycle.{
  evaluate_state, judge, re_evaluate, run_oos_backtest, after_backtest, disable_strategy,
  check_suspension, disable_and_check,
}
use ig_trading_bot.Strategy.Performance.Lifecycle.Steps.{Call, run, run-keeps_any}

module _ (F : Arith) (low : F.Num) where
  -- The last evaluation of a history was low.
  pub record IsLow (xs : List (PerformanceMetrics F)) : Type 0 where
    pub before : List (PerformanceMetrics F)
    pub last : PerformanceMetrics F
    pub ends : xs ≡ before ++ last ∷ []
    pub under : F.lt last.sharpe_ratio low ≡ true

  -- The count of low evaluations of a state.
  pub record IsCounted (s : StrategyState F) : Type 0 where
    pub below : is_active s.status ≡ true → s.consecutive_low_sharpe ≤ 1
    pub cleared : is_active s.status ≡ false → s.consecutive_low_sharpe ≡ 0
    pub low_last : 1 ≤ s.consecutive_low_sharpe → IsLow s.metrics_history

  cleared-IsCounted : (s : StrategyState F) → s.consecutive_low_sharpe ≡ 0 → IsCounted s
  cleared-IsCounted s e = record {
    below = λ on. omega (arith, e);
    cleared = λ off. e;
    low_last = λ some_low. absurd (omega (arith, e, some_low));
  }

  evaluate_state-IsCounted :
      (c : Callbacks F) (s : StrategyState F) (x : Option (PerformanceMetrics F)) (at : ℕ)
      (r : Readings)
      → IsCounted s
      → IsCounted (evaluate_state F low c s x at r).0.state
  unfolding evaluate_state judge disable_strategy
  evaluate_state-IsCounted c s none at r h = elim (Bool-cases (is_suspended s.status)) [
    | inl out ↦ rw out h
    | inr stays ↦ rw stays (record { below = h.below; cleared = h.cleared; low_last = h.low_last })
  ]
  evaluate_state-IsCounted c s (some x) at r h = elim (Bool-cases (is_suspended s.status)) [
    | inl out ↦ rw out h
    | inr stays ↦ elim (Bool-cases (is_active s.status)) [
      | inr off ↦ rw (stays, off) (cleared-IsCounted _ (h.cleared off))
      | inl on ↦ elim (Bool-cases (F.lt x.sharpe_ratio low)) [
        | inr high ↦ rw (stays, on, high) (cleared-IsCounted _ refl)
        | inl under ↦ elim (Bool-cases (leb 2 (suc s.consecutive_low_sharpe))) [
          | inl twice ↦ rw (stays, on, under, twice) (cleared-IsCounted _ refl)
          | inr once ↦
              rw (stays, on, under, once)
                (record {
                  below = λ k. ground (arith, once);
                  cleared = λ off. ground (arith, on, off);
                  low_last = λ k. record {
                    before = s.metrics_history;
                    last = x;
                    ends = refl;
                    under = under;
                  };
                })
        ]
      ]
    ]
  ]

  after_backtest-IsCounted :
      (high : F.Num) (now : ℕ) (c : Callbacks F) (s : StrategyState F) (x : Option (Option F.Num))
      → IsCounted s
      → IsCounted (after_backtest F high now c s x).state
  after_backtest-IsCounted high now c s none h = h
  after_backtest-IsCounted high now c s (some none) h = h
  after_backtest-IsCounted high now c s (some (some x)) h = elim (Bool-cases (F.lt high x)) [
    | inl better ↦ rw better (cleared-IsCounted _ refl)
    | inr worse ↦ rw worse h
  ]

  re_evaluate-IsCounted :
      (high : F.Num) (now : ℕ) (c : Callbacks F) (s : StrategyState F)
      → IsCounted s
      → IsCounted (re_evaluate F high now c s).state
  unfolding re_evaluate
  re_evaluate-IsCounted high now c s h = elim (Bool-cases (is_disabled s.status)) [
    | inl off ↦
        rw off (after_backtest-IsCounted high now c s (run_oos_backtest F c s.strategy_name).1 h)
    | inr other ↦ rw other h
  ]

  check_suspension-cleared :
      (limit : ℕ) (c : Callbacks F) (s : StrategyState F) (now : ℕ)
      → s.consecutive_low_sharpe ≡ 0
      → (check_suspension F limit c s now).0.state.consecutive_low_sharpe ≡ 0
  unfolding check_suspension
  check_suspension-cleared limit c s now e = ground arith

  disable_and_check-IsCounted :
      (limit : ℕ) (c : Callbacks F) (s : StrategyState F) (x : PerformanceMetrics F) (now now' : ℕ)
      → IsCounted (disable_and_check F limit c s x now now').state
  unfolding disable_strategy
  disable_and_check-IsCounted limit c s x now now' =
      let out = disable_strategy F c s x now now' in
      elim (Bool-cases out.sent.1) [
        | inl goes_on ↦
            rw goes_on (cleared-IsCounted _ (check_suspension-cleared limit c out.state now refl))
        | inr raises ↦ rw raises (cleared-IsCounted _ refl)
      ]

  module _ (square root : F.Num → F.Num) (infinity : F.Num) where
    pub run-IsCounted :
        (high : F.Num) (days : ℕ) (xs : List (Call F)) (name : String) (s : StrategyState F)
        → lookup name (run F square root infinity (new F low high days) xs).strategies ≡ some s
        → IsCounted s
    unfolding new lookup
    run-IsCounted high days xs name s =
        run-keeps_any F square root infinity low name
          (λ o. (t : StrategyState F) → o ≡ some t → IsCounted t)
          (record {
            fresh_keeps =
                λ q t e. let same : fresh F name ≡ t = cc in rw (← same) (cleared-IsCounted _ refl);
            evaluate_keeps = λ c t x at r q u e.
                let same : (evaluate_state F low c t x at r).0.state ≡ u = cc in
                rw (← same) (evaluate_state-IsCounted c t x at r (q t refl));
            weekly_keeps = λ high now c t q u e.
                let same : (re_evaluate F high now c t).state ≡ u = cc in
                rw (← same) (re_evaluate-IsCounted high now c t (q t refl));
          })
          (λ m t x c now now' q u e.
            let same : (disable_and_check F m.suspension_days c t x now now').state ≡ u = cc in
            rw (← same) (disable_and_check-IsCounted m.suspension_days c t x now now'))
          (new F low high days) xs refl (λ t e. cc) s
