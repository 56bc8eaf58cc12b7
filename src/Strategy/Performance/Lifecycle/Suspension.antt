-- ===== src/Strategy/Performance/Lifecycle/Suspension.antt =====
-- Suspended strategies, and what suspends them.
use ig_trading_bot.Common.{
  ℕ, ◌≡◌, refl, ap, String, Bool, false, Option, none, some, List, Arith, arith, lookup, All,
}
use ig_trading_bot.Strategy.Performance.{
  suspended, PerformanceMetrics, StrategyState, Callbacks, PerformanceMonitor, Readings, fresh,
  is_suspended,
}
use ig_trading_bot.Strategy.Performance.Lifecycle.{
  evaluate_state, judge, re_evaluate, run_oos_backtest, after_backtest, disable_strategy,
}
use ig_trading_bot.Strategy.Performance.Lifecycle.Steps.{Call, run, run-keeps, disables}

module _ (F : Arith) where
  evaluate_suspended :
      (low : F.Num) (c : Callbacks F) (s : StrategyState F) (x : Option (PerformanceMetrics F))
      (at : ℕ) (r : Readings)
      → s.status ≡ suspended
      → (evaluate_state F low c s x at r).0.state ≡ s
  unfolding evaluate_state
  evaluate_suspended low c s none at r e = rw e refl
  evaluate_suspended low c s (some x) at r e = rw e refl

  re_evaluate_suspended :
      (high : F.Num) (now : ℕ) (c : Callbacks F) (s : StrategyState F)
      → s.status ≡ suspended
      → (re_evaluate F high now c s).state ≡ s
  unfolding re_evaluate
  re_evaluate_suspended high now c s e = rw e refl

  -- An evaluation does not suspend, and neither does a re-evaluation.
  evaluate_state-quiet :
      (low : F.Num) (c : Callbacks F) (s : StrategyState F) (x : Option (PerformanceMetrics F))
      (at : ℕ) (r : Readings)
      → is_suspended s.status ≡ false
      → is_suspended (evaluate_state F low c s x at r).0.state.status ≡ false
  unfolding evaluate_state judge disable_strategy
  evaluate_state-quiet low c s none at r e = ground arith
  evaluate_state-quiet low c s (some x) at r e = ground arith

  after_backtest-quiet :
      (high : F.Num) (now : ℕ) (c : Callbacks F) (s : StrategyState F) (x : Option (Option F.Num))
      → is_suspended s.status ≡ false
      → is_suspended (after_backtest F high now c s x).state.status ≡ false
  after_backtest-quiet high now c s none e = e
  after_backtest-quiet high now c s (some none) e = e
  after_backtest-quiet high now c s (some (some x)) e = ground arith

  re_evaluate-quiet :
      (high : F.Num) (now : ℕ) (c : Callbacks F) (s : StrategyState F)
      → is_suspended s.status ≡ false
      → is_suspended (re_evaluate F high now c s).state.status ≡ false
  unfolding re_evaluate
  re_evaluate-quiet high now c s e =
      let kept = after_backtest-quiet high now c s (run_oos_backtest F c s.strategy_name).1 e in
      ground arith

  abbrev pub lt_low : PerformanceMonitor F → PerformanceMetrics F → Bool
  lt_low m x = F.lt x.sharpe_ratio m.disable_sharpe_threshold

  module _ (square root : F.Num → F.Num) (infinity : F.Num) where
    -- A suspended strategy stays as it is, whatever is registered, recorded, evaluated and
    -- re-evaluated and however the callbacks end, in any order: its state does not change at all.
    -- Only a call that disables it by hand can.
    pub suspended_is_final :
        (m : PerformanceMonitor F) (name : String) (s : StrategyState F) (xs : List (Call F))
        → lookup name m.strategies ≡ some s
        → s.status ≡ suspended
        → All (λ x. disables F square root infinity x ≡ false) xs
        → lookup name (run F square root infinity m xs).strategies ≡ some s
    suspended_is_final m name s xs found e safe =
        run-keeps F square root infinity m.disable_sharpe_threshold name (λ o. o ≡ some s)
          (record {
            fresh_keeps = λ q. cc;
            evaluate_keeps = λ c t x at r q.
                let same : t ≡ s = cc in
                ap some (rw same (evaluate_suspended m.disable_sharpe_threshold c s x at r e));
            weekly_keeps = λ high now c t q.
                let same : t ≡ s = cc in ap some (rw same (re_evaluate_suspended high now c s e));
          })
          m xs safe refl found

    -- Evaluations alone never suspend a strategy: from a state that is not suspended, none of the
    -- calls but a disabling by hand leads to one that is, however soon after its re-enabling an
    -- evaluation disables the strategy again.
    pub evaluations_never_suspend :
        (m : PerformanceMonitor F) (name : String) (s : StrategyState F) (xs : List (Call F))
        → ((t : StrategyState F)
            → lookup name m.strategies ≡ some t
            → is_suspended t.status ≡ false)
        → All (λ x. disables F square root infinity x ≡ false) xs
        → lookup name (run F square root infinity m xs).strategies ≡ some s
        → is_suspended s.status ≡ false
    evaluations_never_suspend m name s xs start safe =
        run-keeps F square root infinity m.disable_sharpe_threshold name
          (λ o. (t : StrategyState F) → o ≡ some t → is_suspended t.status ≡ false)
          (record {
            fresh_keeps = λ q t e. let same : fresh F name ≡ t = cc in rw (← same) refl;
            evaluate_keeps = λ c t x at r q u e.
                let same : (evaluate_state F m.disable_sharpe_threshold c t x at r).0.state ≡ u =
                  cc in
                rw (← same) (evaluate_state-quiet m.disable_sharpe_threshold c t x at r (q t refl));
            weekly_keeps = λ high now c t q u e.
                let same : (re_evaluate F high now c t).state ≡ u = cc in
                rw (← same) (re_evaluate-quiet high now c t (q t refl));
          })
          m xs safe refl start s
