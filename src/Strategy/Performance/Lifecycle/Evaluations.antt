-- ===== src/Strategy/Performance/Lifecycle/Evaluations.antt =====
-- When evaluations disable a strategy: after two low ones in a row, and only then.
use text.Mathlib.Text.{◌==◌ as str_eq}
use text.Mathlib.TextEquality.{eq_iff}
use ig_trading_bot.Common.{
  ℕ, suc, ◌≤◌, ◌≡◌, refl, sym, ap, ◌∙◌, String, Bool, true, false, Option, none, some, List, [],
  ◌∷◌, Arith, arith, negate, lookup, lookup-insert, lookup-insert_self, Bool-cases, Option-cases,
  inl, inr, All,
}
use ig_trading_bot.Strategy.Performance.{
  PerformanceMetrics, StrategyState, Callbacks, PerformanceMonitor, Readings, fresh, new, is_active,
  or_else, is_strategy_active, active_of, calculate_metrics, register_strategy, record_trade,
}
use ig_trading_bot.Strategy.Performance.Lifecycle.{
  evaluate_state, judge, evaluate_strategy, disable_strategy,
}
use ig_trading_bot.Strategy.Performance.Lifecycle.Steps.{
  Call, register_call, record_call, evaluate_call, evaluate_all_call, weekly_call, disable_call,
  step, run, run_threshold, evaluate_strategy_threshold,
}
use ig_trading_bot.Strategy.Performance.Lifecycle.Counts.{IsLow, IsCounted, run-IsCounted}

module _ (F : Arith) (low : F.Num) where
  module _ (square root : F.Num → F.Num) (infinity : F.Num) where
    evaluate_state-disables :
        (c : Callbacks F) (s : StrategyState F) (x : Option (PerformanceMetrics F)) (at : ℕ)
        (r : Readings)
        → IsCounted F low s
        → is_active s.status ≡ true
        → is_active (evaluate_state F low c s x at r).0.state.status ≡ false
        → IsLow F low s.metrics_history
          × (y : PerformanceMetrics F) × (x ≡ some y)
          × (F.lt y.sharpe_ratio low ≡ true)
    unfolding evaluate_state judge
    evaluate_state-disables c s none at r h on off = ground arith
    evaluate_state-disables c s (some x) at r h on off =
        (h.low_last (ground arith), x, refl, ground arith)

    -- What an evaluation leaves under the name.
    evaluate_strategy-lookup :
        (m : PerformanceMonitor F) (name : String) (s : StrategyState F) (as_of : Option ℕ)
        (c : Callbacks F) (r : Readings)
        → m.disable_sharpe_threshold ≡ low
        → lookup name m.strategies ≡ some s
        → lookup name (evaluate_strategy F square root infinity m name as_of c r).0.strategies
          ≡ some
              (evaluate_state F low c s
                (calculate_metrics F square root infinity m name (or_else as_of r.at_metrics))
                (or_else as_of r.at_evaluation)
                r).0.state
    unfolding evaluate_strategy
    evaluate_strategy-lookup m name s as_of c r t found =
        rw (found, t, evaluate_strategy) (lookup-insert_self name _ m.strategies)

    -- A strategy is disabled by an evaluation only after two low ones in a row: in any monitor that
    -- calls have led to from a new one, if an evaluation leaves an active strategy inactive, then the
    -- Sharpe ratio of its last recorded metrics was under the threshold, and so is that of the
    -- metrics that are calculated now.
    pub disabled_only_after_two_lows :
        (high : F.Num) (days : ℕ) (xs : List (Call F)) (name : String) (s : StrategyState F)
        (as_of : Option ℕ) (c : Callbacks F) (r : Readings)
        → let m = run F square root infinity (new F low high days) xs in
          lookup name m.strategies ≡ some s
          → is_active s.status ≡ true
          → is_strategy_active F (evaluate_strategy F square root infinity m name as_of c r).0 name
            ≡ false
          → IsLow F low s.metrics_history
            × (x : PerformanceMetrics F) × (calculate_metrics F square root infinity m name
                  (or_else as_of r.at_metrics)
                ≡ some x)
            × (F.lt x.sharpe_ratio low ≡ true)
    unfolding is_strategy_active new
    disabled_only_after_two_lows high days xs name s as_of c r found on off =
        let m = run F square root infinity (new F low high days) xs in
        let t = run_threshold F square root infinity (new F low high days) xs in
        evaluate_state-disables c s
          (calculate_metrics F square root infinity m name (or_else as_of r.at_metrics))
          (or_else as_of r.at_evaluation) r
          (run-IsCounted F low square root infinity high days xs name s found) on
          (sym (ap (active_of F) (evaluate_strategy-lookup m name s as_of c r t found)) ∙ off)

    abbrev pub spares : String → Call F → Bool
    spares name (register_call n) = true
    spares name (record_call t) = true
    spares name (evaluate_call n as_of c r) = negate (str_eq n name)
    spares name _ = false

    step-spares :
        (m : PerformanceMonitor F) (name : String) (s : StrategyState F) (x : Call F)
        → spares name x ≡ true
        → lookup name m.strategies ≡ some s
        → lookup name (step F square root infinity m x).strategies ≡ some s
    unfolding step register_strategy record_trade evaluate_strategy
    step-spares m name s (register_call n) h found = elim (Option-cases (lookup n m.strategies)) [
      | inl missing ↦
          rw (missing, register_strategy)
            (lookup-insert n name (fresh F n) m.strategies
              ∙ ground (arith, found, missing, eq_iff n name))
      | inr (t, registered) ↦ rw (registered, register_strategy) found
    ]
    step-spares m name s (record_call t) h found = found
    step-spares m name s (evaluate_call n as_of c r) h found =
        elim (Option-cases (lookup n m.strategies)) [
          | inl missing ↦ rw (missing, step, evaluate_strategy) found
          | inr (t, registered) ↦
              rw (registered, step, evaluate_strategy)
                (lookup-insert n name _ m.strategies ∙ ground (arith, found, h))
        ]
    step-spares m name s (evaluate_all_call as_of c r) h found = ground arith
    step-spares m name s (weekly_call now c) h found = ground arith
    step-spares m name s (disable_call n x c now now') h found = ground arith

    run-spares :
        (m : PerformanceMonitor F) (name : String) (s : StrategyState F) (xs : List (Call F))
        → All (λ x. spares name x ≡ true) xs
        → lookup name m.strategies ≡ some s
        → lookup name (run F square root infinity m xs).strategies ≡ some s
    unfolding run
    run-spares m name s [] h found = found
    run-spares m name s (x ∷ xs) h found =
        run-spares (step F square root infinity m x) name s xs h.1
          (step-spares m name s x h.0 found)

    evaluate_state_low :
        (c : Callbacks F) (s : StrategyState F) (x : PerformanceMetrics F) (at : ℕ) (r : Readings)
        → F.lt x.sharpe_ratio low ≡ true
        → let s' = (evaluate_state F low c s (some x) at r).0.state in
          (is_active s.status ≡ false → is_active s'.status ≡ false)
          × (is_active s'.status ≡ true → suc s.consecutive_low_sharpe ≤ s'.consecutive_low_sharpe)
          × (1 ≤ s.consecutive_low_sharpe → is_active s'.status ≡ false)
    unfolding evaluate_state judge disable_strategy
    evaluate_state_low c s x at r under = (ground arith, ground arith, ground arith)

    -- Two low evaluations in a row disable a strategy, whatever its state was before: after an
    -- evaluation whose Sharpe ratio is under the threshold, then any registrations, records and
    -- evaluations of other strategies, and a second low evaluation, the strategy is not active. The
    -- readings of the clock and the endings of the callbacks are arbitrary.
    pub two_low_evaluations_disable :
        (m : PerformanceMonitor F) (name : String) (s : StrategyState F)
        (x y : PerformanceMetrics F) (first second : Option ℕ) (c d : Callbacks F) (r q : Readings)
        (xs : List (Call F))
        → let m' = (evaluate_strategy F square root infinity m name first c r).0 in
          let m'' = run F square root infinity m' xs in
          m.disable_sharpe_threshold ≡ low
          → lookup name m.strategies ≡ some s
          → calculate_metrics F square root infinity m name (or_else first r.at_metrics) ≡ some x
          → F.lt x.sharpe_ratio low ≡ true
          → All (λ call. spares name call ≡ true) xs
          → calculate_metrics F square root infinity m'' name (or_else second q.at_metrics) ≡ some y
          → F.lt y.sharpe_ratio low ≡ true
          → is_strategy_active F
              (evaluate_strategy F square root infinity m'' name second d q).0
              name
            ≡ false
    unfolding is_strategy_active
    two_low_evaluations_disable m name s x y first second c d r q xs t found e under spared e'
          under' =
        let m' = (evaluate_strategy F square root infinity m name first c r).0 in
        let m'' = run F square root infinity m' xs in
        let at = or_else first r.at_evaluation in
        let at' = or_else second q.at_evaluation in
        let s' = (evaluate_state F low c s (some x) at r).0.state in
        let found' : lookup name m'.strategies ≡ some s' =
          evaluate_strategy-lookup m name s first c r t found
          ∙ ap (λ z. some (evaluate_state F low c s z at r).0.state) e in
        let t' : m''.disable_sharpe_threshold ≡ low =
          run_threshold F square root infinity m' xs
          ∙ evaluate_strategy_threshold F square root infinity m name first c r
          ∙ t in
        let found'' =
          evaluate_strategy-lookup m'' name s' second d q t'
            (run-spares m' name s' xs spared found')
          ∙ ap (λ z. some (evaluate_state F low d s' z at' q).0.state) e' in
        let one = evaluate_state_low c s x at r under in
        let two = evaluate_state_low d s' y at' q under' in
        ap (active_of F) found'' ∙ elim (Bool-cases (is_active s'.status)) [
          | inl on ↦ two.2 (omega (arith, one.1 on))
          | inr off ↦ two.0 off
        ]
