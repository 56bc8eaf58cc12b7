-- ===== src/Strategy/Performance/Lifecycle/Steps.antt =====
-- The calls that change a monitor, in any order, and what they leave of a strategy's state.
use text.Mathlib.Text.{◌==◌ as str_eq}
use text.Mathlib.TextEquality.{eq_iff}
use ig_trading_bot.Common.{
  ℕ, ◌≡◌, refl, ◌∙◌, String, Bool, true, false, Option, none, some, List, [], ◌∷◌, Arith, arith,
  Dict, lookup, insert, lookup-insert, keys, Bool-cases, Option-cases, inl, inr, All,
}
use ig_trading_bot.Strategy.Performance.{
  PerformanceMetrics, StrategyState, TradeRecord, Callbacks, PerformanceMonitor, Readings, fresh,
  register_strategy, record_trade,
}
use ig_trading_bot.Strategy.Performance.Lifecycle.{
  evaluate_state, evaluate_strategy, evaluate_each, evaluate_all_strategies, re_evaluate,
  weekly_each, weekly_re_evaluate, disable_and_check, disable_strategy_with_suspension_check,
}

pub data Call (F : Arith) : Type 0 where
  register_call : String → Call F
  record_call : TradeRecord F → Call F
  evaluate_call : String → Option ℕ → Callbacks F → Readings → Call F
  evaluate_all_call : Option ℕ → Callbacks F → (String → Readings) → Call F
  weekly_call : ℕ → Callbacks F → Call F
  disable_call : String → PerformanceMetrics F → Callbacks F → ℕ → ℕ → Call F

module _ (F : Arith) (square root : F.Num → F.Num) (infinity : F.Num) where
  unfoldable pub step : PerformanceMonitor F → Call F → PerformanceMonitor F
  step m (register_call name) = register_strategy F m name
  step m (record_call t) = record_trade F m t
  step m (evaluate_call name as_of c r) =
      (evaluate_strategy F square root infinity m name as_of c r).0
  step m (evaluate_all_call as_of c r) =
      (evaluate_all_strategies F square root infinity m as_of c r).0
  step m (weekly_call now c) = (weekly_re_evaluate F m now c).0
  step m (disable_call name x c now now') =
      (disable_strategy_with_suspension_check F m name x c now now').0

  unfoldable pub run : PerformanceMonitor F → List (Call F) → PerformanceMonitor F
  unfolding step
  run m [] = m
  run m (x ∷ xs) = run (step m x) xs

  abbrev pub disables : Call F → Bool
  disables (disable_call name x c now now') = true
  disables _ = false

  -- A predicate on a strategy's state, none where it is not registered, that evaluations,
  -- re-evaluations and a registration keep, with a threshold of the monitor.
  pub record IsKept (low : F.Num) (name : String) (Q : Option (StrategyState F) → Type 0)
      : Type 0 where
    pub fresh_keeps : Q none → Q (some (fresh F name))
    pub evaluate_keeps :
        (c : Callbacks F) (s : StrategyState F) (x : Option (PerformanceMetrics F)) (at : ℕ)
        (r : Readings)
        → Q (some s)
        → Q (some (evaluate_state F low c s x at r).0.state)
    pub weekly_keeps :
        (high : F.Num) (now : ℕ) (c : Callbacks F) (s : StrategyState F)
        → Q (some s)
        → Q (some (re_evaluate F high now c s).state)

  -- No call changes the threshold.
  pub evaluate_strategy_threshold :
      (m : PerformanceMonitor F) (n : String) (as_of : Option ℕ) (c : Callbacks F) (r : Readings)
      → (evaluate_strategy F square root infinity m n as_of c r).0.disable_sharpe_threshold
        ≡ m.disable_sharpe_threshold
  unfolding evaluate_strategy
  evaluate_strategy_threshold m n as_of c r = ground arith

  evaluate_each_threshold :
      (m : PerformanceMonitor F) (names : List String)
      (results : Dict (Option (PerformanceMetrics F))) (as_of : Option ℕ) (c : Callbacks F)
      (r : String → Readings)
      → (evaluate_each F square root infinity m names results as_of c r).0.disable_sharpe_threshold
        ≡ m.disable_sharpe_threshold
  unfolding evaluate_each
  evaluate_each_threshold m [] results as_of c r = refl
  evaluate_each_threshold m (n ∷ names) results as_of c r =
      let out = evaluate_strategy F square root infinity m n as_of c (r n) in
      let one = evaluate_strategy_threshold m n as_of c (r n) in
      elim (Option-cases out.1) [
        | inl raises ↦ rw (raises, evaluate_each) one
        | inr (x, returns) ↦
            rw (returns, evaluate_each)
              (evaluate_each_threshold out.0 names (insert n x results) as_of c r ∙ one)
      ]

  pub step_threshold :
      (m : PerformanceMonitor F) (x : Call F)
      → (step m x).disable_sharpe_threshold ≡ m.disable_sharpe_threshold
  unfolding step register_strategy record_trade evaluate_all_strategies weekly_re_evaluate
      disable_strategy_with_suspension_check
  step_threshold m (register_call n) = ground arith
  step_threshold m (record_call t) = refl
  step_threshold m (evaluate_call n as_of c r) = evaluate_strategy_threshold m n as_of c r
  step_threshold m (evaluate_all_call as_of c r) =
      evaluate_each_threshold m (keys m.strategies) [] as_of c r
  step_threshold m (weekly_call now c) = refl
  step_threshold m (disable_call n x c now now') = ground arith

  pub run_threshold :
      (m : PerformanceMonitor F) (xs : List (Call F))
      → (run m xs).disable_sharpe_threshold ≡ m.disable_sharpe_threshold
  unfolding run
  run_threshold m [] = refl
  run_threshold m (x ∷ xs) = run_threshold (step m x) xs ∙ step_threshold m x

  module _ (low : F.Num) (name : String) (Q : Option (StrategyState F) → Type 0)
      (h : IsKept low name Q) where
    insert-keeps :
        (n : String) (s : StrategyState F) (d : Dict (StrategyState F))
        → (n ≡ name → Q (some s))
        → Q (lookup name d)
        → Q (lookup name (insert n s d))
    insert-keeps n s d new old = elim (Bool-cases (str_eq n name)) [
      | inl same ↦ rw (lookup-insert, same) (new ((eq_iff n name).0 same))
      | inr other ↦ rw (lookup-insert, other) old
    ]

    -- The state that a call finds under this name satisfies the predicate too.
    found-keeps :
        (n : String) (s : StrategyState F) (d : Dict (StrategyState F))
        → lookup n d ≡ some s
        → n ≡ name
        → Q (lookup name d)
        → Q (some s)
    found-keeps n s d e same q = rw (← e, same) q

    register_strategy-keeps :
        (m : PerformanceMonitor F) (n : String)
        → Q (lookup name m.strategies)
        → Q (lookup name (register_strategy F m n).strategies)
    unfolding register_strategy
    register_strategy-keeps m n q = elim (Option-cases (lookup n m.strategies)) [
      | inl missing ↦
          rw (missing, register_strategy)
            (insert-keeps n (fresh F n) m.strategies
              (λ same. rw same (h.fresh_keeps (rw (← missing, same) q))) q)
      | inr (s, found) ↦ rw (found, register_strategy) q
    ]

    evaluate_strategy-keeps :
        (m : PerformanceMonitor F) (n : String) (as_of : Option ℕ) (c : Callbacks F) (r : Readings)
        → m.disable_sharpe_threshold ≡ low
        → Q (lookup name m.strategies)
        → Q (lookup name (evaluate_strategy F square root infinity m n as_of c r).0.strategies)
    unfolding evaluate_strategy
    evaluate_strategy-keeps m n as_of c r t q = elim (Option-cases (lookup n m.strategies)) [
      | inl missing ↦ rw (missing, evaluate_strategy) q
      | inr (s, found) ↦
          rw (found, evaluate_strategy)
            (insert-keeps n _ m.strategies
              (λ same.
                rw t (h.evaluate_keeps c s _ _ r (found-keeps n s m.strategies found same q)))
              q)
    ]

    evaluate_each-keeps :
        (m : PerformanceMonitor F) (names : List String)
        (results : Dict (Option (PerformanceMetrics F))) (as_of : Option ℕ) (c : Callbacks F)
        (r : String → Readings)
        → m.disable_sharpe_threshold ≡ low
        → Q (lookup name m.strategies)
        → Q (
            lookup name
              (evaluate_each F square root infinity m names results as_of c r).0.strategies)
    unfolding evaluate_each
    evaluate_each-keeps m [] results as_of c r t q = q
    evaluate_each-keeps m (n ∷ names) results as_of c r t q =
        let out = evaluate_strategy F square root infinity m n as_of c (r n) in
        let kept = evaluate_strategy-keeps m n as_of c (r n) t q in
        elim (Option-cases out.1) [
          | inl raises ↦ rw (raises, evaluate_each) kept
          | inr (x, returns) ↦
              rw (returns, evaluate_each)
                (evaluate_each-keeps out.0 names (insert n x results) as_of c r
                  (evaluate_strategy_threshold m n as_of c (r n) ∙ t) kept)
        ]

    weekly_each-keeps :
        (high : F.Num) (now : ℕ) (c : Callbacks F) (d : Dict (StrategyState F))
        → Q (lookup name d)
        → Q (lookup name (weekly_each F high now c d).strategies)
    unfolding weekly_each lookup
    weekly_each-keeps high now c [] q = q
    weekly_each-keeps high now c ((k, s) ∷ d) q = elim (Bool-cases (str_eq k name)) [
      | inl same ↦ elim (Bool-cases (re_evaluate F high now c s).sent.1) [
        | inl goes_on ↦ rw (goes_on, same) (h.weekly_keeps high now c s (rw same at q))
        | inr raises ↦ rw (raises, same) (h.weekly_keeps high now c s (rw same at q))
      ]
      | inr other ↦ elim (Bool-cases (re_evaluate F high now c s).sent.1) [
        | inl goes_on ↦ rw (goes_on, other) (weekly_each-keeps high now c d (rw other at q))
        | inr raises ↦ rw (raises, other) (rw other at q)
      ]
    ]

    disable-keeps :
        (m : PerformanceMonitor F) (n : String) (x : PerformanceMetrics F) (c : Callbacks F)
        (now now' : ℕ)
        → ((s : StrategyState F)
            → Q (some s)
            → Q (some (disable_and_check F m.suspension_days c s x now now').state))
        → Q (lookup name m.strategies)
        → Q (lookup name (disable_strategy_with_suspension_check F m n x c now now').0.strategies)
    unfolding disable_strategy_with_suspension_check
    disable-keeps m n x c now now' by_hand q = elim (Option-cases (lookup n m.strategies)) [
      | inl missing ↦ rw (missing, disable_strategy_with_suspension_check) q
      | inr (s, found) ↦
          rw (found, disable_strategy_with_suspension_check)
            (insert-keeps n _ m.strategies
              (λ same. by_hand s (found-keeps n s m.strategies found same q)) q)
    ]

    step-keeps :
        (m : PerformanceMonitor F) (x : Call F)
        → disables x ≡ false
        → m.disable_sharpe_threshold ≡ low
        → Q (lookup name m.strategies)
        → Q (lookup name (step m x).strategies)
    unfolding step record_trade evaluate_all_strategies weekly_re_evaluate
    step-keeps m (register_call n) safe t q = register_strategy-keeps m n q
    step-keeps m (record_call deal) safe t q = q
    step-keeps m (evaluate_call n as_of c r) safe t q = evaluate_strategy-keeps m n as_of c r t q
    step-keeps m (evaluate_all_call as_of c r) safe t q =
        evaluate_each-keeps m (keys m.strategies) [] as_of c r t q
    step-keeps m (weekly_call now c) safe t q =
        weekly_each-keeps m.enable_sharpe_threshold now c m.strategies q
    step-keeps m (disable_call n x c now now') safe t q = ground arith

    pub run-keeps :
        (m : PerformanceMonitor F) (xs : List (Call F))
        → All (λ x. disables x ≡ false) xs
        → m.disable_sharpe_threshold ≡ low
        → Q (lookup name m.strategies)
        → Q (lookup name (run m xs).strategies)
    unfolding run
    run-keeps m [] safe t q = q
    run-keeps m (x ∷ xs) safe t q =
        run-keeps (step m x) xs safe.1 (step_threshold m x ∙ t) (step-keeps m x safe.0 t q)

    -- The same with calls that disable, where the predicate survives these too.
    pub step-keeps_any :
        ((m : PerformanceMonitor F) (s : StrategyState F) (x : PerformanceMetrics F)
            (c : Callbacks F) (now now' : ℕ)
          → Q (some s)
          → Q (some (disable_and_check F m.suspension_days c s x now now').state))
        → (m : PerformanceMonitor F) (x : Call F) → m.disable_sharpe_threshold ≡ low
        → Q (lookup name m.strategies)
        → Q (lookup name (step m x).strategies)
    unfolding step
    step-keeps_any by_hand m (register_call n) t q = step-keeps m (register_call n) refl t q
    step-keeps_any by_hand m (record_call deal) t q = step-keeps m (record_call deal) refl t q
    step-keeps_any by_hand m (evaluate_call n as_of c r) t q =
        step-keeps m (evaluate_call n as_of c r) refl t q
    step-keeps_any by_hand m (evaluate_all_call as_of c r) t q =
        step-keeps m (evaluate_all_call as_of c r) refl t q
    step-keeps_any by_hand m (weekly_call now c) t q = step-keeps m (weekly_call now c) refl t q
    step-keeps_any by_hand m (disable_call n x c now now') t q =
        disable-keeps m n x c now now' (λ s. by_hand m s x c now now') q

    pub run-keeps_any :
        ((m : PerformanceMonitor F) (s : StrategyState F) (x : PerformanceMetrics F)
            (c : Callbacks F) (now now' : ℕ)
          → Q (some s)
          → Q (some (disable_and_check F m.suspension_days c s x now now').state))
        → (m : PerformanceMonitor F) (xs : List (Call F)) → m.disable_sharpe_threshold ≡ low
        → Q (lookup name m.strategies)
        → Q (lookup name (run m xs).strategies)
    unfolding run
    run-keeps_any by_hand m [] t q = q
    run-keeps_any by_hand m (x ∷ xs) t q =
        run-keeps_any by_hand (step m x) xs (step_threshold m x ∙ t)
          (step-keeps_any by_hand m x t q)
