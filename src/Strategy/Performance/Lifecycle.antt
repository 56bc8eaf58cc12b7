-- ===== src/Strategy/Performance/Lifecycle.antt =====
-- src/strategy/performance_monitor.py: evaluations, disabling, re-enabling and suspension.
pub mod Steps
pub mod Counts
pub mod Evaluations
pub mod Suspension
mod Tests
use ig_trading_bot.Common.{
  ℕ, suc, ◌-◌, ◌*◌, ◌/◌, ◌≡◌, String, Bool, true, false, Option, none, some, List, [], ◌∷◌, ◌++◌,
  Arith, if◌then◌else◌, leb, Dict, lookup, insert, keys,
}
use ig_trading_bot.Strategy.Performance.{
  StrategyStatus, active, disabled, suspended, PerformanceMetrics, StrategyState, TradeRecord,
  Outgoing, strategy_disabled, forced_liquidation_escalation, strategy_re_enabled,
  strategy_suspended, close_positions_of, force_liquidation_of, backtest_of, CloseEnding,
  all_closed, left_open, timed_out, raised, Callbacks, PerformanceMonitor, Readings, is_active,
  is_disabled, is_suspended, or_else, day, put, register_strategy, record_trade, calculate_metrics,
}

module _ (F : Arith) where
  open F use {Num, lt}

  -- What was sent, and whether the code goes on after it.
  abbrev pub Sent : Type 0
  Sent = List (Outgoing F) × Bool

  abbrev pub then_send : Sent → Sent → Sent
  then_send a b = if a.1 then (a.0 ++ b.0, b.1) else a

  abbrev pub sent_to : Option (Outgoing F → Bool) → Outgoing F → Sent
  sent_to none x = ([], true)
  sent_to (some f) x = (x ∷ [], f x)

  abbrev forced : Option (String → Bool) → String → Sent
  forced none name = ([], true)
  forced (some f) name = (force_liquidation_of name ∷ [], f name)

  pub escalate_forced_liquidation : Callbacks F → String → ℕ → Sent
  escalate_forced_liquidation c name now =
      then_send (forced c.force_liquidation name)
        (sent_to c.notify (forced_liquidation_escalation name now))

  abbrev after_closing : Callbacks F → String → ℕ → CloseEnding → Sent
  after_closing c name now all_closed = ([], true)
  after_closing c name now left_open = escalate_forced_liquidation c name now
  after_closing c name now timed_out = escalate_forced_liquidation c name now
  after_closing c name now raised = ([], false)

  pub close_strategy_positions : Callbacks F → String → ℕ → Sent
  unfolding escalate_forced_liquidation
  close_strategy_positions c name now = elim c.close_positions [
    | none ↦ ([], true)
    | some f ↦ then_send (close_positions_of name ∷ [], true) (after_closing c name now (f name))
  ]

  -- The state after a method that may have raised, and what it sent.
  pub record Outcome : Type 0 where
    pub state : StrategyState F
    pub sent : Sent

  abbrev pub quiet : StrategyState F → Outcome
  quiet s = record { state = s; sent = ([], true) }

  -- `_disable_strategy`
  pub disable_strategy : Callbacks F → StrategyState F → PerformanceMetrics F → ℕ → ℕ → Outcome
  unfolding close_strategy_positions
  disable_strategy c s x now now' = record {
    state = record s { status = disabled; disabled_at = some now; consecutive_low_sharpe = 0 };
    sent =
        then_send (sent_to c.notify (strategy_disabled s.strategy_name x now))
          (close_strategy_positions c s.strategy_name now');
  }

  abbrev pub noted : StrategyState F → PerformanceMetrics F → StrategyState F
  noted s x = record s {
    metrics_history = s.metrics_history ++ x ∷ [];
    last_evaluation_at = some x.calculated_at;
  }

  abbrev pub counted : Num → StrategyState F → PerformanceMetrics F → StrategyState F
  counted low s x = record s {
    consecutive_low_sharpe = (if lt x.sharpe_ratio low then suc s.consecutive_low_sharpe else 0);
  }

  -- The count of low evaluations of an active strategy, and its end.
  pub judge : Num → Callbacks F → StrategyState F → PerformanceMetrics F → Readings → Outcome
  unfolding disable_strategy
  judge low c s x r =
      let s' = counted low s x in
      let out = disable_strategy c s' x r.at_disabling r.at_escalation in
      if is_active s.status
      then (if leb 2 s'.consecutive_low_sharpe then out else quiet s')
      else quiet s

  -- The evaluation of a registered strategy, on its metrics.
  pub evaluate_state :
      Num
      → Callbacks F
      → StrategyState F
      → Option (PerformanceMetrics F)
      → ℕ
      → Readings
      → Outcome × Option (PerformanceMetrics F)
  unfolding judge
  evaluate_state low c s none at r =
      if is_suspended s.status
      then (quiet s, none)
      else (quiet (record s { last_evaluation_at = some at }), none)
  evaluate_state low c s (some x) at r =
      if is_suspended s.status then (quiet s, none) else (judge low c (noted s x) x r, some x)

  abbrev pub replied {ℓ} : {B : Type ℓ} → Bool → B → Option B
  replied true b = some b
  replied false b = none

  abbrev pub settle : PerformanceMonitor F → String → Outcome → PerformanceMonitor F
  settle m name out = record m {
    strategies = insert name out.state m.strategies;
    outgoing = m.outgoing ++ out.sent.0;
  }

  abbrev pub Reply : Type 0
  Reply = PerformanceMonitor F × Option (Option (PerformanceMetrics F))

  abbrev pub settled :
      PerformanceMonitor F → String → Outcome × Option (PerformanceMetrics F) → Reply
  settled m name out = (settle m name out.0, replied out.0.sent.1 out.1)

  module _ (square root : Num → Num) (infinity : Num) where
    pub evaluate_strategy :
        PerformanceMonitor F → String → Option ℕ → Callbacks F → Readings → Reply
    unfolding evaluate_state
    evaluate_strategy m name as_of c r = elim (lookup name m.strategies) [
      | none ↦ (m, some none)
      | some s ↦ settled m name (
          evaluate_state m.disable_sharpe_threshold c s
            (calculate_metrics F square root infinity m name (or_else as_of r.at_metrics))
            (or_else as_of r.at_evaluation) r)
    ]

    -- The loop over the names, which ends where an evaluation raises.
    pub evaluate_each :
        PerformanceMonitor F
        → List String
        → Dict (Option (PerformanceMetrics F))
        → Option ℕ
        → Callbacks F
        → (String → Readings)
        → PerformanceMonitor F × Option (Dict (Option (PerformanceMetrics F)))
    unfolding evaluate_strategy
    evaluate_each m [] results as_of c r = (m, some results)
    evaluate_each m (name ∷ names) results as_of c r =
        let (m', reply) = evaluate_strategy m name as_of c (r name) in
        elim reply [
          | none ↦ (m', none)
          | some x ↦ evaluate_each m' names (insert name x results) as_of c r
        ]

    pub evaluate_all_strategies :
        PerformanceMonitor F
        → Option ℕ
        → Callbacks F
        → (String → Readings)
        → PerformanceMonitor F × Option (Dict (Option (PerformanceMetrics F)))
    unfolding evaluate_each
    evaluate_all_strategies m as_of c r = evaluate_each m (keys m.strategies) [] as_of c r

  abbrev re_enabled : StrategyState F → ℕ → StrategyState F
  re_enabled s now = record s {
    status = active;
    re_enabled_at = some now;
    consecutive_low_sharpe = 0;
  }

  -- `_run_oos_backtest`: no result without a callback, and `none` outside where it raises.
  pub run_oos_backtest : Callbacks F → String → List (Outgoing F) × Option (Option Num)
  run_oos_backtest c name = elim c.backtest [
    | none ↦ ([], some none)
    | some f ↦ (backtest_of name ∷ [], elim (f name) [ none ↦ none | some x ↦ some (some x) ])
  ]

  abbrev pub after_backtest :
      Num → ℕ → Callbacks F → StrategyState F → Option (Option Num) → Outcome
  after_backtest high now c s none = record { state = s; sent = ([], false) }
  after_backtest high now c s (some none) = quiet s
  after_backtest high now c s (some (some x)) =
      if lt high x
      then record {
        state = re_enabled s now;
        sent = sent_to c.notify (strategy_re_enabled s.strategy_name x now);
      }
      else quiet s

  -- A round of the weekly loop.
  pub re_evaluate : Num → ℕ → Callbacks F → StrategyState F → Outcome
  unfolding run_oos_backtest
  re_evaluate high now c s =
      let (tested, result) = run_oos_backtest c s.strategy_name in
      let out = after_backtest high now c s result in
      if is_disabled s.status
      then record out { sent = (tested ++ out.sent.0, out.sent.1) }
      else quiet s

  abbrev pub was_re_enabled : StrategyState F → Outcome → List String
  was_re_enabled s out =
      if is_disabled s.status
      then (if is_active out.state.status then s.strategy_name ∷ [] else [])
      else []

  pub record Weekly : Type 0 where
    pub strategies : Dict (StrategyState F)
    pub names : List String
    pub sent : Sent

  pub weekly_each : Num → ℕ → Callbacks F → Dict (StrategyState F) → Weekly
  unfolding re_evaluate
  weekly_each high now c [] = record { strategies = []; names = []; sent = ([], true) }
  weekly_each high now c ((k, s) ∷ d) =
      let out = re_evaluate high now c s in
      let rest = weekly_each high now c d in
      if out.sent.1
      then record {
        strategies = (k, out.state) ∷ rest.strategies;
        names = was_re_enabled s out ++ rest.names;
        sent = (out.sent.0 ++ rest.sent.0, rest.sent.1);
      }
      else record { strategies = (k, out.state) ∷ d; names = []; sent = out.sent }

  pub weekly_re_evaluate :
      PerformanceMonitor F → ℕ → Callbacks F → PerformanceMonitor F × Option (List String)
  unfolding weekly_each
  weekly_re_evaluate m now c =
      let w = weekly_each m.enable_sharpe_threshold now c m.strategies in
      (
        record m { strategies = w.strategies; outgoing = m.outgoing ++ w.sent.0 },
        replied w.sent.1 w.names,
      )

  -- `check_suspension`, with its answer. A time before the re-enabling counts as no days.
  pub check_suspension : ℕ → Callbacks F → StrategyState F → ℕ → Outcome × Bool
  check_suspension limit c s now = elim s.re_enabled_at [
    | none ↦ (quiet s, false)
    | some since ↦
        let days = (now - since) / day in
        if leb days limit
        then (
          record {
            state = record s { status = suspended };
            sent = sent_to c.notify (strategy_suspended s.strategy_name days now);
          },
          true,
        )
        else (quiet s, false)
  ]

  abbrev pub disable_and_check :
      ℕ → Callbacks F → StrategyState F → PerformanceMetrics F → ℕ → ℕ → Outcome
  disable_and_check limit c s x now now' =
      let out = disable_strategy c s x now now' in
      let checked = (check_suspension limit c out.state now).0 in
      if out.sent.1 then record checked { sent = then_send out.sent checked.sent } else out

  -- Whether it returned is the second part.
  pub disable_strategy_with_suspension_check :
      PerformanceMonitor F
      → String
      → PerformanceMetrics F
      → Callbacks F
      → ℕ
      → ℕ
      → PerformanceMonitor F × Bool
  unfolding disable_strategy check_suspension
  disable_strategy_with_suspension_check m name x c now now' = elim (lookup name m.strategies) [
    | none ↦ (m, true)
    | some s ↦
        let out = disable_and_check m.suspension_days c s x now now' in
        (settle m name out, out.sent.1)
  ]
