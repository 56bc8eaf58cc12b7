-- ===== src/Strategy/Performance/Lifecycle/Tests.antt =====
-- A strategy that loses, on concrete trades, and the theorems applied to it.
use ig_trading_bot.Common.{
  ℕ, ◌*◌, ◌≡◌, refl, true, false, none, some, List, [], ◌∷◌, ◌++◌, fixed, pos, negsuc, lookup,
  insert, keep,
}
use ig_trading_bot.Strategy.Performance.{
  disabled, PerformanceMetrics, StrategyState, TradeRecord, close_positions_of,
  force_liquidation_of, Callbacks, timed_out, PerformanceMonitor, Readings, new, fresh,
  register_strategy, record_trade, calculate_metrics, metrics_of, sharpe_of, get_strategy_status,
  is_strategy_active, is_suspended, day,
}
use ig_trading_bot.Strategy.Performance.Lifecycle.{
  evaluate_strategy, evaluate_state, judge, disable_strategy, close_strategy_positions,
  escalate_forced_liquidation, weekly_re_evaluate, weekly_each, re_evaluate, run_oos_backtest,
}
use ig_trading_bot.Strategy.Performance.Lifecycle.Steps.{
  Call, register_call, record_call, evaluate_call, weekly_call, step, run,
}
use ig_trading_bot.Strategy.Performance.Lifecycle.Counts.{IsLow}
use ig_trading_bot.Strategy.Performance.Lifecycle.Evaluations.{
  two_low_evaluations_disable, disabled_only_after_two_lows,
}
use ig_trading_bot.Strategy.Performance.Lifecycle.Suspension.{evaluations_never_suspend}
open fixed use {Num}

abbrev square : Num → Num
square x = fixed.mul x x

-- Stands for the square root in these runs.
abbrev root : Num → Num
root x = x

abbrev infinity : Num
infinity = pos 1000000000000

abbrev loss : ℕ → ℕ → TradeRecord fixed
loss amount at = record {
  strategy_name = "trend";
  pnl = negsuc amount;
  closed_at = at;
  is_winner = false;
}

-- Nobody listens, and positions are not closed in time.
abbrev slow : Callbacks fixed
slow = record {
  notify = none;
  close_positions = some (λ name. timed_out);
  force_liquidation = some (λ name. true);
  backtest = some (λ name. some (pos 12000));
}

-- The notices raise.
abbrev broken : Callbacks fixed
broken = record slow { notify = some (λ x. false) }

abbrev at_day : ℕ → Readings
at_day d = record {
  at_metrics = d * day;
  at_evaluation = d * day;
  at_disabling = d * day;
  at_escalation = d * day;
}

abbrev setup : List (Call fixed)
setup =
    register_call "trend"
    ∷ record_call (loss 99999 (40 * day))
    ∷ record_call (loss 199999 (41 * day))
    ∷ []

abbrev start : PerformanceMonitor fixed
start = run fixed square root infinity (new fixed (pos 5000) (pos 10000) 14) setup

abbrev evaluation : ℕ → Callbacks fixed → Call fixed
evaluation d c = evaluate_call "trend" none c (at_day d)

abbrev ran : List (Call fixed) → PerformanceMonitor fixed
ran xs = run fixed square root infinity start xs

-- Two low evaluations disable, and the positions that are not closed in time are liquidated.
low_twice-run :
    let m = ran (evaluation 42 slow ∷ evaluation 43 slow ∷ []) in
    (get_strategy_status fixed m "trend" ≡ some disabled)
    × (m.outgoing ≡ close_positions_of "trend" ∷ force_liquidation_of "trend" ∷ [])
unfolding run step new register_strategy record_trade evaluate_strategy evaluate_state judge
    calculate_metrics metrics_of sharpe_of keep lookup insert disable_strategy
    close_strategy_positions escalate_forced_liquidation get_strategy_status
low_twice-run = (refl, refl)

-- Both losses: their mean is -15, and with the mean of the squares in place of a root -0.3.
abbrev metrics : ℕ → PerformanceMetrics fixed
metrics at = record {
  sharpe_ratio = fixed.div (negsuc 149999) (fixed.dec 50 0);
  win_rate = pos 0;
  profit_factor = pos 0;
  trade_count = 2;
  calculated_at = at;
}

abbrev once_low : StrategyState fixed
once_low = record (fresh fixed "trend") {
  metrics_history = metrics (42 * day) ∷ [];
  consecutive_low_sharpe = 1;
  last_evaluation_at = some (42 * day);
}

two_low_evaluations_disable_example :
    is_strategy_active fixed (ran (evaluation 42 slow ∷ evaluation 43 broken ∷ [])) "trend" ≡ false
unfolding run step new register_strategy record_trade evaluate_strategy evaluate_state judge
    calculate_metrics metrics_of sharpe_of keep lookup insert disable_strategy
two_low_evaluations_disable_example =
    two_low_evaluations_disable fixed (pos 5000) square root infinity start "trend"
      (fresh fixed "trend") (metrics (42 * day)) (metrics (43 * day)) none none slow broken
      (at_day 42) (at_day 43) [] refl refl refl refl tt refl refl

disabled_only_after_two_lows_example :
    IsLow fixed (pos 5000) once_low.metrics_history
    × (x : PerformanceMetrics fixed) × (calculate_metrics fixed square root infinity
          (ran (evaluation 42 slow ∷ []))
          "trend"
          (43 * day)
        ≡ some x)
    × (fixed.lt x.sharpe_ratio (pos 5000) ≡ true)
unfolding run step new register_strategy record_trade evaluate_strategy evaluate_state judge
    calculate_metrics metrics_of sharpe_of keep lookup insert disable_strategy is_strategy_active
disabled_only_after_two_lows_example =
    disabled_only_after_two_lows fixed (pos 5000) square root infinity (pos 10000) 14
      (setup ++ evaluation 42 slow ∷ []) "trend" once_low none slow (at_day 43) refl refl refl

-- Disabled in evaluations, re-enabled, and disabled by evaluations two days later.
abbrev re_evaluated : List (Call fixed)
re_evaluated =
    evaluation 42 slow
    ∷ evaluation 43 slow
    ∷ weekly_call (50 * day) slow
    ∷ evaluation 51 slow
    ∷ evaluation 52 slow
    ∷ []

abbrev twice_disabled : StrategyState fixed
twice_disabled = record once_low {
  status = disabled;
  metrics_history =
      metrics (42 * day) ∷ metrics (43 * day) ∷ metrics (51 * day) ∷ metrics (52 * day) ∷ [];
  consecutive_low_sharpe = 0;
  last_evaluation_at = some (52 * day);
  disabled_at = some (52 * day);
  re_enabled_at = some (50 * day);
}

evaluations_never_suspend_example : is_suspended twice_disabled.status ≡ false
unfolding run step new register_strategy record_trade evaluate_strategy evaluate_state judge
    calculate_metrics metrics_of sharpe_of keep lookup insert disable_strategy weekly_re_evaluate
    weekly_each re_evaluate run_oos_backtest
evaluations_never_suspend_example =
    evaluations_never_suspend fixed square root infinity start "trend" twice_disabled re_evaluated
      (λ t e. let same : fresh fixed "trend" ≡ t = cc in rw (← same) refl)
      (refl, (refl, (refl, (refl, (refl, tt))))) refl
