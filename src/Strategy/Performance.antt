-- ===== src/Strategy/Performance.antt =====
-- src/strategy/performance_monitor.py: which strategies may trade, by their results.
-- Floats are numbers of `F`; `square`, `root` and `infinity` are `x ** 2`, `x ** 0.5` and
-- `float("inf")`. Times are microseconds. The callbacks are an argument of each call, with how each of
-- them ends, and what they are called with is listed in order. A callback that raises does not raise
-- the timeout that `wait_for` does. The second part of a result is `none` where an exception leaves.
pub mod Lifecycle
use text.Mathlib.Text.{◌==◌ as str_eq}
use ig_trading_bot.Common.{
  ℕ, zero, suc, ◌-◌, ◌*◌, ◌/◌, String, Bool, true, false, ◌&&◌, negate, Option, none, some, List,
  [], ◌∷◌, ◌++◌, Arith, abs_of, if◌then◌else◌, leb, Dict, lookup, insert, keys, keep, length, drop,
}

pub data StrategyStatus : Type 0 where
  active disabled suspended : StrategyStatus

pub record PerformanceMetrics (F : Arith) : Type 0 where
  pub sharpe_ratio : F.Num
  pub win_rate : F.Num
  pub profit_factor : F.Num
  pub trade_count : ℕ
  pub calculated_at : ℕ

pub record StrategyState (F : Arith) : Type 0 where
  pub strategy_name : String
  pub status : StrategyStatus
  pub metrics_history : List (PerformanceMetrics F)
  pub disabled_at : Option ℕ
  pub re_enabled_at : Option ℕ
  pub consecutive_low_sharpe : ℕ
  pub last_evaluation_at : Option ℕ

pub record TradeRecord (F : Arith) : Type 0 where
  pub strategy_name : String
  pub pnl : F.Num
  pub closed_at : ℕ
  pub is_winner : Bool

-- What a callback is called with: notices, and requests to other parts.
pub data Outgoing (F : Arith) : Type 0 where
  strategy_disabled : String → PerformanceMetrics F → ℕ → Outgoing F
  forced_liquidation_escalation : String → ℕ → Outgoing F
  strategy_re_enabled : String → F.Num → ℕ → Outgoing F
  strategy_suspended : String → ℕ → ℕ → Outgoing F
  close_positions_of : String → Outgoing F
  force_liquidation_of : String → Outgoing F
  backtest_of : String → Outgoing F

pub data CloseEnding : Type 0 where
  all_closed left_open timed_out raised : CloseEnding

-- Each callback that is there, with how a call of it ends: `false` and `none` where it raises.
pub record Callbacks (F : Arith) : Type 0 where
  pub notify : Option (Outgoing F → Bool)
  pub close_positions : Option (String → CloseEnding)
  pub force_liquidation : Option (String → Bool)
  pub backtest : Option (String → Option F.Num)

pub record PerformanceMonitor (F : Arith) : Type 0 where
  pub disable_sharpe_threshold : F.Num
  pub enable_sharpe_threshold : F.Num
  pub suspension_days : ℕ
  pub strategies : Dict (StrategyState F)
  pub trade_history : List (TradeRecord F)
  pub outgoing : List (Outgoing F)

-- The readings of the clock of one evaluation.
pub record Readings : Type 0 where
  pub at_metrics : ℕ
  pub at_evaluation : ℕ
  pub at_disabling : ℕ
  pub at_escalation : ℕ

abbrev pub is_active : StrategyStatus → Bool
is_active active = true
is_active _ = false

abbrev pub is_disabled : StrategyStatus → Bool
is_disabled disabled = true
is_disabled _ = false

abbrev pub is_suspended : StrategyStatus → Bool
is_suspended suspended = true
is_suspended _ = false

abbrev pub or_else {ℓ} : {B : Type ℓ} → Option B → B → B
or_else none d = d
or_else (some b) d = b

-- The microseconds of a day.
abbrev pub day : ℕ
day = 86400000000

module _ (F : Arith) where
  open F use {Num, dec, add, sub, mul, div, lt}

  pub new : Num → Num → ℕ → PerformanceMonitor F
  new low high days = record {
    disable_sharpe_threshold = low;
    enable_sharpe_threshold = high;
    suspension_days = days;
    strategies = [];
    trade_history = [];
    outgoing = [];
  }

  abbrev pub put : PerformanceMonitor F → String → StrategyState F → PerformanceMonitor F
  put m name s = record m { strategies = insert name s m.strategies }

  abbrev pub fresh : String → StrategyState F
  fresh name = record {
    strategy_name = name;
    status = active;
    metrics_history = [];
    disabled_at = none;
    re_enabled_at = none;
    consecutive_low_sharpe = 0;
    last_evaluation_at = none;
  }

  pub register_strategy : PerformanceMonitor F → String → PerformanceMonitor F
  register_strategy m name = elim (lookup name m.strategies) [
    | none ↦ put m name (fresh name)
    | some s ↦ m
  ]

  pub record_trade : PerformanceMonitor F → TradeRecord F → PerformanceMonitor F
  record_trade m t = record m { trade_history = m.trade_history ++ t ∷ [] }

  abbrev pub status_of : Option (StrategyState F) → Option StrategyStatus
  status_of none = none
  status_of (some s) = some s.status

  pub get_strategy_status : PerformanceMonitor F → String → Option StrategyStatus
  get_strategy_status m name = status_of (lookup name m.strategies)

  abbrev pub active_of : Option (StrategyState F) → Bool
  active_of none = false
  active_of (some s) = is_active s.status

  pub is_strategy_active : PerformanceMonitor F → String → Bool
  is_strategy_active m name = active_of (lookup name m.strategies)

  -- `history[-limit:]`, which is everything for a limit of zero.
  abbrev last_of {ℓ} : {B : Type ℓ} → ℕ → List B → List B
  last_of zero xs = xs
  last_of (suc n) xs = drop (length xs - suc n) xs

  pub get_metrics_history : PerformanceMonitor F → String → ℕ → List (PerformanceMetrics F)
  get_metrics_history m name limit = elim (lookup name m.strategies) [
    | none ↦ []
    | some s ↦ last_of limit s.metrics_history
  ]

  -- Sums from the left, of the numbers that a test lets through.
  abbrev sum_of : Num → List Num → Num
  sum_of total [] = total
  sum_of total (x ∷ xs) = sum_of (add total x) xs

  abbrev pnls : List (TradeRecord F) → List Num
  pnls [] = []
  pnls (t ∷ ts) = t.pnl ∷ pnls ts

  abbrev pub in_window : String → ℕ → TradeRecord F → Bool
  in_window name as_of t =
      str_eq t.strategy_name name && leb (as_of - 30 * day) t.closed_at && leb t.closed_at as_of

  module _ (square root : Num → Num) (infinity : Num) where
    abbrev deviations : Num → List Num → List Num
    deviations mean [] = []
    deviations mean (x ∷ xs) = square (sub x mean) ∷ deviations mean xs

    pub sharpe_of : List Num → Num
    sharpe_of returns =
        let n = length returns in
        let mean = div (sum_of (dec 0 0) returns) (dec n 0) in
        let variance = div (sum_of (dec 0 0) (deviations mean returns)) (dec (n - 1) 0) in
        let std = root variance in
        if leb 2 n then (if lt (dec 0 0) std then div mean std else dec 0 0) else dec 0 0

    pub metrics_of : List (TradeRecord F) → ℕ → PerformanceMetrics F
    unfolding sharpe_of
    metrics_of trades as_of =
        let returns = pnls trades in
        let gross_profit = sum_of (dec 0 0) (keep (λ x. lt (dec 0 0) x) returns) in
        let gross_loss = abs_of F (sum_of (dec 0 0) (keep (λ x. lt x (dec 0 0)) returns)) in
        let winners = length (keep (λ (t : TradeRecord F). t.is_winner) trades) in
        record {
          sharpe_ratio = sharpe_of returns;
          win_rate = div (dec winners 0) (dec (length trades) 0);
          profit_factor =
              (if lt (dec 0 0) gross_loss then div gross_profit gross_loss else infinity);
          trade_count = length trades;
          calculated_at = as_of;
        }

    -- `calculate_metrics`, with the time given or read.
    pub calculate_metrics : PerformanceMonitor F → String → ℕ → Option (PerformanceMetrics F)
    unfolding metrics_of
    calculate_metrics m name as_of = elim (keep (in_window name as_of) m.trade_history) [
      | [] ↦ none
      | t ∷ ts ↦ some (metrics_of (t ∷ ts) as_of)
    ]
