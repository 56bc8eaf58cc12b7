-- ===== src/Risk/Drawdown.antt =====
-- src/risk/drawdown_monitor.py: peak equity, the daily loss limit and the check of a trade.
-- A `datetime` is a number of microseconds since the epoch; midnight of a day is the number of that
-- day. `Decimal` amounts are numbers of `A`, and the clock's readings are arguments. The text of a
-- reason is a constructor with the values that it prints.
pub mod Peak
pub mod Daily
mod Tests
use ig_trading_bot.Common.{
  ℕ, ◌/◌, Bool, true, false, Option, none, some, List, [], ◌∷◌, Arith, if◌then◌else◌, ltb,
}

pub data TradeDecision : Type 0 where
  allow reduce_size reject kill_switch : TradeDecision

pub data Reason (A : Arith) : Type 0 where
  over_kill_switch : A.Num → A.Num → Reason A
  over_daily_loss : A.Num → A.Num → A.Num → Reason A
  over_reduction : A.Num → A.Num → Reason A

pub record ReductionFactor (A : Arith) : Type 0 where
  pub factor : A.Num
  pub reason : Reason A

pub record DrawdownCheckResult (A : Arith) : Type 0 where
  pub decision : TradeDecision
  pub reason : Option (Reason A)
  pub reduction_factor : Option (ReductionFactor A)
  pub drawdown_pct : A.Num

pub record DrawdownMonitor (A : Arith) : Type 0 where
  pub peak_equity : A.Num
  pub daily_max_loss_pct : A.Num
  pub drawdown_reduction_pct : A.Num
  pub kill_switch_pct : A.Num
  pub daily_realized_loss : A.Num
  pub daily_start_equity : A.Num
  pub current_day : ℕ
  pub daily_loss_limit_hit : Bool

-- `now.replace(hour=0, minute=0, second=0, microsecond=0)`
abbrev pub midnight : ℕ → ℕ
midnight now = now / 86400000000

module _ (A : Arith) where
  open A use {Num, dec, neg, add, sub, mul, div, lt, le}

  abbrev default_to : Num → Option Num → Num
  default_to d none = d
  default_to d (some x) = x

  -- `__init__`, with the constants of src/config/constants.py.
  unfoldable pub new : Num → Option Num → Option Num → Option Num → ℕ → DrawdownMonitor A
  new equity daily reduction kill now = record {
    peak_equity = equity;
    daily_max_loss_pct = default_to (dec 3 2) daily;
    drawdown_reduction_pct = default_to (dec 10 2) reduction;
    kill_switch_pct = default_to (dec 15 2) kill;
    daily_realized_loss = dec 0 0;
    daily_start_equity = equity;
    current_day = midnight now;
    daily_loss_limit_hit = false;
  }

  pub update_equity : DrawdownMonitor A → Num → DrawdownMonitor A
  update_equity m equity = if lt m.peak_equity equity then record m { peak_equity = equity } else m

  pub get_drawdown : DrawdownMonitor A → Num → Num
  get_drawdown m equity =
      if le m.peak_equity (dec 0 0)
      then dec 0 0
      else if le m.peak_equity equity
      then dec 0 0
      else div (sub m.peak_equity equity) m.peak_equity

  pub reset_daily_if_needed : DrawdownMonitor A → ℕ → DrawdownMonitor A
  reset_daily_if_needed m now =
      if ltb m.current_day (midnight now)
      then record m {
        daily_realized_loss = dec 0 0;
        daily_loss_limit_hit = false;
        current_day = midnight now;
      }
      else m

  pub reset_daily : DrawdownMonitor A → Num → ℕ → DrawdownMonitor A
  reset_daily m equity now = record m {
    daily_realized_loss = dec 0 0;
    daily_start_equity = equity;
    daily_loss_limit_hit = false;
    current_day = midnight now;
  }

  -- The total of losses with one more trade; `abs` of a loss is its negation.
  pub add_loss : Num → Num → Num
  add_loss total pnl = if lt pnl (dec 0 0) then add total (neg pnl) else total

  abbrev pub over_limit : DrawdownMonitor A → Bool
  over_limit m = le (mul m.daily_start_equity m.daily_max_loss_pct) m.daily_realized_loss

  pub update_on_trade_close : DrawdownMonitor A → Num → ℕ → DrawdownMonitor A
  unfolding reset_daily_if_needed
  update_on_trade_close m pnl now =
      let m₁ = reset_daily_if_needed m now in
      let m₂ = record m₁ { daily_realized_loss = add_loss m₁.daily_realized_loss pnl } in
      if over_limit m₂ then record m₂ { daily_loss_limit_hit = true } else m₂

  pub check_daily_loss_limit : DrawdownMonitor A → Num → ℕ → DrawdownMonitor A × Bool
  unfolding reset_daily_if_needed
  check_daily_loss_limit m equity now = let m' = reset_daily_if_needed m now in (m', over_limit m')

  pub should_trigger_kill_switch : DrawdownMonitor A → Num → Bool
  unfolding get_drawdown
  should_trigger_kill_switch m equity = le m.kill_switch_pct (get_drawdown m equity)

  -- The last two rules.
  pub sized : DrawdownMonitor A → Num → DrawdownCheckResult A
  sized m d =
      if le m.drawdown_reduction_pct d
      then record {
        decision = reduce_size;
        reason = some (over_reduction d m.drawdown_reduction_pct);
        reduction_factor =
            some (record { factor = dec 25 2; reason = over_reduction d m.drawdown_reduction_pct });
        drawdown_pct = d;
      }
      else record { decision = allow; reason = none; reduction_factor = none; drawdown_pct = d }

  abbrev pub killed : DrawdownMonitor A → Num → DrawdownCheckResult A
  killed m d = record {
    decision = kill_switch;
    reason = some (over_kill_switch d m.kill_switch_pct);
    reduction_factor = none;
    drawdown_pct = d;
  }

  abbrev pub rejected : DrawdownMonitor A → Num → DrawdownCheckResult A
  rejected m d = record {
    decision = reject;
    reason = some (
        over_daily_loss m.daily_realized_loss (mul m.daily_max_loss_pct (dec 100 0))
          m.daily_start_equity);
    reduction_factor = none;
    drawdown_pct = d;
  }

  -- The rules from the daily limit on, which `or` asks about at a later reading if need be.
  pub after_kill_switch :
      DrawdownMonitor A → Num → Num → ℕ → DrawdownMonitor A × DrawdownCheckResult A
  unfolding check_daily_loss_limit sized
  after_kill_switch m equity d now' =
      let (m', over) = check_daily_loss_limit m equity now' in
      if m.daily_loss_limit_hit
      then (m, rejected m d)
      else if over
      then (m', rejected m' d)
      else (m', sized m' d)

  unfoldable pub check_trade_allowed :
      DrawdownMonitor A → Num → ℕ → ℕ → DrawdownMonitor A × DrawdownCheckResult A
  unfolding reset_daily_if_needed update_equity get_drawdown after_kill_switch
  check_trade_allowed m equity now now' =
      let m' = update_equity (reset_daily_if_needed m now) equity in
      let d = get_drawdown m' equity in
      if le m'.kill_switch_pct d then (m', killed m' d) else after_kill_switch m' equity d now'

-- The calls that change a monitor.
pub data Call (A : Arith) : Type 0 where
  equity_call : A.Num → Call A
  close_call : A.Num → ℕ → Call A
  limit_call : A.Num → ℕ → Call A
  check_call : A.Num → ℕ → ℕ → Call A
  reset_call : A.Num → ℕ → Call A

module _ (A : Arith) where
  pub step : DrawdownMonitor A → Call A → DrawdownMonitor A
  step m (equity_call e) = update_equity A m e
  step m (close_call pnl now) = update_on_trade_close A m pnl now
  step m (limit_call e now) = (check_daily_loss_limit A m e now).0
  step m (check_call e now now') = (check_trade_allowed A m e now now').0
  step m (reset_call e now) = reset_daily A m e now

  pub run : DrawdownMonitor A → List (Call A) → DrawdownMonitor A
  run m [] = m
  run m (c ∷ cs) = run (step m c) cs
