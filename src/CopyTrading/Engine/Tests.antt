-- ===== src/CopyTrading/Engine/Tests.antt =====
-- Copies of concrete trades, and the theorems applied to them.
use ig_trading_bot.Common.{
  ℕ, ◌≡◌, refl, String, true, false, Option, none, some, [], ◌∷◌, fixed, fixed-IsOrdered,
  fixed-IsMonotone, leb, pos, negsuc, lookup, insert, erase, keep, if◌then◌else◌,
}
use ig_trading_bot.Risk.KillSwitch
use ig_trading_bot.Risk.KillSwitch.{is_signal_allowed}
use ig_trading_bot.Risk.Drawdown
use ig_trading_bot.Risk.Drawdown.{check_trade_allowed}
use ig_trading_bot.Risk.Exposure
use ig_trading_bot.Risk.Engine.{RiskEngine}
use ig_trading_bot.CopyTrading.Engine.{
  SourceTrade, CopiedTrade, CopyEngine, in_time, Timing, register_trader, close_copied_position,
  close_each, stop_copying_trader, copied_from, check_drawdown_stop,
}
use ig_trading_bot.CopyTrading.Engine.Replication.{replicate_trade, execute}
use ig_trading_bot.CopyTrading.Engine.Validation.{executed_in, replicate_trade_never_executes}
use ig_trading_bot.CopyTrading.Engine.Stopping.{stop_copying_trader-clears}
use ig_trading_bot.CopyTrading.Engine.Window.{check_drawdown_stop-has_fallen}

-- The trader has 1000, and a fall of 15% stops the copying.
abbrev copier : CopyEngine fixed fixed
copier =
    register_trader fixed fixed
      (record {
        risk_engine = none;
        execution_timeout = pos 30000;
        drawdown_stop_pct = pos 1500;
        active_copies = [];
        trader_allocations = [];
        deal_counter = 0;
      })
      "ann" (pos 10000000) 0

abbrev risk : RiskEngine fixed fixed
risk = record {
  drawdown_monitor = Drawdown.new fixed (pos 100000000) none none none 0;
  exposure_manager = Exposure.new fixed fixed none none;
  kill_switch = KillSwitch.new fixed 5 3 false;
  has_event_bus = false;
  published = [];
}

abbrev trade : SourceTrade fixed
trade = record {
  trade_id = "s1";
  trader_id = "ann";
  instrument = "EUR/USD";
  direction = "LONG";
  entry_price = pos 10000;
  stop_loss = pos 9900;
  take_profit = pos 10300;
  size = pos 100000;
  asset_class = "forex";
}

abbrev timing : Timing fixed
timing = record {
  before_validation = pos 0;
  after_validation = pos 1000;
  at_end = pos 1000;
  validation = in_time;
  opened_at = 7;
  first_reading = 7;
  second_reading = 7;
  last_reading = 7;
}

abbrev label : ℕ → String
label n = if leb n 1 then "COPY-000001" else "COPY-000002"

abbrev describe : Drawdown.Reason fixed → String
describe r = "drawdown"

abbrev replicate :
    CopyEngine fixed fixed → CopyEngine fixed fixed × Option (CopiedTrade fixed fixed)
replicate e =
    replicate_trade fixed fixed (λ s. s) (λ x. x) (λ x. x) (λ x. x) describe (λ x. x) label e trade
      (pos 10000000) (pos 100000000) timing

-- Without a risk engine, a tenth of the size is copied, and stopping closes it.
replicate_trade-run :
    let (e, copy) = replicate copier in
    (executed_in fixed fixed (λ s. s) (λ x. x) (λ x. x) (λ x. x) describe (λ x. x) label copy
      ≡ true)
    × ((stop_copying_trader fixed fixed e "ann" (λ id. 9)).0.active_copies ≡ [])
unfolding replicate_trade execute register_trader insert lookup stop_copying_trader close_each
    close_copied_position erase keep
replicate_trade-run = (refl, refl)

replicate_trade_never_executes_example :
    let out = replicate (record copier { risk_engine = some risk }) in
    (out.0.active_copies ≡ copier.active_copies)
    × (executed_in fixed fixed (λ s. s) (λ x. x) (λ x. x) (λ x. x) describe (λ x. x) label out.1
        ≡ false)
replicate_trade_never_executes_example =
    replicate_trade_never_executes fixed fixed (λ s. s) (λ x. x) (λ x. x) (λ x. x) describe (λ x. x)
      label fixed-IsOrdered (record copier { risk_engine = some risk }) risk trade (pos 10000000)
      (pos 100000000) timing refl

stop_copying_trader-clears_example :
    let e = (replicate copier).0 in
    let e' = (stop_copying_trader fixed fixed e "ann" (λ id. 9)).0 in
    (lookup "COPY-000001" e'.active_copies ≡ (
      if copied_from fixed fixed "ann" (lookup "COPY-000001" e.active_copies)
      then none
      else lookup "COPY-000001" e.active_copies))
    × (lookup "ann" e'.trader_allocations ≡ none)
stop_copying_trader-clears_example =
    stop_copying_trader-clears fixed fixed (replicate copier).0 "ann" "COPY-000001" (λ id. 9)

-- A gain of 20 and then a loss of 140 is a fall of 160.
abbrev gained : CopyEngine fixed fixed
gained = (check_drawdown_stop fixed fixed copier "ann" (pos 200000) 5).0

check_drawdown_stop-has_fallen_example :
    (check_drawdown_stop fixed fixed gained "ann" (negsuc 1399999) 9).1 ≡ some true
unfolding check_drawdown_stop register_trader insert lookup keep
check_drawdown_stop-has_fallen_example =
    check_drawdown_stop-has_fallen fixed fixed fixed-IsOrdered fixed-IsMonotone gained "ann"
      (record {
        allocated_equity = pos 10000000;
        current_pnl = pos 200000;
        start_date = 0;
        open_positions = [];
        pnl_history = (5, pos 200000) ∷ [];
      })
      (negsuc 1399999) 9 refl refl
