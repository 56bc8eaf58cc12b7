-- ===== src/Risk/Engine/Tests.antt =====
-- An engine on concrete signals, and the theorems applied to it.
use ig_trading_bot.Common.{
  ◌≡◌, refl, String, true, false, none, some, List, [], ◌∷◌, All, fixed, pos, lookup,
}
use ig_trading_bot.Risk.KillSwitch
use ig_trading_bot.Risk.KillSwitch.{is_signal_allowed, activate}
use ig_trading_bot.Risk.Drawdown
use ig_trading_bot.Risk.Drawdown.{check_trade_allowed}
use ig_trading_bot.Risk.Exposure
use ig_trading_bot.Risk.Exposure.{check_exposure}
use ig_trading_bot.Risk.Sizing
use ig_trading_bot.Risk.Sizing.{calculate_size}
use ig_trading_bot.Risk.Stops.{calculate_initial_stop, calculate_take_profits, validate_risk_reward}
use ig_trading_bot.Risk.Engine.{
  RiskEngine, TradeSignal, ValidationResult, refusal, by_drawdown, kill_switch_is_active,
  validate_signal, by_decision, after_drawdown, accepted, collect,
}
use ig_trading_bot.Risk.Engine.Safety.{passes, IsChecked, reductions_for, allowed_signal_is_safe}
use ig_trading_bot.Risk.Engine.Lockout.{Submission, submit, submit_all, trigger_locks_engine}

-- An equity of 10000 at the start.
abbrev engine : RiskEngine fixed fixed
engine = record {
  drawdown_monitor = Drawdown.new fixed (pos 100000000) none none none 0;
  exposure_manager = Exposure.new fixed fixed none none;
  kill_switch = KillSwitch.new fixed 5 3 false;
  has_event_bus = true;
  published = [];
}

abbrev signal : TradeSignal fixed fixed
signal = record {
  instrument = "EUR/USD";
  direction = "LONG";
  entry_price = pos 1000000;
  stop_loss = pos 985000;
  take_profit = pos 1030000;
  strategy = "momentum";
  asset_class = "forex";
  notional_value = pos 10000000;
  region = none;
  atr = pos 10000;
  atr_zscore = pos 0;
  risk_pct = none;
}

abbrev describe : Drawdown.Reason fixed → String
describe r = "drawdown"

abbrev size_88 : ValidationResult fixed fixed
size_88 = record {
  allowed = true;
  rejection_reasons = [];
  position_size = some (pos 146666);
  stop_loss = some (pos 985000);
  take_profit_levels = pos 1030000 ∷ pos 1045000 ∷ [];
  applied_reductions =
      record {
        source = "drawdown";
        factor = pos 2500;
        reason = Sizing.given (Drawdown.over_reduction (pos 1200) (pos 1000));
      }
      ∷ [];
  trigger_kill_switch = false;
}

-- After a fall of 12%, the size is a quarter.
validate_signal-reduced :
    (validate_signal fixed fixed
      (λ s. s)
      (λ x. x)
      (λ x. x)
      (λ x. x)
      describe
      engine
      signal
      (pos 88000000)
      []
      0
      0
      0).1
    ≡ some size_88
unfolding validate_signal by_decision after_drawdown accepted collect is_signal_allowed
    check_trade_allowed check_exposure calculate_size calculate_initial_stop calculate_take_profits
    validate_risk_reward Drawdown.new Exposure.new KillSwitch.new lookup
validate_signal-reduced = refl

allowed_signal_is_safe_example :
    let (m, r) = check_trade_allowed fixed engine.drawdown_monitor (pos 88000000) 0 0 in
    (is_signal_allowed fixed engine.kill_switch "momentum" ≡ true)
    × (passes r.decision ≡ true)
    × IsChecked fixed fixed
        (λ s. s)
        (λ x. x)
        (λ x. x)
        (λ x. x)
        describe
        (record engine { drawdown_monitor = m })
        signal
        (pos 88000000)
        []
        (reductions_for fixed fixed (λ s. s) (λ x. x) (λ x. x) (λ x. x) describe r)
        size_88
allowed_signal_is_safe_example =
    allowed_signal_is_safe fixed fixed (λ s. s) (λ x. x) (λ x. x) (λ x. x) describe engine signal
      (pos 88000000) [] 0 0 0 size_88 validate_signal-reduced refl

-- A fall of 20% triggers the kill switch.
abbrev fall : Submission fixed fixed
fall = record {
  signal = signal;
  equity = pos 80000000;
  positions = [];
  first_reading = 0;
  second_reading = 0;
  last_reading = 7;
}

abbrev triggered : ValidationResult fixed fixed
triggered =
    refusal fixed fixed (λ s. s) (λ x. x) (λ x. x) (λ x. x) describe true
      (by_drawdown (some (Drawdown.over_kill_switch (pos 2000) (pos 1500)))) []

submit-fall :
    (submit fixed fixed (λ s. s) (λ x. x) (λ x. x) (λ x. x) describe engine fall).1 ≡ some triggered
unfolding validate_signal by_decision is_signal_allowed check_trade_allowed Drawdown.new
    KillSwitch.new
submit-fall = refl

-- The equity is back, and the signals are rejected all the same.
abbrev later : List (Submission fixed fixed)
later = record fall { equity = pos 100000000 } ∷ record fall { equity = pos 110000000 } ∷ []

trigger_locks_engine_example :
    All
      (λ r.
        r
        ≡ some (
            refusal fixed fixed
              (λ s. s)
              (λ x. x)
              (λ x. x)
              (λ x. x)
              describe
              false
              kill_switch_is_active
              []))
      (submit_all fixed fixed
        (λ s. s)
        (λ x. x)
        (λ x. x)
        (λ x. x)
        describe
        (submit fixed fixed (λ s. s) (λ x. x) (λ x. x) (λ x. x) describe engine fall).0
        later)
trigger_locks_engine_example =
    trigger_locks_engine fixed fixed (λ s. s) (λ x. x) (λ x. x) (λ x. x) describe engine fall
      triggered later submit-fall refl
