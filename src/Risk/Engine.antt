-- ===== src/Risk/Engine.antt =====
-- src/risk/risk_engine.py: the validation of a signal through all the checks.
-- `Decimal` amounts are numbers of `A`, floats numbers of `F`. The section's functions are those of
-- the language that the engine calls: `lower` on texts, `decimal` for `Decimal(str(x))`, `float`,
-- `quantize`, and `describe` for the text of a drawdown's reason. The clock's readings are
-- arguments. The texts of rejections are constructors; what is published is a list in order.
pub mod Safety
pub mod Lockout
mod Tests
use text.Mathlib.Text.{◌==◌ as str_eq}
use ig_trading_bot.Common.{
  ℕ, String, Bool, true, false, ◌||◌, ◌&&◌, negate, Option, none, some, List, [], ◌∷◌, ◌++◌, Arith,
  abs_of, equal, if◌then◌else◌,
}
use ig_trading_bot.Risk.KillSwitch.{KillSwitch, is_signal_allowed, activate}
use ig_trading_bot.Risk.KillSwitch
use ig_trading_bot.Risk.Drawdown
use ig_trading_bot.Risk.Drawdown.{
  DrawdownMonitor, DrawdownCheckResult, TradeDecision, check_trade_allowed,
}
use ig_trading_bot.Risk.Exposure
use ig_trading_bot.Risk.Exposure.{
  AssetClass, forex, indices, commodities, crypto, stocks, ExposureManager, ExposureCheckResult,
  check_exposure,
}
use ig_trading_bot.Risk.Sizing
use ig_trading_bot.Risk.Sizing.{PositionSizeResult, calculate_size}
use ig_trading_bot.Risk.Stops.{
  Direction, long, short, calculate_initial_stop, calculate_take_profits, validate_risk_reward,
}

pub record TradeSignal (A F : Arith) : Type 0 where
  pub instrument : String
  pub direction : String
  pub entry_price : A.Num
  pub stop_loss : A.Num
  pub take_profit : A.Num
  pub strategy : String
  pub asset_class : String
  pub notional_value : A.Num
  pub region : Option String
  pub atr : A.Num
  pub atr_zscore : F.Num
  pub risk_pct : Option A.Num

-- The keys of a position's dict that are read.
pub record PositionInfo (A : Arith) : Type 0 where
  pub instrument : Option String
  pub asset_class : Option String
  pub notional_value : Option A.Num
  pub region : Option String

pub record AppliedReduction (A F : Arith) : Type 0 where
  pub source : String
  pub factor : A.Num
  pub reason : Sizing.Reason (Drawdown.Reason A) F

-- `drawdown_result.reason or ...`, and so on.
pub data Refusal (A : Arith) : Type 0 where
  kill_switch_is_active : Refusal A
  by_drawdown : Option (Drawdown.Reason A) → Refusal A
  by_exposure : Option (Exposure.Rejection A) → Refusal A
  risk_reward_below : A.Num → Refusal A
  by_sizing : Option Sizing.Rejection → Refusal A

pub record ValidationResult (A F : Arith) : Type 0 where
  pub allowed : Bool
  pub rejection_reasons : List (Refusal A)
  pub position_size : Option A.Num
  pub stop_loss : Option A.Num
  pub take_profit_levels : List A.Num
  pub applied_reductions : List (AppliedReduction A F)
  pub trigger_kill_switch : Bool

pub data RiskEvent (A : Arith) : Type 0 where
  signal_rejected : String → String → Refusal A → RiskEvent A
  kill_switch_activated : Option (Drawdown.Reason A) → A.Num → RiskEvent A

pub record RiskEngine (A F : Arith) : Type 0 where
  pub drawdown_monitor : DrawdownMonitor A
  pub exposure_manager : ExposureManager A F
  pub kill_switch : KillSwitch F
  pub has_event_bus : Bool
  pub published : List (RiskEvent A)

module _ (A F : Arith) (lower : String → String) (decimal : F.Num → A.Num) (float : A.Num → F.Num)
    (quantize : A.Num → A.Num) (describe : Drawdown.Reason A → String) where
  open A use {Num, dec, sub, div, le, lt}

  -- `AssetClass(text.lower())`, or forex where that raises.
  pub class_of : String → AssetClass
  class_of text =
      let t = lower text in
      if str_eq t "indices"
      then indices
      else if str_eq t "commodities"
      then commodities
      else if str_eq t "crypto"
      then crypto
      else if str_eq t "stocks"
      then stocks
      else forex

  abbrev pub get_or {ℓ} : {B : Type ℓ} → B → Option B → B
  get_or d none = d
  get_or d (some b) = b

  pub to_exposure : PositionInfo A → Exposure.Position A
  unfolding class_of
  to_exposure p = record {
    instrument = get_or "UNKNOWN" p.instrument;
    asset_class = class_of (get_or "forex" p.asset_class);
    notional_value = get_or (dec 0 0) p.notional_value;
    region = p.region;
  }

  abbrev pub convert_to_exposure_positions : List (PositionInfo A) → List (Exposure.Position A)
  convert_to_exposure_positions [] = []
  convert_to_exposure_positions (p ∷ ps) = to_exposure p ∷ convert_to_exposure_positions ps

  abbrev pub publish : RiskEngine A F → RiskEvent A → RiskEngine A F
  publish e event = record e {
    published = (if e.has_event_bus then e.published ++ event ∷ [] else e.published);
  }

  abbrev pub refusal : Bool → Refusal A → List (AppliedReduction A F) → ValidationResult A F
  refusal triggers r applied = record {
    allowed = false;
    rejection_reasons = r ∷ [];
    position_size = none;
    stop_loss = none;
    take_profit_levels = [];
    applied_reductions = applied;
    trigger_kill_switch = triggers;
  }

  -- A rejection, published. The pair's second part is `none` where an exception leaves the engine.
  abbrev pub rejects :
      RiskEngine A F
      → TradeSignal A F
      → Refusal A
      → List (AppliedReduction A F)
      → RiskEngine A F × Option (ValidationResult A F)
  rejects e s r applied =
      (publish e (signal_rejected s.instrument s.strategy r), some (refusal false r applied))

  abbrev pub direction_of : String → Direction
  direction_of text = if str_eq text "LONG" then long else short

  abbrev pub sizer_reduction : AppliedReduction A F → Sizing.ReductionFactor (Drawdown.Reason A) F
  sizer_reduction r = record { source = r.source; factor = float r.factor; reason = r.reason }

  abbrev pub sizer_reductions :
      List (AppliedReduction A F) → List (Sizing.ReductionFactor (Drawdown.Reason A) F)
  sizer_reductions [] = []
  sizer_reductions (r ∷ rs) = sizer_reduction r ∷ sizer_reductions rs

  abbrev pub has_drawdown : List (AppliedReduction A F) → Bool
  has_drawdown [] = false
  has_drawdown (r ∷ rs) = str_eq r.source "drawdown" || has_drawdown rs

  -- The loop that collects the sizer's reductions after those already applied.
  pub collect :
      List (AppliedReduction A F)
      → List (Sizing.ReductionFactor (Drawdown.Reason A) F)
      → List (AppliedReduction A F)
  collect applied [] = applied
  collect applied (r ∷ rs) =
      let more : List (AppliedReduction A F) =
        if negate (str_eq r.source "drawdown") || negate (has_drawdown applied)
        then applied
          ++ record { source = r.source; factor = decimal r.factor; reason = r.reason } ∷ []
        else applied in
      collect more rs

  -- `signal.risk_pct or ...`: neither `None` nor zero counts.
  abbrev pub risk_or : Num → Option Num → Num
  risk_or d none = d
  risk_or d (some r) = if equal A r (dec 0 0) then d else r

  -- Step 6, and the result of a signal that passes.
  pub accepted :
      TradeSignal A F
      → List (AppliedReduction A F)
      → PositionSizeResult (Drawdown.Reason A) A F
      → ValidationResult A F
  unfolding collect
  accepted s applied sized =
      let d = direction_of s.direction in
      let stop = calculate_initial_stop A s.entry_price d s.atr (dec 15 1) in
      record {
        allowed = true;
        rejection_reasons = [];
        position_size = sized.size;
        stop_loss = some stop;
        take_profit_levels = calculate_take_profits A s.entry_price stop d none;
        applied_reductions = collect applied sized.applied_reductions;
        trigger_kill_switch = false;
      }

  -- Step 5, the sizing.
  abbrev pub sized_of :
      TradeSignal A F
      → Num
      → List (AppliedReduction A F)
      → Option (PositionSizeResult (Drawdown.Reason A) A F)
  sized_of s equity applied =
      calculate_size (Drawdown.Reason A) A F decimal quantize equity (risk_or (dec 1 2) s.risk_pct)
        s.atr (dec 15 1) s.atr_zscore (sizer_reductions applied) (dec 1 2)

  abbrev pub after_sizing :
      RiskEngine A F
      → TradeSignal A F
      → List (AppliedReduction A F)
      → Option (PositionSizeResult (Drawdown.Reason A) A F)
      → RiskEngine A F × Option (ValidationResult A F)
  after_sizing e s applied none = (e, none)
  after_sizing e s applied (some sized) =
      if sized.rejected
      then rejects e s (by_sizing sized.rejection_reason) applied
      else (e, some (accepted s applied sized))

  -- The quotient that a rejection prints.
  abbrev pub ratio_of : TradeSignal A F → Num
  ratio_of s =
      let risk = abs_of A (sub s.entry_price s.stop_loss) in
      let reward = abs_of A (sub s.take_profit s.entry_price) in
      if lt (dec 0 0) risk then div reward risk else dec 0 0

  abbrev pub pays : TradeSignal A F → Bool
  pays s = validate_risk_reward A s.entry_price s.stop_loss s.take_profit (dec 15 1)

  abbrev pub proposed : TradeSignal A F → Exposure.Position A
  proposed s = record {
    instrument = s.instrument;
    asset_class = class_of s.asset_class;
    notional_value = s.notional_value;
    region = s.region;
  }

  abbrev pub exposure_of :
      RiskEngine A F → TradeSignal A F → Num → List (PositionInfo A) → ExposureCheckResult A
  exposure_of e s equity positions =
      check_exposure A F e.exposure_manager (proposed s) (convert_to_exposure_positions positions)
        equity none

  -- Steps 3 to 6, with the reductions of the drawdown.
  pub after_drawdown :
      RiskEngine A F
      → TradeSignal A F
      → Num
      → List (PositionInfo A)
      → List (AppliedReduction A F)
      → RiskEngine A F × Option (ValidationResult A F)
  unfolding to_exposure class_of accepted
  after_drawdown e s equity positions applied =
      let exposure = exposure_of e s equity positions in
      if negate exposure.allowed
      then rejects e s (by_exposure exposure.rejection_reason) applied
      else if negate (pays s)
      then rejects e s (risk_reward_below (ratio_of s)) applied
      else after_sizing e s applied (sized_of s equity applied)

  abbrev pub reduction_of : Option (Drawdown.ReductionFactor A) → List (AppliedReduction A F)
  reduction_of none = []
  reduction_of (some r) =
      record { source = "drawdown"; factor = r.factor; reason = Sizing.given r.reason } ∷ []

  abbrev pub describe_or : Option (Drawdown.Reason A) → String
  describe_or none = "Drawdown exceeded kill switch threshold"
  describe_or (some r) = describe r

  -- Step 2, on the monitor's result; a drawdown over the threshold activates the kill switch.
  pub by_decision :
      RiskEngine A F
      → TradeSignal A F
      → Num
      → List (PositionInfo A)
      → DrawdownCheckResult A
      → ℕ
      → RiskEngine A F × Option (ValidationResult A F)
  unfolding after_drawdown
  by_decision e s equity positions r now = elim r.decision [
    | TradeDecision.kill_switch ↦
        let killed = record e {
          kill_switch =
              (activate F e.kill_switch (KillSwitch.given (describe_or r.reason)) "drawdown" now).0;
        } in
        (
          publish killed (kill_switch_activated r.reason r.drawdown_pct),
          some (refusal true (by_drawdown r.reason) []),
        )
    | TradeDecision.reject ↦ rejects e s (by_drawdown r.reason) []
    | TradeDecision.reduce_size ↦
        after_drawdown e s equity positions (reduction_of r.reduction_factor)
    | TradeDecision.allow ↦ after_drawdown e s equity positions []
  ]

  -- `validate_signal`; the readings are two of the drawdown monitor and one of the kill switch.
  pub validate_signal :
      RiskEngine A F
      → TradeSignal A F
      → Num
      → List (PositionInfo A)
      → ℕ
      → ℕ
      → ℕ
      → RiskEngine A F × Option (ValidationResult A F)
  unfolding by_decision
  validate_signal e s equity positions now now' now'' =
      if negate (is_signal_allowed F e.kill_switch s.strategy)
      then rejects e s kill_switch_is_active []
      else let (m, r) = check_trade_allowed A e.drawdown_monitor equity now now' in
        by_decision (record e { drawdown_monitor = m }) s equity positions r now''
