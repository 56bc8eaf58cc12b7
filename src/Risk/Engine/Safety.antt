-- ===== src/Risk/Engine/Safety.antt =====
-- A signal that passes has passed every check.
use ig_trading_bot.Common.{
  ℕ, ◌≡◌, refl, String, Bool, true, false, some, List, [], Arith, arith, Bool-cases, Option-cases,
  inl, inr,
}
use ig_trading_bot.Risk.KillSwitch.{is_signal_allowed}
use ig_trading_bot.Risk.Drawdown
use ig_trading_bot.Risk.Drawdown.{TradeDecision, DrawdownCheckResult, check_trade_allowed}
use ig_trading_bot.Risk.Sizing.{PositionSizeResult}
use ig_trading_bot.Risk.Sizing.Bounds.{IsSized, calculate_size-IsSized, calculate_size-size}
use ig_trading_bot.Risk.Engine.{
  RiskEngine, TradeSignal, PositionInfo, AppliedReduction, ValidationResult, validate_signal,
  by_decision, after_drawdown, sized_of, pays, exposure_of, reduction_of, risk_or, Refusal, refusal,
  sizer_reductions,
}

abbrev pub passes : TradeDecision → Bool
passes TradeDecision.allow = true
passes TradeDecision.reduce_size = true
passes TradeDecision.reject = false
passes TradeDecision.kill_switch = false

module _ (A F : Arith) (lower : String → String) (decimal : F.Num → A.Num) (float : A.Num → F.Num)
    (quantize : A.Num → A.Num) (describe : Drawdown.Reason A → String) where
  open A use {Num, dec, mul, lt, le}

  -- What the last four checks have found.
  pub record IsChecked (e : RiskEngine A F) (s : TradeSignal A F) (equity : Num)
      (positions : List (PositionInfo A)) (applied : List (AppliedReduction A F))
      (v : ValidationResult A F) : Type 0 where
    pub exposed :
        (exposure_of A F lower decimal float quantize describe e s equity positions).allowed ≡ true
    pub rewarded : pays A F lower decimal float quantize describe s ≡ true
    pub size : Num
    pub sized : v.position_size ≡ some size
    pub result : PositionSizeResult (Drawdown.Reason A) A F
    pub by_formula :
        IsSized
          (Drawdown.Reason A)
          A
          F
          decimal
          quantize
          equity
          (risk_or A F lower decimal float quantize describe (dec 1 2) s.risk_pct)
          s.atr
          (dec 15 1)
          s.atr_zscore
          (sizer_reductions A F lower decimal float quantize describe applied)
          (dec 1 2)
          size
          result

  refused-not-allowed :
      (triggers : Bool) (r : Refusal A) (applied : List (AppliedReduction A F))
      (v : ValidationResult A F)
      → some (refusal A F lower decimal float quantize describe triggers r applied) ≡ some v
      → v.allowed ≡ true
      → ⊥
  refused-not-allowed triggers r applied v e allowed = ground arith

  after_drawdown-IsChecked :
      (e : RiskEngine A F) (s : TradeSignal A F) (equity : Num) (positions : List (PositionInfo A))
      (applied : List (AppliedReduction A F)) (v : ValidationResult A F)
      → (after_drawdown A F lower decimal float quantize describe e s equity positions applied).1
        ≡ some v
      → v.allowed ≡ true
      → IsChecked e s equity positions applied v
  unfolding after_drawdown
  after_drawdown-IsChecked e s equity positions applied v h allowed =
      elim (Option-cases (sized_of A F lower decimal float quantize describe s equity applied)) [
        | inl broken ↦ absurd (ground arith)
        | inr (r, found) ↦
            let kept : r.rejected ≡ false = ground arith in
            let (size, has) =
              calculate_size-size (Drawdown.Reason A) A F decimal quantize equity
                (risk_or A F lower decimal float quantize describe (dec 1 2) s.risk_pct) s.atr
                (dec 15 1) s.atr_zscore
                (sizer_reductions A F lower decimal float quantize describe applied) (dec 1 2) r
                found kept in
            record {
              exposed = ground arith;
              rewarded = ground arith;
              size = size;
              sized = ground (arith, has);
              result = r;
              by_formula =
                  calculate_size-IsSized (Drawdown.Reason A) A F decimal quantize equity
                    (risk_or A F lower decimal float quantize describe (dec 1 2) s.risk_pct) s.atr
                    (dec 15 1) s.atr_zscore
                    (sizer_reductions A F lower decimal float quantize describe applied) (dec 1 2)
                    size r found has;
            }
      ]

  -- The reductions that a passing decision of the drawdown monitor brings.
  abbrev pub reductions_for : DrawdownCheckResult A → List (AppliedReduction A F)
  reductions_for r = elim r.decision [
    | TradeDecision.allow ↦ []
    | TradeDecision.reduce_size ↦
        reduction_of A F lower decimal float quantize describe r.reduction_factor
    | TradeDecision.reject ↦ []
    | TradeDecision.kill_switch ↦ []
  ]

  by_decision-IsChecked :
      (e : RiskEngine A F) (s : TradeSignal A F) (equity : Num) (positions : List (PositionInfo A))
      (r : DrawdownCheckResult A) (now : ℕ) (v : ValidationResult A F) (d : TradeDecision)
      → r.decision ≡ d
      → (by_decision A F lower decimal float quantize describe e s equity positions r now).1
        ≡ some v
      → v.allowed ≡ true
      → (passes r.decision ≡ true) × IsChecked e s equity positions (reductions_for r) v
  unfolding after_drawdown by_decision
  by_decision-IsChecked e s equity positions r now v TradeDecision.allow d h allowed =
      rw d (
        refl,
        after_drawdown-IsChecked e s equity positions [] v (rw (d, by_decision) at h) allowed,
      )
  by_decision-IsChecked e s equity positions r now v TradeDecision.reduce_size d h allowed = rw d (
    refl,
    after_drawdown-IsChecked e s equity positions
        (reduction_of A F lower decimal float quantize describe r.reduction_factor) v
        (rw (d, by_decision) at h) allowed,
  )
  by_decision-IsChecked e s equity positions r now v TradeDecision.reject d h allowed =
      absurd (refused-not-allowed _ _ _ v (rw (d, by_decision) at h) allowed)
  by_decision-IsChecked e s equity positions r now v TradeDecision.kill_switch d h allowed =
      absurd (refused-not-allowed _ _ _ v (rw (d, by_decision) at h) allowed)

  -- An allowed signal has passed every check of the engine, at the state the engine had: the kill
  -- switch lets signals through; the drawdown monitor neither rejects trades nor calls for the kill
  -- switch; the exposure manager allows the position; the reward is at least one and a half times
  -- the risk; and the result carries a size, which the sizer has computed from the equity with all
  -- the reductions, and which is neither over 5% of the equity nor under a hundredth.
  pub allowed_signal_is_safe :
      (e : RiskEngine A F) (s : TradeSignal A F) (equity : Num) (positions : List (PositionInfo A))
      (now now' now'' : ℕ) (v : ValidationResult A F)
      → (validate_signal A F lower decimal float quantize describe e s equity positions now now'
          now'').1
        ≡ some v
      → v.allowed ≡ true
      → let (m, r) = check_trade_allowed A e.drawdown_monitor equity now now' in
        (is_signal_allowed F e.kill_switch s.strategy ≡ true)
        × (passes r.decision ≡ true)
        × IsChecked (record e { drawdown_monitor = m }) s equity positions (reductions_for r) v
  unfolding validate_signal
  allowed_signal_is_safe e s equity positions now now' now'' v h allowed =
      elim (Bool-cases (is_signal_allowed F e.kill_switch s.strategy)) [
        | inl lets ↦
            let (m, r) = check_trade_allowed A e.drawdown_monitor equity now now' in
            let c =
              by_decision-IsChecked (record e { drawdown_monitor = m }) s equity positions r now'' v
                r.decision refl (rw (lets, validate_signal) at h) allowed in
            (lets, c.0, c.1)
        | inr halts ↦
            absurd (refused-not-allowed _ _ _ v (rw (halts, validate_signal) at h) allowed)
      ]
