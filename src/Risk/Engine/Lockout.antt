-- ===== src/Risk/Engine/Lockout.antt =====
-- A signal that triggers the kill switch is the last one that is looked at.
use ig_trading_bot.Common.{
  ℕ, ◌≡◌, refl, String, Bool, true, false, Option, some, List, [], ◌∷◌, All, Arith, arith,
  Bool-cases, Option-cases, inl, inr,
}
use ig_trading_bot.Risk.KillSwitch.{is_signal_allowed}
use ig_trading_bot.Risk.KillSwitch.Lockout.{activate-locks}
use ig_trading_bot.Risk.Drawdown
use ig_trading_bot.Risk.Drawdown.{TradeDecision, DrawdownCheckResult, check_trade_allowed}
use ig_trading_bot.Risk.Engine.{
  RiskEngine, TradeSignal, PositionInfo, AppliedReduction, ValidationResult, refusal,
  kill_switch_is_active, validate_signal, by_decision, after_drawdown, sized_of, reduction_of,
}

-- A signal with what `validate_signal` is given for it.
pub record Submission (A F : Arith) : Type 0 where
  pub signal : TradeSignal A F
  pub equity : A.Num
  pub positions : List (PositionInfo A)
  pub first_reading : ℕ
  pub second_reading : ℕ
  pub last_reading : ℕ

module _ (A F : Arith) (lower : String → String) (decimal : F.Num → A.Num) (float : A.Num → F.Num)
    (quantize : A.Num → A.Num) (describe : Drawdown.Reason A → String) where
  abbrev pub submit :
      RiskEngine A F → Submission A F → RiskEngine A F × Option (ValidationResult A F)
  submit e x =
      validate_signal A F lower decimal float quantize describe e x.signal x.equity x.positions
        x.first_reading x.second_reading x.last_reading

  -- The results of signals that are submitted one after another.
  pub submit_all : RiskEngine A F → List (Submission A F) → List (Option (ValidationResult A F))
  submit_all e [] = []
  submit_all e (x ∷ xs) = let (e', r) = submit e x in r ∷ submit_all e' xs

  -- The kill switch rejects signals, of whatever strategy.
  IsLocked : RiskEngine A F → Type 0
  IsLocked e = (strategy : String) → is_signal_allowed F e.kill_switch strategy ≡ false

  -- The later checks never trigger it.
  after_drawdown-quiet :
      (e : RiskEngine A F) (s : TradeSignal A F) (equity : A.Num)
      (positions : List (PositionInfo A)) (applied : List (AppliedReduction A F))
      (v : ValidationResult A F)
      → (after_drawdown A F lower decimal float quantize describe e s equity positions applied).1
        ≡ some v
      → v.trigger_kill_switch ≡ false
  unfolding after_drawdown
  after_drawdown-quiet e s equity positions applied v h =
      elim (Option-cases (sized_of A F lower decimal float quantize describe s equity applied)) [
        | inl broken ↦ ground arith
        | inr (r, found) ↦ ground arith
      ]

  true-ne-false : (b : Bool) → b ≡ true → b ≡ false → ⊥
  true-ne-false b h k = cc

  by_decision-IsLocked :
      (e : RiskEngine A F) (s : TradeSignal A F) (equity : A.Num)
      (positions : List (PositionInfo A)) (r : DrawdownCheckResult A) (now : ℕ)
      (v : ValidationResult A F) (d : TradeDecision)
      → let out =
          by_decision A F lower decimal float quantize describe e s equity positions r now in
        r.decision ≡ d → out.1 ≡ some v → v.trigger_kill_switch ≡ true → IsLocked out.0
  unfolding by_decision IsLocked
  by_decision-IsLocked e s equity positions r now v TradeDecision.allow d h triggers = absurd (
      true-ne-false _ triggers
        (after_drawdown-quiet e s equity positions [] v (rw (d, by_decision) at h)))
  by_decision-IsLocked e s equity positions r now v TradeDecision.reduce_size d h triggers =
      absurd (
        true-ne-false _ triggers (
          after_drawdown-quiet e s equity positions
            (reduction_of A F lower decimal float quantize describe r.reduction_factor) v
            (rw (d, by_decision) at h)))
  by_decision-IsLocked e s equity positions r now v TradeDecision.reject d h triggers =
      absurd (true-ne-false _ triggers (ground arith))
  by_decision-IsLocked e s equity positions r now v TradeDecision.kill_switch d h triggers =
      λ strategy. rw d (activate-locks F e.kill_switch _ "drawdown" strategy now)

  IsLocked-rejects :
      (e : RiskEngine A F) (x : Submission A F)
      → IsLocked e
      → ((submit e x).1
          ≡ some (refusal A F lower decimal float quantize describe false kill_switch_is_active []))
        × IsLocked (submit e x).0
  unfolding IsLocked validate_signal
  IsLocked-rejects e x locked = rw (locked x.signal.strategy) (refl, locked)

  -- What a locked engine answers to any signals.
  IsLocked-rejects_each :
      (e : RiskEngine A F) (xs : List (Submission A F))
      → IsLocked e
      → All
          (λ r.
            r
            ≡ some
                (refusal A F lower decimal float quantize describe false kill_switch_is_active []))
          (submit_all e xs)
  unfolding submit_all
  IsLocked-rejects_each e [] locked = tt
  IsLocked-rejects_each e (x ∷ xs) locked =
      let r = IsLocked-rejects e x locked in (r.0, IsLocked-rejects_each (submit e x).0 xs r.1)

  -- When a signal's validation calls for the kill switch, the switch is active from then on: every
  -- signal submitted to the engine later, of whatever strategy, equity, positions and readings of the
  -- clock, is rejected for the kill switch alone. Only a deactivation, which no validation performs,
  -- lets signals through again.
  pub trigger_locks_engine :
      (e : RiskEngine A F) (x : Submission A F) (v : ValidationResult A F)
      (xs : List (Submission A F))
      → (submit e x).1 ≡ some v
      → v.trigger_kill_switch ≡ true
      → All
          (λ r.
            r
            ≡ some
                (refusal A F lower decimal float quantize describe false kill_switch_is_active []))
          (submit_all (submit e x).0 xs)
  unfolding validate_signal IsLocked
  trigger_locks_engine e x v xs h triggers =
      IsLocked-rejects_each (submit e x).0 xs
        (elim (Bool-cases (is_signal_allowed F e.kill_switch x.signal.strategy)) [
          | inl lets ↦
              let (m, r) =
                check_trade_allowed A e.drawdown_monitor x.equity x.first_reading
                  x.second_reading in
              rw (lets, validate_signal)
                (by_decision-IsLocked (record e { drawdown_monitor = m }) x.signal x.equity
                  x.positions r x.last_reading v r.decision refl (rw (lets, validate_signal) at h)
                  triggers)
          | inr halts ↦ absurd (true-ne-false _ triggers (ground arith))
        ])
