-- ===== src/Core/Degradation/Levels.antt =====
-- How the level moves with the components.
use ig_trading_bot.Common.{◌≡◌, ℕ, ◌≤◌, String, true, false, Arith, arith}
use ig_trading_bot.Core.Degradation.{
  DegradationManager, DegradationLevel, normal, degraded, critical, ComponentFailure, activate,
  deactivate, degradation_level, get_confidence_threshold, should_use_standard_pipeline,
  should_apply_mistake_penalties, is_degraded,
}

abbrev pub severity : DegradationLevel → ℕ
severity normal = 0
severity degraded = 1
severity critical = 2

module _ (A : Arith) where
  -- The report of a failure never lowers the level, the recovery of a component never raises it, and
  -- after a report the level is not normal.
  pub level_follows_failures :
      (m : DegradationManager A) (c : ComponentFailure) (reason : String) (now : A.Num)
      → (severity (degradation_level A m)
          ≤ severity (degradation_level A (activate A m c reason now)))
        × (severity (degradation_level A (deactivate A m c)) ≤ severity (degradation_level A m))
        × (1 ≤ severity (degradation_level A (activate A m c reason now)))
  unfolding degradation_level activate deactivate
  level_follows_failures m c reason now = ground arith

  -- At the normal level no component has failed and every fallback is off: the default threshold,
  -- the HFT pipeline and the penalties are in use.
  pub normal_means_no_fallback :
      (m : DegradationManager A)
      → degradation_level A m ≡ normal
      → ((c : ComponentFailure) → is_degraded A m c ≡ false)
        × (get_confidence_threshold A m ≡ m.config.default_confidence_threshold)
        × (should_use_standard_pipeline A m ≡ false)
        × (should_apply_mistake_penalties A m ≡ true)
  unfolding degradation_level is_degraded get_confidence_threshold should_use_standard_pipeline
      should_apply_mistake_penalties
  normal_means_no_fallback m calm = (λ c. ground arith, ground arith, ground arith, ground arith)
