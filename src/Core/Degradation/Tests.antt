-- ===== src/Core/Degradation/Tests.antt =====
-- A manager on concrete inputs, and the theorems applied to them.
use ig_trading_bot.Common.{◌≡◌, refl, List, [], ◌∷◌, fixed, pos}
use ig_trading_bot.Core.Degradation.{
  DegradationManager, DegradationConfig, news_engine, redis, degraded, Call, activate_call,
  deactivate_call, state_of, new, run, step, activate, deactivate, degradation_level,
  get_confidence_threshold,
}
use ig_trading_bot.Core.Degradation.Episodes.{follow, components_are_independent}

-- The default configuration.
abbrev config : DegradationConfig fixed
config = record {
  default_confidence_threshold = pos 6500;
  elevated_confidence_threshold = pos 8000;
}

abbrev manager : DegradationManager fixed
manager = new fixed config

abbrev calls : List (Call fixed)
calls =
    activate_call news_engine "timeout" (pos 10000)
    ∷ activate_call redis "refused" (pos 20000)
    ∷ activate_call news_engine "again" (pos 30000)
    ∷ deactivate_call redis
    ∷ []

run-calls :
    let m = run fixed manager calls in
    ((state_of fixed news_engine m).reason ≡ "timeout")
    × (degradation_level fixed m ≡ degraded)
    × (get_confidence_threshold fixed m ≡ pos 8000)
unfolding run step new activate deactivate degradation_level get_confidence_threshold
run-calls = (refl, refl, refl)

components_are_independent_example :
    state_of fixed news_engine (run fixed manager calls)
    ≡ follow fixed news_engine (state_of fixed news_engine manager) calls
components_are_independent_example = components_are_independent fixed news_engine manager calls
