-- ===== src/Core/Degradation/Episodes.antt =====
-- What is known of a failed component, from its first report until it recovers.
use ig_trading_bot.Common.{
  ◌≡◌, refl, String, Bool, true, false, some, List, [], ◌∷◌, Arith, arith, if◌then◌else◌, ◌∙◌, ap,
}
use ig_trading_bot.Core.Degradation.{
  DegradationManager, DegradationState, ComponentFailure, news_engine, hft_pipeline, mistake_db,
  database, redis, Call, activate_call, deactivate_call, state_of, healthy, activate, deactivate,
  step, run,
}

abbrev pub same : ComponentFailure → ComponentFailure → Bool
same news_engine news_engine = true
same hft_pipeline hft_pipeline = true
same mistake_db mistake_db = true
same database database = true
same redis redis = true
same _ _ = false

module _ (A : Arith) where
  -- The state of a component by itself: a report counts if it is healthy, and others' calls do not.
  abbrev pub follow : ComponentFailure → DegradationState A → List (Call A) → DegradationState A
  follow c s [] = s
  follow c s (activate_call d reason now ∷ cs) =
      follow c
        (if same d c
          then (if s.active
              then s
              else record { active = true; activated_at = some now; reason = reason })
          else s)
        cs
  follow c s (deactivate_call d ∷ cs) =
      follow c (if same d c then (if s.active then healthy A else s) else s) cs

  state_of-activate :
      (c d : ComponentFailure) (m : DegradationManager A) (reason : String) (now : A.Num)
      → state_of A c (activate A m d reason now) ≡ (
          if same d c
          then (if (state_of A c m).active
              then state_of A c m
              else record { active = true; activated_at = some now; reason = reason })
          else state_of A c m)
  unfolding activate
  state_of-activate c d m reason now = ground arith

  state_of-deactivate :
      (c d : ComponentFailure) (m : DegradationManager A)
      → state_of A c (deactivate A m d) ≡ (
          if same d c
          then (if (state_of A c m).active then healthy A else state_of A c m)
          else state_of A c m)
  unfolding deactivate
  state_of-deactivate c d m = ground arith

  -- The components do not disturb each other: after any calls, the state of a component is what its
  -- own calls make of the state it had, where the first report of a failure sets the reason and the
  -- time, later ones change nothing, and a recovery clears both.
  pub components_are_independent :
      (c : ComponentFailure) (m : DegradationManager A) (cs : List (Call A))
      → state_of A c (run A m cs) ≡ follow c (state_of A c m) cs
  unfolding run step
  components_are_independent c m [] = refl
  components_are_independent c m (activate_call d reason now ∷ cs) =
      components_are_independent c (activate A m d reason now) cs
      ∙ ap (λ s. follow c s cs) (state_of-activate c d m reason now)
  components_are_independent c m (deactivate_call d ∷ cs) =
      components_are_independent c (deactivate A m d) cs
      ∙ ap (λ s. follow c s cs) (state_of-deactivate c d m)
