-- ===== src/Core/Degradation.antt =====
-- src/core/degradation.py: which components have failed, how bad that is, and what it changes.
-- The dict of states has the five components as its keys from the start, so it is a record of five.
-- The texts of the fallbacks never change and are left out, like the log and the fields of the
-- configuration that nothing reads; the clock's reading is an argument, and the numbers of the
-- configuration are numbers of `A`.
pub mod Episodes
pub mod Levels
mod Tests
use ig_trading_bot.Common.{
  ℕ, suc, String, Bool, true, false, Option, none, some, List, [], ◌∷◌, Arith, if◌then◌else◌, leb,
  negate,
}

pub data DegradationLevel : Type 0 where
  normal degraded critical : DegradationLevel

pub data ComponentFailure : Type 0 where
  news_engine hft_pipeline mistake_db database redis : ComponentFailure

pub record DegradationState (A : Arith) : Type 0 where
  pub active : Bool
  pub activated_at : Option A.Num
  pub reason : String

pub record DegradationConfig (A : Arith) : Type 0 where
  pub default_confidence_threshold : A.Num
  pub elevated_confidence_threshold : A.Num

pub record States (A : Arith) : Type 0 where
  pub of_news_engine : DegradationState A
  pub of_hft_pipeline : DegradationState A
  pub of_mistake_db : DegradationState A
  pub of_database : DegradationState A
  pub of_redis : DegradationState A

pub record DegradationManager (A : Arith) : Type 0 where
  pub config : DegradationConfig A
  pub states : States A

module _ (A : Arith) where
  -- `self._states[component]`
  abbrev pub state_of : ComponentFailure → DegradationManager A → DegradationState A
  state_of news_engine m = m.states.of_news_engine
  state_of hft_pipeline m = m.states.of_hft_pipeline
  state_of mistake_db m = m.states.of_mistake_db
  state_of database m = m.states.of_database
  state_of redis m = m.states.of_redis

  -- The states with that of one component changed in place.
  abbrev pub put : ComponentFailure → DegradationState A → States A → States A
  put news_engine s ss = record ss { of_news_engine = s }
  put hft_pipeline s ss = record ss { of_hft_pipeline = s }
  put mistake_db s ss = record ss { of_mistake_db = s }
  put database s ss = record ss { of_database = s }
  put redis s ss = record ss { of_redis = s }

  abbrev pub change :
      ComponentFailure → DegradationState A → DegradationManager A → DegradationManager A
  change c s m = record m { states = put c s m.states }

  abbrev pub healthy : DegradationState A
  healthy = record { active = false; activated_at = none; reason = "" }

  pub new : DegradationConfig A → DegradationManager A
  new config = record {
    config = config;
    states = record {
      of_news_engine = healthy;
      of_hft_pipeline = healthy;
      of_mistake_db = healthy;
      of_database = healthy;
      of_redis = healthy;
    };
  }

  pub activate : DegradationManager A → ComponentFailure → String → A.Num → DegradationManager A
  activate m c reason now =
      if (state_of c m).active
      then m
      else change c (record { active = true; activated_at = some now; reason = reason }) m

  pub deactivate : DegradationManager A → ComponentFailure → DegradationManager A
  deactivate m c = if (state_of c m).active then change c healthy m else m

  pub is_degraded : DegradationManager A → ComponentFailure → Bool
  is_degraded m c = (state_of c m).active

  abbrev pub one_if : Bool → ℕ → ℕ
  one_if true n = suc n
  one_if false n = n

  -- `len(active_failures)`
  abbrev pub failures : States A → ℕ
  failures ss = one_if ss.of_news_engine.active (
      one_if ss.of_hft_pipeline.active (
        one_if ss.of_mistake_db.active
          (one_if ss.of_database.active (one_if ss.of_redis.active 0))))

  pub degradation_level : DegradationManager A → DegradationLevel
  degradation_level m =
      if negate (leb 1 (failures m.states))
      then normal
      else if m.states.of_database.active
      then critical
      else if leb 2 (failures m.states)
      then critical
      else degraded

  pub get_confidence_threshold : DegradationManager A → A.Num
  get_confidence_threshold m =
      if m.states.of_news_engine.active
      then m.config.elevated_confidence_threshold
      else m.config.default_confidence_threshold

  pub should_use_standard_pipeline : DegradationManager A → Bool
  should_use_standard_pipeline m = m.states.of_hft_pipeline.active

  pub should_apply_mistake_penalties : DegradationManager A → Bool
  should_apply_mistake_penalties m = if m.states.of_mistake_db.active then false else true

-- The calls that change a manager.
pub data Call (A : Arith) : Type 0 where
  activate_call : ComponentFailure → String → A.Num → Call A
  deactivate_call : ComponentFailure → Call A

module _ (A : Arith) where
  pub step : DegradationManager A → Call A → DegradationManager A
  step m (activate_call c reason now) = activate A m c reason now
  step m (deactivate_call c) = deactivate A m c

  pub run : DegradationManager A → List (Call A) → DegradationManager A
  run m [] = m
  run m (c ∷ cs) = run (step m c) cs
