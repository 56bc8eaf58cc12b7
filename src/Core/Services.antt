-- ===== src/Core/Services.antt =====
-- src/core/service_manager.py: services that are started, stopped and restarted after a crash.
-- The functions a service is registered with are outside the manager: how a call of one ends, and
-- what the clock reads, are arguments. Where a method awaits such a function or sleeps, it is two
-- steps, and other calls may come between: `Call` lists the steps. A method that holds a service's
-- state over an await holds an object, which a new registration does not replace: `object` tells the
-- objects apart. Nothing ever assigns the field `task`, so it is left out.
pub mod Restarts
pub mod Stopping
mod Tests
use ig_trading_bot.Common.{
  ℕ, suc, String, Bool, true, false, Option, none, some, List, [], ◌∷◌, ◌++◌, Arith, if◌then◌else◌,
  leb, ◌&&◌, Dict, lookup, insert, erase, keep, length, keys,
}

pub data ServiceStatus : Type 0 where
  stopped starting running restarting failed : ServiceStatus

pub record RestartRecord (A : Arith) : Type 0 where
  pub timestamp : A.Num
  pub error : String

pub record ServiceState (A : Arith) : Type 0 where
  pub name : String
  pub object : ℕ
  pub status : ServiceStatus
  pub restart_history : List (RestartRecord A)
  pub last_error : Option String
  pub started_at : Option A.Num

-- `notified` is what the optional callback `on_service_failed` was called with.
pub record ServiceManager (A : Arith) : Type 0 where
  pub services : Dict (ServiceState A)
  pub next_object : ℕ
  pub max_restart_attempts : ℕ
  pub restart_window_seconds : A.Num
  pub has_callback : Bool
  pub is_running : Bool
  pub notified : List (String × String)

-- How an awaited function of a service ends; an exception comes with its text.
pub data FnResult : Type 0 where
  done : FnResult
  raised : String → FnResult

abbrev pub is_up : ServiceStatus → Bool
is_up running = true
is_up restarting = true
is_up _ = false

module _ (A : Arith) where
  open A use {Num, sub, le}

  pub register : ServiceManager A → String → ServiceManager A
  register m n = record m {
    services =
        insert n
          (record {
            name = n;
            object = m.next_object;
            status = stopped;
            restart_history = [];
            last_error = none;
            started_at = none;
          })
          m.services;
    next_object = suc m.next_object;
  }

  pub unregister : ServiceManager A → String → ServiceManager A
  unregister m n = record m { services = erase n m.services }

  -- The end of `start_service`, once `start_fn` has returned or raised.
  abbrev pub start_ended : ServiceState A → FnResult → Num → ServiceState A
  start_ended s done now = record s { status = running; started_at = some now; last_error = none }
  start_ended s (raised e) now = record s { status = failed; last_error = some e }

  -- `start_service` up to its await, and the object that it holds, if it goes on.
  pub begin_start : ServiceManager A → String → ServiceManager A × Option ℕ
  begin_start m n = elim (lookup n m.services) [
    | none ↦ (m, none)
    | some s ↦ (
      record m { services = insert n (record s { status = starting }) m.services },
      some s.object,
    )
  ]

  -- A change of an object, which is seen if it is still the one under the name.
  abbrev pub change :
      ServiceManager A → String → ℕ → (ServiceState A → ServiceState A) → ServiceManager A
  change m n object f = elim (lookup n m.services) [
    | none ↦ m
    | some s ↦
        if leb s.object object && leb object s.object
        then record m { services = insert n (f s) m.services }
        else m
  ]

  pub end_start : ServiceManager A → String → ℕ → FnResult → Num → ServiceManager A
  end_start m n object result now = change m n object (λ s. start_ended s result now)

  -- `stop_service` after its await. An exception of `stop_fn` is caught and logged.
  pub end_stop : ServiceManager A → String → ℕ → ServiceManager A
  end_stop m n object = change m n object (λ s. record s { status = stopped; started_at = none })

  pub recent_restarts : ServiceManager A → ServiceState A → Num → List (RestartRecord A)
  recent_restarts m s now =
      let cutoff = sub now m.restart_window_seconds in
      keep (λ r. le cutoff r.timestamp) s.restart_history

  abbrev pub mark_failed : ServiceManager A → String → ServiceState A → String → ServiceManager A
  mark_failed m n s e = record m {
    services = insert n (record s { status = failed; last_error = some e }) m.services;
    notified = (if m.has_callback then m.notified ++ (n, e) ∷ [] else m.notified);
  }

  abbrev pub mark_restarting :
      ServiceManager A → String → ServiceState A → String → Num → ServiceManager A
  mark_restarting m n s e now = record m {
    services =
        insert n
          (record s {
            status = restarting;
            last_error = some e;
            restart_history = s.restart_history ++ record { timestamp = now; error = e } ∷ [];
          })
          m.services;
  }

  -- `handle_service_error` up to its sleep; the Boolean says that it sleeps, and will resume.
  pub handle_service_error : ServiceManager A → String → String → Num → ServiceManager A × Bool
  unfolding recent_restarts
  handle_service_error m n e now = elim (lookup n m.services) [
    | none ↦ (m, false)
    | some s ↦
        if leb m.max_restart_attempts (length (recent_restarts m s now))
        then (mark_failed m n s e, false)
        else (mark_restarting m n s e now, true)
  ]

  -- `handle_service_error` after its sleep, up to the await of the restart.
  pub resume_restart : ServiceManager A → String → ServiceManager A × Option ℕ
  unfolding begin_start
  resume_restart m n = if m.is_running then begin_start m n else (m, none)

  -- `get_status`
  pub get_status : ServiceManager A → String → Option ServiceStatus
  get_status m n = elim (lookup n m.services) [ none ↦ none | some s ↦ some s.status ]

-- The steps that change a manager, in any order that the event loop may bring. The last two are the
-- first lines of `start_all` and `stop_all`.
pub data Call (A : Arith) : Type 0 where
  register_call unregister_call begin_start_call resume_call : String → Call A
  end_start_call : String → ℕ → FnResult → A.Num → Call A
  end_stop_call : String → ℕ → Call A
  error_call : String → String → A.Num → Call A
  run_call halt_call : Call A

module _ (A : Arith) where
  pub step : ServiceManager A → Call A → ServiceManager A
  step m (register_call n) = register A m n
  step m (unregister_call n) = unregister A m n
  step m (begin_start_call n) = (begin_start A m n).0
  step m (end_start_call n object r now) = end_start A m n object r now
  step m (end_stop_call n object) = end_stop A m n object
  step m (resume_call n) = (resume_restart A m n).0
  step m (error_call n e now) = (handle_service_error A m n e now).0
  step m run_call = record m { is_running = true }
  step m halt_call = record m { is_running = false }

  pub run : ServiceManager A → List (Call A) → ServiceManager A
  unfolding step
  run m [] = m
  run m (c ∷ cs) = run (step m c) cs

  abbrev is_done : FnResult → Bool
  is_done done = true
  is_done (raised e) = false

  -- The whole methods, with the steps of others that come during each await.
  pub start_service :
      ServiceManager A → String → List (Call A) → FnResult → A.Num → ServiceManager A × Bool
  unfolding begin_start end_start run
  start_service m n between result now =
      let (m', begun) = begin_start A m n in
      elim begun [
        | none ↦ (m', false)
        | some object ↦ (end_start A (run m' between) n object result now, is_done result)
      ]

  pub stop_service : ServiceManager A → String → List (Call A) → ServiceManager A × Bool
  unfolding end_stop run
  stop_service m n between = elim (lookup n m.services) [
    | none ↦ (m, false)
    | some s ↦ (end_stop A (run m between) n s.object, true)
  ]

  -- The loop of `start_all`, over the names, which the others leave as they are.
  pub start_each :
      ServiceManager A
      → List String
      → (String → List (Call A))
      → (String → FnResult)
      → (String → A.Num)
      → ServiceManager A
  unfolding start_service
  start_each m [] between results now = m
  start_each m (n ∷ ns) between results now =
      start_each (start_service m n (between n) (results n) (now n)).0 ns between results now

  pub start_all :
      ServiceManager A
      → (String → List (Call A))
      → (String → FnResult)
      → (String → A.Num)
      → ServiceManager A
  unfolding start_each
  start_all m between results now =
      start_each (record m { is_running = true }) (keys m.services) between results now

  pub stop_if_up : ServiceManager A → String → List (Call A) → ServiceManager A
  unfolding stop_service
  stop_if_up m n between = elim (lookup n m.services) [
    | none ↦ m
    | some s ↦ if is_up s.status then (stop_service m n between).0 else m
  ]

  -- The loop of `stop_all`, over the names it had at first. It ends, with an exception, at a name
  -- that is not registered any more.
  pub stop_each : ServiceManager A → List String → (String → List (Call A)) → ServiceManager A
  unfolding stop_if_up
  stop_each m [] between = m
  stop_each m (n ∷ ns) between = elim (lookup n m.services) [
    | none ↦ m
    | some s ↦ stop_each (stop_if_up m n (between n)) ns between
  ]

  pub stop_all : ServiceManager A → (String → List (Call A)) → ServiceManager A
  unfolding stop_each
  stop_all m between = stop_each (record m { is_running = false }) (keys m.services) between
