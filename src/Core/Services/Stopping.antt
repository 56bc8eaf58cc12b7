-- ===== src/Core/Services/Stopping.antt =====
-- Stopping: a stop that comes while a restart sleeps, and a stop of all while a service starts.
use ig_trading_bot.Common.{
  ℕ, ◌≡◌, refl, ap, ◌∙◌, String, true, ◌&&◌, Option, none, some, [], ◌∷◌, ◌++◌, Arith, arith,
  lookup, insert, lookup-insert_self, false-ne-true, Bool-cases, Option-cases, inl, inr,
  if◌then◌else◌, leb, length,
}
use ig_trading_bot.Core.Services.{
  ServiceManager, ServiceState, FnResult, done, running, stopped, restarting, starting, begin_start,
  change, end_start, end_stop, stop_service, recent_restarts, handle_service_error, resume_restart,
  get_status, start_ended, run,
}

module _ (A : Arith) where
  change-found :
      (m : ServiceManager A) (n : String) (s : ServiceState A) (f : ServiceState A → ServiceState A)
      → lookup n m.services ≡ some s
      → lookup n (change A m n s.object f).services ≡ some (f s)
  change-found m n s f found =
      let same : (leb s.object s.object && leb s.object s.object) ≡ true = ground arith in
      rw (found, same, change) (lookup-insert_self n (f s) m.services)

  change-is_running :
      (m : ServiceManager A) (n : String) (object : ℕ) (f : ServiceState A → ServiceState A)
      → (change A m n object f).is_running ≡ m.is_running
  change-is_running m n object f = ground arith

  -- The start function ends at once, with nothing in between.
  abbrev pub finish : String → FnResult → A.Num → ServiceManager A × Option ℕ → ServiceManager A
  finish n result now (m, none) = m
  finish n result now (m, some object) = end_start A m n object result now

  get_status-found :
      (m : ServiceManager A) (n : String) (s : ServiceState A)
      → lookup n m.services ≡ some s
      → get_status A m n ≡ some s.status
  unfolding get_status
  get_status-found m n s found = rw (found, get_status)

  abbrev started : ServiceManager A → String → ServiceState A → ServiceManager A
  started m n s = record m { services = insert n (record s { status = starting }) m.services }

  begin_start-found :
      (m : ServiceManager A) (n : String) (s : ServiceState A)
      → lookup n m.services ≡ some s
      → begin_start A m n ≡ (started m n s, some s.object)
  unfolding begin_start
  begin_start-found m n s found = rw (found, begin_start) refl

  resume_restart-begins :
      (m : ServiceManager A) (n : String)
      → m.is_running ≡ true
      → resume_restart A m n ≡ begin_start A m n
  unfolding resume_restart
  resume_restart-begins m n up = ap (λ b. if b then begin_start A m n else (m, none)) up

  finish-running :
      (m : ServiceManager A) (n : String) (s : ServiceState A) (now : A.Num)
      → lookup n m.services ≡ some s
      → get_status A (finish n done now (m, some s.object)) n ≡ some running
  unfolding end_start
  finish-running m n s now found =
      get_status-found (end_start A m n s.object done now) n (start_ended A s done now)
        (change-found m n s (λ t. start_ended A t done now) found)

  restarted-running :
      (m : ServiceManager A) (n : String) (s : ServiceState A) (now : A.Num)
      → m.is_running ≡ true
      → lookup n m.services ≡ some s
      → get_status A (finish n done now (resume_restart A m n)) n ≡ some running
  restarted-running m n s now up found =
      ap (λ p. get_status A (finish n done now p) n)
        (resume_restart-begins m n up ∙ begin_start-found m n s found)
      ∙ finish-running (started m n s) n (record s { status = starting }) now
          (lookup-insert_self n (record s { status = starting }) m.services)

  stop_service-lookup :
      (m : ServiceManager A) (n : String) (s : ServiceState A)
      → lookup n m.services ≡ some s
      → (t : ServiceState A) × (lookup n (stop_service A m n []).0.services ≡ some t)
        × ((stop_service A m n []).0.is_running ≡ m.is_running)
  unfolding stop_service end_stop run
  stop_service-lookup m n s found =
      let f : ServiceState A → ServiceState A =
        λ t. record t { status = stopped; started_at = none } in
      (
        f s,
        rw (found, stop_service) (change-found m n s f found),
        rw (found, stop_service) (change-is_running m n s.object f),
      )

  -- What is known of a manager in which the restart of `n` sleeps.
  asleep :
      (m : ServiceManager A) (n e : String) (now : A.Num)
      → (handle_service_error A m n e now).1 ≡ true
      → (s : ServiceState A) × (lookup n (handle_service_error A m n e now).0.services ≡ some s)
        × ((handle_service_error A m n e now).0.is_running ≡ m.is_running)
  unfolding handle_service_error
  asleep m n e now sleeps = elim (Option-cases (lookup n m.services)) [
    | inl missing ↦ absurd (false-ne-true (rw (missing, handle_service_error) at sleeps))
    | inr (s, found) ↦
        elim (Bool-cases (leb m.max_restart_attempts (length (recent_restarts A m s now)))) [
          | inl spent ↦ absurd (false-ne-true (rw (found, handle_service_error, spent) at sleeps))
          | inr room ↦ (
            record s {
              status = restarting;
              last_error = some e;
              restart_history = s.restart_history ++ record { timestamp = now; error = e } ∷ [];
            },
            rw (found, handle_service_error, room) (lookup-insert_self n _ m.services),
            rw (found, handle_service_error, room),
          )
        ]
  ]

  -- A stop does not cancel a restart that sleeps: in a running manager, a service that crashed and
  -- was to be restarted, and was then stopped by `stop_service`, runs again once the sleep is over
  -- and its start function returns. Here nothing else happens during the two awaits.
  pub stop_service_loses_to_restart :
      (m : ServiceManager A) (n e : String) (now later : A.Num)
      → m.is_running ≡ true
      → (handle_service_error A m n e now).1 ≡ true
      → let m' = (stop_service A (handle_service_error A m n e now).0 n []).0 in
        get_status A (finish n done later (resume_restart A m' n)) n ≡ some running
  stop_service_loses_to_restart m n e now later up sleeps =
      let (s, found, same) = asleep m n e now sleeps in
      let h = (handle_service_error A m n e now).0 in
      let (t, found', same') = stop_service-lookup h n s found in
      restarted-running (stop_service A h n []).0 n t later (same' ∙ same ∙ up) found'
