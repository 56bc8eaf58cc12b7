-- ===== src/Core/Services/Restarts.antt =====
-- The restart limit: how many restarts any window of time can hold.
use ig_trading_bot.Common.{
  ℕ, ◌≤◌, ◌<◌, ◌≡◌, refl, String, Bool, true, false, ◌&&◌, none, some, List, [], ◌∷◌, ◌++◌, Arith,
  IsOrdered, IsMonotone, arith, keep, length, lookup, insert, Every, Every-insert, Every-erase,
  length-keep_mono, length-keep-append_one, Bool-cases, Option-cases, inl, leb, leb→gt, ◌∙◌,
  if◌then◌else◌, inr,
}
use ig_trading_bot.Core.Services.{
  ServiceManager, ServiceState, RestartRecord, FnResult, done, raised, Call, register_call,
  unregister_call, begin_start_call, end_start_call, end_stop_call, resume_call, error_call,
  run_call, halt_call, register, unregister, begin_start, change, end_start, end_stop,
  recent_restarts, handle_service_error, resume_restart, start_ended, step, run, mark_failed,
  mark_restarting,
}

module _ (A : Arith) (limit : ℕ) (window : A.Num) where
  -- The restarts of a service recorded between t minus the window and t.
  pub restarts_in_window : A.Num → List (RestartRecord A) → ℕ
  restarts_in_window t rs =
      length (keep (λ r. A.le (A.sub t window) r.timestamp && A.le r.timestamp t) rs)

  abbrev pub IsLimited : ServiceState A → Type 0
  IsLimited s = (t : A.Num) → restarts_in_window t s.restart_history ≤ limit

  -- Every service keeps to the limit, at the settings of the manager.
  record IsValid (m : ServiceManager A) : Type 0 where
    limit_is : m.max_restart_attempts ≡ limit
    window_is : m.restart_window_seconds ≡ window
    limited : Every IsLimited m.services

  module _ (ordered : IsOrdered A) (monotone : IsMonotone A) where
    -- A restart is recorded only below the limit, so it fits every window that it falls in.
    IsLimited-append :
        (s : ServiceState A) (now : A.Num) (e : String)
        → IsLimited s
        → length (keep (λ r. A.le (A.sub now window) r.timestamp) s.restart_history) < limit
        → (t : A.Num)
        → restarts_in_window t (s.restart_history ++ record { timestamp = now; error = e } ∷ [])
          ≤ limit
    unfolding restarts_in_window
    IsLimited-append s now e old room t = elim (Bool-cases (A.le now t)) [
      | inl later ↦ ground (
        arith,
        length-keep-append_one in_window s.restart_history (record { timestamp = now; error = e }),
        length-keep_mono in_window recent (weaker later) s.restart_history,
      )
      | inr earlier ↦ ground (
        arith,
        old t,
        length-keep-append_one in_window s.restart_history (record { timestamp = now; error = e }),
      )
    ]
      where
        in_window : RestartRecord A → Bool
        in_window r = A.le (A.sub t window) r.timestamp && A.le r.timestamp t

        recent : RestartRecord A → Bool
        recent r = A.le (A.sub now window) r.timestamp

        both : (a b : Bool) → (a && b) ≡ true → a ≡ true
        both a b h = ground arith

        weaker : A.le now t ≡ true → (r : RestartRecord A) → in_window r ≡ true → recent r ≡ true
        weaker later r h =
            ordered.le_trans _ _ _ (monotone.sub_mono now t window later) (both _ _ h)

    start_ended-IsLimited :
        (s : ServiceState A) (r : FnResult) (now : A.Num)
        → IsLimited s
        → IsLimited (start_ended A s r now)
    start_ended-IsLimited s done now h = h
    start_ended-IsLimited s (raised e) now h = h

    -- A manager that differs by one service that keeps to the limit, and in what is no setting.
    insert-IsValid :
        (m m' : ServiceManager A) (n : String) (s : ServiceState A)
        → IsValid m
        → m'.max_restart_attempts ≡ m.max_restart_attempts
        → m'.restart_window_seconds ≡ m.restart_window_seconds
        → m'.services ≡ insert n s m.services
        → IsLimited s
        → IsValid m'
    insert-IsValid m m' n s v same same' new limited = record {
      limit_is = same ∙ v.limit_is;
      window_is = same' ∙ v.window_is;
      limited = rw new (Every-insert IsLimited n s m.services limited v.limited);
    }

    begin_start-IsValid :
        (m : ServiceManager A) (n : String) → IsValid m → IsValid (begin_start A m n).0
    unfolding begin_start
    begin_start-IsValid m n v = elim (Option-cases (lookup n m.services)) [
      | inl missing ↦ rw (missing, begin_start) v
      | inr (s, found) ↦
          rw (found, begin_start) (insert-IsValid m _ n _ v refl refl refl (v.limited n s found))
    ]

    change-IsValid :
        (m : ServiceManager A) (n : String) (object : ℕ) (f : ServiceState A → ServiceState A)
        → ((s : ServiceState A) → IsLimited s → IsLimited (f s))
        → IsValid m
        → IsValid (change A m n object f)
    change-IsValid m n object f kept v = elim (Option-cases (lookup n m.services)) [
      | inl missing ↦ rw (missing, change) v
      | inr (s, found) ↦ elim (Bool-cases (leb s.object object && leb object s.object)) [
        | inl same ↦
            rw (found, same, change)
              (insert-IsValid m _ n _ v refl refl refl (kept s (v.limited n s found)))
        | inr other ↦ rw (found, other, change) v
      ]
    ]

    handle_service_error-IsValid :
        (m : ServiceManager A) (n e : String) (now : A.Num)
        → IsValid m
        → IsValid (handle_service_error A m n e now).0
    unfolding handle_service_error
    handle_service_error-IsValid m n e now v = elim (Option-cases (lookup n m.services)) [
      | inl missing ↦ rw (missing, handle_service_error) v
      | inr (s, found) ↦ rw (found, handle_service_error) (go s found)
    ]
      where
        go :
            (s : ServiceState A)
            → lookup n m.services ≡ some s
            → let out : ServiceManager A × Bool =
                if leb m.max_restart_attempts (length (recent_restarts A m s now))
                then (mark_failed A m n s e, false)
                else (mark_restarting A m n s e now, true) in
              IsValid out.0
        go s found =
            elim (Bool-cases (leb m.max_restart_attempts (length (recent_restarts A m s now)))) [
              | inl spent ↦ rw spent (insert-IsValid m _ n _ v refl refl refl (v.limited n s found))
              | inr room ↦ rw room (
                  insert-IsValid m _ n _ v refl refl refl (
                    IsLimited-append s now e (v.limited n s found)
                      (rw (v.limit_is, v.window_is) at (leb→gt _ _ room))))
            ]

    step-IsValid : (m : ServiceManager A) (c : Call A) → IsValid m → IsValid (step A m c)
    unfolding step register unregister end_start end_stop resume_restart
    step-IsValid m (register_call n) v =
        insert-IsValid m _ n _ v refl refl refl (λ t. unfold restarts_in_window keep in omega arith)
    step-IsValid m (unregister_call n) v = record {
      limit_is = v.limit_is;
      window_is = v.window_is;
      limited = Every-erase IsLimited n m.services v.limited;
    }
    step-IsValid m (begin_start_call n) v = begin_start-IsValid m n v
    step-IsValid m (end_start_call n object r now) v =
        change-IsValid m n object _ (λ s h. start_ended-IsLimited s r now h) v
    step-IsValid m (end_stop_call n object) v = change-IsValid m n object _ (λ s h. h) v
    step-IsValid m (resume_call n) v = go m.is_running
      where
        go : (b : Bool) → IsValid (if b then begin_start A m n else (m, none)).0
        go true = begin_start-IsValid m n v
        go false = v
    step-IsValid m (error_call n e now) v = handle_service_error-IsValid m n e now v
    step-IsValid m run_call v = record {
      limit_is = v.limit_is;
      window_is = v.window_is;
      limited = v.limited;
    }
    step-IsValid m halt_call v = record {
      limit_is = v.limit_is;
      window_is = v.window_is;
      limited = v.limited;
    }

    run-IsValid : (cs : List (Call A)) (m : ServiceManager A) → IsValid m → IsValid (run A m cs)
    unfolding run
    run-IsValid [] m v = v
    run-IsValid (c ∷ cs) m v = run-IsValid cs (step A m c) (step-IsValid m c v)

    -- Whatever steps a manager without services takes, and in whatever order, no window of the
    -- configured length that ends at any time t holds more recorded restarts of one service than
    -- the configured limit. The order of the numbers is total and subtraction keeps it.
    pub restarts_are_limited :
        (m : ServiceManager A) (cs : List (Call A)) (n : String) (s : ServiceState A) (t : A.Num)
        → m.max_restart_attempts ≡ limit
        → m.restart_window_seconds ≡ window
        → m.services ≡ []
        → lookup n (run A m cs).services ≡ some s
        → restarts_in_window t s.restart_history ≤ limit
    restarts_are_limited m cs n s t same same' fresh found =
        (run-IsValid cs m (record {
          limit_is = same;
          window_is = same';
          limited = λ k v e. absurd (empty k v (rw fresh at e));
        })).limited
          n s found t
      where
        empty : (k : String) (v : ServiceState A) → lookup {V = ServiceState A} k [] ≡ some v → ⊥
        empty k v e = unfold lookup in cc
