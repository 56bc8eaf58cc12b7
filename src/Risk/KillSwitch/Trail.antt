-- ===== src/Risk/KillSwitch/Trail.antt =====
-- The audit trail: which triggers activated the switch, and what was published of them.
use ig_trading_bot.Common.{
  ℕ, ◌+◌, ◌≡◌, refl, Bool, true, false, List, [], ◌∷◌, ◌++◌, Arith, arith, String, inl, inr,
  Bool-cases, if◌then◌else◌,
}
use ig_trading_bot.Risk.KillSwitch.{
  KillSwitch, Reason, Call, Reply, ActivationEvent, TriggerRecord, activate_call, vix_call,
  loss_call, drawdown_call, crisis_call, deactivate_call, is_active, activate, step, run, returned,
  new,
}

abbrev pub one_if : Bool → ℕ
one_if true = 1
one_if false = 0

abbrev pub was_released : {A : Arith} → Call A → Reply → Bool
was_released (deactivate_call _ _) (returned true) = true
was_released _ _ = false

abbrev pub count_activated : {A : Arith} → List (TriggerRecord A) → ℕ
count_activated [] = 0
count_activated (t ∷ ts) = one_if t.activated + count_activated ts

count_activated-append_one :
    {A : Arith} (ts : List (TriggerRecord A)) (t : TriggerRecord A)
    → count_activated (ts ++ t ∷ []) ≡ count_activated ts + one_if t.activated
count_activated-append_one [] t = omega arith
count_activated-append_one (u ∷ ts) t = omega (arith, count_activated-append_one ts t)

-- The events of the records that activated the switch, in order.
abbrev pub events_of : {A : Arith} → List (TriggerRecord A) → List (ActivationEvent A)
events_of [] = []
events_of (t ∷ ts) =
    if t.activated
    then record { reason = t.reason; timestamp = t.timestamp; trigger_source = t.trigger_source }
      ∷ events_of ts
    else events_of ts

abbrev event_of : {A : Arith} → TriggerRecord A → ActivationEvent A
event_of t = record {
  reason = t.reason;
  timestamp = t.timestamp;
  trigger_source = t.trigger_source;
}

events_of-append_one :
    {A : Arith} (ts : List (TriggerRecord A)) (t : TriggerRecord A)
    → events_of (ts ++ t ∷ [])
      ≡ (if t.activated then events_of ts ++ event_of t ∷ [] else events_of ts)
events_of-append_one [] t = refl
events_of-append_one (u ∷ ts) t = ground (arith, events_of-append_one ts t)

module _ (A : Arith) where
  -- How many of the calls released the switch.
  pub releases : KillSwitch A → List (Call A) → ℕ
  releases s [] = 0
  releases s (c ∷ cs) = one_if (was_released c (step A s c).1) + releases (step A s c).0 cs

  step_counts :
      (s : KillSwitch A) (c : Call A)
      → count_activated (step A s c).0.trigger_sources + one_if (is_active A s)
        ≡ count_activated s.trigger_sources
          + one_if (was_released c (step A s c).1)
          + one_if (is_active A (step A s c).0)
  unfolding step
  step_counts s (activate_call r src now) = grind (arith, count_activated-append_one)
  step_counts s (vix_call v m sd now) = grind (arith, count_activated-append_one)
  step_counts s (loss_call l now) = grind (arith, count_activated-append_one)
  step_counts s (drawdown_call l now) = grind (arith, count_activated-append_one)
  step_counts s (crisis_call g m now) = grind (arith, count_activated-append_one)
  step_counts s (deactivate_call tok now) = ground arith

  -- From any state, the triggers that activate the switch and the calls that release it alternate.
  run_counts :
      (s : KillSwitch A) (cs : List (Call A))
      → count_activated (run A s cs).trigger_sources + one_if (is_active A s)
        ≡ count_activated s.trigger_sources + releases s cs + one_if (is_active A (run A s cs))
  unfolding run releases
  run_counts s [] = omega arith
  run_counts s (c ∷ cs) = omega (arith, step_counts s c, run_counts (step A s c).0 cs)

  -- What is published are the events of the records that activated the switch.
  abbrev IsPublished : KillSwitch A → Type 0
  IsPublished s = (s.has_publisher ≡ true) × (s.published ≡ events_of s.trigger_sources)

  activate-IsPublished :
      (s : KillSwitch A) (r : Reason A) (source : String) (now : ℕ)
      → IsPublished s
      → IsPublished (activate A s r source now).0
  unfolding activate
  activate-IsPublished s r source now h = elim (Bool-cases (is_active A s)) [
    | inl on ↦ rw on (h.0, rw events_of-append_one h.1)
    | inr off ↦ rw off (h.0, rw (h.0, events_of-append_one, h.1))
  ]

  -- Each of the four triggers is an activation under a test.
  guarded-IsPublished :
      (b : Bool) (s : KillSwitch A) (r : Reason A) (source : String) (now : ℕ)
      → IsPublished s
      → IsPublished ((if b then activate A s r source now else (s, returned false)).0)
  guarded-IsPublished true s r source now h = activate-IsPublished s r source now h
  guarded-IsPublished false s r source now h = h

  step-IsPublished : (s : KillSwitch A) (c : Call A) → IsPublished s → IsPublished (step A s c).0
  unfolding step
  step-IsPublished s (activate_call r src now) h = activate-IsPublished s r src now h
  step-IsPublished s (vix_call v m sd now) h = guarded-IsPublished _ s _ _ now h
  step-IsPublished s (loss_call l now) h = guarded-IsPublished _ s _ _ now h
  step-IsPublished s (drawdown_call l now) h = guarded-IsPublished _ s _ _ now h
  step-IsPublished s (crisis_call g m now) h = guarded-IsPublished _ s _ _ now h
  step-IsPublished s (deactivate_call tok now) h = ground arith

  run-IsPublished :
      (s : KillSwitch A) (cs : List (Call A)) → IsPublished s → IsPublished (run A s cs)
  unfolding run
  run-IsPublished s [] h = h
  run-IsPublished s (c ∷ cs) h = run-IsPublished (step A s c).0 cs (step-IsPublished s c h)

  -- Of a new switch with a publisher, after any calls: the triggers recorded as activating are as
  -- many as the calls that released the switch, and one more while it is active; and the events
  -- published are those triggers, in the order of the trail.
  pub trail_accounts :
      (minutes retries : ℕ) (cs : List (Call A))
      → let s = run A (new A minutes retries true) cs in
        (count_activated s.trigger_sources
          ≡ releases (new A minutes retries true) cs + one_if (is_active A s))
        × (s.published ≡ events_of s.trigger_sources)
  unfolding new
  trail_accounts minutes retries cs = (
    omega (arith, run_counts (new A minutes retries true) cs),
    (run-IsPublished (new A minutes retries true) cs (refl, refl)).1,
  )
