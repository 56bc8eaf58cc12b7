-- ===== src/Risk/KillSwitch/Lockout.antt =====
-- How long an activation holds: no call releases the switch before the minimum duration is over.
use ig_trading_bot.Common.{ℕ, ◌+◌, ◌<◌, ◌≡◌, String, false, some, List, [], ◌∷◌, Arith, All, arith}
use ig_trading_bot.Risk.KillSwitch.{
  KillSwitch, Call, Reason, ActivationEvent, active, activate_call, vix_call, loss_call,
  drawdown_call, crisis_call, deactivate_call, is_active, is_signal_allowed, activate, step, run,
}

abbrev pub time_of : {A : Arith} → Call A → ℕ
time_of (activate_call _ _ now) = now
time_of (vix_call _ _ _ now) = now
time_of (loss_call _ now) = now
time_of (drawdown_call _ now) = now
time_of (crisis_call _ _ now) = now
time_of (deactivate_call _ now) = now

module _ (A : Arith) where
  -- The switch holds the activation `e`, whose earliest release is at `e.timestamp + duration`.
  record Holds (e : ActivationEvent A) (duration : ℕ) (s : KillSwitch A) : Type 0 where
    is_held : s.state ≡ active
    since : s.activation_time ≡ some e.timestamp
    because : s.activation_reason ≡ e.reason
    event : s.activation_event ≡ some e
    wait : s.min_active_duration ≡ duration

  step-Holds :
      (e : ActivationEvent A) (d : ℕ) (s : KillSwitch A) (c : Call A)
      → Holds e d s
      → time_of c < e.timestamp + d
      → Holds e d (step A s c).0
  unfolding step
  step-Holds e d s (activate_call r src now) h lt = ground arith
  step-Holds e d s (vix_call v m sd now) h lt = ground arith
  step-Holds e d s (loss_call l now) h lt = ground arith
  step-Holds e d s (drawdown_call l now) h lt = ground arith
  step-Holds e d s (crisis_call g m now) h lt = ground arith
  step-Holds e d s (deactivate_call tok now) h lt = ground arith

  run-Holds :
      (e : ActivationEvent A) (d : ℕ) (s : KillSwitch A) (cs : List (Call A))
      → Holds e d s
      → All (λ c. time_of c < e.timestamp + d) cs
      → Holds e d (run A s cs)
  unfolding run
  run-Holds e d s [] h early = h
  run-Holds e d s (c ∷ cs) h early =
      run-Holds e d (step A s c).0 cs (step-Holds e d s c h early.0) early.1

  -- After an activation at time t, any calls whatever (further triggers and deactivations with any
  -- token) whose clock reads less than t plus the minimum duration leave every signal rejected,
  -- and leave the reason, the time and the event of that first activation in place.
  pub activation_locks_out :
      (s : KillSwitch A) (r : Reason A) (source : String) (t : ℕ) (cs : List (Call A))
      → is_active A s ≡ false
      → All (λ c. time_of c < t + s.min_active_duration) cs
      → let s' = run A (activate A s r source t).0 cs in
        ((any_source : String) → is_signal_allowed A s' any_source ≡ false)
        × (s'.activation_reason ≡ r)
        × (s'.activation_time ≡ some t)
        × (s'.activation_event
            ≡ some (record { reason = r; timestamp = t; trigger_source = source }))
  unfolding activate is_signal_allowed
  activation_locks_out s r source t cs idle early =
      let e : ActivationEvent A = record { reason = r; timestamp = t; trigger_source = source } in
      let held =
        run-Holds e s.min_active_duration (activate A s r source t).0 cs (ground arith) early in
      (λ any. ground (arith, held), held.because, held.since, held.event)

  -- An activation, or one of a switch that is active already, leaves every signal rejected.
  pub activate-locks :
      (s : KillSwitch A) (r : Reason A) (source signal : String) (now : ℕ)
      → is_signal_allowed A (activate A s r source now).0 signal ≡ false
  unfolding activate is_signal_allowed
  activate-locks s r source signal now = ground arith
