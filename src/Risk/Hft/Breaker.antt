-- ===== src/Risk/Hft/Breaker.antt =====
-- The circuit breaker: how long it halts trading, when it disables it, and what clears it.
use ig_trading_bot.Common.{
  ℕ, ◌+◌, ◌≤◌, ◌<◌, ◌≡◌, refl, true, false, Option, none, some, List, [], ◌∷◌, Arith, arith, All,
  length, length-keep-append_one, ltb,
}
use ig_trading_bot.Risk.Hft.{
  HftRiskManager, CircuitBreakerEvent, Call, pnl_call, activate_call, deactivate_call,
  re_enable_call, allowed_call, check_call, order_call, rejection_call, global_call, throttle_call,
  instrument_call, status_call, judge_rate, check_global_rate, check_instrument_rate,
  should_throttle, get_rejection_rate, get_status, breaker_duration, breaker_window, recent_events,
  activate_circuit_breaker, update_pnl, deactivate_circuit_breaker, is_hft_allowed, re_enable_hft,
  record_order, record_rejection, check_rate_limit, step, run, record_pnl,
}

module _ (A F : Arith) where
  abbrev pub NotReEnabled : Call A F → Type 0
  NotReEnabled re_enable_call = ⊥
  NotReEnabled _ = Unit

  step_keeps_disabled :
      (m : HftRiskManager A F) (c : Call A F)
      → NotReEnabled c
      → m.hft_disabled ≡ true
      → (step A F m c).hft_disabled ≡ true
  unfolding step update_pnl activate_circuit_breaker deactivate_circuit_breaker is_hft_allowed
      record_order record_rejection check_rate_limit check_global_rate check_instrument_rate
      should_throttle get_rejection_rate get_status judge_rate
  step_keeps_disabled m (pnl_call p e now now') ok h = ground arith
  step_keeps_disabled m (activate_call p e now) ok h = ground arith
  step_keeps_disabled m deactivate_call ok h = h
  step_keeps_disabled m re_enable_call ok h = absurd ok
  step_keeps_disabled m (allowed_call now) ok h = ground arith
  step_keeps_disabled m (check_call i now) ok h = ground arith
  step_keeps_disabled m (order_call i now) ok h = h
  step_keeps_disabled m (rejection_call t now) ok h = h
  step_keeps_disabled m (global_call now) ok h = h
  step_keeps_disabled m (throttle_call now) ok h = ground arith
  step_keeps_disabled m (instrument_call i now) ok h = ground arith
  step_keeps_disabled m (status_call t now) ok h = ground arith

  run_keeps_disabled :
      (m : HftRiskManager A F) (cs : List (Call A F))
      → All NotReEnabled cs
      → m.hft_disabled ≡ true
      → (run A F m cs).hft_disabled ≡ true
  unfolding run
  run_keeps_disabled m [] ok h = h
  run_keeps_disabled m (c ∷ cs) ok h =
      run_keeps_disabled (step A F m c) cs ok.1 (step_keeps_disabled m c ok.0 h)

  -- How many events are less than an hour old.
  abbrev pub activations_at : List (CircuitBreakerEvent A) → ℕ → ℕ
  activations_at events now = length (recent_events A F events now)

  activate-disables :
      (m : HftRiskManager A F) (pnl equity : A.Num) (now : ℕ)
      → 2 ≤ activations_at m.circuit_breaker_events now
      → (activate_circuit_breaker A F m pnl equity now).hft_disabled ≡ true
  unfolding activate_circuit_breaker recent_events
  activate-disables m pnl equity now two = ground (
    arith,
    length-keep-append_one (λ e. ltb now (e.timestamp + breaker_window)) m.circuit_breaker_events
        (record { timestamp = now; pnl_at_activation = pnl; equity_at_activation = equity }),
  )

  -- The third activation within an hour disables HFT, and it stays disabled, and disallowed at
  -- every reading of the clock, through any calls but the manual re-enabling.
  pub third_activation_disables :
      (m : HftRiskManager A F) (pnl equity : A.Num) (now later : ℕ) (cs : List (Call A F))
      → 2 ≤ activations_at m.circuit_breaker_events now
      → All NotReEnabled cs
      → (is_hft_allowed A F (run A F (activate_circuit_breaker A F m pnl equity now) cs) later).1
        ≡ false
  unfolding is_hft_allowed
  third_activation_disables m pnl equity now later cs two ok =
      let h =
        run_keeps_disabled (activate_circuit_breaker A F m pnl equity now) cs ok
          (activate-disables m pnl equity now two) in
      rw (h, is_hft_allowed)

  -- Clocks that read no earlier than `t`, and queries before the pause is over; nobody deactivates
  -- the breaker or re-enables HFT by hand.
  abbrev pub Endures : ℕ → Call A F → Type 0
  Endures t (pnl_call p e now now') = t ≤ now'
  Endures t (activate_call p e now) = t ≤ now
  Endures t deactivate_call = ⊥
  Endures t re_enable_call = ⊥
  Endures t (allowed_call now) = now < t + breaker_duration
  Endures t (status_call now u) = now < t + breaker_duration
  Endures t _ = Unit

  abbrev Since : Option ℕ → ℕ → Type 0
  Since none t = ⊥
  Since (some s) t = t ≤ s

  record IsHalted (t : ℕ) (m : HftRiskManager A F) : Type 0 where
    on : m.circuit_breaker_active ≡ true
    from : Since m.activated_at t

  step-IsHalted :
      (t : ℕ) (m : HftRiskManager A F) (c : Call A F)
      → Endures t c
      → IsHalted t m
      → IsHalted t (step A F m c)
  unfolding step update_pnl activate_circuit_breaker is_hft_allowed record_order record_rejection
      check_rate_limit check_global_rate check_instrument_rate should_throttle get_rejection_rate
      get_status judge_rate
  step-IsHalted t m (pnl_call p e now now') ok h = ground arith
  step-IsHalted t m (activate_call p e now) ok h = record { on = refl; from = ok }
  step-IsHalted t m deactivate_call ok h = absurd ok
  step-IsHalted t m re_enable_call ok h = absurd ok
  step-IsHalted t m (allowed_call now) ok h = ground arith
  step-IsHalted t m (check_call i now) ok h = ground arith
  step-IsHalted t m (order_call i now) ok h = record { on = h.on; from = h.from }
  step-IsHalted t m (rejection_call t' now) ok h = record { on = h.on; from = h.from }
  step-IsHalted t m (global_call now) ok h = record { on = h.on; from = h.from }
  step-IsHalted t m (throttle_call now) ok h = ground arith
  step-IsHalted t m (instrument_call i now) ok h = ground arith
  step-IsHalted t m (status_call t' now) ok h = ground arith

  run-IsHalted :
      (t : ℕ) (m : HftRiskManager A F) (cs : List (Call A F))
      → All (Endures t) cs
      → IsHalted t m
      → IsHalted t (run A F m cs)
  unfolding run
  run-IsHalted t m [] ok h = h
  run-IsHalted t m (c ∷ cs) ok h =
      run-IsHalted t (step A F m c) cs ok.1 (step-IsHalted t m c ok.0 h)

  not_allowed_while_halted :
      (t : ℕ) (m : HftRiskManager A F) (now : ℕ)
      → IsHalted t m
      → now < t + breaker_duration
      → (is_hft_allowed A F m now).1 ≡ false
  unfolding is_hft_allowed
  not_allowed_while_halted t m now h early = ground arith

  -- An activation of the breaker at time t halts HFT for its sixty seconds: at every reading before
  -- t plus sixty seconds it is disallowed, whatever profits, orders, checks, further activations and
  -- earlier queries come between, with clocks that do not run back before t, unless the breaker is
  -- deactivated or HFT re-enabled by hand.
  pub breaker_halts :
      (m : HftRiskManager A F) (pnl equity : A.Num) (t now : ℕ) (cs : List (Call A F))
      → All (Endures t) cs
      → now < t + breaker_duration
      → (is_hft_allowed A F (run A F (activate_circuit_breaker A F m pnl equity t) cs) now).1
        ≡ false
  unfolding activate_circuit_breaker
  breaker_halts m pnl equity t now cs ok early =
      not_allowed_while_halted t (run A F (activate_circuit_breaker A F m pnl equity t) cs) now
        (run-IsHalted t (activate_circuit_breaker A F m pnl equity t) cs ok
          (record { on = refl; from = omega arith }))
        early

  -- Re-enabling sets the count of activations to zero but keeps the events: with two of them less
  -- than an hour old, the very next activation disables HFT again, its count being three or more.
  pub re_enabling_keeps_events :
      (m : HftRiskManager A F) (pnl equity : A.Num) (now : ℕ)
      → 2 ≤ activations_at m.circuit_breaker_events now
      → ((re_enable_hft A F m).circuit_breaker_count ≡ 0)
        × ((activate_circuit_breaker A F (re_enable_hft A F m) pnl equity now).hft_disabled ≡ true)
        × (3
            ≤ (activate_circuit_breaker A F
                (re_enable_hft A F m)
                pnl
                equity
                now).circuit_breaker_count)
  unfolding re_enable_hft activate_circuit_breaker recent_events
  re_enabling_keeps_events m pnl equity now two =
      let e : CircuitBreakerEvent A = record {
        timestamp = now;
        pnl_at_activation = pnl;
        equity_at_activation = equity;
      } in
      let n =
        length-keep-append_one (λ e. ltb now (e.timestamp + breaker_window))
          m.circuit_breaker_events e in
      (refl, ground (arith, n), ground (arith, n))

  -- A breaker whose pause is over, and which no query has resumed yet, does not trip again: profits
  -- and losses of any size are recorded, and neither the breaker nor its events change, whatever
  -- the clock reads.
  pub active_breaker_ignores_losses :
      (m : HftRiskManager A F) (pnl equity : A.Num) (now now' : ℕ)
      → m.circuit_breaker_active ≡ true
      → update_pnl A F m pnl equity now now'
        ≡ record m { pnl_window = record_pnl A F m.pnl_window pnl now }
  unfolding update_pnl
  active_breaker_ignores_losses m pnl equity now now' on = ground arith
