-- ===== src/Risk/KillSwitch/Tests.antt =====
-- The switch on concrete inputs, and the theorems applied to them.
use text.Mathlib.Text.{◌==◌}
use ig_trading_bot.Common.{
  keep, negate, is_blank, ◌*◌, ltb, if◌then◌else◌, ℕ, ◌+◌, ◌≡◌, refl, String, true, false, some,
  none, List, [], ◌∷◌, arith, All, length, fixed, pos,
}
use ig_trading_bot.Risk.KillSwitch.{
  KillSwitch, Call, given, active, inactive, activate_call, drawdown_call, deactivate_call,
  vix_call, is_active, is_signal_allowed, activate, step, run, new, minute, Position,
  with_attribute, Outcome, closed, refused, timed_out, close_all_positions,
}
use ig_trading_bot.Risk.KillSwitch.Lockout.{activation_locks_out}
use ig_trading_bot.Risk.KillSwitch.Trail.{
  trail_accounts, releases, count_activated, events_of, one_if,
}
use ig_trading_bot.Risk.KillSwitch.Closing.{closing_accounts, IsFlagged, can_close, names, reported}

abbrev idle : KillSwitch fixed
idle = record {
  state = inactive;
  activation_reason = given "";
  activation_time = none;
  activation_event = none;
  min_active_duration = 5 * minute;
  retry_count = 3;
  trigger_sources = [];
  has_publisher = true;
  published = [];
}

abbrev early_calls : List (Call fixed)
early_calls =
    deactivate_call "yes" (6 * minute)
    ∷ drawdown_call (pos 2000) (3 * minute)
    ∷ activate_call (given "again") "unknown" (2 * minute)
    ∷ []

activation_locks_out_example :
    let s' = run fixed (activate fixed idle (given "vix") "vix" (2 * minute)).0 early_calls in
    ((any_source : String) → is_signal_allowed fixed s' any_source ≡ false)
    × (s'.activation_reason ≡ given "vix")
    × (s'.activation_time ≡ some (2 * minute))
    × (s'.activation_event
        ≡ some (record { reason = given "vix"; timestamp = 2 * minute; trigger_source = "vix" }))
activation_locks_out_example =
    activation_locks_out fixed idle (given "vix") "vix" (2 * minute) early_calls refl (omega arith)

abbrev cycle : List (Call fixed)
cycle =
    drawdown_call (pos 1500) 0
    ∷ drawdown_call (pos 1501) 10
    ∷ vix_call (pos 400000) (pos 200000) (pos 50000) 20
    ∷ deactivate_call " " (6 * minute)
    ∷ deactivate_call "yes" (6 * minute)
    ∷ vix_call (pos 400000) (pos 200000) (pos 50000) (7 * minute)
    ∷ []

-- Exactly 15% does not activate; the second call does; the last activates once more.
cycle_lem :
    let s = run fixed (new fixed 5 3 true) cycle in
    (s.state ≡ active) × (length s.trigger_sources ≡ 3) × (length s.published ≡ 2)
unfolding run step new is_blank
cycle_lem = (refl, refl, refl)

trail_accounts_example :
    let s = run fixed (new fixed 5 3 true) cycle in
    (count_activated s.trigger_sources
      ≡ releases fixed (new fixed 5 3 true) cycle + one_if (is_active fixed s))
    × (s.published ≡ events_of s.trigger_sources)
trail_accounts_example = trail_accounts fixed 5 3 cycle

abbrev book : List Position
book = with_attribute "a" ∷ with_attribute "b" ∷ []

-- "a" is closed at the third attempt, and no attempt closes "b".
abbrev market : Position → ℕ → Outcome
market (with_attribute i) n = if i == "a" then (if ltb n 3 then refused else closed) else timed_out
market _ n = refused

closing_accounts_example :
    let report = close_all_positions 3 market book in
    (report.total_positions ≡ length book)
    × (report.closed_successfully ≡ length (keep (can_close 3 market) book))
    × (reported 3 market report.failed_positions
        ≡ names 3 market (keep (λ p. negate (can_close 3 market p)) book))
    × All (IsFlagged 3 market book) report.failed_positions
closing_accounts_example = closing_accounts 3 market book
