-- ===== src/Risk/KillSwitch.antt =====
-- src/risk/kill_switch.py: the emergency stop, its triggers, and the closing of all positions.
-- A `datetime` is a number of microseconds, and the clock's reading is an argument. An f-string
-- that explains a trigger is a constructor that holds the values it prints.
pub mod Trail
pub mod Lockout
pub mod Closing
mod Tests
use ig_trading_bot.Common.{
  ℕ, zero, suc, ◌+◌, ◌*◌, String, Bool, true, false, ◌&&◌, Option, none, some, List, [], ◌∷◌, ◌++◌,
  Arith, if◌then◌else◌, leb, negate, is_blank, keep, length,
}

pub data KillSwitchState : Type 0 where
  inactive active cooldown : KillSwitchState

pub data Reason (A : Arith) : Type 0 where
  given : String → Reason A
  vix_exceeds : A.Num → A.Num → A.Num → A.Num → Reason A
  portfolio_loss_exceeds : A.Num → Reason A
  drawdown_exceeds : A.Num → Reason A
  crisis_persisted : String → A.Num → Reason A

pub record ActivationEvent (A : Arith) : Type 0 where
  pub reason : Reason A
  pub timestamp : ℕ
  pub trigger_source : String

pub record TriggerRecord (A : Arith) : Type 0 where
  pub trigger_source : String
  pub reason : Reason A
  pub timestamp : ℕ
  pub activated : Bool

-- `published` is what the optional publisher was handed; its failures are caught and logged.
pub record KillSwitch (A : Arith) : Type 0 where
  pub state : KillSwitchState
  pub activation_reason : Reason A
  pub activation_time : Option ℕ
  pub activation_event : Option (ActivationEvent A)
  pub min_active_duration : ℕ
  pub retry_count : ℕ
  pub trigger_sources : List (TriggerRecord A)
  pub has_publisher : Bool
  pub published : List (ActivationEvent A)

-- What a call returns: a Boolean, or the `ValueError` of a blank token.
pub data Reply : Type 0 where
  returned : Bool → Reply
  value_error : Reply

abbrev pub minute : ℕ
minute = 60 * 1000000

abbrev pub state_is_active : KillSwitchState → Bool
state_is_active active = true
state_is_active _ = false

module _ (A : Arith) where
  open A use {Num, dec, add, mul, lt, le}

  -- `__init__`, on the number of minutes given or the default of 5.
  unfoldable pub new : ℕ → ℕ → Bool → KillSwitch A
  new min_active_minutes retries publisher = record {
    state = inactive;
    activation_reason = given "";
    activation_time = none;
    activation_event = none;
    min_active_duration = min_active_minutes * minute;
    retry_count = retries;
    trigger_sources = [];
    has_publisher = publisher;
    published = [];
  }

  abbrev pub is_active : KillSwitch A → Bool
  is_active s = state_is_active s.state

  -- `elapsed >= self._min_active_duration`
  abbrev old_enough : ℕ → ℕ → Option ℕ → Bool
  old_enough duration now none = false
  old_enough duration now (some t) = leb (t + duration) now

  pub can_deactivate : KillSwitch A → ℕ → Bool
  can_deactivate s now = is_active s && old_enough s.min_active_duration now s.activation_time

  unfoldable pub is_signal_allowed : KillSwitch A → String → Bool
  is_signal_allowed s source = negate (is_active s)

  unfoldable pub activate : KillSwitch A → Reason A → String → ℕ → KillSwitch A × Reply
  activate s r source now =
      let event : ActivationEvent A = record {
        reason = r;
        timestamp = now;
        trigger_source = source;
      } in
      let trigger : Bool → TriggerRecord A =
        λ b. record { trigger_source = source; reason = r; timestamp = now; activated = b } in
      if is_active s
      then (record s { trigger_sources = s.trigger_sources ++ trigger false ∷ [] }, returned false)
      else (
        record s {
          state = active;
          activation_reason = r;
          activation_time = some now;
          activation_event = some event;
          trigger_sources = s.trigger_sources ++ trigger true ∷ [];
          published = (if s.has_publisher then s.published ++ event ∷ [] else s.published);
        },
        returned true,
      )

  -- The four triggers; `a > b` is `lt b a` and `a >= b` is `le b a`.
  pub evaluate_vix : KillSwitch A → Num → Num → Num → ℕ → KillSwitch A × Reply
  unfolding activate
  evaluate_vix s value mean std now =
      let threshold = add mean (mul (dec 30 1) std) in
      if lt threshold value
      then activate s (vix_exceeds value threshold mean std) "vix" now
      else (s, returned false)

  pub evaluate_portfolio_loss : KillSwitch A → Num → ℕ → KillSwitch A × Reply
  unfolding activate
  evaluate_portfolio_loss s loss now =
      if lt (dec 20 2) loss
      then activate s (portfolio_loss_exceeds loss) "portfolio_loss" now
      else (s, returned false)

  pub evaluate_drawdown : KillSwitch A → Num → ℕ → KillSwitch A × Reply
  unfolding activate
  evaluate_drawdown s drawdown now =
      if lt (dec 15 2) drawdown
      then activate s (drawdown_exceeds drawdown) "drawdown" now
      else (s, returned false)

  pub evaluate_crisis_persistence : KillSwitch A → String → Num → ℕ → KillSwitch A × Reply
  unfolding activate
  evaluate_crisis_persistence s region minutes now =
      if le (dec 300 1) minutes
      then activate s (crisis_persisted region minutes) "crisis" now
      else (s, returned false)

  pub deactivate : KillSwitch A → String → ℕ → KillSwitch A × Reply
  unfolding can_deactivate
  deactivate s token now =
      if is_blank token
      then (s, value_error)
      else if negate (is_active s)
      then (s, returned false)
      else if negate (can_deactivate s now)
      then (s, returned false)
      else (record s { state = inactive }, returned true)

-- The calls that change a switch, each with its clock reading; `activation_lock` makes an
-- activation one step.
pub data Call (A : Arith) : Type 0 where
  activate_call : Reason A → String → ℕ → Call A
  vix_call : A.Num → A.Num → A.Num → ℕ → Call A
  loss_call : A.Num → ℕ → Call A
  drawdown_call : A.Num → ℕ → Call A
  crisis_call : String → A.Num → ℕ → Call A
  deactivate_call : String → ℕ → Call A

module _ (A : Arith) where
  pub step : KillSwitch A → Call A → KillSwitch A × Reply
  unfolding evaluate_vix evaluate_portfolio_loss evaluate_drawdown evaluate_crisis_persistence
      activate deactivate
  step s (activate_call r source now) = activate A s r source now
  step s (vix_call v m d now) = evaluate_vix A s v m d now
  step s (loss_call l now) = evaluate_portfolio_loss A s l now
  step s (drawdown_call d now) = evaluate_drawdown A s d now
  step s (crisis_call g m now) = evaluate_crisis_persistence A s g m now
  step s (deactivate_call token now) = deactivate A s token now

  pub run : KillSwitch A → List (Call A) → KillSwitch A
  run s [] = s
  run s (c ∷ cs) = run (step s c).0 cs

-- How one awaited call of `close_fn` ends, under its timeout.
pub data Outcome : Type 0 where
  closed refused timed_out : Outcome
  raised : String → Outcome

-- `last_error`, with the attempt that its text names.
pub data CloseError : Type 0 where
  returned_false : CloseError
  timeout_on : ℕ → CloseError
  error_on : ℕ → String → CloseError

pub record PositionCloseResult : Type 0 where
  pub position_id : String
  pub success : Bool
  pub attempts : ℕ
  pub error : Option CloseError

pub record CloseAllResult : Type 0 where
  pub total_positions : ℕ
  pub closed_successfully : ℕ
  pub failed_positions : List PositionCloseResult

-- A position is an object with an `id`, a dict that may hold one, or anything else with its text.
pub data Position : Type 0 where
  with_attribute : String → Position
  mapping : Option String → String → Position
  other : String → Position

pub get_position_id : Position → String
get_position_id (with_attribute i) = i
get_position_id (mapping (some i) text) = i
get_position_id (mapping none text) = text
get_position_id (other text) = text

-- The `for attempt in range(1, max_attempts + 1)` loop: `left` rounds remain.
pub close_attempts :
    ℕ
    → String
    → (ℕ → Outcome)
    → (left : ℕ) (attempt : ℕ) (last_error : Option CloseError) → PositionCloseResult
close_attempts limit i close zero attempt last = record {
  position_id = i;
  success = false;
  attempts = limit;
  error = last;
}
close_attempts limit i close (suc left) attempt last = elim (close attempt) [
  | closed ↦ record { position_id = i; success = true; attempts = attempt; error = none }
  | refused ↦ close_attempts limit i close left (suc attempt) (some returned_false)
  | timed_out ↦ close_attempts limit i close left (suc attempt) (some (timeout_on attempt))
  | raised e ↦ close_attempts limit i close left (suc attempt) (some (error_on attempt e))
]

pub close_single_position : ℕ → String → (ℕ → Outcome) → PositionCloseResult
close_single_position retry_count i close =
    close_attempts (suc retry_count) i close (suc retry_count) 1 none

-- The loop over the positions; `close_fn` is read at the position and the attempt.
pub close_each : ℕ → (Position → ℕ → Outcome) → List Position → List PositionCloseResult
close_each retry_count close_fn [] = []
close_each retry_count close_fn (p ∷ ps) =
    close_single_position retry_count (get_position_id p) (close_fn p)
    ∷ close_each retry_count close_fn ps

pub close_all_positions : ℕ → (Position → ℕ → Outcome) → List Position → CloseAllResult
unfolding close_each
close_all_positions retry_count close_fn ps =
    let results = close_each retry_count close_fn ps in
    record {
      total_positions = length ps;
      closed_successfully = length (keep (λ r. r.success) results);
      failed_positions = keep (λ r. negate r.success) results;
    }
