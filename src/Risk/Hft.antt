-- ===== src/Risk/Hft.antt =====
-- src/risk/hft_risk.py: the limits, the circuit breaker and the rate counters of the HFT pipeline.
-- A `datetime` is a number of microseconds; `Decimal` amounts are numbers of `A`, and the floats of
-- the monotonic clock and of the rejection rate are numbers of `F`. Readings are arguments.
pub mod Breaker
pub mod Rates
pub mod Window
pub mod Agreement
mod Tests
use ig_trading_bot.Common.{
  ℕ, suc, ◌+◌, ◌*◌, min, max, String, Bool, true, false, ◌&&◌, Option, none, some, List, [], ◌∷◌,
  ◌++◌, Arith, if◌then◌else◌, ltb, leb, negate, Dict, lookup, insert, keep, length,
}

-- src/config/constants.py, in microseconds where it is a time.
abbrev pub breaker_duration : ℕ
breaker_duration = 60000000

abbrev pub breaker_window : ℕ
breaker_window = 3600000000

abbrev pub breaker_max_activations : ℕ
breaker_max_activations = 3

pub record CircuitBreakerEvent (A : Arith) : Type 0 where
  pub timestamp : ℕ
  pub pnl_at_activation : A.Num
  pub equity_at_activation : A.Num

-- `_SlidingWindowCounter`
pub record SlidingWindowCounter (F : Arith) : Type 0 where
  pub window_seconds : F.Num
  pub timestamps : List F.Num

-- The text of a refusal, with the values that it prints.
pub data RateReason : Type 0 where
  global_exceeded : ℕ → ℕ → RateReason
  instrument_exceeded : String → ℕ → ℕ → RateReason

pub record RateLimitStatus : Type 0 where
  pub allowed : Bool
  pub reason : Option RateReason
  pub global_count : ℕ
  pub instrument_count : ℕ

pub record HftRiskManager (A F : Arith) : Type 0 where
  pub max_order_rate : ℕ
  pub max_per_instrument_rate : ℕ
  pub circuit_breaker_active : Bool
  pub activated_at : Option ℕ
  pub circuit_breaker_count : ℕ
  pub circuit_breaker_events : List (CircuitBreakerEvent A)
  pub hft_disabled : Bool
  pub pnl_window : List (ℕ × A.Num)
  pub global_rate_counter : SlidingWindowCounter F
  pub instrument_rate_counters : Dict (SlidingWindowCounter F)
  pub rejection_counter : SlidingWindowCounter F
  pub total_order_counter : SlidingWindowCounter F

module _ (F : Arith) where
  pub prune : SlidingWindowCounter F → F.Num → SlidingWindowCounter F
  prune c now =
      let cutoff = F.sub now c.window_seconds in
      record c { timestamps = keep (λ t. F.lt cutoff t) c.timestamps }

  -- `record`, which reads the clock for the event and again to prune.
  pub record_event : SlidingWindowCounter F → F.Num → F.Num → SlidingWindowCounter F
  unfolding prune
  record_event c t now = prune (record c { timestamps = c.timestamps ++ t ∷ [] }) now

  pub count : SlidingWindowCounter F → F.Num → SlidingWindowCounter F × ℕ
  unfolding prune
  count c now = let c' = prune c now in (c', length c'.timestamps)

  abbrev pub new_counter : F.Num → SlidingWindowCounter F
  new_counter seconds = record { window_seconds = seconds; timestamps = [] }

module _ (A F : Arith) where
  pub new : ℕ → ℕ → HftRiskManager A F
  new order_rate per_instrument = record {
    max_order_rate = max 10 (min 500 order_rate);
    max_per_instrument_rate = per_instrument;
    circuit_breaker_active = false;
    activated_at = none;
    circuit_breaker_count = 0;
    circuit_breaker_events = [];
    hft_disabled = false;
    pnl_window = [];
    global_rate_counter = new_counter F (F.dec 10 1);
    instrument_rate_counters = [];
    rejection_counter = new_counter F (F.dec 100 1);
    total_order_counter = new_counter F (F.dec 100 1);
  }

  pub validate_hft_trade : A.Num → A.Num → A.Num → Bool
  validate_hft_trade size equity exposure =
      if A.le equity (A.dec 0 0)
      then false
      else if A.lt (A.mul equity (A.dec 5 3)) size
      then false
      else negate (A.lt (A.mul equity (A.dec 15 2)) (A.add exposure size))

  -- The events less than an hour before a reading: `e.timestamp > now - 1h`.
  pub recent_events : List (CircuitBreakerEvent A) → ℕ → List (CircuitBreakerEvent A)
  recent_events events now = keep (λ e. ltb now (e.timestamp + breaker_window)) events

  pub activate_circuit_breaker : HftRiskManager A F → A.Num → A.Num → ℕ → HftRiskManager A F
  activate_circuit_breaker m pnl equity now =
      let event : CircuitBreakerEvent A = record {
        timestamp = now;
        pnl_at_activation = pnl;
        equity_at_activation = equity;
      } in
      let events = m.circuit_breaker_events ++ event ∷ [] in
      let activations = length (recent_events events now) in
      record m {
        circuit_breaker_active = true;
        activated_at = some now;
        circuit_breaker_events = events;
        circuit_breaker_count = activations;
        hft_disabled = (if leb breaker_max_activations activations then true else m.hft_disabled);
      }

  abbrev pub sum_from : A.Num → List (ℕ × A.Num) → A.Num
  sum_from total [] = total
  sum_from total ((t, p) ∷ ps) = sum_from (A.add total p) ps

  -- The window after an entry at a reading: what is less than a minute old.
  pub record_pnl : List (ℕ × A.Num) → A.Num → ℕ → List (ℕ × A.Num)
  record_pnl window pnl now = keep (λ e. ltb now (e.0 + 60000000)) (window ++ (now, pnl) ∷ [])

  -- `update_pnl`; an activation reads the clock again.
  pub update_pnl : HftRiskManager A F → A.Num → A.Num → ℕ → ℕ → HftRiskManager A F
  unfolding record_pnl activate_circuit_breaker
  update_pnl m pnl equity now now' =
      let window = record_pnl m.pnl_window pnl now in
      let cumulative = sum_from (A.dec 0 0) window in
      let recorded = record m { pnl_window = window } in
      if A.lt cumulative (A.mul equity (A.neg (A.dec 5 3))) && negate m.circuit_breaker_active
      then activate_circuit_breaker recorded cumulative equity now'
      else recorded

  pub deactivate_circuit_breaker : HftRiskManager A F → HftRiskManager A F
  deactivate_circuit_breaker m = record m { circuit_breaker_active = false; activated_at = none }

  abbrev expired : ℕ → ℕ → Bool
  expired now since = leb (since + breaker_duration) now

  abbrev pub resume_if_over : HftRiskManager A F → ℕ → Option ℕ → HftRiskManager A F × Bool
  resume_if_over m now none = (m, true)
  resume_if_over m now (some since) =
      if expired now since
      then (record m { circuit_breaker_active = false; activated_at = none }, true)
      else (m, false)

  pub is_hft_allowed : HftRiskManager A F → ℕ → HftRiskManager A F × Bool
  is_hft_allowed m now =
      if m.hft_disabled
      then (m, false)
      else if m.circuit_breaker_active
      then resume_if_over m now m.activated_at
      else (m, true)

  pub re_enable_hft : HftRiskManager A F → HftRiskManager A F
  re_enable_hft m = record m {
    hft_disabled = false;
    circuit_breaker_active = false;
    activated_at = none;
    circuit_breaker_count = 0;
  }

  abbrev pub counter_of : HftRiskManager A F → String → SlidingWindowCounter F
  counter_of m i = elim (lookup i m.instrument_rate_counters) [
    | none ↦ new_counter F (F.dec 10 1)
    | some c ↦ c
  ]

  -- `record_order`; the clock is read for each event and for each pruning, six times.
  pub record_order : HftRiskManager A F → String → (ℕ → F.Num) → HftRiskManager A F
  unfolding record_event
  record_order m i clock = record m {
    global_rate_counter = record_event F m.global_rate_counter (clock 0) (clock 1);
    instrument_rate_counters =
        insert i (record_event F (counter_of m i) (clock 2) (clock 3)) m.instrument_rate_counters;
    total_order_counter = record_event F m.total_order_counter (clock 4) (clock 5);
  }

  pub record_rejection : HftRiskManager A F → F.Num → F.Num → HftRiskManager A F
  unfolding record_event
  record_rejection m t now = record m {
    rejection_counter = record_event F m.rejection_counter t now;
  }

  -- The counter of one instrument, read if there is one.
  abbrev pub count_instrument : HftRiskManager A F → String → F.Num → HftRiskManager A F × ℕ
  count_instrument m i now = elim (lookup i m.instrument_rate_counters) [
    | none ↦ (m, 0)
    | some c ↦ (
      record m { instrument_rate_counters = insert i (count F c now).0 m.instrument_rate_counters },
      (count F c now).1,
    )
  ]

  abbrev pub refused : RateReason → ℕ → ℕ → RateLimitStatus
  refused r g i = record {
    allowed = false;
    reason = some r;
    global_count = g;
    instrument_count = i;
  }

  abbrev pub granted : ℕ → ℕ → RateLimitStatus
  granted g i = record { allowed = true; reason = none; global_count = g; instrument_count = i }

  abbrev pub count_global : HftRiskManager A F → F.Num → HftRiskManager A F × ℕ
  count_global m now =
      let (c, n) = count F m.global_rate_counter now in (record m { global_rate_counter = c }, n)

  -- The verdict on the two counts.
  pub judge_rate :
      HftRiskManager A F → String → (ℕ → F.Num) → ℕ → ℕ → HftRiskManager A F × RateLimitStatus
  unfolding record_rejection
  judge_rate m i clock g n =
      if leb m.max_order_rate g
      then (
        record_rejection m (clock 2) (clock 3),
        refused (global_exceeded g m.max_order_rate) g n,
      )
      else if leb m.max_per_instrument_rate n
      then (
        record_rejection m (clock 2) (clock 3),
        refused (instrument_exceeded i n m.max_per_instrument_rate) g n,
      )
      else (m, granted g n)

  -- `check_rate_limit`, with the clock's readings: for the two counts, and for a rejection.
  pub check_rate_limit :
      HftRiskManager A F → String → (ℕ → F.Num) → HftRiskManager A F × RateLimitStatus
  unfolding count judge_rate
  check_rate_limit m i clock =
      let (m', g) = count_global m (clock 0) in
      let (m'', n) = count_instrument m' i (clock 1) in judge_rate m'' i clock g n

  pub check_global_rate : HftRiskManager A F → F.Num → HftRiskManager A F × Bool
  unfolding count
  check_global_rate m now =
      let counted = count F m.global_rate_counter now in
      (record m { global_rate_counter = counted.0 }, ltb counted.1 m.max_order_rate)

  -- Without a counter, an instrument is within its limit, whatever the limit.
  pub check_instrument_rate : HftRiskManager A F → String → F.Num → HftRiskManager A F × Bool
  unfolding count
  check_instrument_rate m i now =
      let (m', n) = count_instrument m i now in
      elim (lookup i m.instrument_rate_counters) [
        | none ↦ (m', true)
        | some c ↦ (m', ltb n m.max_per_instrument_rate)
      ]

  -- `get_rejection_rate`, which leaves the rejections unread where there is no order.
  pub get_rejection_rate : HftRiskManager A F → (ℕ → F.Num) → HftRiskManager A F × F.Num
  unfolding count
  get_rejection_rate m clock =
      let total = count F m.total_order_counter (clock 0) in
      let rejections = count F m.rejection_counter (clock 1) in
      if leb 1 total.1
      then (
        record m { total_order_counter = total.0; rejection_counter = rejections.0 },
        F.div (F.dec rejections.1 0) (F.dec total.1 0),
      )
      else (record m { total_order_counter = total.0 }, F.dec 0 1)

  pub should_throttle : HftRiskManager A F → (ℕ → F.Num) → HftRiskManager A F × Bool
  unfolding get_rejection_rate
  should_throttle m now = let (m', rate) = get_rejection_rate m now in (m', F.lt (F.dec 20 2) rate)

pub record HftStatus (F : Arith) : Type 0 where
  pub hft_allowed : Bool
  pub is_disabled : Bool
  pub is_active : Bool
  pub activations : ℕ
  pub global_order_rate : ℕ
  pub rejection_rate : F.Num
  pub throttled : Bool

module _ (A F : Arith) where
  -- `get_status`, whose parts prune and may end a pause; the clocks are read once and five times.
  pub get_status : HftRiskManager A F → ℕ → (ℕ → F.Num) → HftRiskManager A F × HftStatus F
  unfolding is_hft_allowed count get_rejection_rate should_throttle
  get_status m t u =
      let (m₁, allows) = is_hft_allowed A F m t in
      let (m₂, n) = count_global A F m₁ (u 0) in
      let (m₃, rate) = get_rejection_rate A F m₂ (λ k. u (1 + k)) in
      let (m₄, throttles) = should_throttle A F m₃ (λ k. u (3 + k)) in
      (
        m₄,
        record {
          hft_allowed = allows;
          is_disabled = m₁.hft_disabled;
          is_active = m₁.circuit_breaker_active;
          activations = m₁.circuit_breaker_count;
          global_order_rate = n;
          rejection_rate = rate;
          throttled = throttles;
        },
      )

-- The calls that change a manager. An order is recorded in the source by the caller, after
-- `check_rate_limit` has allowed it.
pub data Call (A F : Arith) : Type 0 where
  pnl_call : A.Num → A.Num → ℕ → ℕ → Call A F
  activate_call : A.Num → A.Num → ℕ → Call A F
  deactivate_call re_enable_call : Call A F
  allowed_call : ℕ → Call A F
  check_call order_call : String → (ℕ → F.Num) → Call A F
  rejection_call : F.Num → F.Num → Call A F
  global_call : F.Num → Call A F
  throttle_call : (ℕ → F.Num) → Call A F
  instrument_call : String → F.Num → Call A F
  status_call : ℕ → (ℕ → F.Num) → Call A F

module _ (A F : Arith) where
  pub step : HftRiskManager A F → Call A F → HftRiskManager A F
  step m (pnl_call p e now now') = update_pnl A F m p e now now'
  step m (activate_call p e now) = activate_circuit_breaker A F m p e now
  step m deactivate_call = deactivate_circuit_breaker A F m
  step m re_enable_call = re_enable_hft A F m
  step m (allowed_call now) = (is_hft_allowed A F m now).0
  step m (check_call i now) = (check_rate_limit A F m i now).0
  step m (order_call i clock) = record_order A F m i clock
  step m (rejection_call t now) = record_rejection A F m t now
  step m (global_call now) = (check_global_rate A F m now).0
  step m (throttle_call now) = (should_throttle A F m now).0
  step m (instrument_call i now) = (check_instrument_rate A F m i now).0
  step m (status_call t now) = (get_status A F m t now).0

  pub run : HftRiskManager A F → List (Call A F) → HftRiskManager A F
  run m [] = m
  run m (c ∷ cs) = run (step m c) cs
