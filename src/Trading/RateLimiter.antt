-- ===== src/Trading/RateLimiter.antt =====
-- src/trading/hft_rate_limiter.py: a token bucket before the broker, and the queue behind it.
-- Every reading of the monotonic clock is an argument. The queue is changed only under its lock,
-- in stretches with no await, so each method is one step. The fields `order_data` and
-- `enqueue_timestamp` of an order are never read, and the sweep task only calls the sweep.
pub mod Split
pub mod Conservation
mod Tests
use ig_trading_bot.Common.{
  ℕ, suc, ◌+◌, String, Bool, true, false, List, [], ◌∷◌, ◌++◌, Arith, if◌then◌else◌, length, trim,
}

pub record QueuedOrder (A : Arith) : Type 0 where
  pub order_id : String
  pub instrument : String
  pub direction : String
  pub size : A.Num
  pub enqueue_time : A.Num

pub record LatencyRejection (A : Arith) : Type 0 where
  pub order_id : String
  pub instrument : String
  pub direction : String
  pub size : A.Num
  pub queue_time_ms : A.Num

pub data Status : Type 0 where
  submitted queued cancelled : Status

-- The dict that describes what became of an order.
pub record SubmissionResult (A : Arith) : Type 0 where
  pub status : Status
  pub order_id : String
  pub instrument : String
  pub direction : String
  pub queue_time_ms : A.Num

pub record TokenBucket (A : Arith) : Type 0 where
  pub rate : A.Num
  pub capacity : A.Num
  pub tokens : A.Num
  pub last_refill : A.Num

pub record RateLimiter (A : Arith) : Type 0 where
  pub latency_threshold_ms : A.Num
  pub bucket : TokenBucket A
  pub queue : List (QueuedOrder A)
  pub orders_queued : ℕ
  pub orders_cancelled_latency : ℕ
  pub orders_submitted : ℕ
  pub queue_times : List A.Num
  pub rejections : List (LatencyRejection A)
  pub running : Bool
  pub has_sweep_task : Bool

abbrev pub max_queue_time_samples : ℕ
max_queue_time_samples = 1000

abbrev pub max_rejection_log : ℕ
max_rejection_log = 10000

module _ (A : Arith) where
  open A use {Num, dec, add, sub, mul, lt, le}

  -- Python's `min(a, b)`
  abbrev pub least : Num → Num → Num
  least a b = if lt b a then b else a

  pub refill : TokenBucket A → Num → TokenBucket A
  refill b now =
      let elapsed = sub now b.last_refill in
      record b { tokens = least b.capacity (add b.tokens (mul elapsed b.rate)); last_refill = now }

  pub available_tokens : TokenBucket A → Num → TokenBucket A × Num
  unfolding refill
  available_tokens b now = let r = refill b now in (r, r.tokens)

  pub consume : TokenBucket A → Num → TokenBucket A × Bool
  consume b now =
      let r = refill b now in
      if le (dec 10 1) r.tokens
      then (record r { tokens = sub r.tokens (dec 10 1) }, true)
      else (r, false)

  -- `__init__` at the rate, which is the capacity too, the threshold and the clock's reading.
  pub new : Num → Num → Num → RateLimiter A
  new rate threshold now = record {
    latency_threshold_ms = threshold;
    bucket = record { rate = rate; capacity = rate; tokens = rate; last_refill = now };
    queue = [];
    orders_queued = 0;
    orders_cancelled_latency = 0;
    orders_submitted = 0;
    queue_times = [];
    rejections = [];
    running = false;
    has_sweep_task = false;
  }

  -- `_record_queue_time`, on the samples.
  pub record_queue_time : List Num → Num → List Num
  record_queue_time times t = trim max_queue_time_samples (times ++ t ∷ [])

  pub result_of : Status → QueuedOrder A → Num → SubmissionResult A
  result_of status o t = record {
    status = status;
    order_id = o.order_id;
    instrument = o.instrument;
    direction = o.direction;
    queue_time_ms = t;
  }

  pub cancel_order_latency : RateLimiter A → QueuedOrder A → Num → RateLimiter A
  unfolding record_queue_time
  cancel_order_latency l o t =
      let rejection : LatencyRejection A = record {
        order_id = o.order_id;
        instrument = o.instrument;
        direction = o.direction;
        size = o.size;
        queue_time_ms = t;
      } in
      record l {
        orders_cancelled_latency = l.orders_cancelled_latency + 1;
        queue_times = record_queue_time l.queue_times t;
        rejections = trim max_rejection_log (l.rejections ++ rejection ∷ []);
      }

  -- An order that goes out, with the bucket that is left and the time it has waited.
  abbrev pub submit_now : RateLimiter A → TokenBucket A → Num → RateLimiter A
  submit_now l b t = record l {
    bucket = b;
    orders_submitted = l.orders_submitted + 1;
    queue_times = record_queue_time l.queue_times t;
  }

  pub submit_order : RateLimiter A → QueuedOrder A → Num → RateLimiter A × SubmissionResult A
  unfolding consume
  submit_order l o now =
      let (b, taken) = consume l.bucket now in
      if taken then (submit_now l b (dec 0 1), result_of submitted o (dec 0 1)) else (
        record l { bucket = b; queue = l.queue ++ o ∷ []; orders_queued = l.orders_queued + 1 },
        result_of queued o (dec 0 1),
      )

  -- `(now - order.enqueue_time) * 1000`
  abbrev pub queue_time : Num → QueuedOrder A → Num
  queue_time now o = mul (sub now o.enqueue_time) (dec 1000 0)

  abbrev pub is_stale : RateLimiter A → Num → QueuedOrder A → Bool
  is_stale l now o = lt l.latency_threshold_ms (queue_time now o)

  -- What one round of a loop makes of an order: it stays in the queue or has a result.
  pub record Round : Type 0 where
    pub limiter : RateLimiter A
    pub remaining : List (QueuedOrder A)
    pub results : List (SubmissionResult A)

  pub process_one : RateLimiter A → Num → Num → QueuedOrder A → Round
  unfolding cancel_order_latency
  process_one l now reading o =
      let t = queue_time now o in
      let (b, taken) = consume l.bucket reading in
      if is_stale l now o
      then record {
        limiter = cancel_order_latency l o t;
        remaining = [];
        results = result_of cancelled o t ∷ [];
      }
      else if taken
      then record {
        limiter = submit_now l b t;
        remaining = [];
        results = result_of submitted o t ∷ [];
      }
      else record { limiter = record l { bucket = b }; remaining = o ∷ []; results = [] }

  -- The `while self._queue` loop; `clock k` is what the bucket reads at the k-th order.
  pub process_each : RateLimiter A → Num → (ℕ → Num) → ℕ → List (QueuedOrder A) → Round
  process_each l now clock k [] = record { limiter = l; remaining = []; results = [] }
  process_each l now clock k (o ∷ os) =
      let first = process_one l now (clock k) o in
      let rest = process_each first.limiter now clock (suc k) os in
      record {
        limiter = rest.limiter;
        remaining = first.remaining ++ rest.remaining;
        results = first.results ++ rest.results;
      }

  abbrev pub close_round : Round → RateLimiter A × List (SubmissionResult A)
  close_round r = (record r.limiter { queue = r.remaining }, r.results)

  pub process_queue : RateLimiter A → Num → (ℕ → Num) → RateLimiter A × List (SubmissionResult A)
  process_queue l now clock = close_round (process_each l now clock 0 l.queue)

  pub sweep_one : RateLimiter A → Num → QueuedOrder A → Round
  unfolding cancel_order_latency
  sweep_one l now o =
      let t = queue_time now o in
      if is_stale l now o
      then record {
        limiter = cancel_order_latency l o t;
        remaining = [];
        results = result_of cancelled o t ∷ [];
      }
      else record { limiter = l; remaining = o ∷ []; results = [] }

  pub sweep_each : RateLimiter A → Num → List (QueuedOrder A) → Round
  sweep_each l now [] = record { limiter = l; remaining = []; results = [] }
  sweep_each l now (o ∷ os) =
      let first = sweep_one l now o in
      let rest = sweep_each first.limiter now os in
      record {
        limiter = rest.limiter;
        remaining = first.remaining ++ rest.remaining;
        results = first.results ++ rest.results;
      }

  pub sweep_stale_orders : RateLimiter A → Num → RateLimiter A × List (SubmissionResult A)
  sweep_stale_orders l now = close_round (sweep_each l now l.queue)

module _ (A : Arith) where
  -- The sweep loop's rounds are calls of `sweep_stale_orders`, at times that the event loop chooses.
  pub start_sweep_loop : RateLimiter A → RateLimiter A
  start_sweep_loop l = if l.running then l else record l { running = true; has_sweep_task = true }

  pub stop_sweep_loop : RateLimiter A → RateLimiter A
  stop_sweep_loop l = record l { running = false; has_sweep_task = false }

pub data Call (A : Arith) : Type 0 where
  submit_call : QueuedOrder A → A.Num → Call A
  process_call : A.Num → (ℕ → A.Num) → Call A
  sweep_call : A.Num → Call A
  tokens_call : A.Num → Call A
  start_call stop_call : Call A

module _ (A : Arith) where
  pub step : RateLimiter A → Call A → RateLimiter A
  step l (submit_call o now) = (submit_order A l o now).0
  step l (process_call now clock) = (process_queue A l now clock).0
  step l (sweep_call now) = (sweep_stale_orders A l now).0
  step l (tokens_call now) = record l { bucket = (available_tokens A l.bucket now).0 }
  step l start_call = start_sweep_loop A l
  step l stop_call = stop_sweep_loop A l

  pub run : RateLimiter A → List (Call A) → RateLimiter A
  run l [] = l
  run l (c ∷ cs) = run (step l c) cs
