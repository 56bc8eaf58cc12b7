-- ===== src/Trading/RateLimiter/Conservation.antt =====
-- The counters and the logs over every sequence of calls.
use ig_trading_bot.Common.{
  ℕ, suc, ◌+◌, ◌≤◌, ◌≡◌, refl, List, [], ◌∷◌, ◌++◌, Arith, arith, length, length-append,
  length-trim, Bool-cases, inl, inr, ◌∙◌,
}
use ig_trading_bot.Trading.RateLimiter.{
  RateLimiter, QueuedOrder, Call, submit_call, process_call, sweep_call, tokens_call, start_call,
  stop_call, start_sweep_loop, stop_sweep_loop, is_stale, consume, record_queue_time,
  cancel_order_latency, submit_order, process_one, process_each, process_queue, sweep_one,
  sweep_each, sweep_stale_orders, new, step, run, max_queue_time_samples, max_rejection_log,
}

module _ (A : Arith) where
  -- The orders whose fate is settled: sent to the broker or cancelled.
  abbrev pub settled : RateLimiter A → ℕ
  settled l = l.orders_submitted + l.orders_cancelled_latency

  -- The logs are within their bounds.
  pub record IsTrimmed (l : RateLimiter A) : Type 0 where
    pub samples : length l.queue_times ≤ max_queue_time_samples
    pub log : length l.rejections ≤ max_rejection_log

  record_queue_time-le :
      (ts : List A.Num) (t : A.Num) → length (record_queue_time A ts t) ≤ max_queue_time_samples
  unfolding record_queue_time
  record_queue_time-le ts t = length-trim max_queue_time_samples (ts ++ t ∷ [])

  cancel_order_latency-IsTrimmed :
      (l : RateLimiter A) (o : QueuedOrder A) (t : A.Num) → IsTrimmed (cancel_order_latency A l o t)
  unfolding cancel_order_latency
  cancel_order_latency-IsTrimmed l o t = record {
    samples = record_queue_time-le l.queue_times t;
    log = length-trim max_rejection_log _;
  }

  process_one-counts :
      (l : RateLimiter A) (now reading : A.Num) (o : QueuedOrder A)
      → let r = process_one A l now reading o in
        settled r.limiter + length r.remaining ≡ settled l + 1
  unfolding process_one cancel_order_latency
  process_one-counts l now reading o = ground arith

  process_one-IsTrimmed :
      (l : RateLimiter A) (now reading : A.Num) (o : QueuedOrder A)
      → IsTrimmed l
      → IsTrimmed (process_one A l now reading o).limiter
  unfolding process_one
  process_one-IsTrimmed l now reading o h = elim (Bool-cases (is_stale A l now o)) [
    | inl late ↦ rw (late, process_one) (cancel_order_latency-IsTrimmed l o _)
    | inr timely ↦ elim (Bool-cases (consume A l.bucket reading).1) [
      | inl taken ↦
          rw (timely, process_one, taken)
            (record { samples = record_queue_time-le l.queue_times _; log = h.log })
      | inr empty ↦ rw (timely, process_one, empty) (record { samples = h.samples; log = h.log })
    ]
  ]

  process_each-counts :
      (os : List (QueuedOrder A)) (l : RateLimiter A) (now : A.Num) (clock : ℕ → A.Num) (k : ℕ)
      → let r = process_each A l now clock k os in
        settled r.limiter + length r.remaining ≡ settled l + length os
  unfolding process_each
  process_each-counts [] l now clock k = refl
  process_each-counts (o ∷ os) l now clock k =
      let first = process_one A l now (clock k) o in
      let rest = process_each A first.limiter now clock (suc k) os in
      omega (
        arith,
        process_one-counts l now (clock k) o,
        process_each-counts os first.limiter now clock (suc k),
        length-append first.remaining rest.remaining,
      )

  process_each-IsTrimmed :
      (os : List (QueuedOrder A)) (l : RateLimiter A) (now : A.Num) (clock : ℕ → A.Num) (k : ℕ)
      → IsTrimmed l
      → IsTrimmed (process_each A l now clock k os).limiter
  unfolding process_each
  process_each-IsTrimmed [] l now clock k h = h
  process_each-IsTrimmed (o ∷ os) l now clock k h =
      process_each-IsTrimmed os (process_one A l now (clock k) o).limiter now clock (suc k)
        (process_one-IsTrimmed l now (clock k) o h)

  sweep_one-counts :
      (l : RateLimiter A) (now : A.Num) (o : QueuedOrder A)
      → let r = sweep_one A l now o in settled r.limiter + length r.remaining ≡ settled l + 1
  unfolding sweep_one cancel_order_latency
  sweep_one-counts l now o = ground arith

  sweep_one-IsTrimmed :
      (l : RateLimiter A) (now : A.Num) (o : QueuedOrder A)
      → IsTrimmed l
      → IsTrimmed (sweep_one A l now o).limiter
  unfolding sweep_one
  sweep_one-IsTrimmed l now o h = elim (Bool-cases (is_stale A l now o)) [
    | inl late ↦ rw (late, sweep_one) (cancel_order_latency-IsTrimmed l o _)
    | inr timely ↦ rw (timely, sweep_one) h
  ]

  sweep_each-counts :
      (os : List (QueuedOrder A)) (l : RateLimiter A) (now : A.Num)
      → let r = sweep_each A l now os in
        settled r.limiter + length r.remaining ≡ settled l + length os
  unfolding sweep_each
  sweep_each-counts [] l now = refl
  sweep_each-counts (o ∷ os) l now =
      let first = sweep_one A l now o in
      let rest = sweep_each A first.limiter now os in
      omega (
        arith,
        sweep_one-counts l now o,
        sweep_each-counts os first.limiter now,
        length-append first.remaining rest.remaining,
      )

  sweep_each-IsTrimmed :
      (os : List (QueuedOrder A)) (l : RateLimiter A) (now : A.Num)
      → IsTrimmed l
      → IsTrimmed (sweep_each A l now os).limiter
  unfolding sweep_each
  sweep_each-IsTrimmed [] l now h = h
  sweep_each-IsTrimmed (o ∷ os) l now h =
      sweep_each-IsTrimmed os (sweep_one A l now o).limiter now (sweep_one-IsTrimmed l now o h)

  -- The orders given to `submit_order`.
  abbrev pub given : Call A → ℕ
  given (submit_call o now) = 1
  given _ = 0

  abbrev pub given_all : List (Call A) → ℕ
  given_all [] = 0
  given_all (c ∷ cs) = given c + given_all cs

  submit_order-counts :
      (l : RateLimiter A) (o : QueuedOrder A) (now : A.Num)
      → let l' = (submit_order A l o now).0 in
        settled l' + length l'.queue ≡ settled l + length l.queue + 1
  unfolding submit_order
  submit_order-counts l o now = ground (arith, length-append l.queue (o ∷ []))

  step-counts :
      (l : RateLimiter A) (c : Call A)
      → let l' = step A l c in settled l' + length l'.queue ≡ settled l + length l.queue + given c
  unfolding step process_queue sweep_stale_orders start_sweep_loop stop_sweep_loop
  step-counts l (submit_call o now) = submit_order-counts l o now
  step-counts l (process_call now clock) = omega (arith, process_each-counts l.queue l now clock 0)
  step-counts l (sweep_call now) = omega (arith, sweep_each-counts l.queue l now)
  step-counts l (tokens_call now) = omega arith
  step-counts l start_call = ground arith
  step-counts l stop_call = ground arith

  submit_order-IsTrimmed :
      (l : RateLimiter A) (o : QueuedOrder A) (now : A.Num)
      → IsTrimmed l
      → IsTrimmed (submit_order A l o now).0
  unfolding submit_order
  submit_order-IsTrimmed l o now h = elim (Bool-cases (consume A l.bucket now).1) [
    | inl taken ↦
        rw (taken, submit_order)
          (record { samples = record_queue_time-le l.queue_times _; log = h.log })
    | inr empty ↦ rw (empty, submit_order) (record { samples = h.samples; log = h.log })
  ]

  step-IsTrimmed : (l : RateLimiter A) (c : Call A) → IsTrimmed l → IsTrimmed (step A l c)
  unfolding step process_queue sweep_stale_orders start_sweep_loop stop_sweep_loop
  step-IsTrimmed l (submit_call o now) h = submit_order-IsTrimmed l o now h
  step-IsTrimmed l (process_call now clock) h =
      let t = process_each-IsTrimmed l.queue l now clock 0 h in
      record { samples = t.samples; log = t.log }
  step-IsTrimmed l (sweep_call now) h =
      let t = sweep_each-IsTrimmed l.queue l now h in record { samples = t.samples; log = t.log }
  step-IsTrimmed l (tokens_call now) h = record { samples = h.samples; log = h.log }
  step-IsTrimmed l start_call h = ground arith
  step-IsTrimmed l stop_call h = record { samples = h.samples; log = h.log }

  run-counts :
      (l : RateLimiter A) (cs : List (Call A))
      → settled (run A l cs) + length (run A l cs).queue ≡ settled l + length l.queue + given_all cs
  unfolding run
  run-counts l [] = omega arith
  run-counts l (c ∷ cs) = omega (arith, step-counts l c, run-counts (step A l c) cs)

  run-IsTrimmed : (l : RateLimiter A) (cs : List (Call A)) → IsTrimmed l → IsTrimmed (run A l cs)
  unfolding run
  run-IsTrimmed l [] h = h
  run-IsTrimmed l (c ∷ cs) h = run-IsTrimmed (step A l c) cs (step-IsTrimmed l c h)

  -- No order is lost or counted twice: from a new limiter, after any calls, the orders given to
  -- `submit_order` are as many as those submitted, those cancelled and those in the queue.
  pub orders_are_conserved :
      (rate threshold start : A.Num) (cs : List (Call A))
      → let l = run A (new A rate threshold start) cs in
        l.orders_submitted + l.orders_cancelled_latency + length l.queue ≡ given_all cs
  unfolding new
  orders_are_conserved rate threshold start cs =
      run-counts (new A rate threshold start) cs ∙ omega arith

  -- From a new limiter, after any calls, there are at most 1000 samples of queue times and at most
  -- 10000 logged rejections.
  pub logs_are_bounded :
      (rate threshold start : A.Num) (cs : List (Call A))
      → let l = run A (new A rate threshold start) cs in
        (length l.queue_times ≤ 1000) × (length l.rejections ≤ 10000)
  unfolding new
  logs_are_bounded rate threshold start cs =
      let t =
        run-IsTrimmed (new A rate threshold start) cs
          (record { samples = omega arith; log = omega arith }) in
      (t.samples, t.log)
