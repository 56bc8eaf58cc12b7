-- ===== src/Trading/RateLimiter/Split.antt =====
-- What `process_queue` and the sweep make of the queue, order by order.
use ig_trading_bot.Common.{
  ℕ, suc, ◌≡◌, refl, Bool, true, false, List, [], ◌∷◌, ◌++◌, Arith, arith, All, Bool-cases, inl,
  inr, ◌∙◌,
}
use ig_trading_bot.Trading.RateLimiter.{
  RateLimiter, QueuedOrder, SubmissionResult, submitted, cancelled, queue_time, is_stale, result_of,
  consume, process_one, process_each, process_queue, sweep_one, sweep_each, sweep_stale_orders,
}

module _ (A : Arith) (threshold now : A.Num) where
  -- An order has waited longer than the threshold.
  abbrev pub is_late : QueuedOrder A → Bool
  is_late o = A.lt threshold (queue_time A now o)

  -- A queue is gone through from its head: a late order is cancelled, any other one is submitted or
  -- stays; what stays and what has a result keep the order of the queue.
  pub data Split
      : List (QueuedOrder A) → List (QueuedOrder A) → List (SubmissionResult A) → Type 0 where
    over : Split [] [] []
    cancel :
        {o : QueuedOrder A} {os rem : List (QueuedOrder A)} {res : List (SubmissionResult A)}
        → is_late o ≡ true
        → Split os rem res
        → Split (o ∷ os) rem (result_of A cancelled o (queue_time A now o) ∷ res)
    submit :
        {o : QueuedOrder A} {os rem : List (QueuedOrder A)} {res : List (SubmissionResult A)}
        → is_late o ≡ false
        → Split os rem res
        → Split (o ∷ os) rem (result_of A submitted o (queue_time A now o) ∷ res)
    stay :
        {o : QueuedOrder A} {os rem : List (QueuedOrder A)} {res : List (SubmissionResult A)}
        → is_late o ≡ false
        → Split os rem res
        → Split (o ∷ os) (o ∷ rem) res

  -- One round goes before the rest.
  extends :
      (l : RateLimiter A) (reading : A.Num) (o : QueuedOrder A)
      → l.latency_threshold_ms ≡ threshold
      → {os rem : List (QueuedOrder A)} {res : List (SubmissionResult A)} → Split os rem res
      → let r = process_one A l now reading o in
        Split (o ∷ os) (r.remaining ++ rem) (r.results ++ res)
  unfolding process_one
  extends l reading o e s = elim (Bool-cases (is_late o)) [
    | inl late ↦ rw (e, process_one, late) (cancel late s)
    | inr timely ↦ elim (Bool-cases (consume A l.bucket reading).1) [
      | inl taken ↦ rw (e, process_one, timely, taken) (submit timely s)
      | inr empty ↦ rw (e, process_one, timely, empty) (stay timely s)
    ]
  ]

  process_one-threshold :
      (l : RateLimiter A) (reading : A.Num) (o : QueuedOrder A)
      → (process_one A l now reading o).limiter.latency_threshold_ms ≡ l.latency_threshold_ms
  unfolding process_one
  process_one-threshold l reading o = ground arith

  process_each-Split :
      (os : List (QueuedOrder A)) (l : RateLimiter A) (clock : ℕ → A.Num) (k : ℕ)
      → l.latency_threshold_ms ≡ threshold
      → let r = process_each A l now clock k os in Split os r.remaining r.results
  unfolding process_each
  process_each-Split [] l clock k e = over
  process_each-Split (o ∷ os) l clock k e = extends l (clock k) o e (
      process_each-Split os (process_one A l now (clock k) o).limiter clock (suc k)
        (process_one-threshold l (clock k) o ∙ e))

  sweep_one-threshold :
      (l : RateLimiter A) (o : QueuedOrder A)
      → (sweep_one A l now o).limiter.latency_threshold_ms ≡ l.latency_threshold_ms
  unfolding sweep_one
  sweep_one-threshold l o = ground arith

  sweep_extends :
      (l : RateLimiter A) (o : QueuedOrder A)
      → l.latency_threshold_ms ≡ threshold
      → {os rem : List (QueuedOrder A)} {res : List (SubmissionResult A)} → Split os rem res
      → let r = sweep_one A l now o in Split (o ∷ os) (r.remaining ++ rem) (r.results ++ res)
  unfolding sweep_one
  sweep_extends l o e s = elim (Bool-cases (is_late o)) [
    | inl late ↦ rw (e, sweep_one, late) (cancel late s)
    | inr timely ↦ rw (e, sweep_one, timely) (stay timely s)
  ]

  sweep_each-Split :
      (os : List (QueuedOrder A)) (l : RateLimiter A)
      → l.latency_threshold_ms ≡ threshold
      → let r = sweep_each A l now os in Split os r.remaining r.results
  unfolding sweep_each
  sweep_each-Split [] l e = over
  sweep_each-Split (o ∷ os) l e =
      sweep_extends l o e
        (sweep_each-Split os (sweep_one A l now o).limiter (sweep_one-threshold l o ∙ e))

  Split-timely :
      {os rem : List (QueuedOrder A)} {res : List (SubmissionResult A)}
      → Split os rem res
      → All (λ o. is_late o ≡ false) rem
  Split-timely over = tt
  Split-timely (cancel late s) = Split-timely s
  Split-timely (submit timely s) = Split-timely s
  Split-timely (stay timely s) = (timely, Split-timely s)

sweep_each-cancels :
    (A : Arith) (now : A.Num) (os : List (QueuedOrder A)) (l : RateLimiter A)
    → All (λ r. r.status ≡ cancelled) (sweep_each A l now os).results
unfolding sweep_each sweep_one result_of
sweep_each-cancels A now [] l = tt
sweep_each-cancels A now (o ∷ os) l = elim (Bool-cases (is_stale A l now o)) [
  | inl late ↦ rw (late, sweep_one) (refl, sweep_each-cancels A now os _)
  | inr timely ↦ rw (timely, sweep_one) (sweep_each-cancels A now os _)
]

module _ (A : Arith) where
  -- `process_queue` goes through the queue from its head: each order that has waited longer than
  -- the threshold is cancelled, each other one is submitted or stays, with its result, and both
  -- those that stay and the results keep the queue's order; no order that stays is late.
  pub process_queue-Split :
      (l : RateLimiter A) (now : A.Num) (clock : ℕ → A.Num)
      → let (l', results) = process_queue A l now clock in
        Split A l.latency_threshold_ms now l.queue l'.queue results
        × All (λ o. is_stale A l now o ≡ false) l'.queue
  unfolding process_queue
  process_queue-Split l now clock =
      let s = process_each-Split A l.latency_threshold_ms now l.queue l clock 0 refl in
      (s, Split-timely A l.latency_threshold_ms now s)

  -- A sweep does the same and submits nothing: every result is a cancellation of a late order.
  pub sweep_stale_orders-Split :
      (l : RateLimiter A) (now : A.Num)
      → let (l', results) = sweep_stale_orders A l now in
        Split A l.latency_threshold_ms now l.queue l'.queue results
        × All (λ o. is_stale A l now o ≡ false) l'.queue
        × All (λ r. r.status ≡ cancelled) results
  unfolding sweep_stale_orders
  sweep_stale_orders-Split l now =
      let s = sweep_each-Split A l.latency_threshold_ms now l.queue l refl in
      (s, Split-timely A l.latency_threshold_ms now s, sweep_each-cancels A now l.queue l)
