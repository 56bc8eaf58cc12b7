-- ===== src/Trading/RateLimiter/Tests.antt =====
-- A limiter on concrete inputs, and the theorems applied to them.
use ig_trading_bot.Common.{
  ℕ, ◌+◌, ◌≡◌, refl, String, false, List, [], ◌∷◌, fixed, pos, length, trim,
}
use ig_trading_bot.Trading.RateLimiter.{
  RateLimiter, QueuedOrder, Call, submit_call, process_call, sweep_call, submit_order,
  process_queue, sweep_stale_orders, new, step, run, consume, refill, process_each, process_one,
  sweep_each, sweep_one, cancel_order_latency, record_queue_time,
}
use ig_trading_bot.Trading.RateLimiter.Conservation.{given_all, orders_are_conserved}

-- An order enqueued at a time in units of 0.1 ms.
abbrev order : String → ℕ → QueuedOrder fixed
order i t = record {
  order_id = i;
  instrument = "EURUSD";
  direction = "BUY";
  size = pos 10000;
  enqueue_time = pos t;
}

-- One order a second; a threshold of 500 ms.
abbrev limiter : RateLimiter fixed
limiter = new fixed (pos 10000) (pos 5000000) (pos 0)

abbrev calls : List (Call fixed)
calls =
    submit_call (order "a" 0) (pos 0)
    ∷ submit_call (order "b" 100) (pos 100)
    ∷ submit_call (order "c" 6000) (pos 6000)
    ∷ process_call (pos 10000) (λ k. pos 10000)
    ∷ submit_call (order "d" 10000) (pos 10000)
    ∷ sweep_call (pos 15001)
    ∷ []

-- "b" waits too long, "c" gets the second token, and "d" is swept.
run-calls :
    let l = run fixed limiter calls in
    (l.orders_submitted ≡ 2) × (l.orders_cancelled_latency ≡ 2) × (l.orders_queued ≡ 3)
unfolding run step submit_order process_queue sweep_stale_orders process_each process_one sweep_each
    sweep_one cancel_order_latency record_queue_time new consume refill trim
run-calls = (refl, refl, refl)

orders_are_conserved_example :
    let l = run fixed limiter calls in
    l.orders_submitted + l.orders_cancelled_latency + length l.queue ≡ given_all fixed calls
orders_are_conserved_example = orders_are_conserved fixed (pos 10000) (pos 5000000) (pos 0) calls

abbrev waiting : RateLimiter fixed
waiting = record {
  latency_threshold_ms = pos 5000000;
  bucket = record { rate = pos 10000; capacity = pos 10000; tokens = pos 0; last_refill = pos 0 };
  queue = order "b" 100 ∷ order "c" 6000 ∷ order "d" 9000 ∷ [];
  orders_queued = 3;
  orders_cancelled_latency = 0;
  orders_submitted = 0;
  queue_times = [];
  rejections = [];
  running = false;
  has_sweep_task = false;
}
