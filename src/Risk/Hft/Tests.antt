-- ===== src/Risk/Hft/Tests.antt =====
-- A manager on concrete inputs, and the theorems applied to them.
use ig_trading_bot.Common.{
  ℕ, ◌+◌, ◌≤◌, ◌≡◌, refl, true, false, List, [], ◌∷◌, fixed, pos, negsuc, length, lookup, insert,
  keep, min, max, Every, arith,
}
use ig_trading_bot.Risk.Hft.{
  HftRiskManager, Call, pnl_call, allowed_call, order_call, check_call, activate_circuit_breaker,
  update_pnl, record_pnl, is_hft_allowed, check_rate_limit, record_order, record_event,
  record_rejection, prune, count, new, run, recent_events,
}
use ig_trading_bot.Risk.Hft.Breaker.{breaker_halts}
use ig_trading_bot.Risk.Hft.Window.{recorded_in, a_second_has_limited_orders}
use ig_trading_bot.Risk.Hft.Rates.{Attempt, submit_all, rate_limits_hold}

abbrev manager : HftRiskManager fixed fixed
manager = new fixed fixed 10 2

-- A loss of 60 on an equity of 10000, over the half percent; the clock reads 1 s.
abbrev lost : HftRiskManager fixed fixed
lost = update_pnl fixed fixed manager (negsuc 599999) (pos 100000000) 1000000 1000000

update_pnl-trips : (lost.circuit_breaker_active ≡ true) × (lost.circuit_breaker_count ≡ 1)
unfolding new update_pnl record_pnl activate_circuit_breaker recent_events keep
update_pnl-trips = (refl, refl)

abbrev tripped : ℕ → HftRiskManager fixed fixed → HftRiskManager fixed fixed
tripped t m = activate_circuit_breaker fixed fixed m (negsuc 599999) (pos 100000000) t

abbrev twice : HftRiskManager fixed fixed
twice = tripped 200000000 (tripped 1000000 manager)

abbrev profit_and_orders : List (Call fixed fixed)
profit_and_orders =
    pnl_call (pos 900000) (pos 100000000) 310000000 310000000
    ∷ allowed_call 310000001
    ∷ check_call "EURUSD" (λ k. pos (3100000 + k))
    ∷ order_call "EURUSD" (λ k. pos (3100010 + k))
    ∷ []

breaker_halts_example :
    (is_hft_allowed fixed fixed
      (run fixed fixed
        (activate_circuit_breaker fixed fixed manager (negsuc 599999) (pos 100000000) 300000000)
        profit_and_orders)
      359999999).1
    ≡ false
breaker_halts_example =
    breaker_halts fixed fixed manager (negsuc 599999) (pos 100000000) 300000000 359999999
      profit_and_orders (omega arith, (omega arith, (tt, (tt, tt)))) (omega arith)

-- Three orders of one instrument within a millisecond, with a limit of two.
abbrev attempt_at : ℕ → Attempt fixed
attempt_at t = record { instrument = "EURUSD"; asked = λ k. pos t; recorded = λ k. pos t }

abbrev attempts : List (Attempt fixed)
attempts = attempt_at 10000 ∷ attempt_at 10003 ∷ attempt_at 10006 ∷ []

submit_all-attempts :
    let m = submit_all fixed fixed manager attempts in
    (length m.global_rate_counter.timestamps ≡ 2) × (length m.rejection_counter.timestamps ≡ 1)
unfolding submit_all new check_rate_limit record_order record_event record_rejection prune count
    lookup insert keep
submit_all-attempts = (refl, refl)

rate_limits_hold_example :
    let m = submit_all fixed fixed (new fixed fixed 10 2) attempts in
    (length m.global_rate_counter.timestamps ≤ max 10 (min 500 10))
    × Every (λ c. length c.timestamps ≤ 2) m.instrument_rate_counters
rate_limits_hold_example = rate_limits_hold fixed fixed 10 2 attempts

a_second_has_limited_orders_example :
    length (
      recorded_in fixed fixed
        (submit_all fixed fixed (new fixed fixed 10 2) (attempt_at 5000 ∷ []))
        attempts)
    ≤ max 10 (min 500 10)
a_second_has_limited_orders_example =
    a_second_has_limited_orders fixed fixed 10 2 (attempt_at 5000 ∷ []) attempts (
      ((refl, refl), ((refl, refl), ((refl, refl), tt))),
      (((refl, refl), ((refl, refl), tt)), (((refl, refl), tt), tt)),
    )
