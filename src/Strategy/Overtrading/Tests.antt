-- ===== src/Strategy/Overtrading/Tests.antt =====
-- A guard on concrete inputs, and the theorems applied to them.
use ig_trading_bot.Common.{
  ℕ, ◌+◌, ◌*◌, ◌≡◌, refl, true, false, List, [], ◌∷◌, fixed, pos, arith, lookup, insert,
}
use ig_trading_bot.Strategy.Overtrading.{
  OvertradingGuard, Call, try_call, loss_call, win_call, reset_call, record_trade, record_loss,
  is_in_cooldown, can_trade, try_trade, step, run, get_trade_count,
}
use ig_trading_bot.Strategy.Overtrading.Limits.{IsWithin, hft_trades, run-IsWithin}
use ig_trading_bot.Strategy.Overtrading.Interval.{interval_locks_out}
use ig_trading_bot.Strategy.Overtrading.Cooldown.{third_loss_locks_out}

abbrev minute : ℕ
minute = 60000000

abbrev guard : OvertradingGuard
guard = record {
  max_trades_per_day = 2;
  min_interval = 5 * minute;
  cooldown_duration = 60 * minute;
  trade_counts = [];
  last_trade_times = [];
  consecutive_losses = ("gold", 2) ∷ [];
  cooldown_start = [];
}

-- The second attempt comes too soon, the fourth meets the limit, and a low win rate halves it; HFT passes.
abbrev day : List (Call fixed)
day =
    try_call "trend" "gold" (10 * minute) (pos 6000) false
    ∷ try_call "trend" "gold" (14 * minute) (pos 6000) false
    ∷ try_call "trend" "gold" (15 * minute) (pos 6000) false
    ∷ try_call "trend" "gold" (20 * minute) (pos 6000) false
    ∷ try_call "swing" "gold" (20 * minute) (pos 3000) false
    ∷ try_call "swing" "gold" (30 * minute) (pos 3000) false
    ∷ try_call "swing" "gold" (31 * minute) (pos 3000) true
    ∷ []

run-day :
    (get_trade_count (run fixed guard day) "trend" "gold" ≡ 2)
    × (get_trade_count (run fixed guard day) "swing" "gold" ≡ 2)
unfolding run step try_trade can_trade record_trade lookup insert
run-day = (refl, refl)

run-IsWithin_example :
    IsWithin "swing" "gold" (0 + hft_trades fixed "swing" "gold" day) (run fixed guard day)
unfolding lookup
run-IsWithin_example = run-IsWithin fixed "swing" "gold" 0 guard day (omega arith, omega arith)

abbrev between : List (Call fixed)
between =
    try_call "swing" "gold" (12 * minute) (pos 6000) false
    ∷ loss_call "gold" (13 * minute)
    ∷ reset_call
    ∷ []

interval_locks_out_example :
    (try_trade fixed
      (run fixed (record_trade guard "trend" "gold" (10 * minute)) between)
      "swing"
      "gold"
      (14 * minute)
      (pos 6000)
      false).1
    ≡ false
interval_locks_out_example =
    interval_locks_out fixed guard "trend" "swing" "gold" (10 * minute) (14 * minute) (pos 6000)
      between (omega arith) (omega arith) (omega arith)

abbrev after : List (Call fixed)
after = win_call "oil" ∷ try_call "swing" "gold" (20 * minute) (pos 6000) false ∷ reset_call ∷ []

third_loss_locks_out_example :
    let g' = run fixed (record_loss guard "gold" (10 * minute)) after in
    (is_in_cooldown g' "gold" (69 * minute) ≡ true)
    × ((try_trade fixed g' "trend" "gold" (69 * minute) (pos 6000) false).1 ≡ false)
unfolding lookup
third_loss_locks_out_example =
    third_loss_locks_out fixed guard "gold" "trend" (10 * minute) (69 * minute) (pos 6000) after
      (omega arith) refl refl (refl, (omega arith, (tt, tt))) (omega arith)
