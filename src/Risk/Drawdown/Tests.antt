-- ===== src/Risk/Drawdown/Tests.antt =====
-- A monitor on concrete inputs, and the theorems applied to them.
use ig_trading_bot.Common.{
  ℕ, ◌+◌, ◌*◌, ◌≡◌, refl, none, List, [], ◌∷◌, arith, ℤ, pos, negsuc, fixed,
}
use ig_trading_bot.Risk.Drawdown.{
  DrawdownMonitor, Call, equity_call, close_call, check_call, allow, reduce_size, TradeDecision,
  kill_switch, new, run, update_equity, get_drawdown, reset_daily_if_needed, update_on_trade_close,
  check_daily_loss_limit, check_trade_allowed, after_kill_switch, sized, add_loss,
}
use ig_trading_bot.Risk.Drawdown.Daily.{
  IsBlocked, daily_limit_blocks, close_all, losses_on, daily_loss_sums,
}

-- Midnight of a day, and an hour of it.
abbrev at : ℕ → ℕ → ℕ
at day hour = day * 86400000000 + hour * 3600000000

-- An equity of 10000, so a daily limit of 300.
abbrev monitor : DrawdownMonitor fixed
monitor = new fixed (pos 100000000) none none none (at 5 9)

abbrev after_loss : DrawdownMonitor fixed
after_loss = update_on_trade_close fixed monitor (negsuc 3000000) (at 5 10)

abbrev afternoon : List (Call fixed)
afternoon =
    close_call (pos 5000000) (at 5 11)
    ∷ equity_call (pos 102000000)
    ∷ check_call (pos 101000000) (at 5 12) (at 5 12)
    ∷ []

abbrev decision_at : ℤ → TradeDecision
decision_at e = (check_trade_allowed fixed monitor e (at 5 9) (at 5 9)).1.decision

-- A fall of 5, of 12 and of 15 per cent.
check_trade_allowed-falls :
    (decision_at (pos 95000000) ≡ allow)
    × (decision_at (pos 88000000) ≡ reduce_size)
    × (decision_at (pos 85000000) ≡ kill_switch)
unfolding new check_trade_allowed reset_daily_if_needed update_equity get_drawdown after_kill_switch
    check_daily_loss_limit sized
check_trade_allowed-falls = (refl, refl, refl)

daily_limit_blocks_example :
    IsBlocked fixed
      (check_trade_allowed fixed
        (run fixed after_loss afternoon)
        (pos 100000000)
        (at 5 23)
        (at 5 23)).1.decision
unfolding new update_on_trade_close reset_daily_if_needed add_loss
daily_limit_blocks_example =
    daily_limit_blocks fixed monitor (negsuc 3000000) (pos 100000000) (at 5 10) (at 5 23) (at 5 23)
      afternoon (omega arith) refl (omega arith, (tt, ((omega arith, omega arith), tt)))
      (omega arith)

abbrev closes : List (ℤ × ℕ)
closes =
    (negsuc 999999, at 5 10)
    ∷ (negsuc 499999, at 6 10)
    ∷ (pos 700000, at 6 11)
    ∷ (negsuc 99999, at 6 12)
    ∷ []

-- Losses of 50 and 10 on the second day, and no profit.
close_all-closes : (close_all fixed monitor closes).daily_realized_loss ≡ pos 600000
unfolding new update_on_trade_close reset_daily_if_needed add_loss
close_all-closes = refl

daily_loss_sums_example :
    let m = close_all fixed monitor closes in
    m.daily_realized_loss ≡ losses_on fixed m.current_day (pos 0) closes
unfolding new
daily_loss_sums_example =
    daily_loss_sums fixed (pos 100000000) none none none (at 5 9) closes
      (omega arith, (omega arith, (omega arith, (omega arith, tt))))
