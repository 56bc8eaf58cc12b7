-- ===== src/Risk/Drawdown/Peak.antt =====
-- The peak of the equity, and the equity that the daily limit is measured by.
use ig_trading_bot.Common.{
  ◌≡◌, refl, ◌∙◌, true, List, [], ◌∷◌, All, Arith, IsOrdered, arith, if◌then◌else◌,
}
use ig_trading_bot.Risk.Drawdown.{
  DrawdownMonitor, Call, equity_call, close_call, limit_call, check_call, reset_call, step, run,
  update_equity, update_on_trade_close, check_daily_loss_limit, check_trade_allowed, reset_daily,
  reset_daily_if_needed, after_kill_switch,
}

module _ (A : Arith) where
  -- The equity that a call shows the monitor is at most a peak.
  abbrev pub Seen : A.Num → Call A → Type 0
  Seen peak (equity_call e) = A.le e peak ≡ true
  Seen peak (check_call e now now') = A.le e peak ≡ true
  Seen peak _ = Unit

  raised : A.Num → A.Num → A.Num
  raised peak e = if A.lt peak e then e else peak

  -- The peak after a call, in one line.
  abbrev peak_after : A.Num → Call A → A.Num
  peak_after peak (equity_call e) = raised peak e
  peak_after peak (check_call e now now') = raised peak e
  peak_after peak _ = peak

  step-peak :
      (m : DrawdownMonitor A) (c : Call A) → (step A m c).peak_equity ≡ peak_after m.peak_equity c
  unfolding step update_equity update_on_trade_close check_daily_loss_limit check_trade_allowed
      reset_daily reset_daily_if_needed after_kill_switch raised
  step-peak m (equity_call e) = ground arith
  step-peak m (close_call pnl now) = ground arith
  step-peak m (limit_call e now) = ground arith
  step-peak m (check_call e now now') = ground arith
  step-peak m (reset_call e now) = refl

  -- Without a manual reset, no call changes the equity that the daily limit is measured by.
  abbrev pub NoReset : Call A → Type 0
  NoReset (reset_call e now) = ⊥
  NoReset _ = Unit

  step-start :
      (m : DrawdownMonitor A) (c : Call A)
      → NoReset c
      → (step A m c).daily_start_equity ≡ m.daily_start_equity
  unfolding step update_equity update_on_trade_close check_daily_loss_limit check_trade_allowed
      reset_daily_if_needed after_kill_switch
  step-start m (equity_call e) ok = ground arith
  step-start m (close_call pnl now) ok = ground arith
  step-start m (limit_call e now) ok = ground arith
  step-start m (check_call e now now') ok = ground arith
  step-start m (reset_call e now) ok = absurd ok

  -- The daily limit is measured by the equity of the first day for ever: whatever calls are made,
  -- and however many days begin, without a manual reset the start-of-day equity never changes.
  pub start_of_day_is_stale :
      (m : DrawdownMonitor A) (cs : List (Call A))
      → All NoReset cs
      → (run A m cs).daily_start_equity ≡ m.daily_start_equity
  unfolding run
  start_of_day_is_stale m [] ok = refl
  start_of_day_is_stale m (c ∷ cs) ok =
      start_of_day_is_stale (step A m c) cs ok.1 ∙ step-start m c ok.0

  module _ (o : IsOrdered A) where
    open o use {le_refl, le_trans, le_total, lt_not_le}

    raised-ge : (peak e : A.Num) → A.le peak (raised peak e) ≡ true
    unfolding raised
    raised-ge peak e = ground (arith, le_refl peak, le_total e peak, lt_not_le peak e)

    raised-seen : (peak e : A.Num) → A.le e (raised peak e) ≡ true
    unfolding raised
    raised-seen peak e = ground (arith, le_refl e, lt_not_le peak e)

    peak_after-ge : (peak : A.Num) (c : Call A) → A.le peak (peak_after peak c) ≡ true
    peak_after-ge peak (equity_call e) = raised-ge peak e
    peak_after-ge peak (close_call pnl now) = le_refl peak
    peak_after-ge peak (limit_call e now) = le_refl peak
    peak_after-ge peak (check_call e now now') = raised-ge peak e
    peak_after-ge peak (reset_call e now) = le_refl peak

    run-ge :
        (m : DrawdownMonitor A) (cs : List (Call A))
        → A.le m.peak_equity (run A m cs).peak_equity ≡ true
    unfolding run
    run-ge m [] = le_refl m.peak_equity
    run-ge m (c ∷ cs) =
        le_trans m.peak_equity (step A m c).peak_equity (run A (step A m c) cs).peak_equity
          (rw (step-peak m c) (peak_after-ge m.peak_equity c)) (run-ge (step A m c) cs)

    Seen-after :
        (peak final : A.Num) (c : Call A) → A.le (peak_after peak c) final ≡ true → Seen final c
    Seen-after peak final (equity_call e) h =
        le_trans e (raised peak e) final (raised-seen peak e) h
    Seen-after peak final (close_call pnl now) h = tt
    Seen-after peak final (limit_call e now) h = tt
    Seen-after peak final (check_call e now now') h =
        le_trans e (raised peak e) final (raised-seen peak e) h
    Seen-after peak final (reset_call e now) h = tt

    run-Seen : (m : DrawdownMonitor A) (cs : List (Call A)) → All (Seen (run A m cs).peak_equity) cs
    unfolding run step
    run-Seen m [] = tt
    run-Seen m (c ∷ cs) =
        let later = run A (step A m c) cs in
        (
          Seen-after m.peak_equity later.peak_equity c
              (rw (step-peak m c) at (run-ge (step A m c) cs)),
          run-Seen (step A m c) cs,
        )

    -- Under a total order of the amounts, after any calls, new days and resets included, the peak
    -- is at least the one before and at least every equity that was given to `update_equity` or
    -- checked for a trade.
    pub peak_is_highest :
        (m : DrawdownMonitor A) (cs : List (Call A))
        → let peak = (run A m cs).peak_equity in
          (A.le m.peak_equity peak ≡ true) × All (Seen peak) cs
    peak_is_highest m cs = (run-ge m cs, run-Seen m cs)
