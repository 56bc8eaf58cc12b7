-- ===== src/Risk/Drawdown/Daily.antt =====
-- The daily loss limit: what it sums, and that it holds until the day is over.
use ig_trading_bot.Common.{
  ℕ, ◌≤◌, ◌≡◌, ap, ◌∙◌, Option, Bool, true, List, [], ◌∷◌, All, Arith, arith, if◌then◌else◌, ltb,
  leb, ◌&&◌,
}
use ig_trading_bot.Risk.Drawdown.{
  DrawdownMonitor, TradeDecision, allow, reduce_size, reject, kill_switch, Call, equity_call,
  close_call, limit_call, check_call, reset_call, step, run, midnight, update_equity,
  update_on_trade_close, check_daily_loss_limit, check_trade_allowed, reset_daily_if_needed,
  after_kill_switch, add_loss, new,
}

abbrev pub same_day : ℕ → ℕ → Bool
same_day a b = leb a b && leb b a

module _ (A : Arith) where
  -- Clocks that have not passed the end of a day; nobody resets the monitor by hand.
  abbrev pub Within : ℕ → Call A → Type 0
  Within day (equity_call e) = Unit
  Within day (close_call pnl now) = midnight now ≤ day
  Within day (limit_call e now) = midnight now ≤ day
  Within day (check_call e now now') = (midnight now ≤ day) × (midnight now' ≤ day)
  Within day (reset_call e now) = ⊥

  record IsHit (day : ℕ) (m : DrawdownMonitor A) : Type 0 where
    hit : m.daily_loss_limit_hit ≡ true
    today : m.current_day ≡ day

  reset-IsHit :
      (day : ℕ) (m : DrawdownMonitor A) (now : ℕ)
      → midnight now ≤ day
      → IsHit day m
      → reset_daily_if_needed A m now ≡ m
  unfolding reset_daily_if_needed
  reset-IsHit day m now early h = ground arith

  step-IsHit :
      (day : ℕ) (m : DrawdownMonitor A) (c : Call A)
      → Within day c
      → IsHit day m
      → IsHit day (step A m c)
  unfolding step update_equity update_on_trade_close check_daily_loss_limit check_trade_allowed
      after_kill_switch reset_daily_if_needed
  step-IsHit day m (equity_call e) ok h = ground arith
  step-IsHit day m (close_call pnl now) ok h = ground arith
  step-IsHit day m (limit_call e now) ok h = ground arith
  step-IsHit day m (check_call e now now') ok h = ground arith
  step-IsHit day m (reset_call e now) ok h = absurd ok

  run-IsHit :
      (day : ℕ) (m : DrawdownMonitor A) (cs : List (Call A))
      → All (Within day) cs
      → IsHit day m
      → IsHit day (run A m cs)
  unfolding run
  run-IsHit day m [] ok h = h
  run-IsHit day m (c ∷ cs) ok h = run-IsHit day (step A m c) cs ok.1 (step-IsHit day m c ok.0 h)

  -- No trade passes: it is rejected, or it triggers the kill switch.
  abbrev pub IsBlocked : TradeDecision → Type 0
  IsBlocked allow = ⊥
  IsBlocked reduce_size = ⊥
  IsBlocked reject = Unit
  IsBlocked kill_switch = Unit

  check_trade_allowed-IsBlocked :
      (day : ℕ) (m : DrawdownMonitor A) (e : A.Num) (now now' : ℕ)
      → midnight now ≤ day
      → IsHit day m
      → IsBlocked (check_trade_allowed A m e now now').1.decision
  unfolding check_trade_allowed update_equity after_kill_switch reset_daily_if_needed
  check_trade_allowed-IsBlocked day m e now now' early h = ground arith

  close-IsHit :
      (m : DrawdownMonitor A) (pnl : A.Num) (t : ℕ)
      → m.current_day ≤ midnight t
      → (update_on_trade_close A m pnl t).daily_loss_limit_hit ≡ true
      → IsHit (midnight t) (update_on_trade_close A m pnl t)
  unfolding update_on_trade_close reset_daily_if_needed
  close-IsHit m pnl t order hit = record { hit = hit; today = ground arith }

  -- Once a trade that is closed at t has brought the losses of the day to the limit, every check of
  -- a trade whose clock has not passed that day's end rejects it or triggers the kill switch,
  -- whatever equities, closed trades and checks with such clocks come between, unless the monitor is
  -- reset by hand; profits do not lift the limit. The clock at t is not behind the monitor's day.
  pub daily_limit_blocks :
      (m : DrawdownMonitor A) (pnl e : A.Num) (t now now' : ℕ) (cs : List (Call A))
      → m.current_day ≤ midnight t
      → (update_on_trade_close A m pnl t).daily_loss_limit_hit ≡ true
      → All (Within (midnight t)) cs
      → midnight now ≤ midnight t
      → IsBlocked
          (check_trade_allowed A (run A (update_on_trade_close A m pnl t) cs) e now now').1.decision
  daily_limit_blocks m pnl e t now now' cs order hit ok early =
      let closed = update_on_trade_close A m pnl t in
      check_trade_allowed-IsBlocked (midnight t) (run A closed cs) e now now' early
        (run-IsHit (midnight t) closed cs ok (close-IsHit m pnl t order hit))

  -- Closed trades, each with its profit and its time.
  abbrev pub close_all : DrawdownMonitor A → List (A.Num × ℕ) → DrawdownMonitor A
  close_all m [] = m
  close_all m ((pnl, t) ∷ closes) = close_all (update_on_trade_close A m pnl t) closes

  -- The clock never goes back to an earlier day.
  abbrev pub Ascending : ℕ → List (A.Num × ℕ) → Type 0
  Ascending day [] = Unit
  Ascending day ((pnl, t) ∷ closes) = (day ≤ midnight t) × Ascending (midnight t) closes

  -- The amounts of the losses among the trades of one day, added to a total.
  abbrev pub losses_on : ℕ → A.Num → List (A.Num × ℕ) → A.Num
  losses_on day total [] = total
  losses_on day total ((pnl, t) ∷ closes) =
      losses_on day
        (if same_day day (midnight t) && A.lt pnl (A.dec 0 0)
          then A.add total (A.neg pnl)
          else total)
        closes

  close-day :
      (m : DrawdownMonitor A) (pnl : A.Num) (t : ℕ)
      → m.current_day ≤ midnight t
      → (update_on_trade_close A m pnl t).current_day ≡ midnight t
  unfolding update_on_trade_close reset_daily_if_needed
  close-day m pnl t order = ground arith

  close-loss :
      (m : DrawdownMonitor A) (pnl : A.Num) (t : ℕ)
      → (update_on_trade_close A m pnl t).daily_realized_loss
        ≡ add_loss A
            (if ltb m.current_day (midnight t) then A.dec 0 0 else m.daily_realized_loss)
            pnl
  unfolding update_on_trade_close reset_daily_if_needed
  close-loss m pnl t = ground arith

  close_all-day :
      (m : DrawdownMonitor A) (closes : List (A.Num × ℕ))
      → Ascending m.current_day closes
      → m.current_day ≤ (close_all m closes).current_day
  close_all-day m [] ok = omega arith
  close_all-day m ((pnl, t) ∷ closes) ok =
      let d = close-day m pnl t ok.0 in
      omega (arith, ok.0, d, close_all-day (update_on_trade_close A m pnl t) closes (rw d ok.1))

  carried : ℕ → DrawdownMonitor A → A.Num
  carried day m = if same_day day m.current_day then m.daily_realized_loss else A.dec 0 0

  carried_self : (m : DrawdownMonitor A) → m.daily_realized_loss ≡ carried m.current_day m
  unfolding carried
  carried_self m = ground arith

  close-carried :
      (day : ℕ) (m : DrawdownMonitor A) (pnl : A.Num) (t : ℕ)
      → m.current_day ≤ midnight t
      → midnight t ≤ day
      → carried day (update_on_trade_close A m pnl t) ≡ (
          if same_day day (midnight t) && A.lt pnl (A.dec 0 0)
          then A.add (carried day m) (A.neg pnl)
          else carried day m)
  unfolding carried add_loss
  close-carried day m pnl t order later =
      rw (close-day m pnl t order, close-loss m pnl t) (ground arith)

  close_all-losses :
      (m : DrawdownMonitor A) (closes : List (A.Num × ℕ))
      → Ascending m.current_day closes
      → let m' = close_all m closes in
        m'.daily_realized_loss ≡ losses_on m'.current_day (carried m'.current_day m) closes
  close_all-losses m [] ok = carried_self m
  close_all-losses m ((pnl, t) ∷ closes) ok =
      let closed = update_on_trade_close A m pnl t in
      let day = (close_all closed closes).current_day in
      let d = close-day m pnl t ok.0 in
      let later : midnight t ≤ day = omega (arith, d, close_all-day closed closes (rw d ok.1)) in
      close_all-losses closed closes (rw d ok.1)
      ∙ ap (λ x. losses_on day x closes) (close-carried day m pnl t ok.0 later)

  new-carried :
      (equity : A.Num) (daily reduction kill : Option A.Num) (now day : ℕ)
      → carried day (new A equity daily reduction kill now) ≡ A.dec 0 0
  unfolding carried new
  new-carried equity daily reduction kill now day = ground arith

  -- The daily loss of a monitor that was made at some time and then given closed trades, with a
  -- clock that never goes back to an earlier day, is the sum of the amounts that the losing trades lost,
  -- of those alone that were closed on the day of the last one; profits are not set against it.
  pub daily_loss_sums :
      (equity : A.Num) (daily reduction kill : Option A.Num) (now : ℕ) (closes : List (A.Num × ℕ))
      → Ascending (midnight now) closes
      → let m = close_all (new A equity daily reduction kill now) closes in
        m.daily_realized_loss ≡ losses_on m.current_day (A.dec 0 0) closes
  unfolding new
  daily_loss_sums equity daily reduction kill now closes ok =
      let m = new A equity daily reduction kill now in
      let day = (close_all m closes).current_day in
      close_all-losses m closes ok
      ∙ ap (λ x. losses_on day x closes) (new-carried equity daily reduction kill now day)
