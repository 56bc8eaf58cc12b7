-- ===== src/CopyTrading/Engine/Window.antt =====
-- When a drawdown stops the copying of a trader.
use ig_trading_bot.Common.{
  ℕ, ◌+◌, ◌*◌, leb, ◌&&◌, ◌++◌, keep, ap, ◌≡◌, refl, ◌∙◌, String, Bool, false, ◌||◌, some, List, [],
  ◌∷◌, Arith, IsOrdered, IsMonotone, equal, arith, if◌then◌else◌, lookup,
}
use ig_trading_bot.CopyTrading.Engine.{
  TraderAllocation, CopyEngine, check_drawdown_stop, exceeds_limit, peak_of, recent, in_window,
}

module _ (A F : Arith) where
  open A use {Num, sub, mul, le, lt}

  -- The profit has fallen by the limit since some entry.
  abbrev has_fallen : Num → Num → List (ℕ × Num) → Bool
  has_fallen limit pnl [] = false
  has_fallen limit pnl (p ∷ ps) = le limit (sub p.1 pnl) || has_fallen limit pnl ps

  -- The profit has fallen by the limit since some entry that is at most seven days old.
  abbrev pub fell_this_week : Num → Num → ℕ → List (ℕ × Num) → Bool
  fell_this_week limit pnl now [] = false
  fell_this_week limit pnl now (p ∷ ps) =
      (leb now (p.0 + 7 * 24 * 60 * 60 * 1000000) && le limit (sub p.1 pnl))
      || fell_this_week limit pnl now ps

  fell_this_week-keep :
      (limit pnl : Num) (now : ℕ) (ps : List (ℕ × Num))
      → has_fallen limit pnl (keep (in_window A F now) ps) ≡ fell_this_week limit pnl now ps
  unfolding keep
  fell_this_week-keep limit pnl now [] = refl
  fell_this_week-keep limit pnl now (p ∷ ps) = ground (arith, fell_this_week-keep limit pnl now ps)

  higher_of :
      (o : IsOrdered A) (m : IsMonotone A) (limit pnl a b : Num)
      → le limit (sub (if lt a b then b else a) pnl) ≡ le limit (sub a pnl) || le limit (sub b pnl)
  higher_of o m limit pnl a b = ground (
    arith,
    o.lt_not_le a b,
    o.le_total a b,
    o.le_total b a,
    m.sub_mono a b pnl,
    m.sub_mono b a pnl,
    o.le_trans limit (sub a pnl) (sub b pnl),
    o.le_trans limit (sub b pnl) (sub a pnl),
  )

  peak_of-has_fallen :
      (o : IsOrdered A) (m : IsMonotone A) (limit pnl best : Num) (ps : List (ℕ × Num))
      → le limit (sub (peak_of A F best ps) pnl)
        ≡ le limit (sub best pnl) || has_fallen limit pnl ps
  peak_of-has_fallen o m limit pnl best [] = ground arith
  peak_of-has_fallen o m limit pnl best (p ∷ ps) =
      peak_of-has_fallen o m limit pnl (if lt best p.1 then p.1 else best) ps
      ∙ rw (higher_of o m limit pnl best p.1) (ground arith)

  exceeds_limit-has_fallen :
      (o : IsOrdered A) (m : IsMonotone A) (share equity pnl : Num) (ps : List (ℕ × Num))
      → equal A equity (A.dec 0 0) ≡ false
      → exceeds_limit A F share equity pnl ps ≡ some (has_fallen (mul equity share) pnl ps)
  unfolding exceeds_limit
  exceeds_limit-has_fallen o m share equity pnl [] funded = refl
  exceeds_limit-has_fallen o m share equity pnl (p ∷ ps) funded =
      ground (arith, peak_of-has_fallen o m (mul equity share) pnl p.1 ps)

  -- The check of a trader with an allocation that is not zero says to stop exactly when the profit
  -- has fallen by the share of the allocated equity, or by more, since some entry of the history,
  -- the one of this check included, that is at most seven days old; the order is total, and
  -- differences keep it.
  pub check_drawdown_stop-has_fallen :
      (o : IsOrdered A) (m : IsMonotone A) (e : CopyEngine A F) (trader : String)
      (a : TraderAllocation A) (pnl : Num) (now : ℕ)
      → lookup trader e.trader_allocations ≡ some a
      → equal A a.allocated_equity (A.dec 0 0) ≡ false
      → (check_drawdown_stop A F e trader pnl now).1
        ≡ some (
            fell_this_week
              (mul a.allocated_equity e.drawdown_stop_pct)
              pnl
              now
              (a.pnl_history ++ (now, pnl) ∷ []))
  unfolding check_drawdown_stop
  check_drawdown_stop-has_fallen o m e trader a pnl now found funded =
      rw (found, check_drawdown_stop)
        (exceeds_limit-has_fallen o m e.drawdown_stop_pct a.allocated_equity pnl
            (recent A F a pnl now) funded
          ∙ ap some (
              fell_this_week-keep (mul a.allocated_equity e.drawdown_stop_pct) pnl now
                (a.pnl_history ++ (now, pnl) ∷ [])))
