-- ===== src/Risk/Hft/Agreement.antt =====
-- The combined check of the rates against the two single ones.
use ig_trading_bot.Common.{
  ℕ, ◌≤◌, ◌≡◌, true, String, ◌&&◌, Arith, arith, Option-cases, inl, inr, lookup,
}
use ig_trading_bot.Risk.Hft.{
  HftRiskManager, check_rate_limit, check_global_rate, check_instrument_rate, judge_rate,
  count_instrument,
}

module _ (A F : Arith) where
  -- With a limit per instrument of one or more, `check_rate_limit` allows an order exactly when
  -- `check_global_rate` and then `check_instrument_rate` at the same readings of the clock would, and
  -- where it does it leaves the manager as those two leave it.
  pub combined_check_agrees :
      (m : HftRiskManager A F) (i : String) (now : ℕ → F.Num)
      → 1 ≤ m.max_per_instrument_rate
      → let (m', within) = check_global_rate A F m (now 0) in
        let (m'', within_each) = check_instrument_rate A F m' i (now 1) in
        let (out, status) = check_rate_limit A F m i now in
        (status.allowed ≡ within && within_each) × (status.allowed ≡ true → out ≡ m'')
  unfolding check_rate_limit check_global_rate check_instrument_rate judge_rate
  combined_check_agrees m i now some_room =
      elim (Option-cases (lookup i m.instrument_rate_counters)) [
        | inl absent ↦ rw (absent, count_instrument) (ground arith)
        | inr (c, found) ↦ rw (found, count_instrument) (ground arith)
      ]
