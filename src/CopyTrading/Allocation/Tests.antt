-- ===== src/CopyTrading/Allocation/Tests.antt =====
-- Allocations of concrete scores, and the theorem applied to them.
use ig_trading_bot.Common.{
  ◌≡◌, ◌≤◌, refl, String, List, [], ◌∷◌, All, length, fixed, fixed-IsOrdered, pos, place_by,
  sort_by, Dict,
}
use ig_trading_bot.CopyTrading.Allocation.{
  AllocationManager, AllocationResult, calculate_allocation, calculate_allocations, selected,
}
use ig_trading_bot.CopyTrading.Allocation.Bounds.{Bounded, allocations_have_limits}
open fixed use {Num}

-- From 1% to 10% for each of at most two traders.
abbrev manager : AllocationManager fixed
manager = record { max_per_trader_pct = pos 1000; min_per_trader_pct = pos 100; max_traders = 2 }

abbrev scores : Dict Num
scores = ("ann", pos 10000) ∷ ("bob", pos 5000) ∷ ("cyd", pos 990000) ∷ []

abbrev names : List (AllocationResult fixed) → List String
names [] = []
names (r ∷ rs) = r.trader_id ∷ names rs

-- The lowest score is left out.
calculate_allocations-names :
    names (calculate_allocations fixed fixed (λ x. x) (λ x. x) manager scores (pos 100000000))
    ≡ "cyd" ∷ "ann" ∷ []
unfolding calculate_allocations calculate_allocation selected sort_by place_by
calculate_allocations-names = refl

allocations_have_limits_example :
    let results =
      calculate_allocations fixed fixed (λ x. x) (λ x. x) manager scores (pos 100000000) in
    (length results ≤ 2)
    × All (Bounded fixed fixed (λ x. x) (λ x. x) manager (pos 100000000)) results
allocations_have_limits_example =
    allocations_have_limits fixed fixed (λ x. x) (λ x. x) fixed-IsOrdered manager scores
      (pos 100000000) refl
