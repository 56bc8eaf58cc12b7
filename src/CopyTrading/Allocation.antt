-- ===== src/CopyTrading/Allocation.antt =====
-- src/copy_trading/allocation_manager.py: how much equity each copied trader gets.
-- `Decimal` amounts are numbers of `A`, floats numbers of `F`. `decimal` is `Decimal(str(x))`, and
-- `quantize` rounds down to hundredths: both are the language's.
pub mod Bounds
mod Tests
use ig_trading_bot.Common.{
  ℕ, String, Bool, true, false, ◌||◌, ◌&&◌, List, [], ◌∷◌, Arith, if◌then◌else◌, Dict, take,
  sort_by,
}

pub record AllocationResult (A : Arith) : Type 0 where
  pub trader_id : String
  pub allocation : A.Num
  pub allocation_pct : A.Num
  pub capped : Bool

pub record AllocationManager (A : Arith) : Type 0 where
  pub max_per_trader_pct : A.Num
  pub min_per_trader_pct : A.Num
  pub max_traders : ℕ

module _ (A F : Arith) (decimal : F.Num → A.Num) (quantize : A.Num → A.Num) where
  open A use {Num, dec, mul, div, lt, le}

  -- The bounds of an allocation, before it is rounded.
  abbrev pub max_allocation : AllocationManager A → Num → Num
  max_allocation m equity = mul equity m.max_per_trader_pct

  abbrev pub min_allocation : AllocationManager A → Num → Num
  min_allocation m equity = mul equity m.min_per_trader_pct

  abbrev pub clamped : AllocationManager A → Num → Num → Num
  clamped m equity raw =
      if lt (max_allocation m equity) raw
      then max_allocation m equity
      else if lt raw (min_allocation m equity)
      then min_allocation m equity
      else raw

  pub calculate_allocation : AllocationManager A → F.Num → F.Num → Num → Num
  calculate_allocation m score total equity =
      if F.le total (F.dec 0 0) || F.le score (F.dec 0 0) || le equity (dec 0 0)
      then dec 0 0
      else quantize (clamped m equity (mul equity (div (decimal score) (decimal total))))

  abbrev pub sum_of : F.Num → Dict F.Num → F.Num
  sum_of total [] = total
  sum_of total (p ∷ ps) = sum_of (F.add total p.1) ps

  abbrev pub result_of : AllocationManager A → F.Num → Num → String × F.Num → AllocationResult A
  result_of m total equity p =
      let allocation = calculate_allocation m p.1 total equity in
      record {
        trader_id = p.0;
        allocation = allocation;
        allocation_pct = (if lt (dec 0 0) equity then div allocation equity else dec 0 0);
        capped = le (max_allocation m equity) allocation;
      }

  abbrev pub results_of : AllocationManager A → F.Num → Num → Dict F.Num → List (AllocationResult A)
  results_of m total equity [] = []
  results_of m total equity (p ∷ ps) = result_of m total equity p ∷ results_of m total equity ps

  -- The traders with the highest scores, as many as the limit lets through.
  pub selected : AllocationManager A → Dict F.Num → Dict F.Num
  selected m scores = take m.max_traders (sort_by (λ p q. F.lt q.1 p.1) scores)

  abbrev larger : AllocationResult A → AllocationResult A → Bool
  larger r s = lt s.allocation r.allocation

  pub calculate_allocations : AllocationManager A → Dict F.Num → Num → List (AllocationResult A)
  unfolding selected calculate_allocation
  calculate_allocations m [] equity = []
  calculate_allocations m (p ∷ ps) equity =
      let chosen = selected m (p ∷ ps) in
      let total = sum_of (F.dec 0 0) chosen in
      if le equity (dec 0 0)
      then []
      else if F.le total (F.dec 0 0)
      then []
      else sort_by larger (results_of m total equity chosen)

  pub validate_allocation : AllocationManager A → Num → Num → Bool
  validate_allocation m allocation equity =
      if le equity (dec 0 0)
      then false
      else le m.min_per_trader_pct (div allocation equity)
        && le (div allocation equity) m.max_per_trader_pct
