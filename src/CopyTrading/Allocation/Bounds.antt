-- ===== src/CopyTrading/Allocation/Bounds.antt =====
-- How many traders are copied, and with how much each.
use ig_trading_bot.Common.{
  ◌≤◌, ◌≡◌, refl, true, ◌||◌, [], ◌∷◌, Arith, IsOrdered, arith, Dict, sort_by, length,
  length-take_le, length-sort_by, sort_by-All, All, Bool-cases, inl, inr, ◌⊎◌,
}
use ig_trading_bot.CopyTrading.Allocation.{
  AllocationResult, AllocationManager, max_allocation, min_allocation, clamped,
  calculate_allocation, results_of, sum_of, selected, calculate_allocations,
}

module _ (A F : Arith) (decimal : F.Num → A.Num) (quantize : A.Num → A.Num) where
  open A use {Num, dec, mul, div, lt, le}

  -- An amount between the bounds, whose rounding is the allocation.
  pub record IsWithin (m : AllocationManager A) (equity allocation : Num) : Type 0 where
    pub exact : Num
    pub rounded : allocation ≡ quantize exact
    pub over_minimum : le (min_allocation A F decimal quantize m equity) exact ≡ true
    pub under_maximum : le exact (max_allocation A F decimal quantize m equity) ≡ true

  clamped-IsWithin :
      (o : IsOrdered A) (m : AllocationManager A) (equity raw : Num)
      → le
          (min_allocation A F decimal quantize m equity)
          (max_allocation A F decimal quantize m equity)
        ≡ true
      → IsWithin m equity (quantize (clamped A F decimal quantize m equity raw))
  clamped-IsWithin o m equity raw proper =
      let low = min_allocation A F decimal quantize m equity in
      let high = max_allocation A F decimal quantize m equity in
      elim (Bool-cases (lt high raw)) [
        | inl over ↦ rw over (record {
          exact = high;
          rounded = refl;
          over_minimum = proper;
          under_maximum = o.le_refl high;
        })
        | inr under ↦ elim (Bool-cases (lt raw low)) [
          | inl short ↦
              rw (under, short)
                (record {
                  exact = low;
                  rounded = refl;
                  over_minimum = o.le_refl low;
                  under_maximum = proper;
                })
          | inr enough ↦
              rw (under, enough)
                (record {
                  exact = raw;
                  rounded = refl;
                  over_minimum = ground (arith, enough, o.lt_not_le raw low);
                  under_maximum = ground (arith, under, o.lt_not_le high raw);
                })
        ]
      ]

  -- Nothing, for a trader whose score is not positive, or an amount within the bounds.
  abbrev pub Bounded : AllocationManager A → Num → AllocationResult A → Type 0
  Bounded m equity r = (r.allocation ≡ dec 0 0) ⊎ IsWithin m equity r.allocation

  results_of-Bounded :
      (o : IsOrdered A) (m : AllocationManager A) (total : F.Num) (equity : Num) (ps : Dict F.Num)
      → le
          (min_allocation A F decimal quantize m equity)
          (max_allocation A F decimal quantize m equity)
        ≡ true
      → All (Bounded m equity) (results_of A F decimal quantize m total equity ps)
  unfolding calculate_allocation
  results_of-Bounded o m total equity [] proper = tt
  results_of-Bounded o m total equity (p ∷ ps) proper =
      let raw = mul equity (div (decimal p.1) (decimal total)) in
      (
        elim (Bool-cases (F.le total (F.dec 0 0) || F.le p.1 (F.dec 0 0) || le equity (dec 0 0))) [
          | inl nothing ↦ rw nothing (inl refl)
          | inr positive ↦ rw positive (inr (clamped-IsWithin o m equity raw proper))
        ],
        results_of-Bounded o m total equity ps proper,
      )

  length-results_of :
      (m : AllocationManager A) (total : F.Num) (equity : Num) (ps : Dict F.Num)
      → length (results_of A F decimal quantize m total equity ps) ≡ length ps
  length-results_of m total equity [] = omega arith
  length-results_of m total equity (p ∷ ps) = omega (arith, length-results_of m total equity ps)

  -- From any scores and equity, there are at most as many allocations as traders may be copied, and
  -- each is zero or the rounding of an amount between the minimum and the maximum share of the
  -- equity. The order is total, and the minimum is not over the maximum.
  pub allocations_have_limits :
      (o : IsOrdered A) (m : AllocationManager A) (scores : Dict F.Num) (equity : Num)
      → le
          (min_allocation A F decimal quantize m equity)
          (max_allocation A F decimal quantize m equity)
        ≡ true
      → let results = calculate_allocations A F decimal quantize m scores equity in
        (length results ≤ m.max_traders) × All (Bounded m equity) results
  unfolding calculate_allocations selected
  allocations_have_limits o m [] equity proper = (omega arith, tt)
  allocations_have_limits o m (p ∷ ps) equity proper =
      let chosen = selected A F decimal quantize m (p ∷ ps) in
      let total = sum_of A F decimal quantize (F.dec 0 0) chosen in
      let few = length-take_le m.max_traders (sort_by (λ p q. F.lt q.1 p.1) (p ∷ ps)) in
      elim (Bool-cases (le equity (dec 0 0))) [
        | inl broke ↦ rw broke (omega arith, tt)
        | inr solvent ↦ elim (Bool-cases (F.le total (F.dec 0 0))) [
          | inl worthless ↦ rw (solvent, worthless) (omega arith, tt)
          | inr worth ↦
              rw (solvent, worth)
                (
                  omega (
                    arith,
                    few,
                    length-results_of m total equity chosen,
                    length-sort_by _ (results_of A F decimal quantize m total equity chosen),
                  ),
                  sort_by-All _ (Bounded m equity)
                      (results_of A F decimal quantize m total equity chosen)
                      (results_of-Bounded o m total equity chosen proper),
                )
        ]
      ]
