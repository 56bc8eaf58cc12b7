-- ===== src/Risk/Crisis/Order.antt =====
-- The sort by volatility: a permutation, in descending order.
use mathlib.Core.List.{Perm}
use mathlib.Core.List.Perm.{
  refl as Perm-refl, cons as Perm-cons, swap as Perm-swap, trans as Perm-trans,
}
use ig_trading_bot.Common.{
  ◌≡◌, true, List, [], ◌∷◌, All, All-mono, Arith, IsOrdered, arith, Bool-cases, inl, inr,
}
use ig_trading_bot.Risk.Crisis.{CrisisPosition, place, sort_by_atr}

module _ (A : Arith) where
  place-Perm : (p : CrisisPosition A) (qs : List (CrisisPosition A)) → Perm (place A p qs) (p ∷ qs)
  unfolding place
  place-Perm p [] = Perm-refl (p ∷ [])
  place-Perm p (q ∷ qs) = elim (Bool-cases (A.lt p.atr q.atr)) [
    | inl less ↦ rw less (Perm-trans (Perm-cons q (place-Perm p qs)) (Perm-swap p q qs))
    | inr more ↦ rw more (Perm-refl (p ∷ q ∷ qs))
  ]

  pub sort_by_atr-Perm : (ps : List (CrisisPosition A)) → Perm (sort_by_atr A ps) ps
  unfolding sort_by_atr
  sort_by_atr-Perm [] = Perm-refl []
  sort_by_atr-Perm (p ∷ ps) =
      Perm-trans (place-Perm p (sort_by_atr A ps)) (Perm-cons p (sort_by_atr-Perm ps))

  -- No position is more volatile than an earlier one.
  abbrev pub AtMost : CrisisPosition A → CrisisPosition A → Type 0
  AtMost p q = A.le q.atr p.atr ≡ true

  abbrev pub IsDescending : List (CrisisPosition A) → Type 0
  IsDescending [] = Unit
  IsDescending (p ∷ ps) = All (AtMost p) ps × IsDescending ps

module _ (A : Arith) (o : IsOrdered A) where
  open o use {le_refl, le_trans, le_total, lt_not_le}

  place-AtMost :
      (r p : CrisisPosition A) (qs : List (CrisisPosition A))
      → AtMost A r p
      → All (AtMost A r) qs
      → All (AtMost A r) (place A p qs)
  unfolding place
  place-AtMost r p [] h a = (h, tt)
  place-AtMost r p (q ∷ qs) h a = elim (Bool-cases (A.lt p.atr q.atr)) [
    | inl less ↦ rw less (a.0, place-AtMost r p qs h a.1)
    | inr more ↦ rw more (h, (a.0, a.1))
  ]

  place-IsDescending :
      (p : CrisisPosition A) (qs : List (CrisisPosition A))
      → IsDescending A qs
      → IsDescending A (place A p qs)
  unfolding place
  place-IsDescending p [] d = (tt, tt)
  place-IsDescending p (q ∷ qs) d = elim (Bool-cases (A.lt p.atr q.atr)) [
    | inl less ↦
        let below : AtMost A q p = ground (arith, lt_not_le p.atr q.atr, le_total q.atr p.atr) in
        rw less (place-AtMost q p qs below d.0, place-IsDescending p qs d.1)
    | inr more ↦
        let above : AtMost A p q = ground (arith, lt_not_le p.atr q.atr) in
        rw more (
          (
            above,
            All-mono (AtMost A q) (AtMost A p) (λ r h. le_trans r.atr q.atr p.atr h above) qs d.0,
          ),
          d,
        )
  ]

  pub sort_by_atr-IsDescending : (ps : List (CrisisPosition A)) → IsDescending A (sort_by_atr A ps)
  unfolding sort_by_atr
  sort_by_atr-IsDescending [] = tt
  sort_by_atr-IsDescending (p ∷ ps) =
      place-IsDescending p (sort_by_atr A ps) (sort_by_atr-IsDescending ps)
