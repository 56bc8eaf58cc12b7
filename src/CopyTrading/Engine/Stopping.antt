-- ===== src/CopyTrading/Engine/Stopping.antt =====
-- What is left of a trader's copies when copying stops.
use text.Mathlib.Text.{◌==◌ as str_eq}
use text.Mathlib.TextEquality.{eq_iff}
use ig_trading_bot.Common.{
  ℕ, ◌≡◌, refl, ◌∙◌, String, Bool, false, none, List, [], ◌∷◌, Arith, arith, if◌then◌else◌, lookup,
  lookup-erase, lookup-erase_self, keys, keep, member, Bool-cases, Option-cases, inl, inr,
  lookup-eq-none_of_not_member,
}
use ig_trading_bot.CopyTrading.Engine.{
  CopyEngine, close_copied_position, close_each, positions_of, stop_copying_trader, copied_from,
}

member-keep :
    (p : String → Bool) (x : String) (xs : List String)
    → member x (keep p xs) ≡ (if p x then member x xs else false)
unfolding keep
member-keep p x [] = ground arith
member-keep p x (y ∷ ys) = ground (arith, eq_iff y x, member-keep p x ys)

module _ (A F : Arith) where
  close_copied_position-lookup :
      (e : CopyEngine A F) (i id : String) (now : ℕ)
      → lookup id (close_copied_position A F e i now).0.active_copies
        ≡ (if str_eq i id then none else lookup id e.active_copies)
  unfolding close_copied_position
  close_copied_position-lookup e i id now = elim (Option-cases (lookup i e.active_copies)) [
    | inl missing ↦ rw (missing, close_copied_position) (ground (arith, missing, eq_iff i id))
    | inr (t, found) ↦ rw (found, close_copied_position) (lookup-erase i id e.active_copies)
  ]

  close_each-lookup :
      (e : CopyEngine A F) (ids : List String) (id : String) (now : String → ℕ)
      → lookup id (close_each A F e ids now).0.active_copies
        ≡ (if member id ids then none else lookup id e.active_copies)
  unfolding close_each
  close_each-lookup e [] id now = refl
  close_each-lookup e (i ∷ ids) id now =
      close_each-lookup (close_copied_position A F e i (now i)).0 ids id now
      ∙ rw (close_copied_position-lookup e i id (now i)) (ground arith)

  positions_of-member :
      (e : CopyEngine A F) (trader id : String)
      → (if member id (positions_of A F e trader) then none else lookup id e.active_copies) ≡ (
          if copied_from A F trader (lookup id e.active_copies)
          then none
          else lookup id e.active_copies)
  positions_of-member e trader id =
      let p : String → Bool = λ i. copied_from A F trader (lookup i e.active_copies) in
      rw (member-keep p id (keys e.active_copies))
        (elim (Bool-cases (member id (keys e.active_copies))) [
          | inl present ↦ ground (arith, present)
          | inr absent ↦
              ground (arith, absent, lookup-eq-none_of_not_member id e.active_copies absent)
        ])

  -- Stopping to copy a trader closes every active copy of the trader and no other, whatever the
  -- readings of the clock, and removes the trader's allocation.
  pub stop_copying_trader-clears :
      (e : CopyEngine A F) (trader id : String) (now : String → ℕ)
      → let e' = (stop_copying_trader A F e trader now).0 in
        (lookup id e'.active_copies ≡ (
          if copied_from A F trader (lookup id e.active_copies)
          then none
          else lookup id e.active_copies))
        × (lookup trader e'.trader_allocations ≡ none)
  unfolding stop_copying_trader
  stop_copying_trader-clears e trader id now = (
    close_each-lookup e (positions_of A F e trader) id now ∙ positions_of-member e trader id,
    lookup-erase_self trader
        (close_each A F e (positions_of A F e trader) now).0.trader_allocations,
  )
