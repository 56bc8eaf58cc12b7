-- ===== src/Common/Dicts.antt =====
-- A Python dict with text keys, in insertion order, as an association list.
use Prim.Native.String.{String}
use mathlib.Core.Path.{◌≡◌, refl, subst}
use mathlib.Core.Bool.{Bool, true, false}
use mathlib.Core.Option.{Option, none, some}
use mathlib.Core.Logic.{inl, inr}
use mathlib.Core.List.{List, [], ◌∷◌}
use native.Mathlib.Omega.{arith}
use text.Mathlib.Text.{◌==◌}
use text.Mathlib.TextEquality.{eq_iff}
use text.Mathlib.TextPositions.{eq_refl}
use ig_trading_bot.Common.Tests.{if◌then◌else◌, Bool-cases}

abbrev pub Dict {ℓ} : Type ℓ → Type ℓ
Dict V = List (String × V)

module _ {ℓ} {V : Type ℓ} where
  abbrev pub keys : Dict V → List String
  keys [] = []
  keys ((k, v) ∷ d) = k ∷ keys d

  -- `d.get(k)`
  unfoldable pub lookup : String → Dict V → Option V
  lookup k [] = none
  lookup k ((j, v) ∷ d) = if j == k then some v else lookup k d

  -- `d.get(k, default)`
  abbrev pub lookup_or : String → V → Dict V → V
  lookup_or k default d = elim (lookup k d) [ none ↦ default | some v ↦ v ]

  -- `d[k] = v`
  unfoldable pub insert : String → V → Dict V → Dict V
  insert k v [] = (k, v) ∷ []
  insert k v ((j, w) ∷ d) = if j == k then (k, v) ∷ d else (j, w) ∷ insert k v d

  -- `del d[k]`, or nothing where the key is missing
  unfoldable pub erase : String → Dict V → Dict V
  erase k [] = []
  erase k ((j, w) ∷ d) = if j == k then erase k d else (j, w) ∷ erase k d

  pub lookup-insert :
      (k j : String) (v : V) (d : Dict V)
      → lookup j (insert k v d) ≡ (if k == j then some v else lookup j d)
  unfolding lookup insert
  lookup-insert k j v [] = refl
  lookup-insert k j v ((i, w) ∷ d) =
      ground (arith, eq_iff k j, eq_iff i k, eq_iff i j, lookup-insert k j v d)

  pub lookup-erase :
      (k j : String) (d : Dict V) → lookup j (erase k d) ≡ (if k == j then none else lookup j d)
  unfolding lookup erase
  lookup-erase k j [] = ground arith
  lookup-erase k j ((i, w) ∷ d) =
      ground (arith, eq_iff k j, eq_iff i k, eq_iff i j, lookup-erase k j d)

  pub lookup-insert_self : (k : String) (v : V) (d : Dict V) → lookup k (insert k v d) ≡ some v
  lookup-insert_self k v d = simp (lookup-insert, eq_refl)

  pub lookup-erase_self : (k : String) (d : Dict V) → lookup k (erase k d) ≡ none
  lookup-erase_self k d = simp (lookup-erase, eq_refl)

pub none-ne-some {ℓ} : {V : Type ℓ} (v : V) → ¬ (none ≡ some v)
none-ne-some v e = cc

true-ne-false : ¬ (true ≡ false)
true-ne-false e = cc

-- Every value of the dict satisfies a predicate.
module _ {ℓ κ} {V : Type ℓ} (P : V → Type κ) where
  abbrev pub Every : Dict V → Type (ℓ ⊔ κ)
  Every d = (k : String) (v : V) → lookup k d ≡ some v → P v

  pub Every-insert : (k : String) (v : V) (d : Dict V) → P v → Every d → Every (insert k v d)
  Every-insert k v d new old j w e = elim (Bool-cases (k == j)) [
    | inl same ↦ let q : v ≡ w = ground (arith, lookup-insert k j v d) in subst P q new
    | inr other ↦ old j w (rw (lookup-insert, other) at e)
  ]

  pub Every-erase : (k : String) (d : Dict V) → Every d → Every (erase k d)
  Every-erase k d old j w e = elim (Bool-cases (k == j)) [
    | inl same ↦ absurd (none-ne-some w (rw (lookup-erase, same) at e))
    | inr other ↦ old j w (rw (lookup-erase, other) at e)
  ]

abbrev pub member : String → List String → Bool
member k [] = false
member k (j ∷ js) = if j == k then true else member k js

pub lookup-eq-none_of_not_member {ℓ} :
    {V : Type ℓ} (k : String) (d : Dict V) → member k (keys d) ≡ false → lookup k d ≡ none
unfolding lookup
lookup-eq-none_of_not_member k [] h = refl
lookup-eq-none_of_not_member k ((j, v) ∷ d) h = elim (Bool-cases (j == k)) [
  | inl same ↦ absurd (true-ne-false (rw same at h))
  | inr other ↦ rw other (lookup-eq-none_of_not_member k d (rw other at h))
]
