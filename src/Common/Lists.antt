-- ===== src/Common/Lists.antt =====
-- Lists measured by native numbers, filtered by Boolean tests, and cut as Python's slices do.
use Prim.Native.Nat.{ℕ, zero, suc, ◌+◌, ◌-◌, ◌≤◌}
use mathlib.Core.Path.{◌≡◌}
use mathlib.Core.Bool.{Bool, true}
use mathlib.Core.List.{List, [], ◌∷◌, ◌++◌}
use native.Mathlib.Omega.{arith}
use ig_trading_bot.Common.Tests.{if◌then◌else◌, leb, Bool-cases}
use mathlib.Core.Logic.{inl, inr}

module _ {ℓ} {A : Type ℓ} where
  abbrev pub length : List A → ℕ
  length [] = 0
  length (x ∷ xs) = suc (length xs)

  abbrev pub drop : ℕ → List A → List A
  drop zero xs = xs
  drop (suc n) [] = []
  drop (suc n) (x ∷ xs) = drop n xs

  -- Every element satisfies a predicate.
  abbrev pub All {κ} : (A → Type κ) → List A → Type κ
  All P [] = Unit
  All P (x ∷ xs) = P x × All P xs

  pub All-mono {κ μ} :
      (P : A → Type κ) (Q : A → Type μ)
      → ((x : A) → P x → Q x)
      → (xs : List A) → All P xs
      → All Q xs
  All-mono P Q h [] a = tt
  All-mono P Q h (x ∷ xs) a = (h x a.0, All-mono P Q h xs a.1)

  -- `[x for x in xs if p(x)]`
  unfoldable pub keep : (A → Bool) → List A → List A
  keep p [] = []
  keep p (x ∷ xs) = if p x then x ∷ keep p xs else keep p xs

  pub length-append : (xs ys : List A) → length (xs ++ ys) ≡ length xs + length ys
  length-append [] ys = omega arith
  length-append (x ∷ xs) ys = omega (arith, length-append xs ys)

  pub length-drop : (n : ℕ) (xs : List A) → length (drop n xs) ≡ length xs - n
  length-drop zero xs = omega arith
  length-drop (suc n) [] = omega arith
  length-drop (suc n) (x ∷ xs) = omega (arith, length-drop n xs)

  pub length-keep-append_one :
      (p : A → Bool) (xs : List A) (y : A)
      → length (keep p (xs ++ y ∷ []))
        ≡ (if p y then suc (length (keep p xs)) else length (keep p xs))
  unfolding keep
  length-keep-append_one p [] y = ground arith
  length-keep-append_one p (x ∷ xs) y = ground (arith, length-keep-append_one p xs y)

  pub length-keep-le : (p : A → Bool) (xs : List A) → length (keep p xs) ≤ length xs
  unfolding keep
  length-keep-le p [] = omega arith
  length-keep-le p (x ∷ xs) = ground (arith, length-keep-le p xs)

  -- A weaker test keeps at least as many.
  pub length-keep_mono :
      (p q : A → Bool)
      → ((x : A) → p x ≡ true → q x ≡ true)
      → (xs : List A) → length (keep p xs) ≤ length (keep q xs)
  unfolding keep
  length-keep_mono p q h [] = omega arith
  length-keep_mono p q h (x ∷ xs) = ground (arith, h x, length-keep_mono p q h xs)

-- A list that is trimmed to its last `cap` entries when it grows past them: `xs[-cap:]`.
module _ {ℓ} {A : Type ℓ} where
  unfoldable pub trim : ℕ → List A → List A
  trim cap xs = if leb (suc cap) (length xs) then drop (length xs - cap) xs else xs

  pub length-trim : (cap : ℕ) (xs : List A) → length (trim cap xs) ≤ cap
  unfolding trim
  length-trim cap xs = ground (arith, length-drop (length xs - cap) xs)

-- `xs[:n]`, and `sorted` with a key, which is stable: `precedes` says which stands before.
module _ {ℓ} {A : Type ℓ} where
  abbrev pub take : ℕ → List A → List A
  take zero xs = []
  take (suc n) [] = []
  take (suc n) (x ∷ xs) = x ∷ take n xs

  pub length-take_le : (n : ℕ) (xs : List A) → length (take n xs) ≤ n
  length-take_le zero xs = omega arith
  length-take_le (suc n) [] = omega arith
  length-take_le (suc n) (x ∷ xs) = omega (arith, length-take_le n xs)

  module _ (precedes : A → A → Bool) where
    unfoldable pub place_by : A → List A → List A
    place_by x [] = x ∷ []
    place_by x (y ∷ ys) = if precedes y x then y ∷ place_by x ys else x ∷ y ∷ ys

    unfoldable pub sort_by : List A → List A
    unfolding place_by
    sort_by [] = []
    sort_by (x ∷ xs) = place_by x (sort_by xs)

    length-place_by : (x : A) (xs : List A) → length (place_by x xs) ≡ suc (length xs)
    unfolding place_by
    length-place_by x [] = omega arith
    length-place_by x (y ∷ ys) = ground (arith, length-place_by x ys)

    pub length-sort_by : (xs : List A) → length (sort_by xs) ≡ length xs
    unfolding sort_by
    length-sort_by [] = omega arith
    length-sort_by (x ∷ xs) = omega (arith, length-place_by x (sort_by xs), length-sort_by xs)

    place_by-All {κ} :
        (P : A → Type κ) (x : A) (xs : List A) → P x → All P xs → All P (place_by x xs)
    unfolding place_by
    place_by-All P x [] p a = (p, tt)
    place_by-All P x (y ∷ ys) p a = elim (Bool-cases (precedes y x)) [
      | inl before ↦ rw before (a.0, place_by-All P x ys p a.1)
      | inr after ↦ rw after (p, a)
    ]

    pub sort_by-All {κ} : (P : A → Type κ) (xs : List A) → All P xs → All P (sort_by xs)
    unfolding sort_by
    sort_by-All P [] a = tt
    sort_by-All P (x ∷ xs) a = place_by-All P x (sort_by xs) a.0 (sort_by-All P xs a.1)

  pub length-take : (n : ℕ) (xs : List A) → n ≤ length xs → length (take n xs) ≡ n
  length-take zero xs h = omega arith
  length-take (suc n) [] h = omega (arith, h)
  length-take (suc n) (x ∷ xs) h = omega (arith, length-take n xs (omega (arith, h)))

  pub take-All {κ} : (P : A → Type κ) (n : ℕ) (xs : List A) → All P xs → All P (take n xs)
  take-All P zero xs a = tt
  take-All P (suc n) [] a = tt
  take-All P (suc n) (x ∷ xs) a = (a.0, take-All P n xs a.1)

  pub keep-All {κ} : (P : A → Type κ) (p : A → Bool) (xs : List A) → All P xs → All P (keep p xs)
  unfolding keep
  keep-All P p [] a = tt
  keep-All P p (x ∷ xs) a = elim (Bool-cases (p x)) [
    | inl kept ↦ rw kept (a.0, keep-All P p xs a.1)
    | inr dropped ↦ rw dropped (keep-All P p xs a.1)
  ]
