-- ===== src/Common/Numbers.antt =====
-- Python's `Decimal` and `float`, which the program only calls: their values and operations are a
-- parameter of the model, and the laws that a theorem needs are a hypothesis of that theorem.
use Prim.Native.Nat.{ℕ}
use mathlib.Core.Path.{◌≡◌}
use mathlib.Core.Bool.{Bool, true, false, ◌&&◌}
use ig_trading_bot.Common.Tests.{negate, if◌then◌else◌}

-- `dec m k` is the value of the literal m / 10 ^ k; `lt a b` is `a < b`, and `le a b` is `a <= b`.
pub record Arith : Type 1 where
  pub Num : Type 0
  pub dec : ℕ → ℕ → Num
  pub neg : Num → Num
  pub add : Num → Num → Num
  pub sub : Num → Num → Num
  pub mul : Num → Num → Num
  pub div : Num → Num → Num
  pub lt : Num → Num → Bool
  pub le : Num → Num → Bool

-- `abs(a)` and `a == b`.
module _ (A : Arith) where
  abbrev pub abs_of : A.Num → A.Num
  abs_of a = if A.lt a (A.dec 0 0) then A.neg a else a

  abbrev pub equal : A.Num → A.Num → Bool
  equal a b = A.le a b && A.le b a

-- The comparisons form a total order: documented for both types on values other than NaN.
pub record IsOrdered (A : Arith) : Type 0 where
  pub le_refl : (a : A.Num) → A.le a a ≡ true
  pub le_trans : (a b c : A.Num) → A.le a b ≡ true → A.le b c ≡ true → A.le a c ≡ true
  pub le_total : (a b : A.Num) → A.le a b ≡ false → A.le b a ≡ true
  pub lt_not_le : (a b : A.Num) → A.lt a b ≡ negate (A.le b a)

-- Rounding is monotone, so that sums and differences keep the order.
pub record IsMonotone (A : Arith) : Type 0 where
  pub sub_mono : (a b c : A.Num) → A.le a b ≡ true → A.le (A.sub a c) (A.sub b c) ≡ true
  pub add_mono : (a b c : A.Num) → A.le a b ≡ true → A.le (A.add a c) (A.add b c) ≡ true
