-- ===== src/Common/Fixed.antt =====
-- A number type that the parameter of `Numbers` can be: integers over the native numbers, read as
-- fixed-point numbers of four decimals, whose products and quotients are cut towards zero.
use Prim.Native.Nat.{ℕ, suc, ◌+◌, ◌-◌, ◌*◌, ◌/◌, ◌^◌}
use mathlib.Core.Bool.{Bool}
use native.Mathlib.Omega.{arith}
use ig_trading_bot.Common.Tests.{ltb, leb, if◌then◌else◌}
use ig_trading_bot.Common.Numbers.{Arith, IsOrdered, IsMonotone}

-- `negsuc n` is -(n + 1).
pub data ℤ : Type 0 where
  pos : ℕ → ℤ
  negsuc : ℕ → ℤ

abbrev pos_part : ℤ → ℕ
pos_part (pos n) = n
pos_part (negsuc n) = 0

abbrev neg_part : ℤ → ℕ
neg_part (pos n) = 0
neg_part (negsuc n) = suc n

abbrev sub_ℕ : ℕ → ℕ → ℤ
sub_ℕ a b = if leb b a then pos (a - b) else negsuc (b - a - 1)

abbrev neg_ℤ : ℤ → ℤ
neg_ℤ a = sub_ℕ (neg_part a) (pos_part a)

abbrev add_ℤ : ℤ → ℤ → ℤ
add_ℤ a b = sub_ℕ (pos_part a + pos_part b) (neg_part a + neg_part b)

abbrev sub_ℤ : ℤ → ℤ → ℤ
sub_ℤ a b = sub_ℕ (pos_part a + neg_part b) (neg_part a + pos_part b)

abbrev leb_ℤ : ℤ → ℤ → Bool
leb_ℤ a b = leb (pos_part a + neg_part b) (pos_part b + neg_part a)

abbrev ltb_ℤ : ℤ → ℤ → Bool
ltb_ℤ a b = ltb (pos_part a + neg_part b) (pos_part b + neg_part a)

-- A function of magnitudes, with the sign of a product.
abbrev signed : (ℕ → ℕ → ℕ) → ℤ → ℤ → ℤ
signed f a b =
    sub_ℕ (f (pos_part a) (pos_part b) + f (neg_part a) (neg_part b))
      (f (pos_part a) (neg_part b) + f (neg_part a) (pos_part b))

abbrev pub fixed : Arith
fixed = record {
  Num = ℤ;
  dec = λ m k. pos (m * 10000 / 10 ^ k);
  neg = neg_ℤ;
  add = add_ℤ;
  sub = sub_ℤ;
  mul = signed (λ a b. a * b / 10000);
  div = signed (λ a b. a * 10000 / b);
  lt = ltb_ℤ;
  le = leb_ℤ;
}

pub fixed-IsOrdered : IsOrdered fixed
fixed-IsOrdered = record {
  le_refl = λ a. ground arith;
  le_trans = λ a b c h k. ground arith;
  le_total = λ a b h. ground arith;
  lt_not_le = λ a b. ground arith;
}

pub fixed-IsMonotone : IsMonotone fixed
fixed-IsMonotone = record { sub_mono = λ a b c h. ground arith; add_mono = λ a b c h. ground arith }
