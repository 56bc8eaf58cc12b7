-- ===== src/Common/Text.antt =====
-- `str.strip` as a test: a text is blank if every character is white space to Python.
use Prim.Native.Nat.{ℕ}
use Prim.Native.Char.{code}
use Prim.Native.String.{String}
use mathlib.Core.Bool.{Bool, true, ◌&&◌, ◌||◌}
use ig_trading_bot.Common.Tests.{leb}

abbrev within : ℕ → ℕ → ℕ → Bool
within lo hi c = leb lo c && leb c hi

-- The code points for which `str.isspace` holds.
unfoldable pub is_space : ℕ → Bool
is_space c =
    within 9 13 c
    || within 28 32 c
    || within 0x85 0x85 c
    || within 0xa0 0xa0 c
    || within 0x1680 0x1680 c
    || within 0x2000 0x200a c
    || within 0x2028 0x2029 c
    || within 0x202f 0x202f c
    || within 0x205f 0x205f c
    || within 0x3000 0x3000 c

-- `not s or not s.strip()`
unfoldable pub is_blank : String → Bool
unfolding is_space
is_blank String.[] = true
is_blank (String.◌∷◌ c s) = is_space (code c) && is_blank s
