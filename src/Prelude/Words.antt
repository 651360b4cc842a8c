-- ===== src/Prelude/Words.antt =====
-- Machine words: an unsigned word is a number below 2 ^ w, a signed one the integer it stands for.
use Prim.Native.Nat.{ℕ, suc, ◌+◌, ◌-◌, ◌%◌, ◌^◌, ◌≤◌, ◌<◌}
use mathlib.Core.Path.{◌≡◌}
use mathlib.Core.Bool.{Bool}
use mathlib.Core.List.{List}
use native.Mathlib.Omega.{arith}
use dskcpy.Prelude.Tests.{ltb, leb, if◌then◌else◌}
use dskcpy.Prelude.Lists.{All}

-- `negsuc n` is -(n + 1).
pub data ℤ : Type 0 where
  pos : ℕ → ℤ
  negsuc : ℕ → ℤ

abbrev pub pos_part : ℤ → ℕ
pos_part (pos n) = n
pos_part (negsuc n) = 0

abbrev pub neg_part : ℤ → ℕ
neg_part (pos n) = 0
neg_part (negsuc n) = suc n

infix 50 ◌≤ℤ◌
abbrev pub ◌≤ℤ◌ : ℤ → ℤ → Type 0
a ≤ℤ b = pos_part a + neg_part b ≤ pos_part b + neg_part a

abbrev pub leb_ℤ : ℤ → ℤ → Bool
leb_ℤ a b = leb (pos_part a + neg_part b) (pos_part b + neg_part a)

-- The difference of two integers of C that does not overflow, and their sum.
abbrev pub diff : ℕ → ℕ → ℤ
diff a b = if leb b a then pos (a - b) else negsuc (b - a - 1)

abbrev pub add_ℤ : ℤ → ℤ → ℤ
add_ℤ a b = diff (pos_part a + pos_part b) (neg_part a + neg_part b)

abbrev pub sub_ℤ : ℤ → ℤ → ℤ
sub_ℤ a b = diff (pos_part a + neg_part b) (neg_part a + pos_part b)

-- The conversion of an integer to `uint16_t` and `uint32_t`: its remainder modulo 2 ^ w.
abbrev pub to_u16 : ℤ → ℕ
to_u16 (pos n) = n % 2 ^ 16
to_u16 (negsuc n) = 2 ^ 16 - 1 - n % 2 ^ 16

abbrev pub to_u32 : ℤ → ℕ
to_u32 (pos n) = n % 2 ^ 32
to_u32 (negsuc n) = 2 ^ 32 - 1 - n % 2 ^ 32

-- The conversion of an unsigned word to the signed type of its width.
abbrev pub to_i32 : ℕ → ℤ
to_i32 w = if ltb w (2 ^ 31) then pos w else negsuc (2 ^ 32 - 1 - w)

abbrev pub IsI32 : ℤ → Type 0
IsI32 i = (negsuc (2 ^ 31 - 1) ≤ℤ i) × (i ≤ℤ pos (2 ^ 31 - 1))

pub to_i32-to_u32 : (i : ℤ) → IsI32 i → to_i32 (to_u32 i) ≡ i
to_i32-to_u32 i h = ground arith

pub to_u32-lt : (i : ℤ) → to_u32 i < 2 ^ 32
to_u32-lt (pos n) = omega arith
to_u32-lt (negsuc n) = omega arith

pub to_u16-lt : (i : ℤ) → to_u16 i < 2 ^ 16
to_u16-lt (pos n) = omega arith
to_u16-lt (negsuc n) = omega arith

-- Every item is a byte.
abbrev pub IsByte : ℕ → Type 0
IsByte b = b < 256

abbrev pub IsBytes : List ℕ → Type 0
IsBytes = All IsByte
