-- ===== src/Screen/Orientation.antt =====
-- app/src/options.c and app/src/options.h: `enum sc_orientation`, a horizontal flip followed by a
-- rotation of a multiple of 90 degrees. The value of the enum is a number, its bit 2 the flip and
-- its bits 0 and 1 the rotation; a failed assertion is `none`.
pub mod Compose
use dskcpy.Prelude.{
  ℕ, ◌+◌, ◌%◌, ◌&&◌, not, Bool, true, false, Option, none, some, bit_and, bit_or, bit_xor, ◌==◌,
  if◌then◌else◌,
}

-- `!(o & ~7)`, where `~7` is that of a 32-bit word.
abbrev pub in_enum : ℕ → Bool
in_enum o = bit_and o 0xfffffff8 == 0

unfoldable pub is_mirror : ℕ → Option Bool
is_mirror o = if in_enum o then some (not (bit_and o 4 == 0)) else none

unfoldable pub is_swap : ℕ → Option Bool
is_swap o = if in_enum o then some (not (bit_and o 1 == 0)) else none

unfoldable pub get_rotation : ℕ → Option ℕ
get_rotation o = if in_enum o then some (bit_and o 3) else none

-- `sc_orientation_apply` behind its assertions.
unfoldable pub combine : ℕ → ℕ → ℕ
combine src transform =
    let transform_hflip = bit_and transform 4 in
    let transform_rotation = bit_and transform 3 in
    let src_hflip = bit_and src 4 in
    let src_rotation = bit_and src 3 in
    let src_swap = bit_and src 1 in
    let turned =
      if not (src_swap == 0) && not (transform_hflip == 0)
      then src_rotation + 2
      else src_rotation in
    bit_or (bit_xor src_hflip transform_hflip) ((transform_rotation + turned) % 4)

unfoldable pub apply : ℕ → ℕ → Option ℕ
unfolding combine
apply src transform =
    if in_enum src then (if in_enum transform then some (combine src transform) else none) else none
