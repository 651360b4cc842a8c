-- ===== src/Util/Binary.antt =====
-- app/src/util/binary.h: words to and from bytes in a buffer, in both byte orders.
pub mod Bytes
pub mod RoundTrip
use dskcpy.Prelude.{
  ℕ, zero, suc, ◌+◌, ◌-◌, ◌*◌, ◌/◌, ◌%◌, ◌^◌, ◌≤◌, ◌<◌, ◌≡◌, List, [], ◌∷◌, ◌++◌, arith,
}
use dskcpy.Prelude.{
  set, get_or, write_at, bit_or, ℤ, pos, negsuc, ltb, leb, ◌==◌, Option, none, some, if◌then◌else◌,
}

-- `(uint8_t) (value >> k)`, where a shift by k is a division by 2 ^ k.
abbrev pub byte : ℕ → ℕ → ℕ
byte value k = value / 2 ^ k % 256

-- The functions write at index `i` of the buffer `buf`.
unfoldable pub write16be : List ℕ → ℕ → ℕ → List ℕ
write16be buf i value = set (set buf i (byte value 8)) (i + 1) (byte value 0)

unfoldable pub write16le : List ℕ → ℕ → ℕ → List ℕ
write16le buf i value = set (set buf i (byte value 0)) (i + 1) (byte value 8)

unfoldable pub write32be : List ℕ → ℕ → ℕ → List ℕ
write32be buf i value =
    let b0 = set buf i (byte value 24) in
    let b1 = set b0 (i + 1) (byte value 16) in
    let b2 = set b1 (i + 2) (byte value 8) in set b2 (i + 3) (byte value 0)

unfoldable pub write32le : List ℕ → ℕ → ℕ → List ℕ
write32le buf i value =
    let b0 = set buf i (byte value 0) in
    let b1 = set b0 (i + 1) (byte value 8) in
    let b2 = set b1 (i + 2) (byte value 16) in set b2 (i + 3) (byte value 24)

unfoldable pub write64be : List ℕ → ℕ → ℕ → List ℕ
write64be buf i value =
    write32be (write32be buf i (value / 2 ^ 32 % 2 ^ 32)) (i + 4) (value % 2 ^ 32)

unfoldable pub write64le : List ℕ → ℕ → ℕ → List ℕ
write64le buf i value =
    write32le (write32le buf i (value % 2 ^ 32)) (i + 4) (value / 2 ^ 32 % 2 ^ 32)

-- A read outside the buffer gives 0 here; the callers check the bounds first.
unfoldable pub read16be : List ℕ → ℕ → ℕ
read16be buf i = bit_or (get_or buf i 0 * 2 ^ 8) (get_or buf (i + 1) 0)

unfoldable pub read32be : List ℕ → ℕ → ℕ
read32be buf i =
    bit_or
      (bit_or (bit_or (get_or buf i 0 * 2 ^ 24) (get_or buf (i + 1) 0 * 2 ^ 16))
        (get_or buf (i + 2) 0 * 2 ^ 8))
      (get_or buf (i + 3) 0)

unfoldable pub read64be : List ℕ → ℕ → ℕ
read64be buf i =
    let msb = read32be buf i in let lsb = read32be buf (i + 4) in bit_or (msb * 2 ^ 32) lsb

-- `sc_float_to_u16fp` after the multiplication of the float by 2 ^ 16 and its conversion to
-- `uint32_t`, which is the parameter `u`. A failed assertion is `none`.
unfoldable pub clamp_u16fp : ℕ → Option ℕ
clamp_u16fp u = if leb 0xffff u then (if u == 0x10000 then some 0xffff else none) else some u

-- `sc_float_to_i16fp` after the multiplication by 2 ^ 15 and the conversion to `int32_t`.
unfoldable pub clamp_i16fp : ℤ → Option ℤ
clamp_i16fp (pos i) =
    if leb 0x7fff i then (if i == 0x8000 then some (pos 0x7fff) else none) else some (pos i)
clamp_i16fp (negsuc i) = if ltb i 0x8000 then some (negsuc i) else none
