-- ===== src/Util/Binary/RoundTrip.antt =====
-- Words of app/src/util/binary.h, written and read.
use dskcpy.Prelude.{ℕ, ◌+◌, ◌*◌, ◌/◌, ◌%◌, ◌^◌, ◌≤◌, ◌<◌, ◌≡◌, refl, ◌∙◌, List, arith}
use dskcpy.Prelude.{get_or, length, get_or-write_at, write_at, bit_or, bit_or_disjoint}
use dskcpy.Util.Binary.Bytes.{
  be16, be32, be64, write16be-write_at, write32be-write_at, write64be-write_at,
}
use dskcpy.Util.Binary.{byte, write16be, write32be, write64be, read16be, read32be, read64be}

-- The readers join bytes by `|`; on bytes that is a sum.
pub join16 : (a b : ℕ) → b < 256 → bit_or (a * 2 ^ 8) b ≡ a * 2 ^ 8 + b
join16 a b h = bit_or_disjoint 8 a b (omega arith)

pub join32 :
    (a b c d : ℕ)
    → b < 256
    → c < 256
    → d < 256
    → bit_or (bit_or (bit_or (a * 2 ^ 24) (b * 2 ^ 16)) (c * 2 ^ 8)) d
      ≡ a * 2 ^ 24 + b * 2 ^ 16 + c * 2 ^ 8 + d
join32 a b c d hb hc hd = ground (
  arith,
  bit_or_disjoint 24 a (b * 2 ^ 16) (omega arith),
  bit_or_disjoint 16 (a * 2 ^ 8 + b) (c * 2 ^ 8) (omega arith),
  bit_or_disjoint 8 (a * 2 ^ 16 + b * 2 ^ 8 + c) d (omega arith),
)

pub join64 : (a b : ℕ) → b < 2 ^ 32 → bit_or (a * 2 ^ 32) b ≡ a * 2 ^ 32 + b
join64 a b h = bit_or_disjoint 32 a b h

-- The bytes of a word make up the word.
pub bytes16 : (v : ℕ) → v < 2 ^ 16 → bit_or (byte v 8 * 2 ^ 8) (byte v 0) ≡ v
bytes16 v h = join16 (byte v 8) (byte v 0) (omega arith) ∙ omega arith

pub bytes32 :
    (v : ℕ)
    → v < 2 ^ 32
    → bit_or
        (bit_or (bit_or (byte v 24 * 2 ^ 24) (byte v 16 * 2 ^ 16)) (byte v 8 * 2 ^ 8))
        (byte v 0)
      ≡ v
bytes32 v h =
    join32 (byte v 24) (byte v 16) (byte v 8) (byte v 0) (omega arith) (omega arith) (omega arith)
    ∙ omega arith

-- A 16-bit word that is written inside the buffer is read back.
pub read16be-write16be :
    (buf : List ℕ) (i v : ℕ) → i + 2 ≤ length buf → v < 2 ^ 16 → read16be (write16be buf i v) i ≡ v
unfolding read16be
read16be-write16be buf i v h hv =
    rw
      (
        write16be-write_at,
        get_or-write_at buf i i 0 (be16 v) 0 (omega arith) (omega arith) h,
        get_or-write_at buf i (i + 1) 1 (be16 v) 0 refl (omega arith) h,
      )
      (bytes16 v hv)

-- The word whose four bytes stand at index `i`.
pub read32be_at :
    (buf : List ℕ) (i v : ℕ)
    → v < 2 ^ 32
    → get_or buf i 0 ≡ byte v 24
    → get_or buf (i + 1) 0 ≡ byte v 16
    → get_or buf (i + 2) 0 ≡ byte v 8
    → get_or buf (i + 3) 0 ≡ byte v 0
    → read32be buf i ≡ v
unfolding read32be
read32be_at buf i v hv e0 e1 e2 e3 = rw (e0, e1, e2, e3) (bytes32 v hv)

-- A 32-bit word that is written inside the buffer is read back.
pub read32be-write32be :
    (buf : List ℕ) (i v : ℕ) → i + 4 ≤ length buf → v < 2 ^ 32 → read32be (write32be buf i v) i ≡ v
read32be-write32be buf i v h hv = rw write32be-write_at (
    read32be_at _ i v hv (get_or-write_at buf i i 0 (be32 v) 0 (omega arith) (omega arith) h)
      (get_or-write_at buf i (i + 1) 1 (be32 v) 0 refl (omega arith) h)
      (get_or-write_at buf i (i + 2) 2 (be32 v) 0 refl (omega arith) h)
      (get_or-write_at buf i (i + 3) 3 (be32 v) 0 refl (omega arith) h))

-- A 64-bit word that is written inside the buffer is read back.
pub read64be-write64be :
    (buf : List ℕ) (i v : ℕ) → i + 8 ≤ length buf → v < 2 ^ 64 → read64be (write64be buf i v) i ≡ v
unfolding read64be
read64be-write64be buf i v h hv =
    rw (write64be-write_at buf i v, msb, lsb) (join64 _ _ (omega arith) ∙ omega arith)
  where
    at : (j k : ℕ) → j ≡ i + k → k < 8 → get_or (write_at buf i (be64 v)) j 0 ≡ get_or (be64 v) k 0
    at j k e lt = get_or-write_at buf i j k (be64 v) 0 e lt h

    msb : read32be (write_at buf i (be64 v)) i ≡ v / 2 ^ 32 % 2 ^ 32
    msb =
        read32be_at _ i _ (omega arith) (at i 0 (omega arith) (omega arith))
          (at (i + 1) 1 refl (omega arith)) (at (i + 2) 2 refl (omega arith))
          (at (i + 3) 3 refl (omega arith))

    lsb : read32be (write_at buf i (be64 v)) (i + 4) ≡ v % 2 ^ 32
    lsb =
        read32be_at _ (i + 4) _ (omega arith) (at (i + 4) 4 refl (omega arith))
          (at (i + 4 + 1) 5 (omega arith) (omega arith))
          (at (i + 4 + 2) 6 (omega arith) (omega arith))
          (at (i + 4 + 3) 7 (omega arith) (omega arith))
