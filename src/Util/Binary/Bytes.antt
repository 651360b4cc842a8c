-- ===== src/Util/Binary/Bytes.antt =====
-- The writers of binary.h as copies of the bytes of a word.
use dskcpy.Prelude.{ℕ, ◌+◌, ◌/◌, ◌%◌, ◌^◌, ◌≡◌, refl, List, [], ◌∷◌, ◌++◌, arith}
use dskcpy.Prelude.{write_at, write_at-append, IsBytes}
use native.Mathlib.Numerals.{towards_suc}
use dskcpy.Util.Binary.{byte, write16be, write16le, write32be, write64be}

-- The bytes of a word, the most significant first.
abbrev pub be16 : ℕ → List ℕ
be16 v = byte v 8 ∷ byte v 0 ∷ []

abbrev pub le16 : ℕ → List ℕ
le16 v = byte v 0 ∷ byte v 8 ∷ []

abbrev pub be32 : ℕ → List ℕ
be32 v = byte v 24 ∷ byte v 16 ∷ byte v 8 ∷ byte v 0 ∷ []

abbrev pub be64 : ℕ → List ℕ
be64 v = be32 (v / 2 ^ 32 % 2 ^ 32) ++ be32 (v % 2 ^ 32)

pub write16be-write_at : (buf : List ℕ) (i v : ℕ) → write16be buf i v ≡ write_at buf i (be16 v)
unfolding write16be write_at
write16be-write_at buf i v = simp towards_suc

pub write16le-write_at : (buf : List ℕ) (i v : ℕ) → write16le buf i v ≡ write_at buf i (le16 v)
unfolding write16le write_at
write16le-write_at buf i v = simp towards_suc

pub write32be-write_at : (buf : List ℕ) (i v : ℕ) → write32be buf i v ≡ write_at buf i (be32 v)
unfolding write32be write_at
write32be-write_at buf i v = simp towards_suc

pub write64be-write_at : (buf : List ℕ) (i v : ℕ) → write64be buf i v ≡ write_at buf i (be64 v)
unfolding write64be
write64be-write_at buf i v =
    rw (write32be-write_at, write32be-write_at) (write_at-append buf i (i + 4) _ _ refl)

pub be32-IsBytes : (v : ℕ) → IsBytes (be32 v)
be32-IsBytes v = omega arith
