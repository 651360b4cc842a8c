-- ===== src/Reverse/H264/Lengths.antt =====
-- The lengths in front of the NAL units.
use dskcpy.Prelude.{
  ℕ, zero, suc, ◌+◌, ◌*◌, ◌/◌, ◌%◌, ◌^◌, ◌≤◌, ◌<◌, ◌≡◌, refl, ap, ◌∙◌, List, [], ◌∷◌, ◌++◌, arith,
  length, drop, bit_or, bit_or_disjoint,
}
use dskcpy.Reverse.H264.{read_length}

-- The number in as many bytes, most significant byte first.
abbrev pub big_endian : ℕ → ℕ → List ℕ
big_endian zero n = []
big_endian (suc k) n = (n / 256 ^ k % 256) ∷ big_endian k n

next_byte : (n b : ℕ) → n < 2 ^ 24 → b < 256 → bit_or (n * 2 ^ 8 % 2 ^ 32) b ≡ n * 256 + b
next_byte n b hn hb =
    let fits : n * 2 ^ 8 % 2 ^ 32 ≡ n * 2 ^ 8 = omega arith in
    rw fits (bit_or_disjoint 8 n b (omega arith))

module _ (rest : List ℕ) where
  read1 :
      (n acc : ℕ) → acc < 256 ^ 3 → read_length 1 (big_endian 1 n ++ rest) acc ≡ acc * 256 + n % 256
  unfolding read_length
  read1 n acc h = next_byte acc (n / 256 ^ 0 % 256) (omega arith) (omega arith) ∙ omega arith

  read2 :
      (n acc : ℕ)
      → acc < 256 ^ 2
      → read_length 2 (big_endian 2 n ++ rest) acc ≡ acc * 256 ^ 2 + n % 256 ^ 2
  unfolding read_length
  read2 n acc h =
      ap (λ a. read_length 1 (big_endian 1 n ++ rest) a)
        (next_byte acc (n / 256 ^ 1 % 256) (omega arith) (omega arith))
      ∙ (read1 n (acc * 256 + n / 256 ^ 1 % 256) (omega arith) ∙ omega arith)

  read3 :
      (n acc : ℕ)
      → acc < 256
      → read_length 3 (big_endian 3 n ++ rest) acc ≡ acc * 256 ^ 3 + n % 256 ^ 3
  unfolding read_length
  read3 n acc h =
      ap (λ a. read_length 2 (big_endian 2 n ++ rest) a)
        (next_byte acc (n / 256 ^ 2 % 256) (omega arith) (omega arith))
      ∙ (read2 n (acc * 256 + n / 256 ^ 2 % 256) (omega arith) ∙ omega arith)

  read4 : (n : ℕ) → read_length 4 (big_endian 4 n ++ rest) 0 ≡ n % 256 ^ 4
  unfolding read_length
  read4 n =
      ap (λ a. read_length 3 (big_endian 3 n ++ rest) a)
        (next_byte 0 (n / 256 ^ 3 % 256) (omega arith) (omega arith))
      ∙ (read3 n (0 * 256 + n / 256 ^ 3 % 256) (omega arith) ∙ omega arith)

  -- A length that is written is read back.
  pub read_length-big_endian :
      (k n : ℕ) → k ≤ 4 → n < 256 ^ k → read_length k (big_endian k n ++ rest) 0 ≡ n
  unfolding read_length
  read_length-big_endian zero n hk hn = omega arith
  read_length-big_endian (suc zero) n hk hn = read1 n 0 (omega arith) ∙ omega arith
  read_length-big_endian (suc (suc zero)) n hk hn = read2 n 0 (omega arith) ∙ omega arith
  read_length-big_endian (suc (suc (suc zero))) n hk hn = read3 n 0 (omega arith) ∙ omega arith
  read_length-big_endian (suc (suc (suc (suc zero)))) n hk hn = read4 n ∙ omega arith
  read_length-big_endian (suc (suc (suc (suc (suc k))))) n hk hn = absurd (omega arith)

pub drop-big_endian : (k n : ℕ) (rest : List ℕ) → drop k (big_endian k n ++ rest) ≡ rest
drop-big_endian zero n rest = refl
drop-big_endian (suc k) n rest = drop-big_endian k n rest

pub length-big_endian : (k n : ℕ) → length (big_endian k n) ≡ k
length-big_endian zero n = refl
length-big_endian (suc k) n = ap suc (length-big_endian k n)
