-- ===== src/Reverse/H264/StartCode.antt =====
-- Which length-prefixed packets of app/src/reverse_display.c look like Annex B.
use dskcpy.Prelude.{inl, inr, ◌⊎◌}
use dskcpy.Prelude.{
  ℕ, zero, suc, ◌/◌, ◌%◌, ◌^◌, ◌≤◌, ◌<◌, ◌≡◌, refl, ◌∙◌, List, ◌∷◌, ◌++◌, arith, Bool, false, ◌==◌,
  leb, ltb, ◌&&◌, ◌||◌, if◌then◌else◌,
}
use dskcpy.Reverse.H264.{has_annexb_start_code}
use dskcpy.Reverse.H264.Lengths.{big_endian}

module _ (bs : List ℕ) (b : ℕ) where
  pub no_zero : has_annexb_start_code (suc b ∷ bs) ≡ false
  unfolding has_annexb_start_code
  no_zero = ground arith

  one_zero : has_annexb_start_code (0 ∷ suc b ∷ bs) ≡ false
  unfolding has_annexb_start_code
  one_zero = ground arith

  two_zeros : has_annexb_start_code (0 ∷ 0 ∷ suc b ∷ bs) ≡ (suc b == 1)
  unfolding has_annexb_start_code
  two_zeros = ground arith

  three_zeros : has_annexb_start_code (0 ∷ 0 ∷ 0 ∷ suc b ∷ bs) ≡ (suc b == 1)
  unfolding has_annexb_start_code
  three_zeros = ground arith

zero_or_suc : (n : ℕ) → (n ≡ 0) ⊎ ((k : ℕ) × (n ≡ suc k))
zero_or_suc zero = inl refl
zero_or_suc (suc k) = inr (k, refl)

-- A length in front of the first unit that reads like a start code.
abbrev pub ambiguous : ℕ → ℕ → Bool
ambiguous length_size n =
    if length_size == 3
    then n == 1
    else if length_size == 4
    then n == 1 || (leb 256 n && ltb n 512)
    else false

module _ (n : ℕ) (bs : List ℕ) where
  start1 : 0 < n → n < 256 → has_annexb_start_code (big_endian 1 n ++ bs) ≡ false
  start1 h k = elim (zero_or_suc (n / 256 ^ 0 % 256)) [
    | inl e ↦ absurd (omega arith)
    | inr (b, e) ↦ rw e (no_zero bs b)
  ]

  start2 : 0 < n → n < 256 ^ 2 → has_annexb_start_code (big_endian 2 n ++ bs) ≡ false
  start2 h k = elim (zero_or_suc (n / 256 ^ 1 % 256)) [
    | inl e ↦ elim (zero_or_suc (n / 256 ^ 0 % 256)) [
      | inl f ↦ absurd (omega arith)
      | inr (b, f) ↦ rw (e, f) (one_zero bs b)
    ]
    | inr (b, e) ↦ rw e (no_zero ((n / 256 ^ 0 % 256) ∷ bs) b)
  ]

  start3 : 0 < n → n < 256 ^ 3 → has_annexb_start_code (big_endian 3 n ++ bs) ≡ (n == 1)
  start3 h k = elim (zero_or_suc (n / 256 ^ 2 % 256)) [
    | inl e ↦ elim (zero_or_suc (n / 256 ^ 1 % 256)) [
      | inl f ↦ elim (zero_or_suc (n / 256 ^ 0 % 256)) [
        | inl g ↦ absurd (omega arith)
        | inr (b, g) ↦ rw (e, f, g) (two_zeros bs b ∙ ground arith)
      ]
      | inr (b, f) ↦ rw (e, f) (one_zero ((n / 256 ^ 0 % 256) ∷ bs) b ∙ ground arith)
    ]
    | inr (b, e) ↦ rw e (no_zero ((n / 256 ^ 1 % 256) ∷ (n / 256 ^ 0 % 256) ∷ bs) b ∙ ground arith)
  ]

  start4 :
      0 < n
      → n < 256 ^ 4
      → has_annexb_start_code (big_endian 4 n ++ bs) ≡ (n == 1 || (leb 256 n && ltb n 512))
  start4 h k = elim (zero_or_suc (n / 256 ^ 3 % 256)) [
    | inl d ↦ elim (zero_or_suc (n / 256 ^ 2 % 256)) [
      | inl e ↦ elim (zero_or_suc (n / 256 ^ 1 % 256)) [
        | inl f ↦ elim (zero_or_suc (n / 256 ^ 0 % 256)) [
          | inl g ↦ absurd (omega arith)
          | inr (b, g) ↦ rw (d, e, f, g) (three_zeros bs b ∙ ground arith)
        ]
        | inr (b, f) ↦ rw (d, e, f) (two_zeros ((n / 256 ^ 0 % 256) ∷ bs) b ∙ ground arith)
      ]
      | inr (b, e) ↦
          rw (d, e) (one_zero ((n / 256 ^ 1 % 256) ∷ (n / 256 ^ 0 % 256) ∷ bs) b ∙ ground arith)
    ]
    | inr (b, d) ↦ rw d (
        no_zero ((n / 256 ^ 2 % 256) ∷ (n / 256 ^ 1 % 256) ∷ (n / 256 ^ 0 % 256) ∷ bs) b
        ∙ ground arith)
  ]

  -- A packet that starts with a length looks like Annex B exactly for the ambiguous lengths.
  pub has_annexb-big_endian :
      (k : ℕ)
      → 1 ≤ k
      → k ≤ 4
      → 0 < n
      → n < 256 ^ k
      → has_annexb_start_code (big_endian k n ++ bs) ≡ ambiguous k n
  has_annexb-big_endian zero a b h f = absurd (omega arith)
  has_annexb-big_endian (suc zero) a b h f = start1 h f
  has_annexb-big_endian (suc (suc zero)) a b h f = start2 h f
  has_annexb-big_endian (suc (suc (suc zero))) a b h f = start3 h f
  has_annexb-big_endian (suc (suc (suc (suc zero)))) a b h f = start4 h f
  has_annexb-big_endian (suc (suc (suc (suc (suc k))))) a b h f = absurd (omega arith)
