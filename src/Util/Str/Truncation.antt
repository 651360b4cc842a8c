-- ===== src/Util/Str/Truncation.antt =====
-- Where `sc_str_utf8_truncation_index` cuts.
use dskcpy.Prelude.{
  ℕ, zero, suc, ◌≤◌, ◌<◌, ◌≡◌, refl, List, [], ◌∷◌, Bool, true, false, some, not, arith,
}
use dskcpy.Prelude.{
  ◌&&◌, leb, ltb, get_or, length, inl, inr, Bool-cases, leb→le, dec_le, holds_up_to, holds_at,
}
use dskcpy.Util.Str.{is_continuation, back_up, utf8_truncation_index}

abbrev same : Bool → Bool → Bool
same true b = b
same false b = not b

same→eq : (a b : Bool) → same a b ≡ true → a ≡ b
same→eq a b h = ground arith

byte_table : holds_up_to (λ x. same (is_continuation x) (leb 0x80 x && ltb x 0xc0)) 255 ≡ true
unfolding holds_up_to is_continuation
byte_table = refl

-- The bytes that UTF-8 uses inside a character are 0x80 to 0xbf.
pub is_continuation_range : (c : ℕ) → c < 256 → is_continuation c ≡ (leb 0x80 c && ltb c 0xc0)
is_continuation_range c h = same→eq _ _ (holds_at _ 255 byte_table c (omega arith))

-- The cut `n` is within both lengths, not inside a character, and the last such index.
pub record IsCut (utf8 : List ℕ) (max_len n : ℕ) : Type 0 where
  pub within : n ≤ max_len
  pub inside : n ≤ length utf8
  pub boundary : is_continuation (get_or utf8 n 0) ≡ false
  pub last :
      (j : ℕ) → n < j → j ≤ max_len → j ≤ length utf8 → is_continuation (get_or utf8 j 0) ≡ true

-- The loop from `k`, over a text that starts outside a character.
record BacksUp (utf8 : List ℕ) (k n : ℕ) : Type 0 where
  found : back_up utf8 k ≡ some n
  below : n ≤ k
  stops : is_continuation (get_or utf8 n 0) ≡ false
  passed : (j : ℕ) → n < j → j ≤ k → is_continuation (get_or utf8 j 0) ≡ true

back_up-BacksUp :
    (utf8 : List ℕ) (k : ℕ) → is_continuation (get_or utf8 0 0) ≡ false → (n : ℕ) × BacksUp utf8 k n
unfolding back_up
back_up-BacksUp utf8 zero start = (
  0,
  record {
    found = rw start;
    below = omega arith;
    stops = start;
    passed = λ j a b. absurd (omega arith);
  },
)
back_up-BacksUp utf8 (suc k) start = elim (Bool-cases (is_continuation (get_or utf8 (suc k) 0))) [
  | inl inner ↦
      let (n, b) = back_up-BacksUp utf8 k start in
      (
        n,
        record {
          found = rw inner b.found;
          below = omega (arith, b.below);
          stops = b.stops;
          passed = λ j lo hi. elim (dec_le j k) [
            | yes le ↦ b.passed j lo le
            | no gt ↦ let e : j ≡ suc k = omega arith in rw e inner
          ];
        },
      )
  | inr outer ↦ (
    suc k,
    record {
      found = rw outer;
      below = omega arith;
      stops = outer;
      passed = λ j a b. absurd (omega arith);
    },
  )
]

get_or-length {ℓ} : {A : Type ℓ} (xs : List A) (d : A) → get_or xs (length xs) d ≡ d
get_or-length [] d = refl
get_or-length (x ∷ xs) d = get_or-length xs d

-- The cut of a text that starts outside a character exists: it is within both lengths, at the
-- start of a character or at the end of the text, and no later index allowed is one.
pub truncation_IsCut :
    (utf8 : List ℕ) (max_len : ℕ)
    → is_continuation (get_or utf8 0 0) ≡ false
    → (n : ℕ) × (utf8_truncation_index utf8 max_len ≡ some n) × IsCut utf8 max_len n
unfolding utf8_truncation_index
truncation_IsCut utf8 max_len start = elim (Bool-cases (leb (length utf8) max_len)) [
  | inl fits ↦ (
    length utf8,
    rw fits,
    record {
      within = leb→le _ _ fits;
      inside = omega arith;
      boundary = rw (get_or-length utf8 0);
      last = λ j a b c. absurd (omega arith);
    },
  )
  | inr long ↦
      let (n, b) = back_up-BacksUp utf8 max_len start in
      (
        n,
        rw long b.found,
        record {
          within = b.below;
          inside = ground (arith, b.below);
          boundary = b.stops;
          last = λ j lo hi _. b.passed j lo hi;
        },
      )
]

back_up-le : (utf8 : List ℕ) (k : ℕ) {n : ℕ} → back_up utf8 k ≡ some n → n ≤ k
unfolding back_up
back_up-le utf8 zero h = ground arith
back_up-le utf8 (suc k) {n} h = ground (arith, back_up-le utf8 k {n = n})

-- A cut is within both lengths, for any text.
pub truncation-le :
    (utf8 : List ℕ) (max_len : ℕ) {n : ℕ}
    → utf8_truncation_index utf8 max_len ≡ some n
    → (n ≤ max_len) × (n ≤ length utf8)
unfolding utf8_truncation_index
truncation-le utf8 max_len {n} h = ground (arith, back_up-le utf8 max_len {n = n})
