-- ===== src/ControlMsg/Refine/Writers.antt =====
-- The writers of app/src/control_msg.c on a buffer that holds the bytes written so far.
use dskcpy.Prelude.{
  ℕ, ◌≡◌, refl, ap, ◌∙◌, ◌+◌, List, [], ◌∷◌, ◌++◌, Option, none, some, ◌>>=◌, arith,
}
use dskcpy.Prelude.{
  set, length, length-take, take, write_at, write_at-append, write_at_before, to_u32, Option-cases,
  inl, inr,
}
use dskcpy.Util.Binary.{write16be, write32be, write64be}
use dskcpy.Util.Binary.Bytes.{
  be16, be32, be64, write16be-write_at, write32be-write_at, write64be-write_at,
}
use dskcpy.Util.Str.{utf8_truncation_index}
use dskcpy.Util.Str.Truncation.{truncation-le}
use dskcpy.ControlMsg.{write_position, write_string_payload, write_string, write_string_tiny}
use dskcpy.ControlMsg.Types.{Position}
use dskcpy.ControlMsg.Encode.{payload, with_length, with_length_tiny, position_bytes}

-- The buffer `x` is `buf` with the bytes `a` written from index `s` on.
pub record Holds (buf : List ℕ) (s : ℕ) (a x : List ℕ) : Type 0 where
  pub eq : x ≡ write_at buf s a

module _ {buf a x : List ℕ} {s : ℕ} (j : ℕ) (held : Holds buf s a x) (at : j ≡ s + length a) where
  pub put_bytes : (bs : List ℕ) → Holds buf s (a ++ bs) (write_at x j bs)
  put_bytes bs = record { eq = rw held.eq (write_at-append buf s j a bs at) }

  pub put8 : (v : ℕ) → Holds buf s (a ++ (v ∷ [])) (set x j v)
  unfolding write_at
  put8 v = put_bytes (v ∷ [])

  pub put16 : (v : ℕ) → Holds buf s (a ++ be16 v) (write16be x j v)
  put16 v = rw write16be-write_at (put_bytes (be16 v))

  pub put32 : (v : ℕ) → Holds buf s (a ++ be32 v) (write32be x j v)
  put32 v = rw write32be-write_at (put_bytes (be32 v))

  pub put64 : (v : ℕ) → Holds buf s (a ++ be64 v) (write64be x j v)
  put64 v = rw write64be-write_at (put_bytes (be64 v))

pub put_first : (buf : List ℕ) (v : ℕ) → Holds buf 0 (v ∷ []) (set buf 0 v)
unfolding write_at
put_first buf v = record { eq = refl }

Holds-none : (buf : List ℕ) (s : ℕ) → Holds buf s [] buf
unfolding write_at
Holds-none buf s = record { eq = refl }

position_Holds :
    (x : List ℕ) (i : ℕ) (p : Position) → Holds x i (position_bytes p) (write_position x i p)
unfolding write_position
position_Holds x i p =
    put16 (i + 10)
      (put16 (i + 8)
        (put32 (i + 4) (put32 i (Holds-none x i) (omega arith) (to_u32 p.x)) refl (to_u32 p.y)) refl
        p.width)
      refl p.height

pub put_position :
    {buf a x : List ℕ} (j : ℕ)
    → Holds buf 0 a x
    → j ≡ length a
    → (p : Position) → Holds buf 0 (a ++ position_bytes p) (write_position x j p)
put_position {x = x} j held at p =
    rw ((position_Holds x j p).eq) (put_bytes j held (omega arith) (position_bytes p))

-- The text is written behind its length, which is written last.
payload-write_at :
    (x : List ℕ) (i : ℕ) (text : Option (List ℕ)) (max_len : ℕ)
    → write_string_payload x i text max_len
      ≡ (payload text max_len >>= λ bs. some (length bs, write_at x i bs))
unfolding write_string_payload write_at
payload-write_at x i none max_len = refl
payload-write_at x i (some utf8) max_len =
    elim (Option-cases (utf8_truncation_index utf8 max_len)) [
      | inl e ↦ rw e
      | inr (n, e) ↦ rw e (
          ap (λ t. some (t, write_at x i (take n utf8)))
            (omega (arith, length-take n utf8, truncation-le utf8 max_len e)))
    ]

pub sized :
    {n m : ℕ} {x y : List ℕ}
    → n ≡ m
    → x ≡ y
    → ◌≡◌ {A = Option (ℕ × List ℕ)} (some (n, x)) (some (m, y))
sized p q = cc

-- What a writer of a text returns, when the text can be cut.
abbrev pub text_result : List ℕ → List ℕ → (List ℕ → List ℕ) → Option (List ℕ) → Option (ℕ × List ℕ)
text_result buf a wrap bs = bs >>= λ b. some (length (wrap b), write_at buf 0 (a ++ wrap b))

module _ {buf a x : List ℕ} (j : ℕ) (held : Holds buf 0 a x) (at : j ≡ length a) where
  pub put_string :
      (text : Option (List ℕ)) (max_len : ℕ)
      → write_string x j text max_len ≡ text_result buf a with_length (payload text max_len)
  unfolding write_string
  put_string text max_len = elim (Option-cases (payload text max_len)) [
    | inl e ↦ rw (payload-write_at, e)
    | inr (bs, e) ↦
        rw (payload-write_at, e)
          (sized (omega arith) (
            write32be-write_at _ j (length bs)
            ∙ write_at_before x j (j + 4) (be32 (length bs)) bs refl
            ∙ (put_bytes j held (omega arith) (with_length bs)).eq))
  ]

  pub put_string_tiny :
      (text : Option (List ℕ)) (max_len : ℕ)
      → write_string_tiny x j text max_len
        ≡ text_result buf a with_length_tiny (payload text max_len)
  unfolding write_string_tiny write_at
  put_string_tiny text max_len = elim (Option-cases (payload text max_len)) [
    | inl e ↦ rw (payload-write_at, e)
    | inr (bs, e) ↦
        rw (payload-write_at, e)
          (sized (omega arith) (
            write_at_before x j (j + 1) (length bs ∷ []) bs refl
            ∙ (put_bytes j held (omega arith) (with_length_tiny bs)).eq))
  ]
