-- ===== src/Hid/Keyboard/Report.antt =====
-- The layout of the report of a key event.
use dskcpy.Prelude.{
  ℕ, suc, ◌+◌, ◌-◌, ◌≤◌, ◌<◌, ◌≡◌, refl, sym, ap, ◌∙◌, Bool, true, false, List, [], ◌∷◌, ◌++◌,
  arith, append_assoc, append-nil, length, length-append, length-replicate, set, drop, replicate,
  leb, le→leb, leb-eq_false, if◌then◌else◌, write_at, set-write_at, set-write_at_inside,
  write_at_over, set-set_comm, set-set_same, write_at_start, dec_le,
}
use dskcpy.Hid.Keyboard.{max_keys, input_size, input_init, put_keys}

-- The scancodes of the keys that are down, in ascending order, for keys numbered from `i` on.
abbrev pub pressed : List Bool → ℕ → List ℕ
pressed [] i = []
pressed (true ∷ keys) i = i ∷ pressed keys (i + 1)
pressed (false ∷ keys) i = pressed keys (i + 1)

-- The six bytes of the keys: the scancodes and zeros, or the rollover error six times.
abbrev pub key_bytes : List ℕ → List ℕ
key_bytes codes =
    if leb (length codes) max_keys
    then codes ++ replicate (max_keys - length codes) 0
    else replicate max_keys 1

length-padded :
    (codes : List ℕ)
    → length codes ≤ max_keys
    → length (codes ++ replicate (max_keys - length codes) 0) ≡ max_keys
length-padded codes h =
    let zeros : length (replicate {A = ℕ} (max_keys - length codes) 0) ≡ max_keys - length codes =
      length-replicate (max_keys - length codes) 0 in
    omega (arith, zeros, length-append codes (replicate (max_keys - length codes) 0))

pub length-key_bytes : (codes : List ℕ) → length (key_bytes codes) ≡ max_keys
length-key_bytes codes = elim (dec_le (length codes) max_keys) [
  | yes fits ↦ rw (le→leb _ _ fits) (length-padded codes fits)
  | no over ↦ rw (leb-eq_false (length codes) max_keys (omega arith))
]

set-append :
    (xs : List ℕ) (z v : ℕ) (zs : List ℕ)
    → set (xs ++ (z ∷ zs)) (length xs) v ≡ (xs ++ (v ∷ [])) ++ zs
set-append [] z v zs = refl
set-append (x ∷ xs) z v zs = ap (λ t. x ∷ t) (set-append xs z v zs)

-- The next free byte takes a scancode.
set-padded :
    (xs : List ℕ) (n v : ℕ)
    → n < max_keys
    → length xs ≡ n
    → set (xs ++ replicate (max_keys - n) 0) n v
      ≡ (xs ++ (v ∷ [])) ++ replicate (max_keys - (n + 1)) 0
set-padded xs n v h e =
    let room : max_keys - n ≡ suc (max_keys - (n + 1)) = omega arith in
    rw room (
      ap (λ k. set (xs ++ (0 ∷ replicate (max_keys - (n + 1)) 0)) k v) (sym e)
      ∙ set-append xs 0 v (replicate (max_keys - (n + 1)) 0))

put_keys_lem :
    (keys : List Bool) (buf codes : List ℕ) (i count : ℕ) (bytes : List ℕ)
    → length codes ≡ count
    → count ≤ max_keys
    → bytes ≡ write_at buf 2 (codes ++ replicate (max_keys - count) 0)
    → put_keys keys i count bytes ≡ write_at buf 2 (key_bytes (codes ++ pressed keys i))
unfolding put_keys
put_keys_lem [] buf codes i count bytes n small e =
    rw (append-nil codes) (rw (n, le→leb count max_keys small) e)
put_keys_lem (false ∷ keys) buf codes i count bytes n small e =
    put_keys_lem keys buf codes (i + 1) count bytes n small e
put_keys_lem (true ∷ keys) buf codes i count bytes n small e = elim (dec_le max_keys count) [
  | yes full ↦
      let many : max_keys < length (codes ++ (i ∷ pressed keys (i + 1))) =
        omega (arith, length-append codes (i ∷ pressed keys (i + 1))) in
      let size : length (codes ++ replicate (max_keys - count) 0) ≤ max_keys =
        rw (← n) (omega (arith, length-padded codes (omega arith))) in
      rw (le→leb max_keys count full, leb-eq_false _ max_keys many)
        (ap (λ t. write_at t 2 (replicate max_keys 1)) e ∙ write_at_over buf 2 _ _ size)
  | no room ↦ rw (leb-eq_false max_keys count (omega arith)) (
      put_keys_lem keys buf (codes ++ (i ∷ [])) (i + 1) (count + 1) (set bytes (2 + count) i)
        (omega (arith, length-append codes (i ∷ []))) (omega arith)
        (ap (λ t. set t (2 + count) i) e
          ∙ set-write_at_inside buf 2 (2 + count) count i (codes ++ replicate (max_keys - count) 0)
              refl (rw (← n) (omega (arith, length-padded codes (omega arith))))
          ∙ ap (write_at buf 2) (set-padded codes count i (omega arith) n))
      ∙ ap (λ t. write_at buf 2 (key_bytes t)) (append_assoc codes (i ∷ []) (pressed keys (i + 1))))
]

write_header :
    (buf : List ℕ) (mods : ℕ) (codes : List ℕ)
    → write_at (set (set buf 0 mods) 1 0) 2 codes ≡ write_at buf 0 (mods ∷ 0 ∷ codes)
unfolding write_at
write_header buf mods codes = refl

-- The modifiers, the reserved byte and the keys, in an array with room for them.
pub report_layout :
    (keys : List Bool) (buf : List ℕ) (mods : ℕ)
    → input_size ≤ length buf
    → put_keys keys 0 0 (set (input_init buf).bytes 0 mods)
      ≡ (mods ∷ 0 ∷ key_bytes (pressed keys 0)) ++ drop input_size buf
unfolding input_init
report_layout keys buf mods h =
    let blank = set (set buf 0 0) 1 0 in
    let codes = key_bytes (pressed keys 0) in
    let header : set blank 0 mods ≡ set (set buf 0 mods) 1 0 =
      set-set_comm (set buf 0 0) 1 0 0 mods (omega arith)
      ∙ ap (λ t. set t 1 0) (set-set_same buf 0 0 mods) in
    put_keys_lem keys (set blank 0 mods) [] 0 0 _ refl (omega arith)
      (set-write_at blank 0 2 mods (replicate max_keys 0) (omega arith))
    ∙ ap (λ t. write_at t 2 codes) header
    ∙ write_header buf mods codes
    ∙ write_at_start buf (mods ∷ 0 ∷ codes) (omega (arith, length-key_bytes (pressed keys 0)))
    ∙ ap (λ n. (mods ∷ 0 ∷ codes) ++ drop (suc (suc n)) buf) (length-key_bytes (pressed keys 0))
