-- ===== src/Hid/Keyboard/Held.antt =====
-- The reports of a keyboard over a history of key events.
use dskcpy.Prelude.{
  ℕ, zero, suc, ◌+◌, ◌*◌, ◌≤◌, ◌≡◌, refl, sym, ap, ap₂, ◌∙◌, Bool, false, List, [], ◌∷◌, ◌++◌, none,
  some, not, ◌&&◌, arith, length, set, drop, replicate, leb, ltb, ◌==◌, if◌then◌else◌, Bool-cases,
  inl, inr,
}
use dskcpy.Util.VecDeque.Contents.{span, span_congr}
use dskcpy.Hid.Descriptor.{input_bits}
use dskcpy.Hid.Keyboard.{
  SdlKeys, KeyEvent, HidInput, keys_size, input_size, hid_id_keyboard, report_desc, init,
  input_init, input_from_key, scancode_is_modifier, mod_from_sdl_keymod,
}
use dskcpy.Hid.Keyboard.Report.{pressed, key_bytes, report_layout}

-- Whether key `k` is down after the events: what the last event of the key says, or `b` if there is none.
abbrev pub held : Bool → List KeyEvent → ℕ → Bool
held b [] k = b
held b (e ∷ es) k = held (if e.scancode == k then e.down else b) es k

-- The scancodes of the keys that the report counts and that are down, in ascending order.
pub held_codes : List KeyEvent → List ℕ
held_codes events = pressed (span (held false events) 0 keys_size) 0

set-span :
    (f : ℕ → Bool) (s n j i : ℕ) (v : Bool)
    → i ≡ s + j
    → set (span f s n) j v ≡ span (λ k. if i == k then v else f k) s n
set-span f s zero j i v e = refl
set-span f s (suc n) zero i v e =
    ap₂ ◌∷◌ (ground arith)
      (span_congr f (λ k. if i == k then v else f k) (suc s) (suc s) n (λ k lt. ground arith))
set-span f s (suc n) (suc j) i v e =
    ap₂ ◌∷◌ (ground arith) (set-span f (suc s) n j i v (omega arith))

-- What an event does to the keys; one that is ignored has no key.
update : List Bool → KeyEvent → List Bool
update keys e = if ltb e.scancode keys_size then set keys e.scancode e.down else keys

update-span :
    (f : ℕ → Bool) (e : KeyEvent) (n : ℕ)
    → n ≡ keys_size
    → update (span f 0 n) e ≡ span (λ k. if e.scancode == k then e.down else f k) 0 n
unfolding update
update-span f e n size = elim (Bool-cases (ltb e.scancode keys_size)) [
  | inl key ↦ rw key (set-span f 0 n e.scancode e.scancode e.down (omega arith))
  | inr other ↦
      rw other
        (span_congr f (λ k. if e.scancode == k then e.down else f k) 0 0 n (λ k lt. ground arith))
]

span-init : (s n : ℕ) → span (λ _. false) s n ≡ replicate n false
span-init s zero = refl
span-init s (suc n) = ap (λ t. false ∷ t) (span-init (suc s) n)

module _ (sdl : SdlKeys) where
  -- The keys after a history of events.
  abbrev pub run : List Bool → List KeyEvent → List Bool
  run keys [] = keys
  run keys (e ∷ es) = run (input_from_key sdl keys [] e).1 es

  input_from_key-update :
      (keys : List Bool) (bytes : List ℕ) (e : KeyEvent)
      → (input_from_key sdl keys bytes e).1 ≡ update keys e
  unfolding input_from_key update
  input_from_key-update keys bytes e = ground arith

  run-span :
      (f : ℕ → Bool) (es : List KeyEvent) (n : ℕ)
      → n ≡ keys_size
      → run (span f 0 n) es ≡ span (λ k. held (f k) es k) 0 n
  run-span f [] n size = refl
  run-span f (e ∷ es) n size =
      ap (λ keys. run keys es) (input_from_key-update (span f 0 n) [] e ∙ update-span f e n size)
      ∙ run-span (λ k. if e.scancode == k then e.down else f k) es n size

  run-init : (es : List KeyEvent) → run init es ≡ span (held false es) 0 keys_size
  unfolding init
  run-init es =
      ap (λ keys. run keys es) (sym (span-init 0 keys_size))
      ∙ run-span (λ _. false) es keys_size refl

  run-snoc :
      (keys : List Bool) (es : List KeyEvent) (e : KeyEvent)
      → run keys (es ++ (e ∷ [])) ≡ update (run keys es) e
  run-snoc keys [] e = input_from_key-update keys [] e
  run-snoc keys (x ∷ es) e = run-snoc (input_from_key sdl keys [] x).1 es e

  -- A scancode that the report does not count and that is no modifier.
  abbrev pub ignored : KeyEvent → Bool
  ignored e = leb keys_size e.scancode && not (scancode_is_modifier sdl e.scancode)

  abbrev pub report : KeyEvent → List ℕ → List ℕ → HidInput
  report e codes bytes = record {
    hid_id = hid_id_keyboard;
    bytes = (mod_from_sdl_keymod sdl e.mods_state ∷ 0 ∷ key_bytes codes) ++ drop input_size bytes;
    size = input_size;
  }

  input_from_key_lem :
      (keys : List Bool) (bytes : List ℕ) (e : KeyEvent)
      → input_size ≤ length bytes
      → input_from_key sdl keys bytes e ≡ (
        if ignored e then none else some (report e (pressed (update keys e) 0) bytes),
        update keys e,
      )
  unfolding input_from_key update input_init
  input_from_key_lem keys bytes e h = elim (Bool-cases (ignored e)) [
    | inl none_of_ours ↦
        let same : keys ≡ update keys e = ground arith in rw none_of_ours (ap (λ t. (none, t)) same)
    | inr ours ↦ rw ours (
        ap
          (λ t. (
            some (record { hid_id = hid_id_keyboard; bytes = t; size = input_size }),
            update keys e,
          ))
          (report_layout (update keys e) bytes (mod_from_sdl_keymod sdl e.mods_state) h))
  ]

  -- After any history of key events, a further one gives no report if it is ignored; else its report,
  -- of the size that the descriptor announces, holds the modifiers, a zero, and the scancodes of the
  -- keys whose last event says that they are down, in ascending order and padded with zeros, or six
  -- times the rollover error if they are more than six; the array behind the report stays as it was.
  pub input_from_key-report :
      (es : List KeyEvent) (e : KeyEvent) (bytes : List ℕ)
      → input_size ≤ length bytes
      → (input_from_key sdl (run init es) bytes e ≡ (
        if ignored e then none else some (report e (held_codes (es ++ (e ∷ []))) bytes),
        run init (es ++ (e ∷ [])),
      ))
        × (8 * input_size ≡ input_bits report_desc)
  unfolding input_bits
  input_from_key-report es e bytes h =
      let keys : update (run init es) e ≡ run init (es ++ (e ∷ [])) = sym (run-snoc init es e) in
      let codes : pressed (run init (es ++ (e ∷ []))) 0 ≡ held_codes (es ++ (e ∷ [])) =
        unfold held_codes in ap (λ t. pressed t 0) (run-init (es ++ (e ∷ []))) in
      (
        input_from_key_lem (run init es) bytes e h
            ∙ ap (λ t. (if ignored e then none else some (report e (pressed t 0) bytes), t)) keys
            ∙ ap
                (λ t.
                  (if ignored e then none else some (report e t bytes), run init (es ++ (e ∷ []))))
                codes,
        refl,
      )
