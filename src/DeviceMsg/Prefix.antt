-- ===== src/DeviceMsg/Prefix.antt =====
-- `sc_device_msg_deserialize` of app/src/device_msg.c when more bytes stand behind a message.
use dskcpy.Prelude.{
  ℕ, zero, suc, ◌+◌, ◌-◌, ◌≤◌, ◌<◌, ◌≡◌, ◌≢◌, refl, ap, ◌∙◌, List, [], ◌∷◌, ◌++◌, Bool, true, false,
  arith, dec_lt,
}
use dskcpy.Prelude.{
  ltb, ◌==◌, lt→ltb, ltb-eq_false, ==-eq_false, if◌then◌else◌, length, length-append, length-drop,
  get_or, get_or-append, take, drop,
}
use dskcpy.Util.Binary.{read16be, read32be, read64be}
use dskcpy.DeviceMsg.{
  ack_clipboard, reverse_frame_ack, reverse_audio_ack, reverse_system_action, DeviceMsg, Parsed,
  incomplete, position_at, touch_at, parse_clipboard, parse_uhid_output, parse_fixed, parse_scroll,
  dispatch, deserialize,
}

module _ (buf more : List ℕ) where
  at : (i : ℕ) → i < length buf → get_or (buf ++ more) i 0 ≡ get_or buf i 0
  at i h = get_or-append buf more i 0 h

  read16 : (i : ℕ) → i + 2 ≤ length buf → read16be (buf ++ more) i ≡ read16be buf i
  unfolding read16be
  read16 i h = rw (at i (omega arith), at (i + 1) (omega arith))

  read32 : (i : ℕ) → i + 4 ≤ length buf → read32be (buf ++ more) i ≡ read32be buf i
  unfolding read32be
  read32 i h = rw (
    at i (omega arith),
    at (i + 1) (omega arith),
    at (i + 2) (omega arith),
    at (i + 3) (omega arith),
  )

  read64 : (i : ℕ) → i + 8 ≤ length buf → read64be (buf ++ more) i ≡ read64be buf i
  unfolding read64be
  read64 i h = rw (read32 i (omega arith), read32 (i + 4) (omega arith))

pub drop-append_le :
    (n : ℕ) (buf more : List ℕ) → n ≤ length buf → drop n (buf ++ more) ≡ drop n buf ++ more
drop-append_le zero buf more h = refl
drop-append_le (suc n) [] more h = absurd (omega arith)
drop-append_le (suc n) (b ∷ buf) more h = drop-append_le n buf more (omega arith)

take-append_le : (n : ℕ) (buf more : List ℕ) → n ≤ length buf → take n (buf ++ more) ≡ take n buf
take-append_le zero buf more h = refl
take-append_le (suc n) [] more h = absurd (omega arith)
take-append_le (suc n) (b ∷ buf) more h = ap (λ t. b ∷ t) (take-append_le n buf more (omega arith))

-- A result that does not wait for more bytes stays.
abbrev Settled : (List ℕ → Parsed) → List ℕ → List ℕ → Type 0
Settled f buf more = f buf ≢ incomplete → f (buf ++ more) ≡ f buf

if_Settled :
    (b : Bool) {x x' y y' : Parsed}
    → (x ≢ incomplete → x' ≡ x)
    → (y ≢ incomplete → y' ≡ y)
    → (if b then x else y) ≢ incomplete
    → (if b then x' else y') ≡ (if b then x else y)
if_Settled true hx hy = hx
if_Settled false hx hy = hy

module _ (malloc : ℕ → Bool) (buf more : List ℕ) where
  longer : length (buf ++ more) ≡ length buf + length more
  longer = length-append buf more

  body : (n : ℕ) → 5 + n ≤ length buf → take n (drop 5 (buf ++ more)) ≡ take n (drop 5 buf)
  body n h =
      ap (take n) (drop-append_le 5 buf more (omega arith))
      ∙ take-append_le n (drop 5 buf) more (omega (arith, length-drop 5 buf))

  room : (n : ℕ) → n ≤ length buf → ltb (length (buf ++ more)) n ≡ false
  room n h = ltb-eq_false _ n (omega (arith, longer))

  parse_clipboard-Settled : Settled (parse_clipboard malloc) buf more
  unfolding parse_clipboard
  parse_clipboard-Settled ne = elim (dec_lt (length buf) 5) [
    | yes short ↦ absurd (ne (rw (lt→ltb _ _ short)))
    | no long ↦ elim (dec_lt (length buf - 5) (read32be buf 1)) [
      | yes short ↦ absurd (ne (rw (ltb-eq_false (length buf) 5 (omega arith), lt→ltb _ _ short)))
      | no enough ↦ rw (
        room 5 (omega arith),
        ltb-eq_false (length buf) 5 (omega arith),
        read32 buf more 1 (omega arith),
        ltb-eq_false (length (buf ++ more) - 5) (read32be buf 1) (omega (arith, longer)),
        ltb-eq_false (length buf - 5) (read32be buf 1) (omega arith),
        body (read32be buf 1) (omega arith),
      )
    ]
  ]

  parse_uhid_output-Settled : Settled (parse_uhid_output malloc) buf more
  unfolding parse_uhid_output
  parse_uhid_output-Settled ne = elim (dec_lt (length buf) 5) [
    | yes short ↦ absurd (ne (rw (lt→ltb _ _ short)))
    | no long ↦ elim (dec_lt (length buf - 5) (read16be buf 3)) [
      | yes short ↦ absurd (ne (rw (ltb-eq_false (length buf) 5 (omega arith), lt→ltb _ _ short)))
      | no enough ↦ rw (
        room 5 (omega arith),
        ltb-eq_false (length buf) 5 (omega arith),
        read16 buf more 1 (omega arith),
        read16 buf more 3 (omega arith),
        ltb-eq_false (length (buf ++ more) - 5) (read16be buf 3) (omega (arith, longer)),
        ltb-eq_false (length buf - 5) (read16be buf 3) (omega arith),
        body (read16be buf 3) (omega arith),
      )
    ]
  ]

  -- A message of a fixed size whose fields lie within that size.
  parse_fixed-Settled :
      (size : ℕ) (fields : List ℕ → DeviceMsg)
      → (size ≤ length buf → fields (buf ++ more) ≡ fields buf)
      → Settled (λ b. parse_fixed size b (fields b)) buf more
  unfolding parse_fixed
  parse_fixed-Settled size fields same ne = elim (dec_lt (length buf) size) [
    | yes short ↦ absurd (ne (rw (lt→ltb _ _ short)))
    | no long ↦
        rw (
          room size (omega arith),
          ltb-eq_false (length buf) size (omega arith),
          same (omega arith),
        )
  ]

  -- A message whose field is the 64-bit word after the type.
  fixed_word :
      (size : ℕ) (field : ℕ → DeviceMsg)
      → 9 ≤ size
      → Settled (λ b. parse_fixed size b (field (read64be b 1))) buf more
  fixed_word size field h =
      parse_fixed-Settled size (λ b. field (read64be b 1))
        (λ enough. ap field (read64 buf more 1 (omega arith)))

  position_same : (i : ℕ) → i + 12 ≤ length buf → position_at (buf ++ more) i ≡ position_at buf i
  position_same i h = rw (
    read32 buf more i (omega arith),
    read32 buf more (i + 4) (omega arith),
    read16 buf more (i + 8) (omega arith),
    read16 buf more (i + 10) (omega arith),
  )

  touch_same : 32 ≤ length buf → touch_at (buf ++ more) ≡ touch_at buf
  touch_same h = rw (
    at buf more 1 (omega arith),
    read64 buf more 2 (omega arith),
    position_same 10 (omega arith),
    read16 buf more 22 (omega arith),
    read32 buf more 24 (omega arith),
    read32 buf more 28 (omega arith),
  )

  parse_scroll-Settled : Settled parse_scroll buf more
  unfolding parse_scroll
  parse_scroll-Settled ne = elim (dec_lt (length buf) 21) [
    | yes short ↦ absurd (ne (rw (lt→ltb _ _ short)))
    | no long ↦ rw (
      room 21 (omega arith),
      ltb-eq_false (length buf) 21 (omega arith),
      read32 buf more 13 (omega arith),
      read32 buf more 17 (omega arith),
      position_same 1 (omega arith),
    )
  ]

  dispatch-Settled : (type : ℕ) → Settled (dispatch malloc type) buf more
  unfolding dispatch
  dispatch-Settled type = if_Settled (type == 0) parse_clipboard-Settled (
      if_Settled (type == 1) (fixed_word 9 ack_clipboard (omega arith)) (
        if_Settled (type == 2) parse_uhid_output-Settled (
          if_Settled (type == 3) (parse_fixed-Settled 32 touch_at touch_same) (
            if_Settled (type == 7) parse_scroll-Settled (
              if_Settled (type == 4) (fixed_word 9 reverse_frame_ack (omega arith)) (
                if_Settled (type == 6) (fixed_word 9 reverse_audio_ack (omega arith)) (
                  if_Settled (type == 5)
                    (parse_fixed-Settled 2 (λ b. reverse_system_action (get_or b 1 0))
                      (λ h. ap reverse_system_action (at buf more 1 h)))
                    (λ _. refl))))))))

-- More bytes behind the bytes of a complete message, or of an invalid one, change nothing.
pub deserialize-append :
    (malloc : ℕ → Bool) (buf more : List ℕ)
    → deserialize malloc buf ≢ incomplete
    → deserialize malloc (buf ++ more) ≡ deserialize malloc buf
unfolding deserialize
deserialize-append malloc [] more ne = absurd (ne refl)
deserialize-append malloc (b ∷ buf) more ne =
    rw
      (
        ==-eq_false (suc (length (buf ++ more))) 0 (omega arith),
        ==-eq_false (suc (length buf)) 0 (omega arith),
      )
      (dispatch-Settled malloc (b ∷ buf) more b
        (λ e. ne (rw (==-eq_false (suc (length buf)) 0 (omega arith)) e)))
