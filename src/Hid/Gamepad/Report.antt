-- ===== src/Hid/Gamepad/Report.antt =====
-- The layout of an input report.
use dskcpy.Prelude.{
  ℕ, ◌≤◌, ◌≡◌, refl, ap, ◌∙◌, List, [], ◌∷◌, ◌++◌, arith, length, set, drop, bit_and, write_at,
  write_at-append, write_at_start,
}
use dskcpy.Util.Binary.{write16le}
use dskcpy.Util.Binary.Bytes.{le16, write16le-write_at}
use dskcpy.Hid.Gamepad.{Slot, event_from_slot, get_dpad_value}

-- The six axes, little-endian, the 16 low bits of the buttons, and the hat switch.
abbrev pub report : Slot → List ℕ
report s =
    le16 s.axis_left_x
    ++ (le16 s.axis_left_y
        ++ (le16 s.axis_right_x
            ++ (le16 s.axis_right_y
                ++ (le16 s.axis_left_trigger
                    ++ (le16 s.axis_right_trigger
                        ++ (le16 (bit_and s.buttons 0xffff) ++ (get_dpad_value s.buttons ∷ [])))))))

put16 :
    (buf b a : List ℕ) (i v : ℕ)
    → b ≡ write_at buf 0 a
    → i ≡ length a
    → write16le b i v ≡ write_at buf 0 (a ++ le16 v)
put16 buf b a i v e at =
    write16le-write_at b i v
    ∙ ap (λ t. write_at t i (le16 v)) e
    ∙ write_at-append buf 0 i a (le16 v) (omega (arith, at))

put8 :
    (buf b a : List ℕ) (i v : ℕ)
    → b ≡ write_at buf 0 a
    → i ≡ length a
    → set b i v ≡ write_at buf 0 (a ++ (v ∷ []))
unfolding write_at
put8 buf b a i v e at =
    ap (λ t. write_at t i (v ∷ [])) e ∙ write_at-append buf 0 i a (v ∷ []) (omega (arith, at))

-- In an array of at least 15 bytes the report takes the first 15, and the rest stays.
pub event_from_slot-report :
    (s : Slot) (buf : List ℕ) → 15 ≤ length buf → event_from_slot s buf ≡ report s ++ drop 15 buf
unfolding event_from_slot
event_from_slot-report s buf h =
    put8 buf _ _ 14 _
      (put16 buf _ _ 12 _
        (put16 buf _ _ 10 _
          (put16 buf _ _ 8 _
            (put16 buf _ _ 6 _
              (put16 buf _ _ 4 _ (put16 buf _ _ 2 _ (write16le-write_at buf 0 s.axis_left_x) refl)
                refl)
              refl)
            refl)
          refl)
        refl)
      refl
    ∙ write_at_start buf (report s) h
