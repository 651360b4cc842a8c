-- ===== src/Hid/Mouse.antt =====
-- app/src/hid/hid_mouse.c: the reports of the mouse, and the scrolling that is not reported yet. `data`
-- is the array of `struct sc_hid_input`, which all of a report's bytes are written to; a result
-- `none` stands for the return value `false`. The masks that the client takes from SDL are the
-- parameter `sdl`, and C floats are the parameter `ScrollFloat`, with what IEEE 754 says of
-- comparisons, of a truncation towards 0 and of the fraction that is left of a small number.
pub mod Scroll
use dskcpy.Prelude.{
  ℕ, ◌+◌, ◌-◌, ◌%◌, ◌≡◌, ◌&&◌, not, Bool, true, false, List, [], ◌∷◌, Option, none, some, ◌==◌,
  if◌then◌else◌, bit_and, bit_or, write_at, ℤ, pos, negsuc, ◌≤ℤ◌, leb_ℤ,
}

abbrev pub hid_id_mouse : ℕ
hid_id_mouse = 2

abbrev pub input_size : ℕ
input_size = 5

abbrev pub report_desc : List ℕ
report_desc =
    0x05 ∷ 0x01 ∷ 0x09 ∷ 0x02 ∷ 0xA1 ∷ 0x01 ∷ 0x09 ∷ 0x01 ∷ 0xA1 ∷ 0x00 ∷ 0x05 ∷ 0x09 ∷ 0x19 ∷ 0x01
    ∷ 0x29 ∷ 0x05 ∷ 0x15 ∷ 0x00 ∷ 0x25 ∷ 0x01 ∷ 0x95 ∷ 0x05 ∷ 0x75 ∷ 0x01 ∷ 0x81 ∷ 0x02 ∷ 0x95
    ∷ 0x01 ∷ 0x75 ∷ 0x03 ∷ 0x81 ∷ 0x01 ∷ 0x05 ∷ 0x01 ∷ 0x09 ∷ 0x30 ∷ 0x09 ∷ 0x31 ∷ 0x09 ∷ 0x38
    ∷ 0x15 ∷ 0x81 ∷ 0x25 ∷ 0x7F ∷ 0x75 ∷ 0x08 ∷ 0x95 ∷ 0x03 ∷ 0x81 ∷ 0x06 ∷ 0x05 ∷ 0x0C ∷ 0x0A
    ∷ 0x38 ∷ 0x02 ∷ 0x15 ∷ 0x81 ∷ 0x25 ∷ 0x7F ∷ 0x75 ∷ 0x08 ∷ 0x95 ∷ 0x01 ∷ 0x81 ∷ 0x06 ∷ 0xC0
    ∷ 0xC0 ∷ []

pub record SdlButtons : Type 0 where
  pub left : ℕ
  pub right : ℕ
  pub middle : ℕ
  pub x1 : ℕ
  pub x2 : ℕ

pub record ScrollFloat (Float : Type 0) : Type 0 where
  pub lt : Float → Float → Bool
  pub add : Float → Float → Float
  pub zero : Float
  pub low : Float
  pub high : Float
  pub truncate : Float → ℤ
  pub minus : Float → ℤ → Float
  pub lt_asymm : (a b : Float) → lt a b ≡ true → lt b a ≡ false
  pub lt_irrefl : (a : Float) → lt a a ≡ false
  pub low_lt_high : lt low high ≡ true
  pub truncate_bounds :
      (f : Float)
      → lt f low ≡ false
      → lt high f ≡ false
      → (negsuc 126 ≤ℤ truncate f) × (truncate f ≤ℤ pos 127)
  pub fraction :
      (f : Float)
      → lt f low ≡ false
      → lt high f ≡ false
      → (lt low (minus f (truncate f)) ≡ true)
        × (lt (minus f (truncate f)) high ≡ true)
        × (truncate (minus f (truncate f)) ≡ pos 0)

-- The id, the size and the array of an input report.
pub record HidInput : Type 0 where
  pub hid_id : ℕ
  pub bytes : List ℕ
  pub size : ℕ

-- The conversion of an integer to `uint8_t`.
abbrev pub to_u8 : ℤ → ℕ
to_u8 (pos n) = n % 256
to_u8 (negsuc n) = 255 - n % 256

-- `CLAMP(v, -127, 127)`
abbrev pub clamp127 : ℤ → ℤ
clamp127 v =
    let above = if leb_ℤ v (negsuc 126) then negsuc 126 else v in
    if leb_ℤ (pos 127) above then pos 127 else above

-- The report whose five bytes are given.
abbrev pub report : List ℕ → List ℕ → HidInput
report bytes five = record {
  hid_id = hid_id_mouse;
  bytes = write_at bytes 0 five;
  size = input_size;
}

module _ (sdl : SdlButtons) where
  -- `if (state & mask) c |= flag;`
  abbrev pub add_button : ℕ → ℕ → ℕ → ℕ → ℕ
  add_button state mask flag c = if bit_and state mask == 0 then c else bit_or c flag

  unfoldable pub buttons_from_buttons_state : ℕ → ℕ
  buttons_from_buttons_state state = add_button state sdl.x2 16 (
      add_button state sdl.x1 8 (
        add_button state sdl.middle 4
          (add_button state sdl.right 2 (add_button state sdl.left 1 0))))

  unfoldable pub input_from_motion : List ℕ → (buttons_state : ℕ) → (xrel yrel : ℤ) → HidInput
  input_from_motion bytes buttons_state xrel yrel = report bytes (
      buttons_from_buttons_state buttons_state
      ∷ to_u8 (clamp127 xrel)
      ∷ to_u8 (clamp127 yrel)
      ∷ 0
      ∷ 0
      ∷ [])

  unfoldable pub input_from_click : List ℕ → (buttons_state : ℕ) → HidInput
  input_from_click bytes buttons_state =
      report bytes (buttons_from_buttons_state buttons_state ∷ 0 ∷ 0 ∷ 0 ∷ 0 ∷ [])

abbrev pub is_zero : ℤ → Bool
is_zero (pos n) = n == 0
is_zero (negsuc n) = false

module _ {Float : Type 0} (ops : ScrollFloat Float) where
  open ops use {lt, add, zero, low, high, truncate, minus}

  pub record HidMouse : Type 0 where
    pub residual_hscroll : Float
    pub residual_vscroll : Float

  unfoldable pub init : HidMouse
  init = record { residual_hscroll = zero; residual_vscroll = zero }

  -- `CLAMP(f, -127, 127)` on floats
  abbrev pub clamp_float : Float → Float
  clamp_float f = let above = if lt low f then f else low in if lt above high then above else high

  -- The integer consumed, and the residual.
  unfoldable pub consume_scroll_integer : Float → ℤ × Float
  consume_scroll_integer scroll =
      let value = clamp_float scroll in (truncate value, minus value (truncate value))

  unfoldable pub input_from_scroll :
      HidMouse → List ℕ → (hscroll vscroll : Float) → Option HidInput × HidMouse
  input_from_scroll hid bytes hscroll vscroll =
      let (h, h_left) = consume_scroll_integer (add hid.residual_hscroll hscroll) in
      let (v, v_left) = consume_scroll_integer (add hid.residual_vscroll vscroll) in
      (
        if is_zero h && is_zero v
            then none
            else some (report bytes (0 ∷ 0 ∷ 0 ∷ to_u8 v ∷ to_u8 h ∷ [])),
        record { residual_hscroll = h_left; residual_vscroll = v_left },
      )
