-- ===== src/Hid/Keyboard.antt =====
-- app/src/hid/hid_keyboard.c: the keys that are down, and the input reports. `data` is the array of
-- `struct sc_hid_input`; a result `none` stands for the return value `false`. The constants that
-- the client takes from SDL are the parameter `sdl`. Scancodes are not negative, as the assertion
-- has it.
pub mod Report
pub mod Held
use dskcpy.Prelude.{
  ℕ, zero, suc, ◌+◌, ◌-◌, ◌&&◌, ◌||◌, not, Bool, true, false, List, [], ◌∷◌, Option, none, some,
  ltb, leb, ◌==◌, if◌then◌else◌, set, replicate, bit_and, bit_or, write_at,
}

-- `SC_HID_KEYBOARD_KEYS`, `SC_HID_KEYBOARD_MAX_KEYS` and the size of a report
abbrev pub keys_size : ℕ
keys_size = 0x66

abbrev pub max_keys : ℕ
max_keys = 6

abbrev pub input_size : ℕ
input_size = 2 + max_keys

abbrev pub hid_id_keyboard : ℕ
hid_id_keyboard = 1

abbrev pub report_desc : List ℕ
report_desc =
    0x05
    ∷ 0x01
    ∷ 0x09
    ∷ 0x06
    ∷ 0xA1
    ∷ 0x01
    ∷ 0x05
    ∷ 0x07
    ∷ 0x19
    ∷ 0xE0
    ∷ 0x29
    ∷ 0xE7
    ∷ 0x15
    ∷ 0x00
    ∷ 0x25
    ∷ 0x01
    ∷ 0x75
    ∷ 0x01
    ∷ 0x95
    ∷ 0x08
    ∷ 0x81
    ∷ 0x02
    ∷ 0x75
    ∷ 0x08
    ∷ 0x95
    ∷ 0x01
    ∷ 0x81
    ∷ 0x01
    ∷ 0x05
    ∷ 0x08
    ∷ 0x19
    ∷ 0x01
    ∷ 0x29
    ∷ 0x05
    ∷ 0x75
    ∷ 0x01
    ∷ 0x95
    ∷ 0x05
    ∷ 0x91
    ∷ 0x02
    ∷ 0x75
    ∷ 0x03
    ∷ 0x95
    ∷ 0x01
    ∷ 0x91
    ∷ 0x01
    ∷ 0x05
    ∷ 0x07
    ∷ 0x19
    ∷ 0x00
    ∷ 0x29
    ∷ (keys_size - 1)
    ∷ 0x15
    ∷ 0x00
    ∷ 0x25
    ∷ (keys_size - 1)
    ∷ 0x75
    ∷ 0x08
    ∷ 0x95
    ∷ max_keys
    ∷ 0x81
    ∷ 0x00
    ∷ 0xC0
    ∷ []

pub record SdlKeys : Type 0 where
  pub mod_lctrl : ℕ
  pub mod_lshift : ℕ
  pub mod_lalt : ℕ
  pub mod_lgui : ℕ
  pub mod_rctrl : ℕ
  pub mod_rshift : ℕ
  pub mod_ralt : ℕ
  pub mod_rgui : ℕ
  pub mod_caps : ℕ
  pub mod_num : ℕ
  pub scancode_lctrl : ℕ
  pub scancode_rgui : ℕ
  pub scancode_capslock : ℕ
  pub scancode_numlock : ℕ

pub record KeyEvent : Type 0 where
  pub down : Bool
  pub scancode : ℕ
  pub mods_state : ℕ

-- The id, the size and the array of an input report.
pub record HidInput : Type 0 where
  pub hid_id : ℕ
  pub bytes : List ℕ
  pub size : ℕ

unfoldable pub init : List Bool
init = replicate keys_size false

unfoldable pub input_init : List ℕ → HidInput
input_init bytes = record {
  hid_id = hid_id_keyboard;
  size = input_size;
  bytes = write_at (set (set bytes 0 0) 1 0) 2 (replicate max_keys 0);
}

-- The loop over the keys from `i` on, with `count` of them pressed so far. The `memset` and the
-- `goto` end it.
unfoldable pub put_keys : List Bool → ℕ → ℕ → List ℕ → List ℕ
put_keys [] i count bytes = bytes
put_keys (false ∷ keys) i count bytes = put_keys keys (i + 1) count bytes
put_keys (true ∷ keys) i count bytes =
    let rest = put_keys keys (i + 1) (count + 1) (set bytes (2 + count) i) in
    if leb max_keys count then write_at bytes 2 (replicate max_keys 1) else rest

module _ (sdl : SdlKeys) where
  open sdl use {
    mod_lctrl, mod_lshift, mod_lalt, mod_lgui, mod_rctrl, mod_rshift, mod_ralt, mod_rgui, mod_caps,
    mod_num, scancode_lctrl, scancode_rgui, scancode_capslock, scancode_numlock,
  }

  -- `if (state & mask) mods |= flag;`
  abbrev pub add_mod : ℕ → ℕ → ℕ → ℕ → ℕ
  add_mod state mask flag mods = if bit_and state mask == 0 then mods else bit_or mods flag

  unfoldable pub mod_from_sdl_keymod : ℕ → ℕ
  mod_from_sdl_keymod state = add_mod state mod_rgui 128 (
      add_mod state mod_ralt 64 (
        add_mod state mod_rshift 32 (
          add_mod state mod_rctrl 16 (
            add_mod state mod_lgui 8 (
              add_mod state mod_lalt 4
                (add_mod state mod_lshift 2 (add_mod state mod_lctrl 1 0)))))))

  unfoldable pub scancode_is_modifier : ℕ → Bool
  scancode_is_modifier scancode = leb scancode_lctrl scancode && leb scancode scancode_rgui

  -- The report, if there is one, and the keys.
  unfoldable pub input_from_key : List Bool → List ℕ → KeyEvent → Option HidInput × List Bool
  input_from_key keys bytes event =
      if leb keys_size event.scancode && not (scancode_is_modifier event.scancode)
      then (none, keys)
      else let input = input_init bytes in
        let mods = mod_from_sdl_keymod event.mods_state in
        let keys' =
          if ltb event.scancode keys_size then set keys event.scancode event.down else keys in
        (some (record input { bytes = put_keys keys' 0 0 (set input.bytes 0 mods) }), keys')

  unfoldable pub input_from_mods : List ℕ → ℕ → Option HidInput
  unfolding input_init
  input_from_mods bytes mods_state =
      let capslock = not (bit_and mods_state mod_caps == 0) in
      let numlock = not (bit_and mods_state mod_num == 0) in
      if not capslock && not numlock
      then none
      else let input = input_init bytes in
        let first = if capslock then set input.bytes 2 scancode_capslock else input.bytes in
        let i = if capslock then 1 else 0 in
        some
          (record input { bytes = if numlock then set first (2 + i) scancode_numlock else first })
