-- ===== src/Examples/Keyboards.antt =====
-- Keys that are pressed and released.
use dskcpy.Prelude.{
  ℕ, ◌*◌, ◌≡◌, List, [], ◌∷◌, ◌++◌, Bool, true, false, none, some, arith, replicate, if◌then◌else◌,
}
use dskcpy.Hid.Keyboard.{SdlKeys, KeyEvent, init, input_size, input_from_key, report_desc}
use dskcpy.Hid.Keyboard.Held.{held_codes, run, ignored, report, input_from_key-report}
use dskcpy.Hid.Descriptor.{input_bits}

abbrev some_sdl : SdlKeys
some_sdl = record {
  mod_lctrl = 0x40;
  mod_lshift = 1;
  mod_lalt = 0x100;
  mod_lgui = 0x400;
  mod_rctrl = 0x80;
  mod_rshift = 2;
  mod_ralt = 0x200;
  mod_rgui = 0x800;
  mod_caps = 0x2000;
  mod_num = 0x1000;
  scancode_lctrl = 224;
  scancode_rgui = 231;
  scancode_capslock = 57;
  scancode_numlock = 83;
}

abbrev key : ℕ → Bool → KeyEvent
key scancode down = record { down = down; scancode = scancode; mods_state = 1 }

-- Two keys are down, and the first one is released.
abbrev typed : List KeyEvent
typed = key 26 true ∷ key 4 true ∷ []

keyboard_example :
    (input_from_key some_sdl (run some_sdl init typed) (replicate 15 0) (key 26 false) ≡ (
      if ignored some_sdl (key 26 false)
          then none
          else some (
              report some_sdl
                (key 26 false)
                (held_codes (typed ++ (key 26 false ∷ [])))
                (replicate 15 0)),
      run some_sdl init (typed ++ (key 26 false ∷ [])),
    ))
    × (8 * input_size ≡ input_bits report_desc)
keyboard_example =
    input_from_key-report some_sdl typed (key 26 false) (replicate 15 0) (omega arith)
