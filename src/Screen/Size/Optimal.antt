-- ===== src/Screen/Size/Optimal.antt =====
-- The size of the window keeps the aspect ratio of the content, in the bounds of the display.
use dskcpy.Prelude.{
  ◌*◌, ◌-◌, ◌/◌, ◌^◌, ◌≤◌, ◌<◌, ◌≡◌, ◌⊎◌, Bool, true, false, Option, none, some, ℤ, pos_part,
}
use dskcpy.Screen.Size.{Size}

-- `sc_size` holds 16-bit words.
pub record IsSize (s : Size) : Type 0 where
  pub width : s.width < 2 ^ 16
  pub height : s.height < 2 ^ 16

-- Within the usable size of the display and its margins, where that counts and is known.
abbrev pub InDisplay : Bool → Option (ℤ × ℤ) → Size → Type 0
InDisplay false bounds s = Unit {0}
InDisplay true none s = Unit {0}
InDisplay true (some (w, h)) s = (s.width ≤ pos_part w - 96) × (s.height ≤ pos_part h - 96)

-- The window is within `window` and keeps one of its sides, and the other side is the one that
-- the aspect ratio of the content gives, rounded down.
pub record Fits (window content r : Size) : Type 0 where
  pub width : r.width ≤ window.width
  pub height : r.height ≤ window.height
  pub keeps : (r.width ≡ window.width) ⊎ (r.height ≡ window.height)
  pub ratio :
      (r.height ≡ r.width * content.height / content.width)
      ⊎ (r.width ≡ r.height * content.width / content.height)
