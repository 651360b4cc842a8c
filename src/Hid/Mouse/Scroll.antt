-- ===== src/Hid/Mouse/Scroll.antt =====
-- What a scroll event reports, and what it leaves for the next one.
use dskcpy.Prelude.{ℕ, ◌-◌, ltb, if◌then◌else◌, ℤ, pos, negsuc}
use dskcpy.Hid.Mouse.{ScrollFloat, clamp_float}

-- How a host reads a byte of the report: as a signed number.
abbrev pub from_u8 : ℕ → ℤ
from_u8 b = if ltb b 128 then pos b else negsuc (255 - b)

module _ {Float : Type 0} (ops : ScrollFloat Float) where
  open ops use {lt, add, low, high, truncate, minus}

  -- The steps that are consumed of an amount.
  abbrev pub steps : Float → ℤ
  steps f = truncate (clamp_float ops f)
