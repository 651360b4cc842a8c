-- ===== src/Hid/Descriptor.antt =====
-- The size of an input report as a report descriptor announces it: the short items of the HID
-- specification, which app/src/hid/hid_keyboard.c, hid_mouse.c and hid_gamepad.c name. Of a
-- descriptor only the items that bear on the size are read.
use dskcpy.Prelude.{
  ℕ, zero, suc, ◌+◌, ◌*◌, ◌%◌, ◌-◌, List, [], ◌∷◌, ◌==◌, if◌then◌else◌, get_or, drop, length,
}

-- The bytes of data behind the prefix of an item.
abbrev data_size : ℕ → ℕ
data_size prefix = if prefix % 4 == 3 then 4 else prefix % 4

-- The bits of the input fields, at the report size and count in force: 0x74 sets the size, 0x94 the
-- count, and 0x80 is a field of the input report.
bits_from : ℕ → ℕ → ℕ → List ℕ → ℕ
bits_from zero size count items = 0
bits_from (suc fuel) size count [] = 0
bits_from (suc fuel) size count (prefix ∷ rest) =
    let tag = prefix - prefix % 4 in
    let value = get_or rest 0 0 in
    let behind = drop (data_size prefix) rest in
    (if tag == 0x80 then size * count else 0)
    + bits_from fuel (if tag == 0x74 then value else size) (if tag == 0x94 then value else count)
        behind

unfoldable pub input_bits : List ℕ → ℕ
unfolding bits_from
input_bits descriptor = bits_from (length descriptor) 0 0 descriptor
