-- ===== src/DeviceMsg/Consumed.antt =====
-- How many bytes of the buffer a message takes.
use dskcpy.Prelude.{
  ℕ, suc, ◌+◌, ◌-◌, ◌≤◌, ◌<◌, ◌≡◌, subst, List, [], ◌∷◌, Bool, true, false, arith, dec_lt,
}
use dskcpy.Prelude.{
  ltb, ◌==◌, lt→ltb, ltb-eq_false, ==-eq_false, if◌then◌else◌, length, ◌&&◌, to_i32,
}
use dskcpy.Util.Binary.{read16be, read32be}
use dskcpy.DeviceMsg.{
  in_bounds, reverse_scroll, position_at, DeviceMsg, Parsed, incomplete, failed, message,
  parse_clipboard, parse_uhid_output, parse_fixed, parse_scroll, dispatch, deserialize,
}

Within : ℕ → Parsed → Type 0
Within len incomplete = Unit
Within len failed = Unit
Within len (message n msg) = (0 < n) × (n ≤ len)

if_Within :
    (len : ℕ) (b : Bool) (x y : Parsed)
    → Within len x
    → Within len y
    → Within len (if b then x else y)
if_Within len true x y hx hy = hx
if_Within len false x y hx hy = hy

-- The guard `if (len < n) return 0`.
guard_Within :
    (len n : ℕ) (x : Parsed)
    → (n ≤ len → Within len x)
    → Within len (if ltb len n then incomplete else x)
unfolding Within
guard_Within len n x h = elim (dec_lt len n) [
  | yes short ↦ rw (lt→ltb len n short) tt
  | no long ↦ rw (ltb-eq_false len n (omega arith)) (h (omega arith))
]

module _ (malloc : ℕ → Bool) (buf : List ℕ) where
  -- The guard `if (n > len - 5) return 0`.
  guard_room :
      (n : ℕ) (x : Parsed)
      → 5 ≤ length buf
      → (5 + n ≤ length buf → Within (length buf) x)
      → Within (length buf) (if ltb (length buf - 5) n then incomplete else x)
  unfolding Within
  guard_room n x header h = elim (dec_lt (length buf - 5) n) [
    | yes short ↦ rw (lt→ltb (length buf - 5) n short) tt
    | no long ↦ rw (ltb-eq_false (length buf - 5) n (omega arith)) (h (omega arith))
  ]

  parse_clipboard-Within : Within (length buf) (parse_clipboard malloc buf)
  unfolding parse_clipboard Within
  parse_clipboard-Within = guard_Within (length buf) 5 _ (λ header.
      guard_room (read32be buf 1) _ header (λ enough.
        if_Within (length buf) (malloc (read32be buf 1 + 1)) _ _ (omega arith, omega arith) tt))

  parse_uhid_output-Within : Within (length buf) (parse_uhid_output malloc buf)
  unfolding parse_uhid_output Within
  parse_uhid_output-Within = guard_Within (length buf) 5 _ (λ header.
      guard_room (read16be buf 3) _ header (λ enough.
        if_Within (length buf) (malloc (read16be buf 3)) _ _ (omega arith, omega arith) tt))

  parse_fixed-Within :
      (size : ℕ) (msg : DeviceMsg) → 0 < size → Within (length buf) (parse_fixed size buf msg)
  unfolding parse_fixed Within
  parse_fixed-Within size msg h = guard_Within (length buf) size _ (λ enough. (h, enough))

  parse_scroll-Within : Within (length buf) (parse_scroll buf)
  unfolding parse_scroll Within
  parse_scroll-Within = guard_Within (length buf) 21 _ (λ enough.
      if_Within (length buf)
        (in_bounds (to_i32 (read32be buf 13)) && in_bounds (to_i32 (read32be buf 17)))
        (message 21 (
          reverse_scroll (position_at buf 1) (to_i32 (read32be buf 13)) (to_i32 (read32be buf 17))))
        failed (omega arith, enough) tt)

  dispatch-Within : (type : ℕ) → Within (length buf) (dispatch malloc type buf)
  unfolding dispatch Within
  dispatch-Within type = if_Within (length buf) (type == 0) _ _ parse_clipboard-Within (
      if_Within (length buf) (type == 1) _ _ (parse_fixed-Within 9 _ (omega arith)) (
        if_Within (length buf) (type == 2) _ _ parse_uhid_output-Within (
          if_Within (length buf) (type == 3) _ _ (parse_fixed-Within 32 _ (omega arith)) (
            if_Within (length buf) (type == 7) _ _ parse_scroll-Within (
              if_Within (length buf) (type == 4) _ _ (parse_fixed-Within 9 _ (omega arith)) (
                if_Within (length buf) (type == 6) _ _ (parse_fixed-Within 9 _ (omega arith)) (
                  if_Within (length buf) (type == 5) _ _ (parse_fixed-Within 2 _ (omega arith))
                    tt)))))))

deserialize-Within :
    (malloc : ℕ → Bool) (buf : List ℕ) → Within (length buf) (deserialize malloc buf)
unfolding deserialize Within
deserialize-Within malloc [] = tt
deserialize-Within malloc (b ∷ buf) =
    rw (==-eq_false (suc (length buf)) 0 (omega arith)) (dispatch-Within malloc (b ∷ buf) b)

-- A message consumes at least one byte, and no more than there are.
pub consumed_bounds :
    (malloc : ℕ → Bool) (buf : List ℕ) {n : ℕ} {msg : DeviceMsg}
    → deserialize malloc buf ≡ message n msg
    → (0 < n) × (n ≤ length buf)
unfolding Within
consumed_bounds malloc buf e = subst (Within (length buf)) e (deserialize-Within malloc buf)
