-- ===== src/Reverse/Geometry.antt =====
-- app/src/reverse_display.c, `reverse_map_position`: a point of the device's screen on the desktop.
use dskcpy.Prelude.{
  diff, sub_ℤ, add_ℤ, ℕ, ◌-◌, ◌*◌, ◌/◌, ◌||◌, Option, none, some, ℤ, pos, negsuc, pos_part,
  neg_part, leb_ℤ, ltb, ◌==◌, if◌then◌else◌, ◌≡◌, ◌≢◌, ◌⊎◌, ◌≤ℤ◌, ◌<◌, arith, refl, Bool-cases, inl,
  inr,
}
use dskcpy.ControlMsg.Types.{Position}

-- A quotient of C is rounded towards 0.
abbrev pub scale : ℤ → ℕ → ℕ → ℤ
scale a k n = diff (pos_part a * k / n) (neg_part a * k / n)

-- `if (v < low) v = low; else if (v > high) v = high;`
abbrev pub clamp_ℤ : ℤ → ℤ → ℤ → ℤ
clamp_ℤ low high v = if leb_ℤ low v then (if leb_ℤ v high then v else high) else low

pub record Desktop : Type 0 where
  pub left : ℤ
  pub top : ℤ
  pub width : ℕ
  pub height : ℕ

abbrev pub right : Desktop → ℤ
right d = sub_ℤ (add_ℤ d.left (pos d.width)) (pos 1)

abbrev pub bottom : Desktop → ℤ
bottom d = sub_ℤ (add_ℤ d.top (pos d.height)) (pos 1)

-- One coordinate: `screen - 1 > 0 ? screen - 1 : 1`.
abbrev pub span : ℕ → ℕ
span screen = if ltb 1 screen then screen - 1 else 1

unfoldable pub map_position : Desktop → Position → Option (ℤ × ℤ)
map_position d p =
    if p.width == 0 || (p.height == 0 || (d.width == 0 || d.height == 0))
    then none
    else let mapped_x = add_ℤ d.left (scale p.x (d.width - 1) (span p.width)) in
      let mapped_y = add_ℤ d.top (scale p.y (d.height - 1) (span p.height)) in
      some (clamp_ℤ d.left (right d) mapped_x, clamp_ℤ d.top (bottom d) mapped_y)

far_edge : (low : ℤ) (size : ℕ) → 0 < size → low ≤ℤ sub_ℤ (add_ℤ low (pos size)) (pos 1)
far_edge (pos n) size h = ground arith
far_edge (negsuc n) size h = ground arith

clamp_ℤ-bounds :
    (low high v : ℤ) → low ≤ℤ high → (low ≤ℤ clamp_ℤ low high v) × (clamp_ℤ low high v ≤ℤ high)
clamp_ℤ-bounds low high v h = ground arith

-- On the desktop.
abbrev pub IsOn : Desktop → ℤ × ℤ → Type 0
IsOn d (x, y) = ((d.left ≤ℤ x) × (x ≤ℤ right d)) × ((d.top ≤ℤ y) × (y ≤ℤ bottom d))

-- A position is mapped exactly where no size is zero, neither of the device's screen nor of the
-- desktop, and then onto the desktop.
pub map_position-IsOn :
    (d : Desktop) (p : Position)
    → ((map_position d p ≡ none)
        × ((p.width ≡ 0) ⊎ ((p.height ≡ 0) ⊎ ((d.width ≡ 0) ⊎ (d.height ≡ 0)))))
      ⊎ ((at : ℤ × ℤ) × (map_position d p ≡ some at)
          × IsOn d at
          × (p.width ≢ 0)
          × (p.height ≢ 0)
          × (d.width ≢ 0)
          × (d.height ≢ 0))
unfolding map_position
map_position-IsOn d p =
    elim (Bool-cases (p.width == 0 || (p.height == 0 || (d.width == 0 || d.height == 0)))) [
      | inl empty ↦ inl (rw empty refl, ground arith)
      | inr sized ↦
          let mapped_x = add_ℤ d.left (scale p.x (d.width - 1) (span p.width)) in
          let mapped_y = add_ℤ d.top (scale p.y (d.height - 1) (span p.height)) in
          let x =
            clamp_ℤ-bounds d.left (right d) mapped_x (far_edge d.left d.width (ground arith)) in
          let y =
            clamp_ℤ-bounds d.top (bottom d) mapped_y (far_edge d.top d.height (ground arith)) in
          inr (
            _,
            rw sized refl,
            (x, y),
            (λ z. ground (arith, z, sized)),
            (λ z. ground (arith, z, sized)),
            (λ z. ground (arith, z, sized)),
            (λ z. ground (arith, z, sized)),
          )
    ]
