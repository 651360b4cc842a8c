-- ===== src/Screen/Orientation/Compose.antt =====
-- What an orientation does to the corners of a frame, as the specification of `apply`.
use dskcpy.Prelude.{
  ℕ, ◌+◌, ◌-◌, ◌%◌, ◌≤◌, ◌&&◌, ◌≡◌, refl, sym, ◌∙◌, not, Bool, true, some, arith, bit_and, ◌==◌,
  ==_iff, if◌then◌else◌, holds_up_to, holds_at, holds_if_all, leb,
}
use dskcpy.Screen.Orientation.{in_enum, combine, apply}

-- The corners are numbered clockwise from 0, the top left one. A flip exchanges left and right, and
-- a rotation by 90 degrees takes each corner to the next one.
abbrev pub flip : ℕ → ℕ
flip corner = (5 - corner) % 4

abbrev pub act : ℕ → ℕ → ℕ
act o corner = ((if bit_and o 4 == 0 then corner else flip corner) + bit_and o 3) % 4

-- All that is claimed of two orientations, as a test.
composes : ℕ → ℕ → ℕ → Bool
composes s t c = act (combine s t) c == act t (act s c)

in_range : ℕ → ℕ → Bool
in_range s t = in_enum s && in_enum t && leb (combine s t) 7

distinct : ℕ → ℕ → Bool
distinct s t = if s == t then true else not (holds_up_to (λ c. act s c == act t c) 3)

table :
    holds_up_to (λ s. holds_up_to (λ t. in_range s t && holds_up_to (composes s t) 3) 7) 7 ≡ true
unfolding holds_up_to composes in_range combine
table = refl

distinct_table : holds_up_to (λ s. holds_up_to (distinct s) 7) 7 ≡ true
unfolding holds_up_to distinct
distinct_table = refl

table_at : (s t : ℕ) → s ≤ 7 → t ≤ 7 → (in_range s t && holds_up_to (composes s t) 3) ≡ true
table_at s t hs ht = holds_at _ 7 (holds_at _ 7 table s hs) t ht

composes_at : (s t c : ℕ) → s ≤ 7 → t ≤ 7 → c ≤ 3 → act (combine s t) c ≡ act t (act s c)
composes_at s t c hs ht hc =
    let all : holds_up_to (composes s t) 3 ≡ true = ground (arith, table_at s t hs ht) in
    unfold composes in (==_iff _ _).0 (holds_at (composes s t) 3 all c hc)

-- Orientations with the same effect on the corners are the same.
act_injective : (s t : ℕ) → s ≤ 7 → t ≤ 7 → ((c : ℕ) → c ≤ 3 → act s c ≡ act t c) → s ≡ t
unfolding distinct
act_injective s t hs ht same =
    let told : distinct s t ≡ true = holds_at _ 7 (holds_at _ 7 distinct_table s hs) t ht in
    let all : holds_up_to (λ c. act s c == act t c) 3 ≡ true =
      holds_if_all _ 3 (λ c hc. (==_iff _ _).1 (same c hc)) in
    ground (arith, told, all)

-- For two orientations of the enum, `sc_orientation_apply` returns the orientation of the enum that
-- moves each corner of the frame as the first one and then the second one do, and no other
-- orientation does.
pub apply_composes :
    (s t : ℕ)
    → s ≤ 7
    → t ≤ 7
    → (r : ℕ) × (apply s t ≡ some r)
      × (r ≤ 7)
      × ((c : ℕ) → c ≤ 3 → act r c ≡ act t (act s c))
      × ((o : ℕ) → o ≤ 7 → ((c : ℕ) → c ≤ 3 → act o c ≡ act t (act s c)) → o ≡ r)
unfolding apply
apply_composes s t hs ht =
    let within = table_at s t hs ht in
    let small : combine s t ≤ 7 = unfold in_range in ground (arith, within) in
    (
      combine s t,
      unfold in_range in ground (arith, within),
      small,
      λ c hc. composes_at s t c hs ht hc,
      λ o ho same.
          act_injective o (combine s t) ho small
            (λ c hc. same c hc ∙ sym (composes_at s t c hs ht hc)),
    )
