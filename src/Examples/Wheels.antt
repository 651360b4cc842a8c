-- ===== src/Examples/Wheels.antt =====
-- A mouse wheel that counts in quarters of a step: a float is a number of quarters.
use dskcpy.Prelude.{
  diff, ◌+◌, ◌*◌, ◌/◌, ◌≡◌, refl, Bool, true, false, arith, not, leb_ℤ, ℤ, pos, negsuc, ◌≤ℤ◌,
  pos_part, neg_part,
}
use dskcpy.Hid.Mouse.{ScrollFloat, HidMouse}

abbrev whole : ℤ → ℤ
whole (pos n) = pos (n / 4)
whole (negsuc n) = diff 0 ((n + 1) / 4)

abbrev less : ℤ → ℤ → Bool
less a b = not (leb_ℤ b a)

abbrev minus_steps : ℤ → ℤ → ℤ
minus_steps f n = diff (pos_part f + 4 * neg_part n) (neg_part f + 4 * pos_part n)

less_asymm : (a b : ℤ) → less a b ≡ true → less b a ≡ false
less_asymm a b h = ground arith

less_irrefl : (a : ℤ) → less a a ≡ false
less_irrefl a = ground arith

whole_bounds :
    (f : ℤ)
    → less f (negsuc 507) ≡ false
    → less (pos 508) f ≡ false
    → (negsuc 126 ≤ℤ whole f) × (whole f ≤ℤ pos 127)
whole_bounds (pos n) h k = ground arith
whole_bounds (negsuc n) h k = ground arith

whole_fraction :
    (f : ℤ)
    → less f (negsuc 507) ≡ false
    → less (pos 508) f ≡ false
    → (less (negsuc 507) (minus_steps f (whole f)) ≡ true)
      × (less (minus_steps f (whole f)) (pos 508) ≡ true)
      × (whole (minus_steps f (whole f)) ≡ pos 0)
whole_fraction (pos n) h k = ground arith
whole_fraction (negsuc n) h k = ground arith

abbrev quarters : ScrollFloat ℤ
quarters = record {
  lt = less;
  add = λ a b. diff (pos_part a + pos_part b) (neg_part a + neg_part b);
  zero = pos 0;
  low = negsuc 507;
  high = pos 508;
  truncate = whole;
  minus = minus_steps;
  lt_asymm = less_asymm;
  lt_irrefl = less_irrefl;
  low_lt_high = refl;
  truncate_bounds = whole_bounds;
  fraction = whole_fraction;
}

abbrev turned : HidMouse quarters
turned = record { residual_hscroll = pos 0; residual_vscroll = negsuc 2 }
