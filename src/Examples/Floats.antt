-- ===== src/Examples/Floats.antt =====
-- Fixed-point numbers in place of C floats, for the examples: `n` is `(n - 2^20) / 2^15`.
use dskcpy.Prelude.{
  ℕ, ◌+◌, ◌-◌, ◌*◌, ◌/◌, ◌^◌, ◌≡◌, true, false, arith, ltb, leb, if◌then◌else◌, ℤ, pos, negsuc,
  ◌≤ℤ◌, refl,
}
use dskcpy.ControlMsg.Types.{FloatOps}

abbrev pub zero_point : ℕ
zero_point = 2 ^ 20

abbrev pub to_int : ℕ → ℤ
to_int n = if ltb n zero_point then negsuc (zero_point - n - 1) else pos (n - zero_point)

pub to_int_ge : (n : ℕ) → ltb n (2 ^ 20 - 2 ^ 15) ≡ false → negsuc 0x7fff ≤ℤ to_int n
to_int_ge n h = ground arith

pub ltb_asymm : (a b : ℕ) → ltb a b ≡ true → ltb b a ≡ false
ltb_asymm a b h = ground arith

pub ltb_irrefl : (a : ℕ) → ltb a a ≡ false
ltb_irrefl a = ground arith

abbrev pub fixed_point : FloatOps ℕ
fixed_point = record {
  lt = ltb;
  le = leb;
  zero = zero_point;
  one = 2 ^ 20 + 2 ^ 15;
  neg_one = 2 ^ 20 - 2 ^ 15;
  div16 = λ n.
      if ltb n zero_point
      then zero_point - (zero_point - n) / 16
      else zero_point + (n - zero_point) / 16;
  times_2_16 = λ n. (n - zero_point) * 2;
  times_2_15 = to_int;
  lt_asymm = ltb_asymm;
  lt_irrefl = ltb_irrefl;
  neg_one-lt-one = refl;
  times_2_15_ge = to_int_ge;
}
