-- ===== src/Prelude/Bits.antt =====
-- `|` of numbers whose digits do not meet. The native operation computes at numerals only; its
-- definition, `digits` with as much fuel as the first number, gives its equations at variables.
use Prim.Native.Nat.{ℕ, zero, suc, ◌+◌, ◌*◌, ◌/◌, ◌%◌, ◌^◌, ◌≤◌, ◌<◌, max}
use Prim.Native.Nat.{bit_or, digits, bit_or-bitwise}
use mathlib.Core.Path.{◌≡◌, refl, sym, ap, ◌∙◌}
use native.Mathlib.Nat.{pow-suc}
use native.Mathlib.Omega.{arith}

abbrev or_with : ℕ → ℕ → ℕ → ℕ
or_with fuel x y = digits (λ rest. rest) max fuel x y

or_with-zero : (fuel y : ℕ) → or_with fuel 0 y ≡ y
or_with-zero zero y = refl
or_with-zero (suc fuel) y = refl

-- Two fuels that are both enough for `x` give the same.
or_with_agree : (x y fuel fuel' : ℕ) → x ≤ fuel → x ≤ fuel' → or_with fuel x y ≡ or_with fuel' x y
or_with_agree zero y fuel fuel' h h' = or_with-zero fuel y ∙ sym (or_with-zero fuel' y)
or_with_agree (suc x) y zero fuel' h h' = absurd (omega arith)
or_with_agree (suc x) y (suc fuel) zero h h' = absurd (omega arith)
or_with_agree (suc x) y (suc fuel) (suc fuel') h h' =
    omega (arith, or_with_agree (suc x / 2) (y / 2) fuel fuel' (omega arith) (omega arith))

-- The last digit, and the digits before it.
or-digits : (x y : ℕ) → bit_or x y ≡ 2 * bit_or (x / 2) (y / 2) + max (x % 2) (y % 2)
or-digits zero y = omega (arith, bit_or-bitwise zero y, bit_or-bitwise zero (y / 2))
or-digits (suc x) y =
    let before : or_with x (suc x / 2) (y / 2) ≡ bit_or (suc x / 2) (y / 2) =
      or_with_agree (suc x / 2) (y / 2) x (suc x / 2) (omega arith) (omega arith)
      ∙ sym (bit_or-bitwise (suc x / 2) (y / 2)) in
    omega (arith, before, bit_or-bitwise (suc x) y)

or-none : (bound x : ℕ) → x ≤ bound → bit_or x 0 ≡ x
or-none bound zero h = refl
or-none zero (suc x) h = absurd (omega arith)
or-none (suc bound) (suc x) h =
    let before : bit_or (suc x / 2) 0 ≡ suc x / 2 = or-none bound (suc x / 2) (omega arith) in
    omega (arith, before, or-digits (suc x) 0)

shift-suc : (q k : ℕ) → q * 2 ^ suc k ≡ 2 * (q * 2 ^ k)
shift-suc q k =
    let power : 2 ^ suc k ≡ 2 ^ k * 2 = pow-suc 2 k in omega (arith, ap (λ (t : ℕ). q * t) power)

-- `(q << k) | r` is a sum when `r` has at most `k` digits.
pub bit_or_disjoint : (k q r : ℕ) → r < 2 ^ k → bit_or (q * 2 ^ k) r ≡ q * 2 ^ k + r
bit_or_disjoint zero q r h = ground (arith, or-none q q (omega arith))
bit_or_disjoint (suc k) q r h =
    let power : 2 ^ suc k ≡ 2 ^ k * 2 = pow-suc 2 k in
    let high : bit_or (q * 2 ^ k) (r / 2) ≡ q * 2 ^ k + r / 2 =
      bit_or_disjoint k q (r / 2) (omega arith) in
    ground (arith, high, shift-suc q k, or-digits (q * 2 ^ suc k) r)
