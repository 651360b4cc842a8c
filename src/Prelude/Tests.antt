-- ===== src/Prelude/Tests.antt =====
-- Boolean tests on the native numbers, and the conditional.
use Prim.Native.Nat.{ℕ, zero, suc, ◌≤◌, ◌<◌, compare, Ordering}
use mathlib.Core.Path.{◌≡◌, refl}
use mathlib.Core.Logic.{◌≢◌, ◌↔◌, ◌⊎◌, inl, inr}
use mathlib.Core.Bool.{Bool, true, false}
use mathlib.Core.Option.{Option, none, some}
use native.Mathlib.Omega.{arith}
use native.Mathlib.Decide.{dec_le}

-- These compute to `compare`, which `ground` and `grind` read with no lemma listed.
abbrev pub ltb : ℕ → ℕ → Bool
ltb a b = elim (compare a b) [ Ordering.lt ↦ true | _ ↦ false ]

abbrev pub leb : ℕ → ℕ → Bool
leb a b = elim (compare a b) [ Ordering.gt ↦ false | _ ↦ true ]

infix 50 ◌==◌
abbrev pub ◌==◌ : ℕ → ℕ → Bool
a == b = elim (compare a b) [ Ordering.eq ↦ true | _ ↦ false ]

infix 1 if◌then◌else◌
abbrev pub if◌then◌else◌ {ℓ} : {A : Type ℓ} → Bool → A → A → A
if true then x else y = x
if false then x else y = y

pub ltb→lt : (a b : ℕ) → ltb a b ≡ true → a < b
ltb→lt a b h = ground arith

pub lt→ltb : (a b : ℕ) → a < b → ltb a b ≡ true
lt→ltb a b h = ground arith

pub ltb-eq_false : (a b : ℕ) → b ≤ a → ltb a b ≡ false
ltb-eq_false a b h = ground arith

pub leb→le : (a b : ℕ) → leb a b ≡ true → a ≤ b
leb→le a b h = ground arith

pub le→leb : (a b : ℕ) → a ≤ b → leb a b ≡ true
le→leb a b h = ground arith

pub leb-eq_false : (a b : ℕ) → b < a → leb a b ≡ false
leb-eq_false a b h = ground arith

pub ==_iff : (a b : ℕ) → ((a == b) ≡ true) ↔ (a ≡ b)
==_iff a b = ground arith

pub ==-eq_false : (a b : ℕ) → a ≢ b → (a == b) ≡ false
==-eq_false a b h = ground arith

pub ==_refl : (a : ℕ) → (a == a) ≡ true
==_refl a = ground arith

pub ruleset tests = (arith, ltb→lt, lt→ltb, leb→le)

-- To split on a computed value and keep the equation.
pub Bool-cases : (b : Bool) → (b ≡ true) ⊎ (b ≡ false)
Bool-cases true = inl refl
Bool-cases false = inr refl

pub Option-cases {ℓ} : {A : Type ℓ} (o : Option A) → (o ≡ none) ⊎ ((a : A) × (o ≡ some a))
Option-cases none = inl refl
Option-cases (some a) = inr (a, refl)

-- What holds of both branches holds of the conditional.
pub either_branch {ℓ κ} :
    {A : Type ℓ} (P : A → Type κ) (b : Bool) (x y : A) → P x → P y → P (if b then x else y)
either_branch P true x y p q = p
either_branch P false x y p q = q

-- A test that holds for each of the bytes, checked by evaluation.
unfoldable pub holds_up_to : (ℕ → Bool) → ℕ → Bool
holds_up_to test zero = test zero
holds_up_to test (suc last) = if test (suc last) then holds_up_to test last else false

pub holds_at :
    (test : ℕ → Bool) (last : ℕ) → holds_up_to test last ≡ true → (c : ℕ) → c ≤ last → test c ≡ true
unfolding holds_up_to
holds_at test zero all c h = let first : c ≡ zero = omega arith in rw first all
holds_at test (suc last) all c h = elim (dec_le c last) [
  | yes below ↦ holds_at test last (ground (arith, all)) c below
  | no above ↦ let here : c ≡ suc last = omega arith in rw here (ground (arith, all))
]

pub holds_if_all :
    (test : ℕ → Bool) (last : ℕ)
    → ((c : ℕ) → c ≤ last → test c ≡ true)
    → holds_up_to test last ≡ true
unfolding holds_up_to
holds_if_all test zero all = all 0 (omega arith)
holds_if_all test (suc last) all =
    ground
      (arith, all (suc last) (omega arith), holds_if_all test last (λ c h. all c (omega arith)))
