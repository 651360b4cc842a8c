-- ===== src/Util/Str/ListContains.antt =====
-- What `sc_str_list_contains` decides.
use dskcpy.Prelude.{
  ℕ, zero, suc, ◌≤◌, ◌<◌, ◌≡◌, refl, ap, List, [], ◌∷◌, Bool, true, false, Option, none, some,
  arith,
}
use dskcpy.Prelude.{
  ◌+◌, ◌&&◌, ◌||◌, ◌==◌, if◌then◌else◌, length, length-drop, take, drop, Bool-cases, inl, inr,
}
use dskcpy.Util.Str.{strncmp_eq, strchr, list_contains_loop, list_contains}

-- The text cut at every separator.
pub push_head : ℕ → List (List ℕ) → List (List ℕ)
push_head x [] = (x ∷ []) ∷ []
push_head x (t ∷ ts) = (x ∷ t) ∷ ts

unfoldable pub tokens : ℕ → List ℕ → List (List ℕ)
unfolding push_head
tokens sep [] = [] ∷ []
tokens sep (x ∷ s) = if x == sep then [] ∷ tokens sep s else push_head x (tokens sep s)

unfoldable pub is_prefix : List ℕ → List ℕ → Bool
is_prefix [] s = true
is_prefix (x ∷ t) [] = false
is_prefix (x ∷ t) (y ∷ s) = x == y && is_prefix t s

unfoldable pub any_prefix : List (List ℕ) → List ℕ → Bool
unfolding is_prefix
any_prefix [] s = false
any_prefix (t ∷ ts) s = is_prefix t s || any_prefix ts s

strncmp_eq-is_prefix :
    (a b : List ℕ) (n : ℕ) → n ≤ length a → strncmp_eq a b n ≡ is_prefix (take n a) b
unfolding strncmp_eq is_prefix
strncmp_eq-is_prefix a b zero h = refl
strncmp_eq-is_prefix [] b (suc n) h = absurd (omega arith)
strncmp_eq-is_prefix (x ∷ a) [] (suc n) h = refl
strncmp_eq-is_prefix (x ∷ a) (y ∷ b) (suc n) h =
    ap (λ t. x == y && t) (strncmp_eq-is_prefix a b n (omega arith))

-- What the first separator does to the tokens.
abbrev Splits : ℕ → List ℕ → Option ℕ → Type 0
Splits sep s none = (tokens sep s ≡ s ∷ []) × (take (length s) s ≡ s)
Splits sep s (some i) = (tokens sep s ≡ take i s ∷ tokens sep (drop (i + 1) s)) × (i < length s)

abbrev after : Option ℕ → Option ℕ
after o = elim o [ none ↦ none | some i ↦ some (suc i) ]

Splits-cons :
    (sep x : ℕ) (s : List ℕ) (o : Option ℕ)
    → (x == sep) ≡ false
    → Splits sep s o
    → Splits sep (x ∷ s) (after o)
unfolding tokens push_head
Splits-cons sep x s none other (one, whole) = (rw (other, one), ap (λ t. x ∷ t) whole)
Splits-cons sep x s (some i) other (first, lt) =
    (rw (other, first) (ap (λ n. (x ∷ take i s) ∷ tokens sep (drop n (x ∷ s))) e), omega arith)
  where
    e : suc (i + 1) ≡ suc i + 1
    e = omega arith

strchr-Splits : (sep : ℕ) (s : List ℕ) → Splits sep s (strchr s sep)
unfolding strchr tokens
strchr-Splits sep [] = (refl, refl)
strchr-Splits sep (x ∷ s) = elim (Bool-cases (x == sep)) [
  | inl here ↦ rw here (rw here, omega arith)
  | inr other ↦ rw other (Splits-cons sep x s (strchr s sep) other (strchr-Splits sep s))
]

loop-any_prefix :
    (fuel : ℕ) (list : List ℕ) (sep : ℕ) (s : List ℕ) (o : Option ℕ)
    → strchr list sep ≡ o
    → length list < fuel
    → list_contains_loop fuel list sep s ≡ some (any_prefix (tokens sep list) s)
unfolding list_contains_loop any_prefix
loop-any_prefix zero list sep s o e h = absurd (omega arith)
loop-any_prefix (suc fuel) list sep s none e h =
    let (one, whole) = rw e at (strchr-Splits sep list) in
    ground (arith, e, one, whole, strncmp_eq-is_prefix list s (length list) (omega arith))
loop-any_prefix (suc fuel) list sep s (some i) e h =
    let (first, lt) = rw e at (strchr-Splits sep list) in
    ground (
      arith,
      e,
      first,
      strncmp_eq-is_prefix list s i (omega arith),
      loop-any_prefix fuel (drop (i + 1) list) sep s (strchr (drop (i + 1) list) sep) refl
          (omega (arith, length-drop (i + 1) list)),
    )

-- The search ends for every list, and tells whether some token of the list is a prefix of `s`.
pub list_contains-any_prefix :
    (list : List ℕ) (sep : ℕ) (s : List ℕ)
    → list_contains list sep s ≡ some (any_prefix (tokens sep list) s)
unfolding list_contains
list_contains-any_prefix list sep s =
    loop-any_prefix (suc (length list)) list sep s (strchr list sep) refl (omega arith)
