-- ===== src/Util/VecDeque/Contents.antt =====
-- The items of a ring buffer in the order of the queue.
use dskcpy.Prelude.{
  ℕ, zero, suc, ◌+◌, ◌-◌, ◌%◌, ◌≤◌, ◌<◌, ◌≡◌, refl, ap, ap₂, ◌∙◌, ◌⊎◌, inl, inr, List, [], ◌∷◌,
  ◌++◌, arith, dec_lt,
}
use dskcpy.Prelude.{get_or, length}
use native.Mathlib.Nat.{mod-eq_of_lt, mod-eq-sub-mod}
use dskcpy.Util.VecDeque.{VecDeque}

module _ {ℓ} {A : Type ℓ} where
  -- `f s, f (s + 1), …`, `n` of them
  abbrev pub span : (ℕ → A) → ℕ → ℕ → List A
  span f s zero = []
  span f s (suc n) = f s ∷ span f (suc s) n

  pub span-snoc : (f : ℕ → A) (s n : ℕ) → span f s (suc n) ≡ span f s n ++ (f (s + n) ∷ [])
  span-snoc f s zero = ap (λ k. f k ∷ []) (omega arith)
  span-snoc f s (suc n) =
      ap (λ t. f s ∷ t)
        (span-snoc f (suc s) n ∙ ap (λ k. span f (suc s) n ++ (f k ∷ [])) (omega arith))

  pub span_congr :
      (f g : ℕ → A) (s t n : ℕ)
      → ((k : ℕ) → k < n → f (s + k) ≡ g (t + k))
      → span f s n ≡ span g t n
  span_congr f g s t zero h = refl
  span_congr f g s t (suc n) h =
      ap₂ ◌∷◌ (ap f (omega arith) ∙ h 0 (omega arith) ∙ ap g (omega arith)) (
        span_congr f g (suc s) (suc t) n
          (λ k lt. ap f (omega arith) ∙ h (suc k) (omega arith) ∙ ap g (omega arith)))

  pub length-span : (f : ℕ → A) (s n : ℕ) → length (span f s n) ≡ n
  length-span f s zero = refl
  length-span f s (suc n) = ap suc (length-span f (suc s) n)

-- An index that goes round at most once.
pub wrap_cases :
    (cap i : ℕ) → i < cap + cap → ((i < cap) × (i % cap ≡ i)) ⊎ ((cap ≤ i) × (i % cap ≡ i - cap))
wrap_cases cap i h = elim (dec_lt i cap) [
  | yes lt ↦ inl (lt, mod-eq_of_lt lt)
  | no ge ↦ inr (
    omega arith,
    mod-eq-sub-mod {n = i} {m = cap} (omega arith)
        ∙ mod-eq_of_lt {n = i - cap} {m = cap} (omega arith),
  )
]

module _ {ℓ} {A : Type ℓ} (junk : A) where
  -- The item `k` places behind the first one.
  abbrev pub slot : VecDeque A → ℕ → A
  slot v k = get_or v.items ((v.origin + k) % v.cap) junk

  abbrev pub contents : VecDeque A → List A
  contents v = span (slot v) 0 v.size

  pub length-contents : (v : VecDeque A) → length (contents v) ≡ v.size
  length-contents v = length-span (slot v) 0 v.size
