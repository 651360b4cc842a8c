-- ===== src/Util/VecDeque/Queue.antt =====
-- A push without resizing and a pop, of app/src/util/vecdeque.h, on the contents of the buffer.
use dskcpy.Prelude.{
  ℕ, suc, ◌+◌, ◌-◌, ◌%◌, ◌^◌, ◌<◌, ◌≡◌, refl, sym, ap, ap₂, ◌∙◌, ◌≢◌, [], ◌∷◌, ◌++◌, some,
  ==-eq_false, arith,
}
use dskcpy.Prelude.{get_or, set, length, length-set, get_or-set_self, get_or-set_ne}
use native.Mathlib.Nat.{mod-eq_of_lt, mod-add-mod}
use dskcpy.Util.VecDeque.{VecDeque, add_size, push_noresize, pop}
use dskcpy.Util.VecDeque.Inv.{IsValid}
use dskcpy.Util.VecDeque.Contents.{span, span-snoc, span_congr, wrap_cases, slot, contents}

-- Two places of the buffer that are less than a round apart differ.
places_ne : (cap o k n : ℕ) → o < cap → k < n → n < cap → (o + n) % cap ≢ (o + k) % cap
places_ne cap o k n ho hk hn = ground (arith, wrap_cases cap (o + n), wrap_cases cap (o + k))

module _ {ℓ} {A : Type ℓ} (max_cap : ℕ) (junk : A) where
  -- What a push without resizing leaves in a valid buffer that is not full.
  pub pushed : VecDeque A → A → VecDeque A
  pushed v x = record v {
    size = v.size + 1;
    items = set v.items (add_size v.origin v.size % v.cap) x;
  }

  pushed-contents :
      (v : VecDeque A) (x : A)
      → IsValid max_cap v
      → v.size < v.cap
      → contents junk (pushed v x) ≡ contents junk v ++ (x ∷ [])
  unfolding pushed
  pushed-contents v x valid room =
      grow_by_one
      ∙ span-snoc f 0 v.size
      ∙ ap₂ (λ s t. s ++ (t ∷ [])) (span_congr f (slot junk v) 0 0 v.size old) new
    where
      place : ℕ
      place = add_size v.origin v.size % v.cap

      f : ℕ → A
      f = slot junk (pushed v x)

      grow_by_one : span f 0 (v.size + 1) ≡ span f 0 (suc v.size)
      grow_by_one = let e : v.size + 1 ≡ suc v.size = omega arith in ap (span f 0) e

      at : (k : ℕ) → k ≡ v.origin + v.size → place ≡ k % v.cap
      at k e =
          let e' : (v.origin + v.size) % 2 ^ 64 ≡ k = omega arith in ap (λ (n : ℕ). n % v.cap) e'

      inside : place < length v.items
      inside = omega arith

      old : (k : ℕ) → k < v.size → f (0 + k) ≡ slot junk v (0 + k)
      old k lt = get_or-set_ne v.items place ((v.origin + (0 + k)) % v.cap) x junk (λ e.
          places_ne v.cap v.origin (0 + k) v.size (omega arith) (omega arith) room
            (sym (at (v.origin + v.size) refl) ∙ e))

      new : f (0 + v.size) ≡ x
      new =
          ap (λ j. get_or (set v.items place x) j junk)
            (sym (at (v.origin + (0 + v.size)) (omega arith)))
          ∙ get_or-set_self v.items place x junk inside

  -- A push without resizing into a valid buffer that is not full adds the item at the end of the
  -- contents, and keeps the buffer valid and its capacity.
  pub push_noresize_lem :
      (v : VecDeque A) (x : A)
      → IsValid max_cap v
      → v.size < v.cap
      → (v' : VecDeque A) × (push_noresize v x ≡ some v')
        × (contents junk v' ≡ contents junk v ++ (x ∷ []))
        × IsValid max_cap v'
        × (v'.cap ≡ v.cap)
  unfolding push_noresize pushed
  push_noresize_lem v x valid room = (
    pushed v x,
    rw (==-eq_false v.size v.cap (omega arith)),
    pushed-contents v x valid room,
    record {
      storage = length-set v.items _ x ∙ valid.storage;
      small = valid.small;
      start = valid.start;
      fits = omega arith;
      limit = valid.limit;
    },
    refl,
  )

  -- A pop from a valid buffer that is not empty takes the first item of the contents, and
  -- leaves a valid buffer of the same capacity with the others.
  pub pop_lem :
      (v : VecDeque A)
      → IsValid max_cap v
      → 0 < v.size
      → (x : A) × (v' : VecDeque A) × (pop v junk ≡ some (x, v'))
        × (contents junk v ≡ x ∷ contents junk v')
        × IsValid max_cap v'
        × (v'.cap ≡ v.cap)
        × (v'.size + 1 ≡ v.size)
  unfolding pop
  pop_lem v valid some_left = (
    get_or v.items v.origin junk,
    popped,
    rw (==-eq_false v.size 0 (omega arith)),
    first,
    record {
      storage = valid.storage;
      small = valid.small;
      start = omega arith;
      fits = omega arith;
      limit = valid.limit;
    },
    refl,
    omega arith,
  )
    where
      popped : VecDeque A
      popped = record v { origin = add_size v.origin 1 % v.cap; size = v.size - 1 }

      here : (v.origin + 0) % v.cap ≡ v.origin
      here = omega (arith, mod-eq_of_lt {n = v.origin + 0} {m = v.cap} (omega arith))

      next :
          (k : ℕ) → (v.origin + (1 + k)) % v.cap ≡ (add_size v.origin 1 % v.cap + (0 + k)) % v.cap
      next k =
          let e : add_size v.origin 1 ≡ v.origin + 1 = omega arith in
          rw (e, mod-add-mod)
            (let e' : v.origin + (1 + k) ≡ v.origin + 1 + (0 + k) = omega arith in
              ap (λ (n : ℕ). n % v.cap) e')

      first : contents junk v ≡ get_or v.items v.origin junk ∷ contents junk popped
      first =
          (let e : v.size ≡ suc (v.size - 1) = omega arith in ap (span (slot junk v) 0) e)
          ∙ ap₂ ◌∷◌ (ap (λ j. get_or v.items j junk) here) (
              span_congr (slot junk v) (slot junk popped) 1 0 (v.size - 1)
                (λ k lt. ap (λ j. get_or v.items j junk) (next k)))
