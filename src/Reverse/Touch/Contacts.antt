-- ===== src/Reverse/Touch/Contacts.antt =====
-- The contacts of app/src/reverse_display.c as an array without holes.
use dskcpy.Prelude.{
  ◌∷◌, ℕ, ◌≡◌, refl, ◌∙◌, Bool, true, false, none, some, arith, length, ◌==◌, [], sym, inl, inr,
  Bool-cases, Option-cases, some_inj, none_ne_some, get_or, set, ◌≤◌, List, zero, suc, ◌++◌, ◌≢◌,
  ==_iff, ◌||◌,
}
use dskcpy.Reverse.Touch.{Contact, find_touch, no_contact, remove_touch}

abbrev pub has : List Contact → ℕ → Bool
has [] pointer_id = false
has (c ∷ cs) pointer_id = c.pointer_id == pointer_id || has cs pointer_id

-- No two contacts have the same pointer.
abbrev pub Distinct : List Contact → Type 0
Distinct [] = Unit
Distinct (c ∷ cs) = (has cs c.pointer_id ≡ false) × Distinct cs

pub find_touch-has :
    (cs : List Contact) (p : ℕ) → elim (find_touch cs p) [ none ↦ false | some _ ↦ true ] ≡ has cs p
unfolding find_touch
find_touch-has [] p = refl
find_touch-has (c ∷ cs) p = let ih = find_touch-has cs p in ground arith

pub has-append : (cs ds : List Contact) (p : ℕ) → has (cs ++ ds) p ≡ has cs p || has ds p
has-append [] ds p = refl
has-append (c ∷ cs) ds p = let ih = has-append cs ds p in ground arith

pub has-set :
    (cs : List Contact) (i : ℕ) (d : Contact) (p : ℕ)
    → d.pointer_id ≡ (get_or cs i no_contact).pointer_id
    → has (set cs i d) p ≡ has cs p
has-set [] i d p e = refl
has-set (c ∷ cs) zero d p e = rw e refl
has-set (c ∷ cs) (suc i) d p e = rw (has-set cs i d p e) refl

pub has-remove_touch :
    (cs : List Contact) (i p : ℕ)
    → p ≢ (get_or cs i no_contact).pointer_id
    → has (remove_touch cs i) p ≡ has cs p
unfolding remove_touch
has-remove_touch [] i p ne = refl
has-remove_touch (c ∷ cs) zero p ne = ground arith
has-remove_touch (c ∷ cs) (suc i) p ne = rw (has-remove_touch cs i p ne) refl

pub remove_touch_absent :
    (cs : List Contact) (i p : ℕ) → has cs p ≡ false → has (remove_touch cs i) p ≡ false
unfolding remove_touch
remove_touch_absent [] i p h = refl
remove_touch_absent (c ∷ cs) zero p h = ground arith
remove_touch_absent (c ∷ cs) (suc i) p h = let ih = remove_touch_absent cs i p in ground arith

pub append-Distinct :
    (cs : List Contact) (d : Contact)
    → has cs d.pointer_id ≡ false
    → Distinct cs
    → Distinct (cs ++ (d ∷ []))
append-Distinct [] d h k = ground arith
append-Distinct (c ∷ cs) d h k =
    let ih = append-Distinct cs d in let there = has-append cs (d ∷ []) c.pointer_id in ground arith

pub set-Distinct :
    (cs : List Contact) (i : ℕ) (d : Contact)
    → d.pointer_id ≡ (get_or cs i no_contact).pointer_id
    → Distinct cs
    → Distinct (set cs i d)
set-Distinct [] i d e k = k
set-Distinct (c ∷ cs) zero d e k = rw e k
set-Distinct (c ∷ cs) (suc i) d e k =
    (has-set cs i d c.pointer_id e ∙ k.0, set-Distinct cs i d e k.1)

pub remove_touch-Distinct : (cs : List Contact) (i : ℕ) → Distinct cs → Distinct (remove_touch cs i)
unfolding remove_touch
remove_touch-Distinct [] i k = k
remove_touch-Distinct (c ∷ cs) zero k = k.1
remove_touch-Distinct (c ∷ cs) (suc i) k =
    (remove_touch_absent cs i c.pointer_id k.0, remove_touch-Distinct cs i k.1)

pub length-remove_touch : (cs : List Contact) (i : ℕ) → length (remove_touch cs i) ≤ length cs
unfolding remove_touch
length-remove_touch [] i = omega arith
length-remove_touch (c ∷ cs) zero = omega arith
length-remove_touch (c ∷ cs) (suc i) = omega (arith, length-remove_touch cs i)

pub found-pointer_id :
    (cs : List Contact) (p i : ℕ)
    → find_touch cs p ≡ some i
    → (get_or cs i no_contact).pointer_id ≡ p
unfolding find_touch
found-pointer_id [] p i h = absurd cc
found-pointer_id (c ∷ cs) p i h = elim (Bool-cases (c.pointer_id == p)) [
  | inl same ↦
      let first : zero ≡ i = some_inj (rw same at h) in
      rw (sym first) ((==_iff c.pointer_id p).0 same)
  | inr different ↦ elim (Option-cases (find_touch cs p)) [
    | inl nothing ↦ absurd (none_ne_some (rw (different, nothing) at h))
    | inr (j, later) ↦
        let next : suc j ≡ i = some_inj (rw (different, later) at h) in
        rw (sym next) (found-pointer_id cs p j later)
  ]
]
