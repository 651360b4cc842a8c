-- ===== src/Adb/Select/Loops.antt =====
-- app/src/adb/adb.c: the loops of a selection.
use dskcpy.Prelude.{
  ℕ, zero, suc, ◌+◌, ◌≡◌, refl, ap, sym, subst, ◌∙◌, ◌&&◌, not, Bool, true, false, List, [], ◌∷◌,
  ◌++◌, append-nil, append_assoc, Option, none, some, ◌==◌, if◌then◌else◌, length, length-append,
  get_elem?, arith,
}
use dskcpy.Adb.Devices.{Device}
use dskcpy.Adb.Select.{
  Selector, is_usb, accept_device, Selection, select_one, select_type_from, select_from,
}

-- The devices that are wanted, in order.
abbrev pub keep : (Device → Bool) → List Device → List Device
keep p [] = []
keep p (d ∷ ds) = if p d then d ∷ keep p ds else keep p ds

abbrev one_if : Bool → Device → List Device
one_if true d = d ∷ []
one_if false d = []

abbrev pub flag : (Device → Bool) → Device → Device
flag p d = record d { selected = p d }

abbrev pub flag_all : (Device → Bool) → List Device → List Device
flag_all p [] = []
flag_all p (d ∷ ds) = flag p d ∷ flag_all p ds

abbrev pub selected_one : Device → Device
selected_one d = record d { selected = true }

-- The first of the devices that are selected so far.
abbrev pub First : List Device → Selection → Type 0
First [] s = Unit
First (d ∷ ds) s = (j : ℕ) × (s.idx_out ≡ some j) × (get_elem? s.devices j ≡ some (selected_one d))

-- What the loop has when `kept` of the devices `seen` are selected.
abbrev pub Inv : List Device → List Device → Selection → Type 0
Inv seen kept s = (s.devices ≡ seen) × (s.count ≡ length kept) × First kept s

get_elem?-append :
    {A : Type 0} (xs : List A) (ys : List A) (j : ℕ) (a : A)
    → get_elem? xs j ≡ some a
    → get_elem? (xs ++ ys) j ≡ some a
get_elem?-append [] ys j a e = absurd (ground (arith, e))
get_elem?-append (x ∷ xs) ys zero a e = e
get_elem?-append (x ∷ xs) ys (suc j) a e = get_elem?-append xs ys j a e

get_elem?-last : {A : Type 0} (xs : List A) (a : A) → get_elem? (xs ++ a ∷ []) (length xs) ≡ some a
get_elem?-last [] a = refl
get_elem?-last (x ∷ xs) a = get_elem?-last xs a

select_one-Inv :
    (seen kept : List Device) (d : Device) (b : Bool) (s : Selection)
    → Inv seen kept s
    → Inv
        (seen ++ record d { selected = b } ∷ [])
        (kept ++ one_if b d)
        (select_one (length seen) d b s)
unfolding select_one
select_one-Inv seen [] d true s (e, c, f) = (
  ap (λ ds. ds ++ selected_one d ∷ []) e,
  omega (arith, c),
  (
    length seen,
    rw c refl,
    ap (λ ds. get_elem? (ds ++ selected_one d ∷ []) (length seen)) e
        ∙ get_elem?-last seen (selected_one d),
  ),
)
select_one-Inv seen [] d false s (e, c, f) =
    (ap (λ ds. ds ++ record d { selected = false } ∷ []) e, c, tt)
select_one-Inv seen (k ∷ kept) d b s (e, c, (j, idx, there)) = (
  ap (λ ds. ds ++ record d { selected = b } ∷ []) e,
  longer b,
  (
    j,
    ap (λ t. if b && t then some (length seen) else s.idx_out) some_before ∙ never b ∙ idx,
    get_elem?-append s.devices (record d { selected = b } ∷ []) j (selected_one k) there,
  ),
)
  where
    some_before : (s.count == 0) ≡ false
    some_before = ground (arith, c)

    never : (b : Bool) → (if b && false then some (length seen) else s.idx_out) ≡ s.idx_out
    never true = refl
    never false = refl

    longer : (b : Bool) → (if b then s.count + 1 else s.count) ≡ suc (length (kept ++ one_if b d))
    longer true = omega (arith, c, length-append kept (d ∷ []))
    longer false = omega (arith, c, length-append {A = Device} kept [])

keep_step :
    (p : Device → Bool) (kept : List Device) (d : Device) (ds : List Device)
    → (kept ++ one_if (p d) d) ++ keep p ds ≡ kept ++ keep p (d ∷ ds)
keep_step p kept d ds =
    append_assoc kept (one_if (p d) d) (keep p ds) ∙ ap (λ ts. kept ++ ts) (front (p d))
  where
    front : (b : Bool) → one_if b d ++ keep p ds ≡ (if b then d ∷ keep p ds else keep p ds)
    front true = refl
    front false = refl

seen_step :
    (p : Device → Bool) (seen : List Device) (d : Device) (ds : List Device)
    → (seen ++ flag p d ∷ []) ++ flag_all p ds ≡ seen ++ flag_all p (d ∷ ds)
seen_step p seen d ds = append_assoc seen (flag p d ∷ []) (flag_all p ds)

index_step : (seen : List Device) (d : Device) → length (seen ++ d ∷ []) ≡ length seen + 1
index_step seen d = length-append seen (d ∷ [])

-- Both loops select the devices for which a test holds.
abbrev pub type_test : Bool → Device → Bool
type_test select_usb d = if select_usb then is_usb d else not (is_usb d)

pub select_type_from-Inv :
    (u : Bool) (ds seen kept : List Device) (s : Selection)
    → Inv seen kept s
    → Inv
        (seen ++ flag_all (type_test u) ds)
        (kept ++ keep (type_test u) ds)
        (select_type_from u (length seen) ds s)
unfolding select_type_from
select_type_from-Inv u [] seen kept s inv =
    subst (λ ts. Inv (seen ++ []) ts s) (sym (append-nil kept))
      (subst (λ ts. Inv ts kept s) (sym (append-nil seen)) inv)
select_type_from-Inv u (d ∷ ds) seen kept s inv =
    let p = type_test u in
    let seen' = seen ++ flag p d ∷ [] in
    let s' = select_one (length seen) d (p d) s in
    subst (λ ts. Inv ts (kept ++ keep p (d ∷ ds)) (select_type_from u (length seen + 1) ds s'))
      (seen_step p seen d ds)
      (subst (λ ts. Inv (seen' ++ flag_all p ds) ts (select_type_from u (length seen + 1) ds s'))
        (keep_step p kept d ds)
        (subst
          (λ i.
            Inv (seen' ++ flag_all p ds) ((kept ++ one_if (p d) d) ++ keep p ds)
              (select_type_from u i ds s'))
          (index_step seen (flag p d))
          (select_type_from-Inv u ds seen' (kept ++ one_if (p d) d) s'
            (select_one-Inv seen kept d (p d) s inv))))

select_from_step :
    (selector : Selector) (i : ℕ) (d : Device) (ds : List Device) (s : Selection) (b : Bool)
    → accept_device selector d ≡ some b
    → select_from selector i (d ∷ ds) s ≡ select_from selector (i + 1) ds (select_one i d b s)
unfolding select_from
select_from_step selector i d ds s b e =
    ap
      (λ (o : Option Bool). elim o [
        | none ↦ none
        | some selected ↦ select_from selector (i + 1) ds (select_one i d selected s)
      ])
      e

pub select_from-Inv :
    (selector : Selector) (p : Device → Bool) (ds seen kept : List Device) (s : Selection)
    → ((d : Device) → accept_device selector d ≡ some (p d))
    → Inv seen kept s
    → (s' : Selection) × (select_from selector (length seen) ds s ≡ some s')
      × Inv (seen ++ flag_all p ds) (kept ++ keep p ds) s'
unfolding select_from
select_from-Inv selector p [] seen kept s accepts inv = (
  s,
  refl,
  subst (λ ts. Inv (seen ++ []) ts s) (sym (append-nil kept))
      (subst (λ ts. Inv ts kept s) (sym (append-nil seen)) inv),
)
select_from-Inv selector p (d ∷ ds) seen kept s accepts inv =
    let s1 = select_one (length seen) d (p d) s in
    let later =
      select_from-Inv selector p ds (seen ++ flag p d ∷ []) (kept ++ one_if (p d) d) s1 accepts
        (select_one-Inv seen kept d (p d) s inv) in
    (
      later.0,
      select_from_step selector (length seen) d ds s (p d) (accepts d)
          ∙ ap (λ i. select_from selector i ds s1) (sym (index_step seen (flag p d)))
          ∙ later.1,
      subst (λ ts. Inv ts (kept ++ keep p (d ∷ ds)) later.0) (seen_step p seen d ds)
          (subst (λ ts. Inv ((seen ++ flag p d ∷ []) ++ flag_all p ds) ts later.0)
            (keep_step p kept d ds) later.2),
    )
