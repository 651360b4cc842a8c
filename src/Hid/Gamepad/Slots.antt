-- ===== src/Hid/Gamepad/Slots.antt =====
-- Which gamepad of app/src/hid/hid_gamepad.c has which slot, before and after an event.
use dskcpy.Prelude.{
  ℕ, zero, suc, ◌+◌, ◌≡◌, ◌≢◌, refl, sym, ap, ◌∙◌, List, [], ◌∷◌, Option, none, some, Bool, true,
  false, ℤ,
}
use dskcpy.Prelude.{
  ◌==◌, ==_iff, ==_refl, ==-eq_false, if◌then◌else◌, set, get_or, Bool-cases, inl, inr,
  Option-cases, some_inj, none_ne_some,
}
use dskcpy.Hid.Gamepad.{
  Slot, slot_init, slot_find, generate_open, generate_close, hid_id_first, id_invalid,
}
use dskcpy.Hid.Gamepad.{
  left_x, left_y, right_x, right_y, left_trigger, right_trigger, unknown_axis, Button, Axis,
  in_range, get_button_id, set_axis, input_from_button, input_from_axis,
}

abbrev after : Option ℕ → Option ℕ
after o = elim o [ none ↦ none | some i ↦ some (suc i) ]

-- The first slot with the id is the one at the index.
data First : List Slot → ℕ → ℕ → Type 0 where
  here : {s : Slot} {slots : List Slot} {id : ℕ} → id ≡ s.gamepad_id → First (s ∷ slots) id zero
  there :
      {s : Slot} {slots : List Slot} {id i : ℕ}
      → id ≢ s.gamepad_id
      → First slots id i
      → First (s ∷ slots) id (suc i)

false_ne_true : false ≢ true
false_ne_true f = cc

slot_find-First : (slots : List Slot) (id i : ℕ) → slot_find slots id ≡ some i → First slots id i
unfolding slot_find
slot_find-First [] id i e = absurd cc
slot_find-First (s ∷ slots) id i e = elim (Bool-cases (id == s.gamepad_id)) [
  | inl same ↦
      let first : zero ≡ i = some_inj (rw same at e) in
      rw (sym first) (here ((==_iff id s.gamepad_id).0 same))
  | inr other ↦ elim (Option-cases (slot_find slots id)) [
    | inl nothing ↦ absurd (none_ne_some (rw (other, nothing) at e))
    | inr (j, later) ↦
        let next : suc j ≡ i = some_inj (rw (other, later) at e) in
        rw (sym next) (
          there (λ f. false_ne_true (sym other ∙ (==_iff id s.gamepad_id).1 f))
            (slot_find-First slots id j later))
  ]
]

not_first :
    (x : Slot) (slots : List Slot) (c : ℕ)
    → slot_find (x ∷ slots) c ≡ none
    → ((c == x.gamepad_id) ≡ false) × (slot_find slots c ≡ none)
unfolding slot_find
not_first x slots c free = elim (Bool-cases (c == x.gamepad_id)) [
  | inl same ↦ absurd (none_ne_some (sym (rw same at free)))
  | inr other ↦ elim (Option-cases (slot_find slots c)) [
    | inl nothing ↦ (other, nothing)
    | inr (j, later) ↦ absurd (none_ne_some (sym (rw (other, later) at free)))
  ]
]

module _ (s : Slot) where
  -- A slot that gets another id is found for neither other id.
  find_others :
      (slots : List Slot) (a i c : ℕ)
      → First slots a i
      → c ≢ a
      → c ≢ s.gamepad_id
      → slot_find (set slots i s) c ≡ slot_find slots c
  unfolding slot_find
  find_others [] a i c f old new = elim f [ ]
  find_others (x ∷ slots) a zero c (here e) old new =
      rw (==-eq_false c s.gamepad_id new, ==-eq_false c x.gamepad_id (λ f. old (f ∙ sym e)))
  find_others (x ∷ slots) a (suc i) c (there ne f) old new =
      ap (λ o. if c == x.gamepad_id then some 0 else after o) (find_others slots a i c f old new)

  -- A slot that gets an id which no slot has is found for it.
  find_new :
      (slots : List Slot) (a i c : ℕ)
      → First slots a i
      → slot_find slots c ≡ none
      → s.gamepad_id ≡ c
      → slot_find (set slots i s) c ≡ some i
  unfolding slot_find
  find_new [] a i c f free same = elim f [ ]
  find_new (x ∷ slots) a zero c (here e) free same = rw (same, ==_refl c)
  find_new (x ∷ slots) a (suc i) c (there ne f) free same =
      let (other, later) = not_first x slots c free in rw (other, find_new slots a i c f later same)

  -- A slot that keeps its id is found as before.
  find_kept :
      (slots : List Slot) (a i c : ℕ)
      → First slots a i
      → s.gamepad_id ≡ a
      → slot_find (set slots i s) c ≡ slot_find slots c
  unfolding slot_find
  find_kept [] a i c f same = elim f [ ]
  find_kept (x ∷ slots) a zero c (here e) same =
      ap (λ k. if c == k then some 0 else after (slot_find slots c)) (same ∙ e)
  find_kept (x ∷ slots) a (suc i) c (there ne f) same =
      ap (λ o. if c == x.gamepad_id then some 0 else after o) (find_kept slots a i c f same)

set-set : (slots : List Slot) (i : ℕ) (s t : Slot) → set (set slots i s) i t ≡ set slots i t
set-set [] i s t = refl
set-set (x ∷ slots) zero s t = refl
set-set (x ∷ slots) (suc i) s t = ap (λ r. x ∷ r) (set-set slots i s t)

First-id :
    (slots : List Slot) (a i : ℕ) → First slots a i → (get_or slots i (slot_init 0)).gamepad_id ≡ a
First-id [] a i f = elim f [ ]
First-id (x ∷ slots) a zero (here e) = sym e
First-id (x ∷ slots) a (suc i) (there ne f) = First-id slots a i f

-- A gamepad with a valid id that is not open takes the first free slot `i`: the HID id is that of the
-- slot, the gamepad is found there, and the others stay. Its closing gives the same HID id, and then
-- each gamepad is found where it was before both.
pub open_close :
    (slots : List Slot) (id i : ℕ)
    → id ≢ id_invalid
    → slot_find slots id ≡ none
    → slot_find slots id_invalid ≡ some i
    → (opened : List Slot) × (closed : List Slot) × (generate_open slots id
        ≡ some (some (hid_id_first + i), opened))
      × (slot_find opened id ≡ some i)
      × ((c : ℕ) → c ≢ id_invalid → c ≢ id → slot_find opened c ≡ slot_find slots c)
      × (generate_close opened id ≡ some (some (hid_id_first + i), closed))
      × ((c : ℕ) → c ≢ id_invalid → slot_find closed c ≡ slot_find slots c)
unfolding generate_open generate_close slot_init
open_close slots id i valid free room = (
  opened,
  set opened i emptied,
  rw (==-eq_false id id_invalid valid, room),
  found,
  (λ c c_valid other. find_others (slot_init id) slots id_invalid i c first c_valid other),
  rw (==-eq_false id id_invalid valid, found),
  (λ c c_valid.
      ap (λ t. slot_find t c) (set-set slots i (slot_init id) emptied)
      ∙ find_others emptied slots id_invalid i c first c_valid c_valid),
)
  where
    opened : List Slot
    opened = set slots i (slot_init id)

    emptied : Slot
    emptied = record (get_or opened i (slot_init 0)) { gamepad_id = id_invalid }

    first : First slots id_invalid i
    first = slot_find-First slots id_invalid i room

    found : slot_find opened id ≡ some i
    found = find_new (slot_init id) slots id_invalid i id first free refl

id_or : ℕ → Option Slot → ℕ
id_or d o = elim o [ none ↦ d | some t ↦ t.gamepad_id ]

set_axis_id :
    (s t : Slot) (axis : Axis) (v : ℤ) → set_axis s axis v ≡ some t → t.gamepad_id ≡ s.gamepad_id
unfolding set_axis id_or
set_axis_id s t left_x v e = ap (id_or s.gamepad_id) (sym e)
set_axis_id s t left_y v e = ap (id_or s.gamepad_id) (sym e)
set_axis_id s t right_x v e = ap (id_or s.gamepad_id) (sym e)
set_axis_id s t right_y v e = ap (id_or s.gamepad_id) (sym e)
set_axis_id s t left_trigger v e = ap (id_or s.gamepad_id) (sym e)
set_axis_id s t right_trigger v e = ap (id_or s.gamepad_id) (sym e)
set_axis_id s t unknown_axis v e = ap (id_or s.gamepad_id) (sym e)

module _ (slots : List Slot) (id c : ℕ) where
  put_back :
      (i : ℕ) (t : Slot)
      → slot_find slots id ≡ some i
      → t.gamepad_id ≡ (get_or slots i (slot_init 0)).gamepad_id
      → slot_find (set slots i t) c ≡ slot_find slots c
  put_back i t e same =
      let first : First slots id i = slot_find-First slots id i e in
      find_kept t slots id i c first (same ∙ First-id slots id i first)

  button_kept :
      (button : Button) (down : Bool) (buf : List ℕ)
      → slot_find (input_from_button slots id button down buf).1 c ≡ slot_find slots c
  unfolding input_from_button
  button_kept button down buf = elim (Bool-cases (in_range button)) [
    | inr out ↦ rw (input_from_button, out)
    | inl within ↦ elim (Option-cases (slot_find slots id)) [
      | inl nothing ↦ rw (input_from_button, within, nothing)
      | inr (i, e) ↦ elim (Bool-cases (get_button_id button == 0)) [
        | inl unknown ↦ rw (input_from_button, within, e, unknown)
        | inr known ↦ rw (input_from_button, within, e, known) (put_back i _ e refl)
      ]
    ]
  ]

  axis_kept :
      (axis : Axis) (v : ℤ) (buf : List ℕ)
      → slot_find (input_from_axis slots id axis v buf).1 c ≡ slot_find slots c
  unfolding input_from_axis
  axis_kept axis v buf = elim (Option-cases (slot_find slots id)) [
    | inl nothing ↦ rw (input_from_axis, nothing)
    | inr (i, e) ↦ elim (Option-cases (set_axis (get_or slots i (slot_init 0)) axis v)) [
      | inl unknown ↦ rw (input_from_axis, e, unknown)
      | inr (t, known) ↦
          rw (input_from_axis, e, known) (put_back i t e (set_axis_id _ t axis v known))
    ]
  ]

  -- A button or an axis event moves no gamepad to another slot.
  pub input_kept :
      (button : Button) (down : Bool) (axis : Axis) (v : ℤ) (buf : List ℕ)
      → (slot_find (input_from_button slots id button down buf).1 c ≡ slot_find slots c)
        × (slot_find (input_from_axis slots id axis v buf).1 c ≡ slot_find slots c)
  input_kept button down axis v buf = (button_kept button down buf, axis_kept axis v buf)
