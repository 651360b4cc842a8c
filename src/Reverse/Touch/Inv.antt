-- ===== src/Reverse/Touch/Inv.antt =====
-- The contacts that app/src/reverse_display.c keeps between two messages.
use dskcpy.Prelude.{
  ◌∷◌, ℕ, ◌≡◌, refl, ◌∙◌, ap, true, false, Option, none, some, arith, length, ◌==◌, [], sym, inl,
  inr, Bool-cases, Option-cases, if◌then◌else◌, get_or, ◌≤◌, ◌<◌, ◌++◌, length-append, length-set,
  ◌||◌, leb, ◌-◌, ℤ,
}
use dskcpy.ControlMsg.Types.{Position}
use dskcpy.Reverse.Geometry.{Desktop, map_position}
use dskcpy.Reverse.Touch.{
  Windows, TouchState, Contact, no_primary, find_touch, max_touches, no_contact, add_touch,
  remove_touch, cleared, cancel_touches, inject_touch_frame, PointerFlags, flag_up, flag_update,
  flag_down, touch_pressure,
}
use dskcpy.Reverse.Touch.Inject.{
  inject_touch, inject_frame, inject_lift, touch_down, touch_pointer_down, touch_move, touch_up,
  moved, contact_at,
}
use dskcpy.Reverse.Touch.Frames.{
  Backed, Keeps, inject_touch_frame-Keeps, cancel_touches-Backed, cancel_touches_none,
  cancel_touches_primary, cancel_touches_nothing,
}
use dskcpy.Reverse.Touch.Contacts.{
  has, Distinct, find_touch-has, has-append, has-set, has-remove_touch, append-Distinct,
  set-Distinct, remove_touch-Distinct, length-remove_touch, found-pointer_id,
}

-- At most ten contacts, of different pointers; the primary pointer, if there is one, is one of them;
-- and the fallback is active only where it is used.
pub record Inv (s : TouchState) : Type 0 where
  pub few : length s.contacts ≤ max_touches
  pub distinct : Distinct s.contacts
  pub primary : (s.primary_pointer_id == no_primary || has s.contacts s.primary_pointer_id) ≡ true
  pub backed : Backed s

cleared-Inv : (s : TouchState) → Backed s → Inv (cleared s)
cleared-Inv s h = ground arith

Keeps-Inv : (s t : TouchState) → Keeps s t → Inv s → Inv t
Keeps-Inv s t k i = record {
  few = rw k.same_contacts i.few;
  distinct = rw k.same_contacts i.distinct;
  primary = rw (k.same_contacts, k.same_primary) i.primary;
  backed = k.backed i.backed;
}

module _ (windows : Windows) (id : ℕ) where
  inject_frame-Inv :
      (s : TouchState) (i : ℕ) (flags : PointerFlags)
      → Inv s
      → Inv (inject_frame windows id s i flags)
  unfolding inject_frame
  inject_frame-Inv s i flags inv =
      let k = inject_touch_frame-Keeps windows s i flags in
      let t = (inject_touch_frame windows s i flags).1 in
      let kept = Keeps-Inv s t k inv in
      let empty = cleared-Inv t kept.backed in
      elim (inject_touch_frame windows s i flags).0 as (λ b. Inv (if b then t else cleared t)) [
        | true ↦ kept
        | false ↦ empty
      ]

  lift-Inv :
      (s : TouchState) (i : ℕ)
      → find_touch s.contacts id ≡ some i
      → Inv s
      → Inv (record s {
        primary_pointer_id =
            if id == s.primary_pointer_id then no_primary else s.primary_pointer_id;
        contacts = remove_touch s.contacts i;
      })
  lift-Inv s i found inv =
      let same = found-pointer_id s.contacts id i found in
      record {
        few = omega (arith, length-remove_touch s.contacts i, inv.few);
        distinct = remove_touch-Distinct s.contacts i inv.distinct;
        primary =
            (let other = has-remove_touch s.contacts i s.primary_pointer_id in
              let old = inv.primary in ground arith);
        backed = inv.backed;
      }

  touch_up-Inv : (s : TouchState) → Inv s → Inv (touch_up windows id s)
  unfolding touch_up inject_lift
  touch_up-Inv s inv = elim (Option-cases (find_touch s.contacts id)) [
    | inl nothing ↦ rw (nothing, touch_up) inv
    | inr (i, found) ↦
        let k = inject_touch_frame-Keeps windows s i flag_up in
        let t = (inject_touch_frame windows s i flag_up).1 in
        let kept = Keeps-Inv s t k inv in
        let lifted = lift-Inv t i (rw k.same_contacts found) kept in
        let empty = cleared-Inv t kept.backed in rw (found, touch_up) (ground arith)
  ]

  moved-Inv : (s : TouchState) (i pressure : ℕ) (at : ℤ × ℤ) → Inv s → Inv (moved s i pressure at)
  moved-Inv s i pressure (x, y) inv =
      let c = record (get_or s.contacts i no_contact) {
        x = x;
        y = y;
        pressure = touch_pressure pressure;
      } in
      record {
        few = rw (length-set s.contacts i c) inv.few;
        distinct = set-Distinct s.contacts i c refl inv.distinct;
        primary = rw (has-set s.contacts i c s.primary_pointer_id refl) inv.primary;
        backed = inv.backed;
      }

  touch_move-Inv :
      (s : TouchState) (place : Option (ℤ × ℤ)) (pressure : ℕ)
      → Inv s
      → Inv (touch_move windows id s place pressure)
  unfolding touch_move
  touch_move-Inv s none pressure inv = inv
  touch_move-Inv s (some at) pressure inv = elim (Option-cases (find_touch s.contacts id)) [
    | inl nothing ↦ rw (nothing, touch_move) inv
    | inr (i, found) ↦
        rw (found, touch_move)
          (inject_frame-Inv (moved s i pressure at) i flag_update (moved-Inv s i pressure at inv))
  ]

  -- A contact of a new pointer, and the primary pointer it leaves or becomes.
  abbrev added : TouchState → Contact → TouchState
  added s c = record s { contacts = s.contacts ++ (c ∷ []) }

  added-Inv :
      (s : TouchState) (c : Contact)
      → length s.contacts < max_touches
      → has s.contacts c.pointer_id ≡ false
      → Inv s
      → Inv (added s c)
  added-Inv s c room fresh inv = record {
    few = omega (arith, length-append s.contacts (c ∷ []));
    distinct = append-Distinct s.contacts c fresh inv.distinct;
    primary =
        (let there = has-append s.contacts (c ∷ []) s.primary_pointer_id in
          let old = inv.primary in ground arith);
    backed = inv.backed;
  }

  touch_pointer_down-Inv :
      (s : TouchState) (place : Option (ℤ × ℤ)) (pressure : ℕ)
      → Inv s
      → Inv (touch_pointer_down windows id s place pressure)
  unfolding touch_pointer_down add_touch
  touch_pointer_down-Inv s none pressure inv = inv
  touch_pointer_down-Inv s (some at) pressure inv = elim (Option-cases (find_touch s.contacts id)) [
    | inr (i, found) ↦
        rw (found, touch_pointer_down)
          (inject_frame-Inv (moved s i pressure at) i flag_down (moved-Inv s i pressure at inv))
    | inl nothing ↦
        let c = contact_at id pressure at in
        let fresh : has s.contacts id ≡ false =
          sym (find_touch-has s.contacts id)
          ∙ ap (λ (o : Option ℕ). elim o [ none ↦ false | some _ ↦ true ]) nothing in
        elim (Bool-cases (leb max_touches (length s.contacts))) [
          | inl full ↦ rw (nothing, full, touch_pointer_down) inv
          | inr room ↦
              rw (nothing, room, touch_pointer_down)
                (inject_frame-Inv (added s c) (length (s.contacts ++ (c ∷ [])) - 1) flag_down
                  (added-Inv s c (ground arith) fresh inv))
        ]
  ]

  -- The first finger is the only contact, and the primary one.
  first-Inv :
      (s : TouchState) (c : Contact)
      → s.contacts ≡ []
      → Backed s
      → Inv (record (added s c) { primary_pointer_id = c.pointer_id })
  first-Inv s c none_left b = record {
    few = rw none_left (omega arith);
    distinct = rw none_left (ground arith);
    primary = rw none_left (ground arith);
    backed = b;
  }

  empty-Inv :
      (s : TouchState) → s.contacts ≡ [] → s.primary_pointer_id ≡ no_primary → Backed s → Inv s
  empty-Inv s none_left p b = ground arith

  -- A cancellation keeps the invariant.
  pub cancel_touches-Inv : (s : TouchState) → Inv s → Inv (cancel_touches windows s)
  cancel_touches-Inv s inv = elim (Bool-cases (length s.contacts == 0)) [
    | inl nothing ↦ rw (cancel_touches_nothing windows s nothing) inv
    | inr some_left ↦
        empty-Inv (cancel_touches windows s) (cancel_touches_none windows s)
          (cancel_touches_primary windows s some_left) (cancel_touches-Backed windows s inv.backed)
  ]

  touch_down_on :
      (s s0 : TouchState) (place : Option (ℤ × ℤ)) (pressure : ℕ)
      → (if length s.contacts == 0 then s else cancel_touches windows s) ≡ s0
      → s0.contacts ≡ []
      → Inv s0
      → Inv (touch_down windows id s place pressure)
  unfolding touch_down add_touch
  touch_down_on s s0 none pressure e empty inv = rw (e, touch_down) inv
  touch_down_on s s0 (some at) pressure e empty inv =
      let c = contact_at id pressure at in
      let room : leb max_touches (length s0.contacts) ≡ false = rw empty (ground arith) in
      rw (e, room, touch_down)
        (inject_frame-Inv (record (added s0 c) { primary_pointer_id = id })
          (length (s0.contacts ++ (c ∷ [])) - 1) flag_down (first-Inv s0 c empty inv.backed))

  touch_down-Inv :
      (s : TouchState) (place : Option (ℤ × ℤ)) (pressure : ℕ)
      → Inv s
      → Inv (touch_down windows id s place pressure)
  touch_down-Inv s place pressure inv = elim (Bool-cases (length s.contacts == 0)) [
    | inl nothing ↦ touch_down_on s s place pressure (rw nothing refl) (ground arith) inv
    | inr some_left ↦
        touch_down_on s (cancel_touches windows s) place pressure (rw some_left refl)
          (cancel_touches_none windows s) (cancel_touches-Inv s inv)
  ]

  -- Whatever a touch message holds and whatever Windows answers, the contacts stay at most ten and
  -- of different pointers, the primary pointer stays one of them or none, and the fallback is
  -- active only where it is used.
  pub inject_touch-Inv :
      (desktop : Desktop) (s : TouchState) (action : ℕ) (position : Position) (pressure : ℕ)
      → Inv s
      → Inv (inject_touch windows id desktop s action position pressure)
  unfolding inject_touch
  inject_touch-Inv desktop s action position pressure inv =
      let place = map_position desktop position in
      let a = touch_down-Inv s place pressure inv in
      let b = touch_pointer_down-Inv s place pressure inv in
      let c = touch_move-Inv s place pressure inv in
      let d = touch_up-Inv s inv in let e = cancel_touches-Inv s inv in ground arith
