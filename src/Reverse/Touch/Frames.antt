-- ===== src/Reverse/Touch/Frames.antt =====
-- What the calls of Windows in app/src/reverse_display.c leave as it is: the contacts and the primary
-- pointer.
use dskcpy.Prelude.{
  ◌∷◌, ℕ, ◌≡◌, refl, true, false, arith, length, ◌==◌, [], inl, inr, Bool-cases, Option-cases,
  get_or,
}
use dskcpy.Reverse.Touch.{
  Windows, TouchState, Contact, PointerFlags, no_primary, find_touch, call, send_mouse_event,
  release, press, Button, left_up, left_down, button_none, inject_mouse_frame, inject_touch_frame,
  cancel_touches, fallback_contact, no_contact, frame, touches,
}

-- The fallback is active only where it is used.
abbrev pub Backed : TouchState → Type 0
Backed s = s.mouse_fallback_active ≡ true → s.use_mouse_fallback ≡ true

pub record Keeps (s t : TouchState) : Type 0 where
  pub same_contacts : t.contacts ≡ s.contacts
  pub same_primary : t.primary_pointer_id ≡ s.primary_pointer_id
  pub backed : Backed s → Backed t

-- The same, and whether the fallback is used and active.
pub record KeepsAll (s t : TouchState) : Type 0 where
  pub contacts : t.contacts ≡ s.contacts
  pub primary : t.primary_pointer_id ≡ s.primary_pointer_id
  pub fallback : t.use_mouse_fallback ≡ s.use_mouse_fallback
  pub active : t.mouse_fallback_active ≡ s.mouse_fallback_active

module _ (windows : Windows) where
  send_mouse_event-KeepsAll :
      (s : TouchState) (c : Contact) (b : Button) → KeepsAll s (send_mouse_event windows s c b).1
  unfolding send_mouse_event call
  send_mouse_event-KeepsAll s c b = ground arith

  release-Keeps : (s : TouchState) (c : Contact) → Keeps s (release windows s c).1
  unfolding release
  release-Keeps s c = let k = send_mouse_event-KeepsAll s c left_up in ground arith

  press-Keeps :
      (s : TouchState) (c : Contact) → s.use_mouse_fallback ≡ true → Keeps s (press windows s c).1
  unfolding press
  press-Keeps s c u = let k = send_mouse_event-KeepsAll s c left_down in ground arith

  inject_mouse_frame-Keeps :
      (s : TouchState) (i : ℕ) (flags : PointerFlags)
      → s.use_mouse_fallback ≡ true
      → Keeps s (inject_mouse_frame windows s i flags).1
  unfolding inject_mouse_frame
  inject_mouse_frame-Keeps s i flags u =
      let changed = get_or s.contacts i no_contact in
      let k1 = release-Keeps s changed in
      let k2 = press-Keeps s changed u in
      elim (Option-cases (find_touch s.contacts s.primary_pointer_id)) [
        | inl nothing ↦ ground arith
        | inr (j, found) ↦
            let primary = get_or s.contacts j no_contact in
            let k3 = press-Keeps s primary u in
            let k4 = send_mouse_event-KeepsAll s primary button_none in ground arith
      ]

  pub inject_touch_frame-Keeps :
      (s : TouchState) (i : ℕ) (flags : PointerFlags)
      → Keeps s (inject_touch_frame windows s i flags).1
  unfolding inject_touch_frame call
  inject_touch_frame-Keeps s i flags = elim (Bool-cases s.use_mouse_fallback) [
    | inl u ↦ let k = inject_mouse_frame-Keeps s i flags u in ground arith
    | inr u ↦
        let k =
          inject_mouse_frame-Keeps
            (record s {
              calls = touches (frame s.contacts i flags) ∷ s.calls;
              use_mouse_fallback = true;
            })
            i flags refl in
        ground arith
  ]

  pub cancel_touches-Backed : (s : TouchState) → Backed s → Backed (cancel_touches windows s)
  unfolding cancel_touches call
  cancel_touches-Backed s h =
      let k = send_mouse_event-KeepsAll s (fallback_contact s) left_up in ground arith

  -- A cancellation leaves no contact.
  pub cancel_touches_none : (s : TouchState) → (cancel_touches windows s).contacts ≡ []
  unfolding cancel_touches call
  cancel_touches_none s = ground arith

  -- Without a contact there is nothing to cancel; otherwise no primary pointer is left.
  pub cancel_touches_primary :
      (s : TouchState)
      → (length s.contacts == 0) ≡ false
      → (cancel_touches windows s).primary_pointer_id ≡ no_primary
  unfolding cancel_touches
  cancel_touches_primary s h = rw h (ground arith)

  pub cancel_touches_nothing :
      (s : TouchState) → (length s.contacts == 0) ≡ true → cancel_touches windows s ≡ s
  unfolding cancel_touches
  cancel_touches_nothing s h = rw h refl
