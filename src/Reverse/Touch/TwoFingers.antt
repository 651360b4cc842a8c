-- ===== src/Reverse/Touch/TwoFingers.antt =====
-- A second finger of app/src/reverse_display.c while the mouse stands for the first one.
use dskcpy.Prelude.{
  ◌∷◌, ℕ, ◌≡◌, ◌≢◌, ◌<◌, refl, ◌∙◌, ap, true, false, none, some, arith, ◌==◌, [], sym, List, ◌^◌, ℤ,
  ==_refl, ==-eq_false,
}
use dskcpy.Reverse.Touch.{
  Windows, TouchState, Contact, find_touch, add_touch, remove_touch, cancel_touches,
  inject_touch_frame, inject_mouse_frame, flag_up, flag_down, Call, no_primary, left_up, left_down,
  release, press,
}
use dskcpy.Reverse.Touch.Inject.{
  touch_pointer_down, touch_up, inject_frame, inject_lift, contact_at,
}
use dskcpy.Reverse.Touch.Mouse.{Works, touching, button_down, event, sent}

module _ (windows : Windows) (works : Works windows) where
  module _ (a b : Contact) (other : b.pointer_id ≢ a.pointer_id) (f : ℕ) where
    -- Both fingers are down; only the second one is; none is, and the button is.
    abbrev both : List Call → TouchState
    both calls = record (touching a f calls) { contacts = a ∷ b ∷ [] }

    abbrev second : List Call → TouchState
    second calls = record {
      contacts = b ∷ [];
      primary_pointer_id = no_primary;
      use_mouse_fallback = true;
      mouse_fallback_active = false;
      mouse_fallback_pointer_id = f;
      calls = calls;
    }

    abbrev stuck : List Call → TouchState
    stuck calls = record {
      contacts = [];
      primary_pointer_id = no_primary;
      use_mouse_fallback = true;
      mouse_fallback_active = true;
      mouse_fallback_pointer_id = b.pointer_id;
      calls = calls;
    }

    distinct : (b.pointer_id == a.pointer_id) ≡ false
    distinct = ==-eq_false b.pointer_id a.pointer_id other

    distinct' : (a.pointer_id == b.pointer_id) ≡ false
    distinct' = ==-eq_false a.pointer_id b.pointer_id (λ e. other (sym e))

    frame_second :
        (calls : List Call)
        → inject_touch_frame windows (both calls) 1 flag_down ≡ (true, both calls)
    unfolding inject_touch_frame inject_mouse_frame find_touch
    frame_second calls = rw (distinct, ==_refl a.pointer_id) refl

    found_first : find_touch (a ∷ b ∷ []) a.pointer_id ≡ some 0
    unfolding find_touch
    found_first = rw (==_refl a.pointer_id) refl

    not_found_second : find_touch (a ∷ []) b.pointer_id ≡ none
    unfolding find_touch
    not_found_second = rw distinct' refl

    put_second :
        (calls : List Call) (pressure : ℕ) (at : ℤ × ℤ)
        → b ≡ contact_at b.pointer_id pressure at
        → touch_pointer_down windows b.pointer_id (touching a f calls) (some at) pressure
          ≡ both calls
    unfolding touch_pointer_down inject_frame add_touch
    put_second calls pressure at e =
        rw (not_found_second, touch_pointer_down, inject_frame, sym e, frame_second calls) refl

    up_first :
        (calls : List Call)
        → inject_touch_frame windows (both calls) 0 flag_up ≡ (
          true,
          record (both calls) {
            mouse_fallback_active = false;
            calls = event windows works a left_up calls ∷ calls;
          },
        )
    unfolding inject_touch_frame inject_mouse_frame release
    up_first calls = rw (==_refl a.pointer_id, sent windows works (both calls) a left_up) refl

    lift_first :
        (calls : List Call)
        → touch_up windows a.pointer_id (both calls)
          ≡ second (event windows works a left_up calls ∷ calls)
    unfolding touch_up inject_lift remove_touch
    lift_first calls =
        rw (found_first, touch_up, inject_lift, up_first calls, ==_refl a.pointer_id) refl

    module _ (calls : List Call) (h : b.pointer_id < 2 ^ 32) where
      no_finger : (b.pointer_id == no_primary) ≡ false
      no_finger = ==-eq_false b.pointer_id no_primary (λ e. omega arith)

      found_second : find_touch (b ∷ []) b.pointer_id ≡ some 0
      unfolding find_touch
      found_second = rw (==_refl b.pointer_id) refl

      no_one : find_touch (b ∷ []) no_primary ≡ none
      unfolding find_touch
      no_one = rw no_finger refl

      up_second : inject_touch_frame windows (second calls) 0 flag_up ≡ (
        true,
        record (stuck (event windows works b left_down calls ∷ calls)) { contacts = b ∷ [] },
      )
      unfolding inject_touch_frame inject_mouse_frame press
      up_second = rw (no_finger, no_one, sent windows works (second calls) b left_down) refl

      lift_second :
          touch_up windows b.pointer_id (second calls)
          ≡ stuck (event windows works b left_down calls ∷ calls)
      unfolding touch_up inject_lift remove_touch
      lift_second = rw (found_second, touch_up, inject_lift, up_second, no_finger) refl

  -- A second finger is put down while the first one holds the button, and the first one is lifted
  -- before the second one.
  abbrev pub after_two : Contact → ℕ → List Call → ℕ → ℤ × ℤ → ℕ → TouchState
  after_two a f calls id at pressure = touch_up windows id (
      touch_up windows a.pointer_id
        (touch_pointer_down windows id (touching a f calls) (some at) pressure))

  -- Where the mouse stands for the first finger, a second finger that is lifted last leaves the left
  -- button down with no contact, and a cancellation then does nothing.
  pub two_fingers_stuck :
      (a : Contact) (f : ℕ) (calls : List Call) (id : ℕ) (at : ℤ × ℤ) (pressure : ℕ)
      → id ≢ a.pointer_id
      → id < 2 ^ 32
      → ((after_two a f calls id at pressure).contacts ≡ [])
        × (button_down (after_two a f calls id at pressure).calls ≡ true)
        × (cancel_touches windows (after_two a f calls id at pressure)
            ≡ after_two a f calls id at pressure)
  unfolding cancel_touches
  two_fingers_stuck a f calls id at pressure other h =
      let b = contact_at id pressure at in
      let lifted = event windows works a left_up calls ∷ calls in
      let e : after_two a f calls id at pressure
          ≡ stuck a b other f (event windows works b left_down lifted ∷ lifted) =
        ap (λ s. touch_up windows id (touch_up windows a.pointer_id s))
          (put_second a b other f calls pressure at refl)
        ∙ (ap (λ s. touch_up windows id s) (lift_first a b other f calls)
            ∙ lift_second a b other f lifted h) in
      (ap (λ s. s.contacts) e, ap (λ s. button_down s.calls) e, rw e refl)
