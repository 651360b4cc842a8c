-- ===== src/Reverse/Touch/Mouse.antt =====
-- The mouse button that app/src/reverse_display.c holds in place of a touch.
use dskcpy.Prelude.{
  ◌∷◌, ℕ, ◌≡◌, ◌≢◌, ◌≤◌, refl, ap, Bool, true, false, Option, none, some, arith, length, [], sym,
  List, ◌-◌, ℤ, ℕ_discrete, ==_refl, ==-eq_false, ltb-eq_false,
}
use dskcpy.ControlMsg.Types.{Position}
use dskcpy.Reverse.Geometry.{Desktop, map_position}
use dskcpy.Reverse.Touch.{
  Windows, TouchState, Contact, find_touch, add_touch, remove_touch, cancel_touches,
  fallback_contact, inject_touch_frame, inject_mouse_frame, flag_up, flag_update, flag_down, Call,
  touches, mouse, call, no_primary, send_mouse_event, Button, left_up, left_down, button_none,
  release, press, mouse_event,
}
use dskcpy.Reverse.Touch.Inject.{
  inject_touch, inject_frame, inject_lift, touch_down, touch_move, touch_up, contact_at, decode,
  pointer_down,
}

-- What the calls leave the left button at.
abbrev pub button_down : List Call → Bool
button_down [] = false
button_down (touches contacts ∷ calls) = button_down calls
button_down (mouse dx dy left_down ∷ calls) = true
button_down (mouse dx dy left_up ∷ calls) = false
button_down (mouse dx dy button_none ∷ calls) = button_down calls

-- Windows accepts the calls, and its virtual screen is large enough for the mouse.
pub record Works (windows : Windows) : Type 0 where
  pub accepts : (calls : List Call) (c : Call) → windows.accepts calls c ≡ true
  pub wide : (calls : List Call) → 2 ≤ (windows.metrics calls).virtual_width
  pub high : (calls : List Call) → 2 ≤ (windows.metrics calls).virtual_height

-- The mouse stands for the touches, and no finger is down, or one, which is the primary one.
abbrev pub idle : ℕ → ℕ → List Call → TouchState
idle primary fallback calls = record {
  contacts = [];
  primary_pointer_id = primary;
  use_mouse_fallback = true;
  mouse_fallback_active = false;
  mouse_fallback_pointer_id = fallback;
  calls = calls;
}

abbrev pub touching : Contact → ℕ → List Call → TouchState
touching c fallback calls = record {
  contacts = c ∷ [];
  primary_pointer_id = c.pointer_id;
  use_mouse_fallback = true;
  mouse_fallback_active = true;
  mouse_fallback_pointer_id = fallback;
  calls = calls;
}

-- The button is down exactly while the finger is.
pub data Follows : TouchState → Type 0 where
  none_down :
      {primary fallback : ℕ} {calls : List Call}
      → button_down calls ≡ false
      → Follows (idle primary fallback calls)
  one_down :
      {c : Contact} {fallback : ℕ} {calls : List Call}
      → button_down calls ≡ true
      → Follows (touching c fallback calls)

module _ (windows : Windows) (works : Works windows) where
  -- The event that is sent next.
  abbrev pub event : Contact → Button → List Call → Call
  event c b calls = mouse_event (windows.metrics calls) c b

  pub sent :
      (s : TouchState) (c : Contact) (b : Button)
      → send_mouse_event windows s c b ≡ (true, record s { calls = event c b s.calls ∷ s.calls })
  unfolding send_mouse_event call
  sent s c b =
      let w = ltb-eq_false (windows.metrics s.calls).virtual_width 2 (works.wide s.calls) in
      let h = ltb-eq_false (windows.metrics s.calls).virtual_height 2 (works.high s.calls) in
      rw (w, h, works.accepts s.calls (event c b s.calls)) refl

  cancel_touching :
      (c d : Contact) (fallback : ℕ) (calls : List Call)
      → fallback_contact (touching c fallback calls) ≡ d
      → cancel_touches windows (touching c fallback calls)
        ≡ idle no_primary fallback (event d left_up calls ∷ calls)
  unfolding cancel_touches
  cancel_touching c d fallback calls e = rw (e, sent (touching c fallback calls) d left_up) refl

  found : (c : Contact) (id : ℕ) → id ≡ c.pointer_id → find_touch (c ∷ []) id ≡ some 0
  unfolding find_touch
  found c id e = rw (e, ==_refl c.pointer_id) refl

  not_found : (c : Contact) (id : ℕ) → id ≢ c.pointer_id → find_touch (c ∷ []) id ≡ none
  unfolding find_touch
  not_found c id ne = rw (==-eq_false c.pointer_id id (λ e. ne (sym e))) refl

  up_frame :
      (c : Contact) (fallback : ℕ) (calls : List Call)
      → inject_touch_frame windows (touching c fallback calls) 0 flag_up ≡ (
        true,
        record (touching c fallback calls) {
          mouse_fallback_active = false;
          calls = event c left_up calls ∷ calls;
        },
      )
  unfolding inject_touch_frame inject_mouse_frame release
  up_frame c fallback calls =
      rw (==_refl c.pointer_id, sent (touching c fallback calls) c left_up) refl

  move_frame :
      (c : Contact) (fallback : ℕ) (calls : List Call)
      → inject_touch_frame windows (touching c fallback calls) 0 flag_update
        ≡ (true, touching c fallback (event c button_none calls ∷ calls))
  unfolding inject_touch_frame inject_mouse_frame
  move_frame c fallback calls =
      rw
        (
          ==_refl c.pointer_id,
          found c c.pointer_id refl,
          sent (touching c fallback calls) c button_none,
        )
        refl

  down_frame :
      (c : Contact) (fallback : ℕ) (calls : List Call)
      → inject_touch_frame windows
          (record (touching c fallback calls) { mouse_fallback_active = false })
          0
          flag_down
        ≡ (true, touching c c.pointer_id (event c left_down calls ∷ calls))
  unfolding inject_touch_frame inject_mouse_frame press
  down_frame c fallback calls =
      rw
        (
          ==_refl c.pointer_id,
          found c c.pointer_id refl,
          sent (record (touching c fallback calls) { mouse_fallback_active = false }) c left_down,
        )
        refl

  module _ (id fallback : ℕ) (calls : List Call) where
    up_touching :
        (c : Contact)
        → id ≡ c.pointer_id
        → touch_up windows id (touching c fallback calls)
          ≡ idle no_primary fallback (event c left_up calls ∷ calls)
    unfolding touch_up inject_lift remove_touch
    up_touching c e =
        rw (found c id e, touch_up, inject_lift, up_frame c fallback calls, e, ==_refl c.pointer_id)
          refl

    move_touching :
        (c : Contact) (at : ℤ × ℤ) (pressure : ℕ)
        → id ≡ c.pointer_id
        → touch_move windows id (touching c fallback calls) (some at) pressure
          ≡ touching
              (contact_at c.pointer_id pressure at)
              fallback
              (event (contact_at c.pointer_id pressure at) button_none calls ∷ calls)
    unfolding touch_move inject_frame
    move_touching c (x, y) pressure e =
        rw
          (
            found c id e,
            touch_move,
            inject_frame,
            move_frame (contact_at c.pointer_id pressure (x, y)) fallback calls,
          )
          refl

    down_idle :
        (primary : ℕ) (at : ℤ × ℤ) (pressure : ℕ)
        → touch_down windows id (idle primary fallback calls) (some at) pressure
          ≡ touching
              (contact_at id pressure at)
              id
              (event (contact_at id pressure at) left_down calls ∷ calls)
    unfolding touch_down add_touch inject_frame
    down_idle primary at pressure = rw (down_frame (contact_at id pressure at) fallback calls) refl

    -- What a first finger does to a state without a contact.
    abbrev put : TouchState → Contact → TouchState
    put s c = elim (add_touch s c) [
      | none ↦ s
      | some t ↦
          inject_frame windows id (record t { primary_pointer_id = id }) (length t.contacts - 1)
            flag_down
    ]

    down_touching :
        (c : Contact) (place : Option (ℤ × ℤ)) (pressure : ℕ)
        → touch_down windows id (touching c fallback calls) place pressure
          ≡ touch_down windows id
              (idle no_primary fallback
                (event (fallback_contact (touching c fallback calls)) left_up calls ∷ calls))
              place
              pressure
    unfolding touch_down
    down_touching c none pressure =
        cancel_touching c (fallback_contact (touching c fallback calls)) fallback calls refl
    down_touching c (some at) pressure =
        ap (λ s. put s (contact_at id pressure at))
          (cancel_touching c (fallback_contact (touching c fallback calls)) fallback calls refl)

  touch_up-Follows : (id : ℕ) (s : TouchState) → Follows s → Follows (touch_up windows id s)
  unfolding touch_up find_touch
  touch_up-Follows id s (none_down h) = none_down h
  touch_up-Follows id s (one_down {c} {fallback} {calls} h) = elim (ℕ_discrete id c.pointer_id) [
    | yes same ↦ rw (up_touching id fallback calls c same) (none_down refl)
    | no different ↦ rw (not_found c id different, touch_up) (one_down h)
  ]

  touch_move-Follows :
      (id : ℕ) (s : TouchState) (place : Option (ℤ × ℤ)) (pressure : ℕ)
      → Follows s
      → Follows (touch_move windows id s place pressure)
  unfolding touch_move find_touch
  touch_move-Follows id s none pressure f = f
  touch_move-Follows id s (some at) pressure (none_down h) = none_down h
  touch_move-Follows id s (some at) pressure (one_down {c} {fallback} {calls} h) =
      elim (ℕ_discrete id c.pointer_id) [
        | yes same ↦ rw (move_touching id fallback calls c at pressure same) (one_down h)
        | no different ↦ rw (not_found c id different, touch_move) (one_down h)
      ]

  cancel_touches-Follows : (s : TouchState) → Follows s → Follows (cancel_touches windows s)
  unfolding cancel_touches
  cancel_touches-Follows s (none_down h) = none_down h
  cancel_touches-Follows s (one_down {c} {fallback} {calls} h) =
      rw (cancel_touching c (fallback_contact (touching c fallback calls)) fallback calls refl)
        (none_down refl)

  first_finger-Follows :
      (id primary fallback : ℕ) (calls : List Call) (place : Option (ℤ × ℤ)) (pressure : ℕ)
      → button_down calls ≡ false
      → Follows (touch_down windows id (idle primary fallback calls) place pressure)
  unfolding touch_down
  first_finger-Follows id primary fallback calls none pressure h = none_down h
  first_finger-Follows id primary fallback calls (some at) pressure h =
      rw (down_idle id fallback calls primary at pressure) (one_down refl)

  touch_down-Follows :
      (id : ℕ) (s : TouchState) (place : Option (ℤ × ℤ)) (pressure : ℕ)
      → Follows s
      → Follows (touch_down windows id s place pressure)
  touch_down-Follows id s place pressure (none_down {primary} {fallback} {calls} h) =
      first_finger-Follows id primary fallback calls place pressure h
  touch_down-Follows id s place pressure (one_down {c} {fallback} {calls} h) =
      rw (down_touching id fallback calls c place pressure)
        (first_finger-Follows id no_primary fallback _ place pressure refl)

  -- Where the mouse stands for the touches and Windows accepts its events, the left button is down
  -- exactly while the finger is, after every message that does not put a second finger down.
  pub inject_touch-Follows :
      (id : ℕ) (desktop : Desktop) (s : TouchState) (action : ℕ) (position : Position)
      (pressure : ℕ)
      → decode action ≢ pointer_down
      → Follows s
      → Follows (inject_touch windows id desktop s action position pressure)
  unfolding inject_touch
  inject_touch-Follows id desktop s action position pressure one f =
      let place = map_position desktop position in
      let a = touch_down-Follows id s place pressure f in
      let c = touch_move-Follows id s place pressure f in
      let d = touch_up-Follows id s f in let e = cancel_touches-Follows s f in ground arith
