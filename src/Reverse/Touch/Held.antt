-- ===== src/Reverse/Touch/Held.antt =====
-- The pointers that Windows holds down after the frames of app/src/reverse_display.c.
use dskcpy.Prelude.{
  ◌∷◌, ℕ, ◌≡◌, refl, ap, true, false, Option, none, some, arith, length, ◌==◌, [], inl, inr,
  Bool-cases, Option-cases, if◌then◌else◌, get_or, set, List, zero, suc, ◌++◌, leb, ◌-◌, ◌^◌, ◌%◌,
  ℤ,
}
use dskcpy.ControlMsg.Types.{Position}
use dskcpy.Reverse.Geometry.{Desktop, map_position}
use dskcpy.Reverse.Touch.{
  Windows, TouchState, Contact, find_touch, max_touches, no_contact, add_touch, remove_touch,
  cancel_touches, inject_touch_frame, PointerFlags, flag_up, flag_update, flag_down, flag_canceled,
  Call, touches, mouse, TouchInfo, is_up, call, frame, all_with, make_touch_info,
}
use dskcpy.Reverse.Touch.Inject.{
  inject_touch, inject_frame, inject_lift, touch_down, touch_pointer_down, touch_move, touch_up,
  moved, contact_at,
}

abbrev pub down_ids : List TouchInfo → List ℕ
down_ids [] = []
down_ids (t ∷ ts) = if is_up t.pointer_flags then down_ids ts else t.pointer_id ∷ down_ids ts

-- The last frame tells, since a frame has all the pointers.
abbrev pub held : List Call → List ℕ
held [] = []
held (mouse dx dy button ∷ calls) = held calls
held (touches contacts ∷ calls) = down_ids contacts

-- The pointers of the contacts, as the 32-bit words that Windows gets.
abbrev pub windows_ids : List Contact → List ℕ
windows_ids [] = []
windows_ids (c ∷ cs) = (c.pointer_id % 2 ^ 32) ∷ windows_ids cs

-- Touches are injected, and Windows holds exactly the contacts.
pub record Mirrors (s : TouchState) : Type 0 where
  pub touch_mode : s.use_mouse_fallback ≡ false
  pub held_contacts : held s.calls ≡ windows_ids s.contacts

down_ids-all_with_update : (cs : List Contact) → down_ids (all_with flag_update cs) ≡ windows_ids cs
unfolding all_with make_touch_info
down_ids-all_with_update [] = refl
down_ids-all_with_update (c ∷ cs) =
    ap (λ t. (c.pointer_id % 2 ^ 32) ∷ t) (down_ids-all_with_update cs)

down_ids-all_with_canceled : (cs : List Contact) → down_ids (all_with flag_canceled cs) ≡ []
unfolding all_with make_touch_info
down_ids-all_with_canceled [] = refl
down_ids-all_with_canceled (c ∷ cs) = down_ids-all_with_canceled cs

down_ids-frame :
    (cs : List Contact) (i : ℕ) (flags : PointerFlags)
    → is_up flags ≡ false
    → down_ids (frame cs i flags) ≡ windows_ids cs
unfolding frame make_touch_info
down_ids-frame [] i flags h = refl
down_ids-frame (c ∷ cs) zero flags h =
    rw h (ap (λ t. (c.pointer_id % 2 ^ 32) ∷ t) (down_ids-all_with_update cs))
down_ids-frame (c ∷ cs) (suc i) flags h =
    ap (λ t. (c.pointer_id % 2 ^ 32) ∷ t) (down_ids-frame cs i flags h)

down_ids-frame_up :
    (cs : List Contact) (i : ℕ) → down_ids (frame cs i flag_up) ≡ windows_ids (remove_touch cs i)
unfolding frame make_touch_info remove_touch
down_ids-frame_up [] i = refl
down_ids-frame_up (c ∷ cs) zero = down_ids-all_with_update cs
down_ids-frame_up (c ∷ cs) (suc i) = ap (λ t. (c.pointer_id % 2 ^ 32) ∷ t) (down_ids-frame_up cs i)

windows_ids-set :
    (cs : List Contact) (i : ℕ) (d : Contact)
    → d.pointer_id ≡ (get_or cs i no_contact).pointer_id
    → windows_ids (set cs i d) ≡ windows_ids cs
windows_ids-set [] i d e = refl
windows_ids-set (c ∷ cs) zero d e = rw e refl
windows_ids-set (c ∷ cs) (suc i) d e =
    ap (λ t. (c.pointer_id % 2 ^ 32) ∷ t) (windows_ids-set cs i d e)

module _ (windows : Windows)
    (accepts : (calls : List Call) (c : Call) → windows.accepts calls c ≡ true) (id : ℕ) where
  accepted_frame :
      (s : TouchState) (i : ℕ) (flags : PointerFlags)
      → s.use_mouse_fallback ≡ false
      → inject_touch_frame windows s i flags
        ≡ (true, record s { calls = touches (frame s.contacts i flags) ∷ s.calls })
  unfolding inject_touch_frame call
  accepted_frame s i flags u = rw (u, accepts s.calls (touches (frame s.contacts i flags))) refl

  inject_frame-Mirrors :
      (s : TouchState) (i : ℕ) (flags : PointerFlags)
      → is_up flags ≡ false
      → s.use_mouse_fallback ≡ false
      → Mirrors (inject_frame windows id s i flags)
  unfolding inject_frame
  inject_frame-Mirrors s i flags h u =
      rw (accepted_frame s i flags u, inject_frame)
        (record { touch_mode = u; held_contacts = down_ids-frame s.contacts i flags h })

  touch_up-Mirrors : (s : TouchState) → Mirrors s → Mirrors (touch_up windows id s)
  unfolding touch_up inject_lift
  touch_up-Mirrors s m = elim (Option-cases (find_touch s.contacts id)) [
    | inl nothing ↦ rw (nothing, touch_up) m
    | inr (i, found) ↦
        rw (found, accepted_frame s i flag_up m.touch_mode, touch_up, inject_lift)
          (record { touch_mode = m.touch_mode; held_contacts = down_ids-frame_up s.contacts i })
  ]

  cancel_touches-Mirrors : (s : TouchState) → Mirrors s → Mirrors (cancel_touches windows s)
  unfolding cancel_touches call
  cancel_touches-Mirrors s m = elim (Bool-cases (length s.contacts == 0)) [
    | inl nothing ↦ rw (nothing, cancel_touches) m
    | inr some_left ↦
        rw (some_left, m.touch_mode, cancel_touches)
          (record { touch_mode = refl; held_contacts = down_ids-all_with_canceled s.contacts })
  ]

  touch_move-Mirrors :
      (s : TouchState) (place : Option (ℤ × ℤ)) (pressure : ℕ)
      → Mirrors s
      → Mirrors (touch_move windows id s place pressure)
  unfolding touch_move
  touch_move-Mirrors s none pressure m = m
  touch_move-Mirrors s (some at) pressure m = elim (Option-cases (find_touch s.contacts id)) [
    | inl nothing ↦ rw (nothing, touch_move) m
    | inr (i, found) ↦
        rw (found, touch_move)
          (inject_frame-Mirrors (moved s i pressure at) i flag_update refl m.touch_mode)
  ]

  touch_pointer_down-Mirrors :
      (s : TouchState) (place : Option (ℤ × ℤ)) (pressure : ℕ)
      → Mirrors s
      → Mirrors (touch_pointer_down windows id s place pressure)
  unfolding touch_pointer_down add_touch
  touch_pointer_down-Mirrors s none pressure m = m
  touch_pointer_down-Mirrors s (some at) pressure m =
      elim (Option-cases (find_touch s.contacts id)) [
        | inr (i, found) ↦
            rw (found, touch_pointer_down)
              (inject_frame-Mirrors (moved s i pressure at) i flag_down refl m.touch_mode)
        | inl nothing ↦ elim (Bool-cases (leb max_touches (length s.contacts))) [
          | inl full ↦ rw (nothing, full, touch_pointer_down) m
          | inr room ↦
              let c = contact_at id pressure at in
              rw (nothing, room, touch_pointer_down)
                (inject_frame-Mirrors (record s { contacts = s.contacts ++ (c ∷ []) })
                  (length (s.contacts ++ (c ∷ [])) - 1) flag_down refl m.touch_mode)
        ]
      ]

  touch_down_on :
      (s s0 : TouchState) (place : Option (ℤ × ℤ)) (pressure : ℕ)
      → (if length s.contacts == 0 then s else cancel_touches windows s) ≡ s0
      → Mirrors s0
      → Mirrors (touch_down windows id s place pressure)
  unfolding touch_down add_touch
  touch_down_on s s0 none pressure e m = rw (e, touch_down) m
  touch_down_on s s0 (some at) pressure e m =
      elim (Bool-cases (leb max_touches (length s0.contacts))) [
        | inl full ↦ rw (e, full, e, touch_down) m
        | inr room ↦
            let c = contact_at id pressure at in
            rw (e, room, touch_down)
              (inject_frame-Mirrors
                (record s0 { contacts = s0.contacts ++ (c ∷ []); primary_pointer_id = id })
                (length (s0.contacts ++ (c ∷ [])) - 1) flag_down refl m.touch_mode)
      ]

  touch_down-Mirrors :
      (s : TouchState) (place : Option (ℤ × ℤ)) (pressure : ℕ)
      → Mirrors s
      → Mirrors (touch_down windows id s place pressure)
  touch_down-Mirrors s place pressure m = elim (Bool-cases (length s.contacts == 0)) [
    | inl nothing ↦ touch_down_on s s place pressure (rw nothing refl) m
    | inr some_left ↦
        touch_down_on s (cancel_touches windows s) place pressure (rw some_left refl)
          (cancel_touches-Mirrors s m)
  ]

  -- As long as Windows accepts the frames, the pointers that it holds down are exactly those of the
  -- contacts after every touch message, whatever the message holds.
  pub inject_touch-Mirrors :
      (desktop : Desktop) (s : TouchState) (action : ℕ) (position : Position) (pressure : ℕ)
      → Mirrors s
      → Mirrors (inject_touch windows id desktop s action position pressure)
  unfolding inject_touch
  inject_touch-Mirrors desktop s action position pressure m =
      let place = map_position desktop position in
      let a = touch_down-Mirrors s place pressure m in
      let b = touch_pointer_down-Mirrors s place pressure m in
      let c = touch_move-Mirrors s place pressure m in
      let d = touch_up-Mirrors s m in let e = cancel_touches-Mirrors s m in ground arith
