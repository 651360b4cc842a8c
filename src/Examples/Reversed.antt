-- ===== src/Examples/Reversed.antt =====
-- A stream to the device, and its touches.
use dskcpy.Prelude.{
  ◌≢◌, ◌≡◌, refl, [], ◌∷◌, none, some, true, false, ℤ, pos, negsuc, arith, leb, if◌then◌else◌, ◌⊎◌,
}
use dskcpy.ControlMsg.Types.{Position}
use dskcpy.Reverse.Watchdog.{Watchdog, begin, submit, ack, finish, expired, set_paused}
use dskcpy.Reverse.Watchdog.Deadline.{
  begins, acks, finishes, pauses, run, step, Waits, stall_detected,
}
use dskcpy.Reverse.H264.{normalize_h264, normalize_h264_config, avcc_length_size}
use dskcpy.Reverse.H264.Packets.{avcc, annex_b, normalize_h264-avcc}
use dskcpy.Reverse.H264.StartCode.{ambiguous}
use dskcpy.Reverse.H264.Config.{avcc_record, normalize_h264_config-avcc_record}
use dskcpy.Reverse.Geometry.{Desktop, map_position, IsOn, map_position-IsOn}
use dskcpy.Reverse.Touch.{Windows, Contact, TouchState, no_primary, cancel_touches}
use dskcpy.Reverse.Touch.Inject.{inject_touch, decode}
use dskcpy.Reverse.Touch.Inv.{Inv, inject_touch-Inv}
use dskcpy.Reverse.Touch.Held.{Mirrors, inject_touch-Mirrors}
use dskcpy.Reverse.Touch.Mouse.{Works, Follows, none_down, idle, button_down, inject_touch-Follows}
use dskcpy.Reverse.Touch.TwoFingers.{after_two, two_fingers_stuck}

-- The frame 8 is sent, and the frame 7 was acknowledged.
abbrev waiting : Watchdog
waiting = record {
  deadline = 10000020;
  submitted_pts = pos 8;
  acked_pts = pos 7;
  busy = false;
  paused = false;
}

waiting-Waits : Waits 10000020 waiting
waiting-Waits = ground arith

stall_detected_example :
    expired (run waiting (acks (pos 7) 30 ∷ begins 40 ∷ pauses false 50 ∷ finishes ∷ [])) 10000021
    ≡ leb 10000020 10000021
unfolding step begin submit ack finish set_paused
stall_detected_example =
    stall_detected 10000020 waiting (acks (pos 7) 30 ∷ begins 40 ∷ pauses false 50 ∷ finishes ∷ [])
      10000021 waiting-Waits ground arith

-- A unit of two bytes, and one of a byte.
normalize_h264_example :
    normalize_h264 true [] (avcc (avcc_length_size []) ((5 ∷ 6 ∷ []) ∷ (7 ∷ []) ∷ []))
    ≡ some (
        if ambiguous (avcc_length_size []) 2
        then record {
          bytes = avcc (avcc_length_size []) ((5 ∷ 6 ∷ []) ∷ (7 ∷ []) ∷ []);
          owned = false;
        }
        else record { bytes = annex_b ((5 ∷ 6 ∷ []) ∷ (7 ∷ []) ∷ []); owned = true })
unfolding avcc_length_size
normalize_h264_example =
    normalize_h264-avcc [] (5 ∷ 6 ∷ []) ((7 ∷ []) ∷ []) ground arith (omega arith) (omega arith)

normalize_h264_config_example :
    normalize_h264_config true
      (avcc_record (66 ∷ 0 ∷ 30 ∷ []) 0xff 0xe1 ((1 ∷ 2 ∷ []) ∷ []) ((3 ∷ []) ∷ []) (9 ∷ []))
    ≡ some (record { bytes = annex_b ((1 ∷ 2 ∷ []) ∷ (3 ∷ []) ∷ []); owned = true })
normalize_h264_config_example =
    normalize_h264_config-avcc_record (66 ∷ 0 ∷ 30 ∷ []) 0xff 0xe1 ((1 ∷ 2 ∷ []) ∷ [])
      ((3 ∷ []) ∷ []) (9 ∷ []) refl (omega arith) (omega arith) (ground arith) (ground arith)
      (omega arith)

abbrev windows : Windows
windows = record {
  accepts = λ calls c. true;
  metrics = λ calls. record {
    virtual_left = negsuc 9;
    virtual_top = pos 0;
    virtual_width = 1920;
    virtual_height = 1080;
  };
}

windows-Works : Works windows
windows-Works = record {
  accepts = λ calls c. refl;
  wide = λ calls. omega arith;
  high = λ calls. omega arith;
}

abbrev desktop : Desktop
desktop = record { left = negsuc 9; top = pos 0; width = 1920; height = 1080 }

abbrev corner : Position
corner = record { x = pos 800; y = negsuc 4; width = 800; height = 600 }

map_position_example :
    ((map_position desktop corner ≡ none)
      × ((corner.width ≡ 0) ⊎ ((corner.height ≡ 0) ⊎ ((desktop.width ≡ 0) ⊎ (desktop.height ≡ 0)))))
    ⊎ ((at : ℤ × ℤ) × (map_position desktop corner ≡ some at)
        × IsOn desktop at
        × (corner.width ≢ 0)
        × (corner.height ≢ 0)
        × (desktop.width ≢ 0)
        × (desktop.height ≢ 0))
map_position_example = map_position-IsOn desktop corner

-- No finger is down, and touches are injected.
abbrev untouched : TouchState
untouched = record {
  contacts = [];
  primary_pointer_id = no_primary;
  use_mouse_fallback = false;
  mouse_fallback_active = false;
  mouse_fallback_pointer_id = 0;
  calls = [];
}

untouched-Inv : Inv untouched
untouched-Inv = ground arith

inject_touch-Inv_example : Inv (inject_touch windows 3 desktop untouched 0 corner 100)
inject_touch-Inv_example = inject_touch-Inv windows 3 desktop untouched 0 corner 100 untouched-Inv

inject_touch-Mirrors_example : Mirrors (inject_touch windows 3 desktop untouched 0 corner 100)
inject_touch-Mirrors_example =
    inject_touch-Mirrors windows (λ calls c. refl) 3 desktop untouched 0 corner 100
      (record { touch_mode = refl; held_contacts = refl })

inject_touch-Follows_example :
    Follows (inject_touch windows 3 desktop (idle no_primary 0 []) 0 corner 100)
unfolding decode
inject_touch-Follows_example =
    inject_touch-Follows windows windows-Works 3 desktop (idle no_primary 0 []) 0 corner 100
      (λ e. cc) (none_down refl)

abbrev finger : Contact
finger = record { pointer_id = 1; x = pos 5; y = pos 6; pressure = 512 }

two_fingers_example :
    ((after_two windows windows-Works finger 1 [] 2 (pos 8, pos 9) 100).contacts ≡ [])
    × (button_down (after_two windows windows-Works finger 1 [] 2 (pos 8, pos 9) 100).calls ≡ true)
    × (cancel_touches windows (after_two windows windows-Works finger 1 [] 2 (pos 8, pos 9) 100)
        ≡ after_two windows windows-Works finger 1 [] 2 (pos 8, pos 9) 100)
two_fingers_example =
    two_fingers_stuck windows windows-Works finger 1 [] 2 (pos 8, pos 9) 100 (λ e. omega arith)
      (omega arith)
