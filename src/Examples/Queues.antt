-- ===== src/Examples/Queues.antt =====
-- A controller, with what is done to them.
use dskcpy.Prelude.{ℕ, ◌≡◌, ◌++◌, refl, List, [], ◌∷◌, some, true, false, arith, replicate}
use dskcpy.Util.VecDeque
use dskcpy.ControlMsg.Types.{type_of, ControlMsg, camera_zoom_in, uhid_destroy, rotate_device}
use dskcpy.Controller.{Controller, push_msg, resize, stop, must_wait}
use dskcpy.Controller.Inv.{IsValid, PushOutcome, push_msg-PushOutcome}
use dskcpy.Controller.Fifo.{Event, System, IsOrdered, run, run-IsOrdered}
use dskcpy.Controller.Wakeup.{wakeup}

-- The messages have no float in them.
abbrev Message : Type 0
Message = ControlMsg ℕ

abbrev junk : Message
junk = rotate_device

-- A controller with one pending message.
abbrev one_pending : Controller ℕ
one_pending = record {
  queue = record {
    cap = 64;
    origin = 63;
    size = 1;
    items = replicate 63 junk ++ (camera_zoom_in ∷ []);
  };
  stopped = false;
  resize_width = 0;
  resize_height = 0;
}

one_pending-IsValid : IsValid 1000 one_pending
one_pending-IsValid = record {
  queue = record {
    storage = refl;
    small = omega arith;
    start = omega arith;
    fits = omega arith;
    limit = omega arith;
  };
  room = omega arith;
}

-- One with nothing to do.
abbrev idle : Controller ℕ
idle = record one_pending {
  queue = record { cap = 64; origin = 0; size = 0; items = replicate 64 junk };
}

idle-IsValid : IsValid 1000 idle
idle-IsValid = record {
  queue = record {
    storage = refl;
    small = omega arith;
    start = omega arith;
    fits = omega arith;
    limit = omega arith;
  };
  room = omega arith;
}

push_msg_example :
    PushOutcome 1000 junk true one_pending
      (uhid_destroy 3)
      (push_msg 1000 junk true one_pending (uhid_destroy 3))
unfolding type_of
push_msg_example =
    push_msg-PushOutcome 1000 junk true one_pending (uhid_destroy 3) one_pending-IsValid
      (omega arith)

wakeup_example :
    ((c' : Controller ℕ) × (push_msg 1000 junk false idle camera_zoom_in ≡ some (true, true, c'))
      × (must_wait c' ≡ false))
    × ((c' : Controller ℕ) × (resize idle 800 600 ≡ some (true, c')) × (must_wait c' ≡ false))
    × ((stop idle).0 ≡ true)
    × (must_wait (stop idle).1 ≡ false)
unfolding type_of must_wait VecDeque.is_empty
wakeup_example =
    wakeup 1000 junk idle false camera_zoom_in 800 600 idle-IsValid refl (omega arith) (omega arith)
      (omega arith)

-- A push while the thread waits, a resize, a round for each, and a stop.
abbrev history : List (Event 1000 junk)
history =
    Event.pushes true camera_zoom_in
    ∷ Event.resizes 800 600
    ∷ Event.round
    ∷ Event.round
    ∷ Event.told_to_stop
    ∷ Event.round
    ∷ []

abbrev at_first : System 1000 junk
at_first = record { controller = one_pending; accepted = camera_zoom_in ∷ []; sent = [] }

run_example :
    (s' : System 1000 junk) × (run 1000 junk history at_first ≡ some s') × IsOrdered 1000 junk s'
unfolding type_of
run_example =
    run-IsOrdered 1000 junk history at_first
      (omega arith, ((omega arith, omega arith), (tt, (tt, (tt, (tt, tt))))))
      (record { valid = one_pending-IsValid; order = refl })
