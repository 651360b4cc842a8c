-- ===== src/Reverse/Watchdog/Deadline.antt =====
-- The watchdog of app/src/reverse_watchdog.h over a history of its operations.
use dskcpy.Prelude.{
  ℕ, ◌<◌, ◌≡◌, List, [], ◌∷◌, Bool, true, false, not, ◌&&◌, ◌||◌, ℤ, leb_ℤ, ◌≤ℤ◌, leb, ◌==◌, arith,
}
use dskcpy.Reverse.Watchdog.{Watchdog, init, begin, submit, ack, finish, expired, set_paused}

pub data Event : Type 0 where
  begins : (now : ℕ) → Event
  submits : (pts : ℤ) → Event
  acks : (pts : ℤ) (now : ℕ) → Event
  finishes : Event
  pauses : (paused : Bool) (now : ℕ) → Event

unfoldable pub step : Watchdog → Event → Watchdog
unfolding begin submit ack finish set_paused
step w (begins now) = begin w now
step w (submits pts) = submit w pts
step w (acks pts now) = (ack w pts now).1
step w finishes = finish w
step w (pauses paused now) = set_paused w paused now

-- A frame is being captured or sent, or one that was sent is not acknowledged.
abbrev pub outstanding : Watchdog → Bool
outstanding w = w.busy || not (leb_ℤ w.submitted_pts w.acked_pts)

pub record Inv (w : Watchdog) : Type 0 where
  pub acked_submitted : w.acked_pts ≤ℤ w.submitted_pts
  pub armed : (not (w.deadline == 0)) ≡ outstanding w

pub init-Inv : Inv init
unfolding init
init-Inv = ground arith

-- The sender submits a frame while it is busy with it.
abbrev pub Proper : Watchdog → Event → Type 0
Proper w (submits pts) = w.busy ≡ true
Proper w (begins now) = Unit
Proper w (acks pts now) = Unit
Proper w finishes = Unit
Proper w (pauses paused now) = Unit

-- An operation keeps the invariant.
pub step-Inv : (w : Watchdog) (e : Event) → Proper w e → Inv w → Inv (step w e)
unfolding step begin submit ack finish set_paused
step-Inv w (begins now) h i = ground arith
step-Inv w (submits pts) h i = ground arith
step-Inv w (acks pts now) h i = ground arith
step-Inv w finishes h i = ground arith
step-Inv w (pauses paused now) h i = ground arith

unfoldable pub run : Watchdog → List Event → Watchdog
run w [] = w
run w (e ∷ es) = run (step w e) es

-- Every event of a history is proper where it happens.
abbrev pub IsProper : Watchdog → List Event → Type 0
IsProper w [] = Unit
IsProper w (e ∷ es) = Proper w e × IsProper (step w e) es

run-Inv : (w : Watchdog) (es : List Event) → IsProper w es → Inv w → Inv (run w es)
unfolding run
run-Inv w [] h i = i
run-Inv w (e ∷ es) h i = run-Inv (step w e) es h.1 (step-Inv w e h.0 i)

expired-Inv :
    (w : Watchdog) (now : ℕ)
    → Inv w
    → expired w now ≡ not w.paused && (outstanding w && leb w.deadline now)
unfolding expired
expired-Inv w now i = ground arith

-- After any history of a new watchdog in which frames are submitted only while the sender is busy,
-- the watchdog has expired exactly when it is not paused, a frame is outstanding and its deadline is
-- reached.
expired-outstanding :
    (es : List Event) (now : ℕ)
    → IsProper init es
    → expired (run init es) now
      ≡ not (run init es).paused && (outstanding (run init es) && leb (run init es).deadline now)
expired-outstanding es now h = expired-Inv (run init es) now (run-Inv init es h init-Inv)

-- Neither an acknowledgement that is accepted nor a pause.
abbrev pub Quiet : Watchdog → Event → Type 0
Quiet w (acks pts now) = (ack w pts now).0 ≡ false
Quiet w (pauses paused now) = paused ≡ false
Quiet w (begins now) = Unit
Quiet w (submits pts) = Unit
Quiet w finishes = Unit

abbrev pub IsQuiet : Watchdog → List Event → Type 0
IsQuiet w [] = Unit
IsQuiet w (e ∷ es) = Quiet w e × IsQuiet (step w e) es

-- A frame was sent and is not acknowledged, and the watchdog watches with this deadline.
pub record Waits (deadline : ℕ) (w : Watchdog) : Type 0 where
  pub unacked : leb_ℤ w.submitted_pts w.acked_pts ≡ false
  pub watching : w.paused ≡ false
  pub since : w.deadline ≡ deadline
  pub armed : 0 < deadline

step-Waits : (d : ℕ) (w : Watchdog) (e : Event) → Quiet w e → Waits d w → Waits d (step w e)
unfolding step begin submit ack finish set_paused
step-Waits d w (begins now) q h = ground arith
step-Waits d w (submits pts) q h = ground arith
step-Waits d w (acks pts now) q h = ground arith
step-Waits d w finishes q h = ground arith
step-Waits d w (pauses paused now) q h = ground arith

expired-Waits : (d : ℕ) (w : Watchdog) (now : ℕ) → Waits d w → expired w now ≡ leb d now
unfolding expired
expired-Waits d w now h = ground arith

-- While a frame waits for its acknowledgement and the watchdog is not paused, no sequence of begins,
-- further submissions, ends, refused acknowledgements and repeated resumes moves the deadline: the
-- watchdog expires exactly when the deadline is reached.
pub stall_detected :
    (d : ℕ) (w : Watchdog) (es : List Event) (now : ℕ)
    → Waits d w
    → IsQuiet w es
    → expired (run w es) now ≡ leb d now
unfolding run
stall_detected d w [] now h q = expired-Waits d w now h
stall_detected d w (e ∷ es) now h q =
    stall_detected d (step w e) es now (step-Waits d w e q.0 h) q.1
