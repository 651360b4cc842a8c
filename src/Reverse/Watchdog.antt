-- ===== src/Reverse/Watchdog.antt =====
-- app/src/reverse_watchdog.h: when a stream whose frames are not acknowledged counts as stalled.
-- Times are microseconds of a monotonic clock; a deadline of 0 is not armed.
pub mod Deadline
use dskcpy.Prelude.{
  ℕ, ◌+◌, ◌-◌, ◌≤◌, Bool, true, false, not, ◌&&◌, ◌||◌, ℤ, pos, negsuc, leb_ℤ, leb, ◌==◌,
  if◌then◌else◌,
}

abbrev pub stall_timeout : ℕ
stall_timeout = 10000000

pub record Watchdog : Type 0 where
  pub deadline : ℕ
  pub submitted_pts : ℤ
  pub acked_pts : ℤ
  pub busy : Bool
  pub paused : Bool

unfoldable pub init : Watchdog
init = record {
  deadline = 0;
  submitted_pts = negsuc 0;
  acked_pts = negsuc 0;
  busy = false;
  paused = false;
}

unfoldable pub begin : Watchdog → ℕ → Watchdog
begin w now =
    if w.deadline == 0
    then record w { busy = true; deadline = now + stall_timeout }
    else record w { busy = true }

unfoldable pub submit : Watchdog → ℤ → Watchdog
submit w pts = if leb_ℤ pts w.submitted_pts then w else record w { submitted_pts = pts }

-- Whether the acknowledgement is accepted, and the watchdog.
unfoldable pub ack : Watchdog → ℤ → ℕ → Bool × Watchdog
ack w pts now = if leb_ℤ pts w.acked_pts || not (leb_ℤ pts w.submitted_pts) then (false, w) else (
  true,
  record w {
    acked_pts = pts;
    deadline = if w.busy || not (leb_ℤ w.submitted_pts pts) then now + stall_timeout else 0;
  },
)

unfoldable pub finish : Watchdog → Watchdog
finish w =
    if leb_ℤ w.submitted_pts w.acked_pts
    then record w { busy = false; deadline = 0 }
    else record w { busy = false }

unfoldable pub expired : Watchdog → ℕ → Bool
expired w now = not w.paused && (not (w.deadline == 0) && leb w.deadline now)

abbrev same : Bool → Bool → Bool
same a b = if a then b else not b

unfoldable pub set_paused : Watchdog → Bool → ℕ → Watchdog
set_paused w paused now =
    if same w.paused paused then w else if paused then record w { paused = true } else record w {
      paused = false;
      deadline =
          if w.busy || not (leb_ℤ w.submitted_pts w.acked_pts) then now + stall_timeout else 0;
    }
