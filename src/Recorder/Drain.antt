-- ===== src/Recorder/Drain.antt =====
-- app/src/recorder.c: a turn of a recorder that is stopped leaves fewer packets, or is the last one.
use dskcpy.Prelude.{
  ℕ, ◌+◌, ◌&&◌, Bool, true, false, List, [], ◌∷◌, Option, none, some, if◌then◌else◌, ◌≡◌, refl,
  arith, ◌<◌, length,
}
use dskcpy.Recorder.{
  Packet, Timed, Muxer, Shared, Local, is_some, must_wait, choose_origin, take_packet,
}
use dskcpy.Recorder.Round.{
  stopping, Phase, running, ended, failed, crashed, video_step, audio_step, write_packets,
  write_last, drop_configs, work, take_packets, turn,
}
use dskcpy.Recorder.Turns.{video-audio_step}
use dskcpy.Recorder.Complete.{is_idle, may_end}
use dskcpy.Recorder.Streams.{has_video, has_audio}
use dskcpy.Recorder.Unused.{video_ok, audio_ok}

abbrev pub is_running : Phase → Bool
is_running running = true
is_running ended = false
is_running failed = false
is_running crashed = false

-- The packets that are left.
abbrev pub one_if : Bool → ℕ
one_if true = 1
one_if false = 0

abbrev pub weight : Shared → Local → ℕ
weight s l =
    (one_if (is_some l.video_pkt) + length s.video_queue)
    + (one_if (is_some l.audio_pkt) + length s.audio_queue)

-- Whether the choice of the origin waits.
abbrev waits : Option (Option ℕ) → Bool
waits none = false
waits (some none) = true
waits (some (some origin)) = false

choose_origin-stopped :
    (s : Shared) (origin : Option ℕ) (v a : Option Packet)
    → s.stopped ≡ true
    → waits (choose_origin s origin v a) ≡ false
unfolding choose_origin
choose_origin-stopped s (some origin) v a e = refl
choose_origin-stopped s none (some v) (some a) e = ground arith
choose_origin-stopped s none (some v) none e = ground (arith, e)
choose_origin-stopped s none none (some a) e = ground (arith, e)
choose_origin-stopped s none none none e = ground (arith, e)

video_step-done :
    (mux : Muxer) (origin : ℕ) (l : Local) (p : Option Packet) (previous : Option Timed)
    → l.video_pkt ≡ p
    → (video_step mux origin l p previous).0 ≡ true
    → has_video (video_step mux origin l p previous).1 ≡ false
unfolding video_step
video_step-done mux origin l none previous e t = rw e refl
video_step-done mux origin l (some p) none e t = refl
video_step-done mux origin l (some p) (some q) e t = ground (arith, t)

audio_step-done :
    (mux : Muxer) (origin : ℕ) (l : Local) (p : Option Packet)
    → l.audio_pkt ≡ p
    → (audio_step mux origin l p).0 ≡ true
    → has_audio (audio_step mux origin l p).1 ≡ false
unfolding audio_step
audio_step-done mux origin l none e t = rw e refl
audio_step-done mux origin l (some p) e t = ground (arith, t)

both_done :
    (v_ok a_ok : Bool) (v a : Local)
    → (v_ok ≡ true → has_video a ≡ false)
    → (a_ok ≡ true → has_audio a ≡ false)
    → let r : Phase × Local = if v_ok then (if a_ok then running else failed, a) else (failed, v) in
      is_running r.0 ≡ true → (has_video r.1 ≡ false) × (has_audio r.1 ≡ false)
both_done true true v a hv ha e = (hv refl, ha refl)
both_done true false v a hv ha e = ground (arith, e)
both_done false a_ok v a hv ha e = ground (arith, e)

write_packets-done :
    (mux : Muxer) (l : Local) (choice : Option (Option ℕ))
    → waits choice ≡ false
    → let r = write_packets mux l choice in
      is_running r.0 ≡ true → (has_video r.1 ≡ false) × (has_audio r.1 ≡ false)
unfolding write_packets
write_packets-done mux l none w e = ground (arith, e)
write_packets-done mux l (some none) w e = ground (arith, w)
write_packets-done mux l (some (some origin)) w e =
    let l' : Local = record l { pts_origin = some origin } in
    let v = video_step mux origin l' l.video_pkt l.video_pkt_previous in
    let a = audio_step mux origin v.1 v.1.audio_pkt in
    both_done v.0 a.0 v.1 a.1
      (λ t.
        rw (video-audio_step mux origin v.1 v.1.audio_pkt).1
          (video_step-done mux origin l' l.video_pkt l.video_pkt_previous refl t))
      (audio_step-done mux origin v.1 v.1.audio_pkt refl) e

work_done_cases :
    (mux : Muxer) (late : Bool) (s : Shared) (l : Local) (idle : Bool)
    → is_idle l ≡ idle
    → s.stopped ≡ true
    → let d = drop_configs l in
      let r : Phase × Local =
        if idle
        then (if may_end s
            then (
              if mux.writes_trailer then ended else failed,
              write_last mux l l.video_pkt_previous,
            )
            else (crashed, l))
        else write_packets mux d
            (choose_origin (stopping late s) d.pts_origin d.video_pkt d.audio_pkt) in
      is_running r.0 ≡ true
      → (is_idle l ≡ false) × (has_video r.1 ≡ false) × (has_audio r.1 ≡ false)
work_done_cases mux late s l true i stopped e = ground (arith, e)
work_done_cases mux late s l false i stopped e =
    let d = drop_configs l in
    let choice = choose_origin (stopping late s) d.pts_origin d.video_pkt d.audio_pkt in
    let w =
      write_packets-done mux d choice
        (choose_origin-stopped (stopping late s) d.pts_origin d.video_pkt d.audio_pkt
          (rw stopped refl))
        e in
    (i, w.0, w.1)

-- Behind the pops: the loop goes on only if a packet was there, and then none is left.
work-done :
    (mux : Muxer) (late : Bool) (s : Shared) (l : Local)
    → s.stopped ≡ true
    → is_running (work mux late s l).0 ≡ true
    → (is_idle l ≡ false)
      × (has_video (work mux late s l).1 ≡ false)
      × (has_audio (work mux late s l).1 ≡ false)
unfolding work
work-done mux late s l stopped e = work_done_cases mux late s l (is_idle l) refl stopped e

weight-take_packet :
    (p : Option Packet) (q : List Packet)
    → let r = take_packet p q in one_if (is_some r.0) + length r.1 ≡ one_if (is_some p) + length q
unfolding take_packet
weight-take_packet none [] = refl
weight-take_packet none (x ∷ q) = omega arith
weight-take_packet (some x) q = refl

weight-take_packets :
    (s : Shared) (l : Local) → weight (take_packets s l).0 (take_packets s l).1 ≡ weight s l
unfolding take_packets
weight-take_packets s l = omega (
  arith,
  weight-take_packet l.video_pkt s.video_queue,
  weight-take_packet l.audio_pkt s.audio_queue,
)

-- Packets are left where a packet is held, and fewer when none is.
weight_falls :
    (s : Shared) (l l' : Local)
    → is_idle l ≡ false
    → has_video l' ≡ false
    → has_audio l' ≡ false
    → weight s l' < weight s l
weight_falls s l l' busy v a = ground (arith, busy, v, a)

take_packets-stopped :
    (s : Shared) (l : Local) → s.stopped ≡ true → (take_packets s l).0.stopped ≡ true
unfolding take_packets
take_packets-stopped s l e = e

must_wait-stopped : (s : Shared) (l : Local) → s.stopped ≡ true → must_wait s l ≡ false
unfolding must_wait
must_wait-stopped s l e = ground (arith, e)

turn_done_cases :
    (mux : Muxer) (late : Bool) (s : Shared) (l : Local) (wait ok : Bool)
    → wait ≡ false
    → s.stopped ≡ true
    → let t = take_packets s l in
      let done = work mux late t.0 t.1 in
      let r : Phase × (Shared × Local) =
        if wait
        then (running, (s, l))
        else if ok
        then (done.0, (t.0, done.1))
        else (crashed, (s, l)) in
      is_running r.0 ≡ true → (weight r.1.0 r.1.1 < weight s l) × (r.1.0.stopped ≡ true)
turn_done_cases mux late s l true ok w stopped e = ground (arith, w)
turn_done_cases mux late s l false true w stopped e =
    let t = take_packets s l in
    let d = work-done mux late t.0 t.1 (take_packets-stopped s l stopped) e in
    (
      omega (
        arith,
        weight-take_packets s l,
        weight_falls t.0 t.1 (work mux late t.0 t.1).1 d.0 d.1 d.2,
      ),
      take_packets-stopped s l stopped,
    )
turn_done_cases mux late s l false false w stopped e = ground (arith, e)

pub turn-done :
    (mux : Muxer) (late : Bool) (s : Shared) (l : Local)
    → s.stopped ≡ true
    → let r = turn mux late s l in
      is_running r.0 ≡ true → (weight r.1.0 r.1.1 < weight s l) × (r.1.0.stopped ≡ true)
unfolding turn
turn-done mux late s l stopped e =
    turn_done_cases mux late s l (must_wait s l) (video_ok s l && audio_ok s l)
      (must_wait-stopped s l stopped) stopped e
