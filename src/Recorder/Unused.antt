-- ===== src/Recorder/Unused.antt =====
-- app/src/recorder.c: a stream that is not recorded has no packets behind a turn.
use dskcpy.Prelude.{
  ◌&&◌, ◌||◌, Bool, true, false, List, [], ◌∷◌, Option, none, some, if◌then◌else◌, ◌≡◌, refl, arith,
}
use dskcpy.Recorder.{Packet, Muxer, Shared, Local, is_some, is_empty, must_wait, take_packet}
use dskcpy.Recorder.Round.{Phase, running, crashed, work, take_packets, is_unused, turn}
use dskcpy.Recorder.Streams.{work_none}

unused-take_packet :
    (p : Option Packet) (q : List Packet)
    → is_unused p q ≡ true
    → (is_some (take_packet p q).0 ≡ false) × (is_empty (take_packet p q).1 ≡ true)
unfolding take_packet is_unused
unused-take_packet none [] e = (refl, refl)
unused-take_packet none (x ∷ q) e = ground (arith, e)
unused-take_packet (some x) q e = ground (arith, e)

-- A stream that is not recorded still has no packet behind the pops and the work.
video_unused_step :
    (mux : Muxer) (late : Bool) (s : Shared) (l : Local)
    → (s.video || is_unused l.video_pkt s.video_queue) ≡ true
    → let t = take_packets s l in
      (t.0.video || is_unused (work mux late t.0 t.1).1.video_pkt t.0.video_queue) ≡ true
unfolding take_packets is_unused
video_unused_step mux late s l e =
    let t = take_packets s l in
    ground (arith, e, unused-take_packet l.video_pkt s.video_queue, (work_none mux late t.0 t.1).0)

audio_unused_step :
    (mux : Muxer) (late : Bool) (s : Shared) (l : Local)
    → (s.audio || is_unused l.audio_pkt s.audio_queue) ≡ true
    → let t = take_packets s l in
      (t.0.audio || is_unused (work mux late t.0 t.1).1.audio_pkt t.0.audio_queue) ≡ true
unfolding take_packets is_unused
audio_unused_step mux late s l e =
    let t = take_packets s l in
    ground (arith, e, unused-take_packet l.audio_pkt s.audio_queue, (work_none mux late t.0 t.1).1)

turn_of :
    (test : Shared → Local → Bool) (b c : Bool) (s s' : Shared) (l l' : Local) (p : Phase)
    → test s l ≡ true
    → test s' l' ≡ true
    → let r : Phase × (Shared × Local) =
        if b then (running, (s, l)) else if c then (p, (s', l')) else (crashed, (s, l)) in
      test r.1.0 r.1.1 ≡ true
turn_of test true c s s' l l' p e e' = e
turn_of test false true s s' l l' p e e' = e'
turn_of test false false s s' l l' p e e' = e

abbrev pub video_ok : Shared → Local → Bool
video_ok s l = s.video || is_unused l.video_pkt s.video_queue

abbrev pub audio_ok : Shared → Local → Bool
audio_ok s l = s.audio || is_unused l.audio_pkt s.audio_queue

pub turn_unused :
    (mux : Muxer) (late : Bool) (s : Shared) (l : Local)
    → let r = (turn mux late s l).1 in
      (video_ok s l ≡ true → video_ok r.0 r.1 ≡ true)
      × (audio_ok s l ≡ true → audio_ok r.0 r.1 ≡ true)
unfolding turn
turn_unused mux late s l =
    let t = take_packets s l in
    let done = work mux late t.0 t.1 in
    (
      λ e.
          turn_of video_ok (must_wait s l) (video_ok s l && audio_ok s l) s t.0 l done.1 done.0 e
            (video_unused_step mux late s l e),
      λ e.
          turn_of audio_ok (must_wait s l) (video_ok s l && audio_ok s l) s t.0 l done.1 done.0 e
            (audio_unused_step mux late s l e),
    )
