-- ===== src/Recorder/Streams.antt =====
-- app/src/recorder.c: a stream that is not recorded never has a packet, and the loop ends only when
-- the recorder is stopped.
use dskcpy.Prelude.{ℕ, Bool, true, false, Option, none, some, if◌then◌else◌, ◌≡◌, refl, arith}
use dskcpy.Recorder.{Packet, Timed, Muxer, Shared, Local, is_some, drop_config, choose_origin}
use dskcpy.Recorder.Round.{
  stopping, Phase, running, ended, failed, crashed, write_packets, write_last, drop_configs, work,
  take_packets, turn, video_step, audio_step,
}
use dskcpy.Recorder.Turns.{audio-video_step, video-audio_step}
use dskcpy.Recorder.Complete.{is_idle, may_end}

abbrev pub is_ended : Phase → Bool
is_ended running = false
is_ended ended = true
is_ended failed = false
is_ended crashed = false

pub video_step_none :
    (mux : Muxer) (origin : ℕ) (l : Local) (p : Option Packet) (previous : Option Timed)
    → is_some p ≡ false
    → video_step mux origin l p previous ≡ (true, l)
unfolding video_step
video_step_none mux origin l none previous e = refl
video_step_none mux origin l (some p) previous e = ground (arith, e)

audio_step_none :
    (mux : Muxer) (origin : ℕ) (l : Local) (p : Option Packet)
    → is_some p ≡ false
    → audio_step mux origin l p ≡ (true, l)
unfolding audio_step
audio_step_none mux origin l none e = refl
audio_step_none mux origin l (some p) e = ground (arith, e)

pub drop_config_none : (p : Option Packet) → is_some p ≡ false → is_some (drop_config p) ≡ false
unfolding drop_config
drop_config_none none e = refl
drop_config_none (some p) e = ground (arith, e)

write_last_pkts :
    (mux : Muxer) (l : Local) (previous : Option Timed)
    → let r = write_last mux l previous in (r.video_pkt ≡ l.video_pkt) × (r.audio_pkt ≡ l.audio_pkt)
unfolding write_last
write_last_pkts mux l none = (refl, refl)
write_last_pkts mux l (some q) = (refl, refl)

either :
    (test : Local → Bool) (ok : Bool) (p q : Phase) (a v : Local)
    → test a ≡ false
    → test v ≡ false
    → test (let r : Phase × Local = if ok then (p, a) else (q, v) in r.1) ≡ false
either test true p q a v ea ev = ea
either test false p q a v ea ev = ev

one_of :
    (test : Local → Bool) (idle stops : Bool) (p : Phase) (a v : Local) (r : Phase × Local)
    → test a ≡ false
    → test v ≡ false
    → test r.1 ≡ false
    → test (
        let r' : Phase × Local = if idle then (if stops then (p, a) else (crashed, v)) else r in
        r'.1)
      ≡ false
one_of test true true p a v r ea ev er = ea
one_of test true false p a v r ea ev er = ev
one_of test false stops p a v r ea ev er = er

abbrev pub has_video : Local → Bool
has_video l = is_some l.video_pkt

abbrev pub has_audio : Local → Bool
has_audio l = is_some l.audio_pkt

-- No packet comes up in the writes.
write_packets_none :
    (mux : Muxer) (l : Local) (choice : Option (Option ℕ))
    → let r = (write_packets mux l choice).1 in
      (is_some l.video_pkt ≡ false → is_some r.video_pkt ≡ false)
      × (is_some l.audio_pkt ≡ false → is_some r.audio_pkt ≡ false)
unfolding write_packets
write_packets_none mux l none = ((λ e. e), λ e. e)
write_packets_none mux l (some none) = ((λ e. e), λ e. e)
write_packets_none mux l (some (some origin)) =
    let l' : Local = record l { pts_origin = some origin } in
    let v = video_step mux origin l' l.video_pkt l.video_pkt_previous in
    let a = audio_step mux origin v.1 v.1.audio_pkt in
    let same = audio-video_step mux origin l' l.video_pkt l.video_pkt_previous in
    let same' = video-audio_step mux origin v.1 v.1.audio_pkt in
    (
      λ e.
          let none_left : is_some v.1.video_pkt ≡ false =
            rw (video_step_none mux origin l' l.video_pkt l.video_pkt_previous e) e in
          either has_video v.0 (if a.0 then running else failed) failed a.1 v.1
            (rw same'.1 none_left) none_left,
      λ e.
          let none_left : is_some v.1.audio_pkt ≡ false = rw same.1 e in
          either has_audio v.0 (if a.0 then running else failed) failed a.1 v.1
            (rw (audio_step_none mux origin v.1 v.1.audio_pkt none_left) none_left) none_left,
    )

pub work_none :
    (mux : Muxer) (late : Bool) (s : Shared) (l : Local)
    → let r = (work mux late s l).1 in
      (has_video l ≡ false → has_video r ≡ false) × (has_audio l ≡ false → has_audio r ≡ false)
unfolding work drop_configs
work_none mux late s l =
    let d = drop_configs l in
    let w =
      write_packets_none mux d
        (choose_origin (stopping late s) d.pts_origin d.video_pkt d.audio_pkt) in
    let last = write_last_pkts mux l l.video_pkt_previous in
    let end : Phase = if mux.writes_trailer then ended else failed in
    (
      λ e.
          one_of has_video (is_idle l) (may_end s) end (write_last mux l l.video_pkt_previous) l
            (write_packets mux d
              (choose_origin (stopping late s) d.pts_origin d.video_pkt d.audio_pkt))
            (rw last.0 e) e (w.0 (drop_config_none l.video_pkt e)),
      λ e.
          one_of has_audio (is_idle l) (may_end s) end (write_last mux l l.video_pkt_previous) l
            (write_packets mux d
              (choose_origin (stopping late s) d.pts_origin d.video_pkt d.audio_pkt))
            (rw last.1 e) e (w.1 (drop_config_none l.audio_pkt e)),
    )

write_packets_goes_on :
    (mux : Muxer) (l : Local) (choice : Option (Option ℕ))
    → is_ended (write_packets mux l choice).0 ≡ false
unfolding write_packets
write_packets_goes_on mux l none = refl
write_packets_goes_on mux l (some none) = refl
write_packets_goes_on mux l (some (some origin)) = ground arith

work-stopped :
    (mux : Muxer) (late : Bool) (s : Shared) (l : Local)
    → is_ended (work mux late s l).0 ≡ true
    → s.stopped ≡ true
unfolding work
work-stopped mux late s l e =
    let d = drop_configs l in
    ground (
      arith,
      e,
      write_packets_goes_on mux d
          (choose_origin (stopping late s) d.pts_origin d.video_pkt d.audio_pkt),
    )

pub turn-stopped :
    (mux : Muxer) (late : Bool) (s : Shared) (l : Local)
    → is_ended (turn mux late s l).0 ≡ true
    → s.stopped ≡ true
unfolding turn take_packets
turn-stopped mux late s l e =
    let taken = take_packets s l in ground (arith, e, work-stopped mux late taken.0 taken.1)
