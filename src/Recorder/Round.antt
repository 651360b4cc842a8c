-- ===== src/Recorder/Round.antt =====
-- app/src/recorder.c: one turn of the loop of `sc_recorder_process_packets`, and what follows it.
use dskcpy.Prelude.{
  diff, sub_ℤ, ℕ, ◌&&◌, ◌||◌, not, Bool, true, false, List, Option, none, some, if◌then◌else◌, pos,
}
use dskcpy.Recorder.{
  Packet, Muxer, Shared, Timed, Local, is_some, is_empty, rescale, write_stream, must_wait,
  take_packet, drop_config, pts_of, choose_origin,
}

-- `crashed` is a failed assertion.
pub data Phase : Type 0 where
  running : Phase
  ended : Phase
  failed : Phase
  crashed : Phase

-- Both packets are taken from the queues where none is held.
unfoldable pub take_packets : Shared → Local → Shared × Local
take_packets s l =
    let v = take_packet l.video_pkt s.video_queue in
    let a = take_packet l.audio_pkt s.audio_queue in
    (
      record s { video_queue = v.1; audio_queue = a.1 },
      record l { video_pkt = v.0; audio_pkt = a.0 },
    )

unfoldable pub drop_configs : Local → Local
drop_configs l = record l {
  video_pkt = drop_config l.video_pkt;
  audio_pkt = drop_config l.audio_pkt;
}

-- `pkt->pts -= pts_origin`
abbrev pub timed : ℕ → Packet → Timed
timed origin p = record { id = p.id; pts = diff (pts_of p) origin }

-- The packet before this one is written now that its duration is known: whether this went well.
unfoldable pub video_step : Muxer → ℕ → Local → Option Packet → Option Timed → Bool × Local
video_step mux origin l none previous = (true, l)
video_step mux origin l (some p) none =
    (true, record l { video_pkt_previous = some (timed origin p); video_pkt = none })
video_step mux origin l (some p) (some previous) =
    let now = timed origin p in
    let w = write_stream mux.accepts l.video_stream (
      rescale mux.rescale_video
        (record { id = previous.id; pts = previous.pts; duration = sub_ℤ now.pts previous.pts })) in
    if w.0
    then (true, record l { video_stream = w.1; video_pkt_previous = some now; video_pkt = none })
    else (false, record l { video_stream = w.1; video_pkt_previous = none })

unfoldable pub audio_step : Muxer → ℕ → Local → Option Packet → Bool × Local
audio_step mux origin l none = (true, l)
audio_step mux origin l (some p) =
    let w = write_stream mux.accepts l.audio_stream (
      rescale mux.rescale_audio
        (record { id = p.id; pts = (timed origin p).pts; duration = p.duration })) in
    if w.0
    then (true, record l { audio_stream = w.1; audio_pkt = none })
    else (false, record l { audio_stream = w.1 })

-- The part of a turn behind the choice of the origin.
unfoldable pub write_packets : Muxer → Local → Option (Option ℕ) → Phase × Local
write_packets mux l none = (failed, l)
write_packets mux l (some none) = (running, l)
write_packets mux l (some (some origin)) =
    let v =
      video_step mux origin (record l { pts_origin = some origin }) l.video_pkt
        l.video_pkt_previous in
    let a = audio_step mux origin v.1 v.1.audio_pkt in
    if v.0 then (if a.0 then running else failed, a.1) else (failed, v.1)

-- The last video packet gets a duration of 100 ms, and a failure to write it is ignored.
unfoldable pub write_last : Muxer → Local → Option Timed → Local
write_last mux l none = l
write_last mux l (some previous) =
    let w = write_stream mux.accepts l.video_stream (
      rescale mux.rescale_video
        (record { id = previous.id; pts = previous.pts; duration = pos 100000 })) in
    record l { video_stream = w.1; video_pkt_previous = none }

-- `recorder->stopped` is read again without the mutex: `late` tells that it was set in between.
abbrev pub stopping : Bool → Shared → Shared
stopping late s = record s { stopped = s.stopped || late }

-- The part of a turn behind the two pops.
unfoldable pub work : Muxer → (late : Bool) → Shared → Local → Phase × Local
work mux late s l =
    let dropped = drop_configs l in
    if not (is_some l.video_pkt) && not (is_some l.audio_pkt)
    then (if s.stopped && (is_empty s.video_queue && is_empty s.audio_queue)
        then (if mux.writes_trailer then ended else failed, write_last mux l l.video_pkt_previous)
        else (crashed, l))
    else write_packets mux dropped
        (choose_origin (stopping late s) dropped.pts_origin dropped.video_pkt dropped.audio_pkt)

-- A stream that is not recorded has no packets.
unfoldable pub is_unused : Option Packet → List Packet → Bool
is_unused p q = not (is_some p) && is_empty q

-- One turn of the loop; where it has to wait nothing changes.
unfoldable pub turn : Muxer → (late : Bool) → Shared → Local → Phase × (Shared × Local)
turn mux late s l =
    let taken = take_packets s l in
    let done = work mux late taken.0 taken.1 in
    if must_wait s l
    then (running, (s, l))
    else if (s.video || is_unused l.video_pkt s.video_queue)
        && (s.audio || is_unused l.audio_pkt s.audio_queue)
    then (done.0, (taken.0, done.1))
    else (crashed, (s, l))
