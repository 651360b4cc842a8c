-- ===== src/Recorder/History.antt =====
-- app/src/recorder.c: the recorder among the threads that push packets to its sinks and stop it.
-- Each event happens with the mutex held; the writes of a turn do not hold it, but touch nothing that
-- is shared, and for the read of `recorder->stopped` among them a turn has a flag of its own. A
-- stream that is not recorded has no sink that gets packets.
use dskcpy.Prelude.{Option, some, none, Bool, true, List, [], ◌∷◌, ◌++◌, if◌then◌else◌}
use dskcpy.Recorder.{Packet, Muxer, Shared, Local, Stream, push_video, push_audio, stop}
use dskcpy.Recorder.Round.{Phase, running, ended, failed, crashed, stopping, turn}

pub data Event : Type 0 where
  video_packet : (memory : Bool) (p : Packet) → Event
  audio_packet : (memory : Bool) (p : Packet) → Event
  stops : Event
  works : (late : Bool) → Event
  discards : Event

-- The recorder behind its header, with the packets that the sinks have taken since.
pub record Session : Type 0 where
  pub shared : Shared
  pub local : Local
  pub phase : Phase
  pub video_taken : List Packet
  pub audio_taken : List Packet
  pub video_init : Bool
  pub audio_init : Bool

abbrev pub no_stream : Stream
no_stream = record { last_pts = none; frames = [] }

-- The start of the loop, with the packets that wait behind the header, and the sinks that are open.
unfoldable pub start_with : (video_init audio_init : Bool) → Shared → Session
start_with video_init audio_init s = record {
  shared = s;
  local = record {
    pts_origin = none;
    video_pkt = none;
    audio_pkt = none;
    video_pkt_previous = none;
    video_stream = no_stream;
    audio_stream = no_stream;
  };
  phase = running;
  video_taken = s.video_queue;
  audio_taken = s.audio_queue;
  video_init = video_init;
  audio_init = audio_init;
}

-- The start where the sink of each stream that is recorded is open.
unfoldable pub start : Shared → Session
start s = start_with s.video s.audio s

-- The end of `run_recorder`, once the packets are processed.
unfoldable pub discard : Phase → Shared → Shared
discard running s = s
discard ended s = record s { stopped = true; video_queue = []; audio_queue = [] }
discard failed s = record s { stopped = true; video_queue = []; audio_queue = [] }
discard crashed s = s

-- A turn of the loop, while it runs.
unfoldable pub work_on : Muxer → Bool → Session → Phase → Session
work_on mux late z running =
    let r = turn mux late z.shared z.local in
    record z { phase = r.0; shared = stopping late r.1.0; local = r.1.1 }
work_on mux late z ended = z
work_on mux late z failed = z
work_on mux late z crashed = z

-- What a push leaves, where its assertions hold.
unfoldable pub after_video : Session → Packet → Option (Bool × Shared) → Session
after_video z p none = record z { phase = crashed }
after_video z p (some r) = record z {
  shared = r.1;
  video_taken = if r.0 then z.video_taken ++ (p ∷ []) else z.video_taken;
}

unfoldable pub after_audio : Session → Packet → Option (Bool × Shared) → Session
after_audio z p none = record z { phase = crashed }
after_audio z p (some r) = record z {
  shared = r.1;
  audio_taken = if r.0 then z.audio_taken ++ (p ∷ []) else z.audio_taken;
}

unfoldable pub on_event : Muxer → Session → Event → Session
on_event mux z (video_packet memory p) =
    let r = push_video z.video_init memory z.shared p in
    if z.shared.video then after_video z p r else z
on_event mux z (audio_packet memory p) =
    let r = push_audio z.audio_init memory z.shared p in
    if z.shared.audio then after_audio z p r else z
on_event mux z stops = record z { shared = stop z.shared }
on_event mux z (works late) = work_on mux late z z.phase
on_event mux z discards = record z { shared = discard z.phase z.shared }

unfoldable pub run : Muxer → Session → List Event → Session
run mux z [] = z
run mux z (e ∷ es) = run mux (on_event mux z e) es
