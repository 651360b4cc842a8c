-- ===== src/Recorder.antt =====
-- app/src/recorder.c: the thread that writes the packets of both streams to a file. A packet is its
-- timestamp, if it is no config packet, its duration and a number that stands for its data. The
-- queues are lists, as the theorems on app/src/util/vecdeque.h have them. What FFmpeg does is the
-- parameter `Muxer`: the conversion to the time base of a stream, and whether a frame is written.
-- A failed assertion is `none`. A timestamp is the value of an int64_t, and the last one of a stream
-- is `none` where it is AV_NOPTS_VALUE, which is the least int64_t.
pub mod Round
pub mod Media
pub mod Steps
pub mod Header
pub mod History
pub mod Turns
pub mod Complete
pub mod Streams
pub mod Unused
pub mod Accounts
pub mod Runs
pub mod Drain
pub mod Ends
use dskcpy.Prelude.{
  diff, ℕ, zero, suc, ◌+◌, ◌-◌, ◌&&◌, ◌||◌, not, Bool, true, false, List, [], ◌∷◌, ◌++◌, Option,
  none, some, ltb, leb, ◌==◌, if◌then◌else◌, min, ℤ, pos, negsuc, pos_part, neg_part, leb_ℤ,
}

pub record Packet : Type 0 where
  pub pts : Option ℕ
  pub duration : ℤ
  pub id : ℕ

-- A frame as the muxer gets it.
pub record Frame : Type 0 where
  pub id : ℕ
  pub pts : ℤ
  pub duration : ℤ

-- `struct sc_recorder_stream`, and what was written to it.
pub record Stream : Type 0 where
  pub last_pts : Option ℤ
  pub frames : List Frame

pub record Muxer : Type 0 where
  pub rescale_video : ℤ → ℤ
  pub rescale_audio : ℤ → ℤ
  pub accepts : Frame → Bool
  pub writes_trailer : Bool

-- What the other threads share with the recorder, with the mutex held.
pub record Shared : Type 0 where
  pub video : Bool
  pub audio : Bool
  pub stopped : Bool
  pub video_queue : List Packet
  pub audio_queue : List Packet

-- A packet whose timestamp is counted from the origin.
pub record Timed : Type 0 where
  pub id : ℕ
  pub pts : ℤ

-- The variables of `sc_recorder_process_packets`, and the streams.
pub record Local : Type 0 where
  pub pts_origin : Option ℕ
  pub video_pkt : Option Packet
  pub audio_pkt : Option Packet
  pub video_pkt_previous : Option Timed
  pub video_stream : Stream
  pub audio_stream : Stream

abbrev pub is_some {ℓ} : {A : Type ℓ} → Option A → Bool
is_some none = false
is_some (some a) = true

abbrev pub is_empty : List Packet → Bool
is_empty [] = true
is_empty (p ∷ q) = false

abbrev pub add_one : ℤ → ℤ
add_one a = diff (pos_part a + 1) (neg_part a)

-- The push of the video sink: whether the packet is taken. The sink is open where `video_init`, and
-- `memory` tells whether there is memory for the reference and for the queue.
unfoldable pub push_video : (video_init memory : Bool) → Shared → Packet → Option (Bool × Shared)
push_video video_init memory s p =
    if not video_init
    then none
    else if s.stopped
    then some (false, s)
    else if memory
    then some (true, record s { video_queue = s.video_queue ++ (p ∷ []) })
    else some (false, s)

-- The push of the audio sink.
unfoldable pub push_audio : (audio_init memory : Bool) → Shared → Packet → Option (Bool × Shared)
push_audio audio_init memory s p =
    if not (s.audio && audio_init)
    then none
    else if s.stopped
    then some (false, s)
    else if memory
    then some (true, record s { audio_queue = s.audio_queue ++ (p ∷ []) })
    else some (false, s)

-- `sc_recorder_stop`, and the close of an open sink.
unfoldable pub stop : Shared → Shared
stop s = record s { stopped = true }

-- `av_packet_rescale_ts`, which converts only a duration above 0.
abbrev pub rescale : (ℤ → ℤ) → Frame → Frame
rescale to_stream f = record f {
  pts = to_stream f.pts;
  duration = if leb_ℤ f.duration (pos 0) then f.duration else to_stream f.duration;
}

abbrev pub int64_max : ℤ
int64_max = pos 0x7fffffffffffffff

-- AV_NOPTS_VALUE
abbrev pub no_pts : ℤ
no_pts = negsuc 0x7fffffffffffffff

-- `++last_pts`, which wraps around.
abbrev pub next_pts : ℤ → ℤ
next_pts last_pts = if leb_ℤ int64_max last_pts then no_pts else add_one last_pts

-- A timestamp that is not above the last one of the stream becomes the next one.
abbrev pub fix_pts : Option ℤ → ℤ → ℤ
fix_pts none pts = pts
fix_pts (some last_pts) pts = if leb_ℤ pts last_pts then next_pts last_pts else pts

-- The last timestamp, as the next packet reads it.
abbrev pub last_of : ℤ → Option ℤ
last_of pts = if leb_ℤ pts no_pts then none else some pts

-- `sc_recorder_write_stream` behind the conversion of its packet: whether it is written.
unfoldable pub write_stream : (Frame → Bool) → Stream → Frame → Bool × Stream
write_stream accepts st packet =
    let fixed = fix_pts st.last_pts packet.pts in
    let frame = record packet { pts = fixed } in
    (
      accepts frame,
      record {
        last_pts = last_of fixed;
        frames = if accepts frame then st.frames ++ (frame ∷ []) else st.frames;
      },
    )

-- The condition of the loop around `sc_cond_wait`.
unfoldable pub must_wait : Shared → Local → Bool
must_wait s l =
    not s.stopped
    && (not (s.video && (not (is_some l.video_pkt) && not (is_empty s.video_queue)))
        && not (s.audio && (not (is_some l.audio_pkt) && not (is_empty s.audio_queue))))

-- `if (!pkt && !sc_vecdeque_is_empty(queue)) pkt = sc_vecdeque_pop(queue);`
unfoldable pub take_packet : Option Packet → List Packet → Option Packet × List Packet
take_packet none [] = (none, [])
take_packet none (p ∷ q) = (some p, q)
take_packet (some p) q = (some p, q)

-- A config packet is freed.
unfoldable pub drop_config : Option Packet → Option Packet
drop_config none = none
drop_config (some p) = if is_some p.pts then some p else none

-- The timestamp of a packet that is no config packet.
abbrev pub pts_of : Packet → ℕ
pts_of p = elim p.pts [ none ↦ 0 | some n ↦ n ]

-- The choice of the origin: `none` is the error, and `some none` waits for more packets.
unfoldable pub choose_origin :
    Shared → Option ℕ → (video_pkt audio_pkt : Option Packet) → Option (Option ℕ)
choose_origin s (some origin) v a = some (some origin)
choose_origin s none (some v) (some a) =
    if not s.audio
    then some (some (pts_of v))
    else if not s.video
    then some (some (pts_of a))
    else some (some (min (pts_of v) (pts_of a)))
choose_origin s none (some v) none =
    if not s.audio || s.stopped then some (some (pts_of v)) else some none
choose_origin s none none (some a) =
    if not s.video then some (some (pts_of a)) else if s.stopped then none else some none
choose_origin s none none none = if s.stopped then none else some none
