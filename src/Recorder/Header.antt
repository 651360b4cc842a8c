-- ===== src/Recorder/Header.antt =====
-- app/src/recorder.c: the opening of both sinks, and `sc_recorder_process_header`, which waits for
-- it. Whether FFmpeg makes the stream, whether the codec has a config packet, whether there is
-- memory for it and whether the header is written are arguments; a failed assertion is `none`.
use dskcpy.Prelude.{
  Bool-cases, inl, inr, ◌&&◌, ◌||◌, not, Bool, true, false, List, [], ◌∷◌, Option, none, some,
  if◌then◌else◌, ◌≡◌, refl, arith,
}
use dskcpy.Recorder.{Packet, Shared, is_some, is_empty}
use dskcpy.Recorder.Media.{media}

pub record Setup : Type 0 where
  pub shared : Shared
  pub video_init : Bool
  pub audio_init : Bool
  pub video_expects_config_packet : Bool
  pub audio_expects_config_packet : Bool

unfoldable pub open_video : (ready config : Bool) → Setup → Bool × Setup
open_video ready config z =
    if z.shared.stopped
    then (false, z)
    else if ready
    then (true, record z { video_expects_config_packet = config; video_init = true })
    else (false, z)

unfoldable pub open_audio : (ready config : Bool) → Setup → Bool × Setup
open_audio ready config z =
    if ready
    then (true, record z { audio_expects_config_packet = config; audio_init = true })
    else (false, z)

unfoldable pub disable_audio : Setup → Setup
disable_audio z = record z { shared = record z.shared { audio = false }; audio_init = true }

unfoldable pub must_wait_for_config_packets : Setup → Bool
must_wait_for_config_packets z =
    (z.shared.video && (z.video_expects_config_packet && is_empty z.shared.video_queue))
    || (z.shared.audio && (z.audio_expects_config_packet && is_empty z.shared.audio_queue))

-- The condition of the loop around `sc_cond_wait`.
unfoldable pub header_waits : Setup → Bool
header_waits z =
    not z.shared.stopped
    && ((z.shared.video && not z.video_init)
        || ((z.shared.audio && not z.audio_init) || must_wait_for_config_packets z))

-- The first packet of a queue where a config packet is expected, and the queue behind it.
unfoldable pub pop_config : Bool → List Packet → Option Packet × List Packet
pop_config expects [] = (none, [])
pop_config expects (p ∷ q) = if expects then (some p, q) else (none, p ∷ q)

-- The packet is a config packet, and its data is kept.
unfoldable pub set_extradata : (Packet → Bool) → Option Packet → Bool
set_extradata memory none = true
set_extradata memory (some p) = not (is_some p.pts) && memory p

-- `sc_recorder_process_header` behind its wait.
unfoldable pub process_header :
    (memory : Packet → Bool) (writes_header : Bool) → Setup → Option (Bool × Shared)
process_header memory writes_header z =
    let s = z.shared in
    let v = pop_config z.video_expects_config_packet s.video_queue in
    let a = pop_config z.audio_expects_config_packet s.audio_queue in
    if s.stopped && (s.video && is_empty s.video_queue)
    then some (false, s)
    else if (not (is_some v.0) || s.video) && (not (is_some a.0) || s.audio)
    then some (
      set_extradata memory v.0 && (set_extradata memory a.0 && writes_header),
      record s { video_queue = v.1; audio_queue = a.1 },
    )
    else none

pop_config_lem :
    (memory : Packet → Bool) (expects : Bool) (q : List Packet)
    → let r = pop_config expects q in
      (is_empty q ≡ true → (is_some r.0 ≡ false) × (is_empty r.1 ≡ true))
      × (set_extradata memory r.0 ≡ true → media r.1 ≡ media q)
unfolding pop_config set_extradata
pop_config_lem memory expects [] = ((λ e. (refl, refl)), λ e. refl)
pop_config_lem memory true (p ∷ q) = ((λ e. ground (arith, e)), λ e. ground (arith, e))
pop_config_lem memory false (p ∷ q) = ((λ e. ground (arith, e)), λ e. refl)

-- A stream that is not recorded has no packets.
abbrev pub NoneUnused : Shared → Type 0
NoneUnused s =
    ((s.video || is_empty s.video_queue) ≡ true) × ((s.audio || is_empty s.audio_queue) ≡ true)

-- Where a stream that is not recorded has no packets, no assertion of the header fails; a header
-- that is written has taken config packets alone, and leaves no packet of such a stream.
pub process_header_lem :
    (memory : Packet → Bool) (writes_header : Bool) (z : Setup)
    → NoneUnused z.shared
    → (r : Bool × Shared) × (process_header memory writes_header z ≡ some r)
      × (r.0 ≡ true
          → NoneUnused r.1
            × (r.1.video ≡ z.shared.video)
            × (r.1.audio ≡ z.shared.audio)
            × (media r.1.video_queue ≡ media z.shared.video_queue)
            × (media r.1.audio_queue ≡ media z.shared.audio_queue))
unfolding process_header
process_header_lem memory writes_header z h =
    let s = z.shared in
    let v = pop_config z.video_expects_config_packet s.video_queue in
    let a = pop_config z.audio_expects_config_packet s.audio_queue in
    let lv = pop_config_lem memory z.video_expects_config_packet s.video_queue in
    let la = pop_config_lem memory z.audio_expects_config_packet s.audio_queue in
    let asserts : ((not (is_some v.0) || s.video) && (not (is_some a.0) || s.audio)) ≡ true =
      ground (arith, h.0, h.1, lv.0, la.0) in
    elim (Bool-cases (s.stopped && (s.video && is_empty s.video_queue))) [
      | inl early ↦ ((false, s), rw early refl, λ e. ground (arith, e))
      | inr on ↦ (
        (
          set_extradata memory v.0 && (set_extradata memory a.0 && writes_header),
          record s { video_queue = v.1; audio_queue = a.1 },
        ),
        rw on (rw asserts refl),
        λ e. (
          (ground (arith, h.0, lv.0), ground (arith, h.1, la.0)),
          refl,
          refl,
          ground (arith, e, lv.1),
          ground (arith, e, la.1),
        ),
      )
    ]
