-- ===== src/Recorder/Runs.antt =====
-- app/src/recorder.c: what every history of the recorder keeps of the packets.
use dskcpy.Prelude.{
  Option, none, not, ◌&&◌, subst, ◌∙◌, sym, some, ◌||◌, Bool, true, false, List, [], ◌∷◌, ◌++◌,
  if◌then◌else◌, ◌≡◌, refl, arith,
}
use mathlib.Core.Bool.{false≢true}
use dskcpy.Recorder.{Packet, Muxer, Shared, is_empty, push_video, push_audio, stop}
use dskcpy.Recorder.Round.{is_unused}
use dskcpy.Recorder.Media.{media, media-append, written}
use dskcpy.Recorder.Steps.{video_all, audio_all}
use dskcpy.Recorder.Turns.{VideoKept, AudioKept}
use dskcpy.Recorder.Streams.{is_ended}
use dskcpy.Recorder.Header.{Setup, NoneUnused, process_header, process_header_lem}
use dskcpy.Recorder.History.{
  Event, video_packet, audio_packet, stops, works, discards, Session, discard, on_event, run, start,
  start_with, after_video, after_audio,
}
use dskcpy.Recorder.Accounts.{Inv, Kept-push, Kept-discard, discard_lem, works-Inv}

discards-Inv : (z : Session) → Inv z → Inv (record z { shared = discard z.phase z.shared })
discards-Inv z inv =
    let d = discard_lem z.phase z.shared z.local in
    record {
      video_kept =
          Kept-discard z.phase z.shared (media z.video_taken) (video_all z.local)
            (written z.local.video_stream.frames) 1 (λ (s : Shared). media s.video_queue)
            inv.video_kept;
      audio_kept =
          Kept-discard z.phase z.shared (media z.audio_taken) (audio_all z.local)
            (written z.local.audio_stream.frames) 0 (λ (s : Shared). media s.audio_queue)
            inv.audio_kept;
      video_unused = d.0 inv.video_unused;
      audio_unused = d.1 inv.audio_unused;
      video_open = λ e. inv.video_open (sym d.3 ∙ e);
      audio_open = λ e. inv.audio_open (sym d.4 ∙ e);
      stops_first = λ e. d.2 (inv.stops_first e);
    }

-- A packet that a sink takes.
video_push-Inv :
    (z : Session) (p : Packet)
    → z.shared.video ≡ true
    → z.shared.stopped ≡ false
    → Inv z
    → Inv (record z {
      shared = record z.shared { video_queue = z.shared.video_queue ++ (p ∷ []) };
      video_taken = z.video_taken ++ (p ∷ []);
    })
video_push-Inv z p on accepts inv =
    let goes_on : is_ended z.phase ≡ false = ground (arith, accepts, inv.stops_first) in
    record {
      video_kept = rw (media-append z.video_taken (p ∷ [])) (
          rw (media-append z.shared.video_queue (p ∷ [])) (
            Kept-push z.phase (media z.video_taken) (video_all z.local) (media z.shared.video_queue)
              (media (p ∷ [])) (written z.local.video_stream.frames) 1 goes_on inv.video_kept));
      audio_kept = inv.audio_kept;
      video_unused = rw on refl;
      audio_unused = inv.audio_unused;
      video_open = inv.video_open;
      audio_open = inv.audio_open;
      stops_first = inv.stops_first;
    }

audio_push-Inv :
    (z : Session) (p : Packet)
    → z.shared.audio ≡ true
    → z.shared.stopped ≡ false
    → Inv z
    → Inv (record z {
      shared = record z.shared { audio_queue = z.shared.audio_queue ++ (p ∷ []) };
      audio_taken = z.audio_taken ++ (p ∷ []);
    })
audio_push-Inv z p on accepts inv =
    let goes_on : is_ended z.phase ≡ false = ground (arith, accepts, inv.stops_first) in
    record {
      video_kept = inv.video_kept;
      audio_kept = rw (media-append z.audio_taken (p ∷ [])) (
          rw (media-append z.shared.audio_queue (p ∷ [])) (
            Kept-push z.phase (media z.audio_taken) (audio_all z.local) (media z.shared.audio_queue)
              (media (p ∷ [])) (written z.local.audio_stream.frames) 0 goes_on inv.audio_kept));
      video_unused = inv.video_unused;
      audio_unused = rw on refl;
      video_open = inv.video_open;
      audio_open = inv.audio_open;
      stops_first = inv.stops_first;
    }

video_event :
    (z : Session) (p : Packet) (on init stopped memory : Bool)
    → z.shared.video ≡ on
    → z.video_init ≡ init
    → z.shared.stopped ≡ stopped
    → Inv z
    → let s = z.shared in
      let r : Option (Bool × Shared) =
        if not init
        then none
        else if stopped
        then some (false, s)
        else if memory
        then some (true, record s { video_queue = s.video_queue ++ (p ∷ []) })
        else some (false, s) in
      let z' : Session = if on then after_video z p r else z in Inv z'
unfolding after_video
video_event z p false init stopped memory on is_init accepts inv = inv
video_event z p true false stopped memory on is_init accepts inv =
    absurd (false≢true (sym is_init ∙ inv.video_open on))
video_event z p true true true memory on is_init accepts inv = inv
video_event z p true true false true on is_init accepts inv = video_push-Inv z p on accepts inv
video_event z p true true false false on is_init accepts inv = inv

audio_event :
    (z : Session) (p : Packet) (on init stopped memory : Bool)
    → z.shared.audio ≡ on
    → z.audio_init ≡ init
    → z.shared.stopped ≡ stopped
    → Inv z
    → let s = z.shared in
      let r : Option (Bool × Shared) =
        if not (on && init)
        then none
        else if stopped
        then some (false, s)
        else if memory
        then some (true, record s { audio_queue = s.audio_queue ++ (p ∷ []) })
        else some (false, s) in
      let z' : Session = if on then after_audio z p r else z in Inv z'
unfolding after_audio
audio_event z p false init stopped memory on is_init accepts inv = inv
audio_event z p true false stopped memory on is_init accepts inv =
    absurd (false≢true (sym is_init ∙ inv.audio_open on))
audio_event z p true true true memory on is_init accepts inv = inv
audio_event z p true true false true on is_init accepts inv = audio_push-Inv z p on accepts inv
audio_event z p true true false false on is_init accepts inv = inv

on_event-Inv : (mux : Muxer) (z : Session) (e : Event) → Inv z → Inv (on_event mux z e)
unfolding on_event push_video push_audio stop after_video after_audio
on_event-Inv mux z (video_packet memory p) inv =
    video_event z p z.shared.video z.video_init z.shared.stopped memory refl refl refl inv
on_event-Inv mux z (audio_packet memory p) inv =
    audio_event z p z.shared.audio z.audio_init z.shared.stopped memory refl refl refl inv
on_event-Inv mux z stops inv = record {
  video_kept = inv.video_kept;
  audio_kept = inv.audio_kept;
  video_unused = inv.video_unused;
  audio_unused = inv.audio_unused;
  video_open = inv.video_open;
  audio_open = inv.audio_open;
  stops_first = λ e. refl;
}
on_event-Inv mux z (works late) inv = works-Inv mux late z z.phase refl inv
on_event-Inv mux z discards inv = discards-Inv z inv

pub run-Inv : (mux : Muxer) (z : Session) (es : List Event) → Inv z → Inv (run mux z es)
unfolding run
run-Inv mux z [] inv = inv
run-Inv mux z (e ∷ es) inv = run-Inv mux (on_event mux z e) es (on_event-Inv mux z e inv)

start_with-Inv :
    (video_init audio_init : Bool) (s : Shared)
    → (s.video ≡ true → video_init ≡ true)
    → (s.audio ≡ true → audio_init ≡ true)
    → (s.video || is_empty s.video_queue) ≡ true
    → (s.audio || is_empty s.audio_queue) ≡ true
    → Inv (start_with video_init audio_init s)
unfolding is_unused start_with
start_with-Inv video_init audio_init s ov oa ev ea = record {
  video_kept = refl;
  audio_kept = refl;
  video_unused = ev;
  audio_unused = ea;
  video_open = ov;
  audio_open = oa;
  stops_first = λ e. ground (arith, e);
}

pub start-Inv :
    (s : Shared)
    → (s.video || is_empty s.video_queue) ≡ true
    → (s.audio || is_empty s.audio_queue) ≡ true
    → Inv (start s)
unfolding start
start-Inv s ev ea = start_with-Inv s.video s.audio s (λ e. e) (λ e. e) ev ea

-- The sink of each stream that is recorded is open.
abbrev pub AllOpen : Setup → Type 0
AllOpen setup =
    (setup.shared.video ≡ true → setup.video_init ≡ true)
    × (setup.shared.audio ≡ true → setup.audio_init ≡ true)

same_outcome : {r r' : Bool × Shared} → some r ≡ some r' → r ≡ r'
same_outcome e = cc

-- Where a stream that is not recorded has no packets and gets none, the sink of each recorded stream
-- is open, and the header of the recording is written:
-- no history of pushes, stops (one of them perhaps within a turn), turns and the final discard makes
-- an assertion fail, whatever the muxer does. At every moment the media packets that the sink of a
-- stream has taken, those before the header included, are, in their order, the frames written to the
-- stream and then, while the thread runs, the packets that it holds and those of the queue; once it
-- has ended at most the last packet of the video is missing and none of the audio; once it has failed
-- the frames are the first packets.
pub recording_keeps :
    (mux : Muxer) (memory : Packet → Bool) (writes_header : Bool) (setup : Setup) (s : Shared)
    (es : List Event)
    → AllOpen setup
    → NoneUnused setup.shared
    → process_header memory writes_header setup ≡ some (true, s)
    → let z = run mux (start_with setup.video_init setup.audio_init s) es in
      (media s.video_queue ≡ media setup.shared.video_queue)
      × (media s.audio_queue ≡ media setup.shared.audio_queue)
      × VideoKept z.phase (media z.video_taken) (media z.shared.video_queue) z.local
      × AudioKept z.phase (media z.audio_taken) (media z.shared.audio_queue) z.local
recording_keeps mux memory writes_header setup s es opened unused written_header =
    let h = process_header_lem memory writes_header setup unused in
    let same : h.0 ≡ (true, s) = same_outcome (sym h.1 ∙ written_header) in
    let after =
      subst
        (λ (r : Bool × Shared).
          r.0 ≡ true
          → NoneUnused r.1
            × (r.1.video ≡ setup.shared.video)
            × (r.1.audio ≡ setup.shared.audio)
            × (media r.1.video_queue ≡ media setup.shared.video_queue)
            × (media r.1.audio_queue ≡ media setup.shared.audio_queue))
        same h.2 refl in
    let begins =
      start_with-Inv setup.video_init setup.audio_init s (λ e. opened.0 (sym after.1 ∙ e))
        (λ e. opened.1 (sym after.2 ∙ e)) after.0.0 after.0.1 in
    let inv = run-Inv mux (start_with setup.video_init setup.audio_init s) es begins in
    (after.3, after.4, inv.video_kept, inv.audio_kept)
