-- ===== src/Demuxer/Cases.antt =====
-- app/src/demuxer.c: what a run of the thread comes down to.
use dskcpy.Prelude.{
  either_branch, ℕ, Bool, List, [], Option, none, some, ltb, ◌==◌, ◌||◌, not, if◌then◌else◌, length,
  take, drop,
}
use dskcpy.Util.Binary.{read32be}
use dskcpy.PacketSource.{Session, Sink, sinks_disable}
use dskcpy.Demuxer.{
  Ffmpeg, Status, error, stream_disabled, Outcome, is_session, parse_session, run_open, run_video,
  run_codec, run_demuxer, finish_with, decoder_of, to_avcodec_id,
}

-- What holds of a run that fails before the sinks are open, of one whose sinks are disabled, and of
-- the runs of an open codec, holds of every run.
module _ {κ} (P : Outcome → Type κ) (ff : Ffmpeg) (sinks : List Sink) (fails : P ([], some error))
    (stops : (status : Status) → P (finish_with ([], some status) (sinks_disable sinks)))
    (opens : (id : ℕ) (s : Option Session) (stream : List ℕ)
      → P (run_open ff sinks id s stream)) where
  run_video-all : (id : ℕ) (stream : List ℕ) → P (run_video ff sinks id stream)
  unfolding run_video
  run_video-all id stream =
      let header = take 12 stream in
      let s = parse_session header in
      let opened = run_open ff sinks id (some s) (drop 12 stream) in
      let tested : Outcome = if s.width == 0 || s.height == 0 then ([], some error) else opened in
      either_branch P (ltb (length header) 12 || not (is_session header)) ([], some error) tested
        fails
        (either_branch P (s.width == 0 || s.height == 0) ([], some error) opened fails
          (opens id (some s) (drop 12 stream)))

  run_codec-all :
      (id : ℕ) (decoder : Option Bool) (stream : List ℕ) → P (run_codec ff sinks id decoder stream)
  unfolding run_codec
  run_codec-all id none stream = stops error
  run_codec-all id (some is_video) stream =
      let video = run_video ff sinks id stream in
      let audio = run_open ff sinks id none stream in
      either_branch P (not ff.alloc_context) ([], some error) (if is_video then video else audio)
        fails
        (either_branch P is_video video audio (run_video-all id stream) (opens id none stream))

  pub run_demuxer-all : (bytes : List ℕ) → P (run_demuxer ff sinks bytes)
  unfolding run_demuxer
  run_demuxer-all bytes =
      let id = read32be (take 4 bytes) 0 in
      let decoder = decoder_of ff (to_avcodec_id ff.has_av1 id) in
      let runs = run_codec ff sinks id decoder (drop 4 bytes) in
      let first : Outcome = if id == 1 then ([], some error) else runs in
      let zero_first : Outcome =
        if id == 0 then finish_with ([], some stream_disabled) (sinks_disable sinks) else first in
      either_branch P (ltb (length bytes) 4) ([], some error) zero_first fails
        (either_branch P (id == 0) (finish_with ([], some stream_disabled) (sinks_disable sinks))
          first (stops stream_disabled)
          (either_branch P (id == 1) ([], some error) runs fails
            (run_codec-all id decoder (drop 4 bytes))))
