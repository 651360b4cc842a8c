-- ===== src/Demuxer/Runs.antt =====
-- app/src/demuxer.c: whole runs on well-formed streams.
use dskcpy.Prelude.{
  ℕ, ◌+◌, ◌≤◌, ◌<◌, ◌^◌, ◌≡◌, ◌≢◌, refl, ap, ◌∙◌, Bool, true, false, List, [], ◌∷◌, ◌++◌, Option,
  none, some, not, if◌then◌else◌, length, All, arith, length-append, ==-eq_false, ltb-eq_false,
}
use dskcpy.Util.Binary.Bytes.{be32}
use dskcpy.Util.Binary.RoundTrip.{read32be_at}
use dskcpy.PacketSource.{
  opened, Session, Item, session, Sink, close_firsts, sinks_close, with_sinks_lem,
}
use dskcpy.Demuxer.{
  h264, hevc, av1, vp8, vp9, opus, aac, flac, pcm_s16le, Ffmpeg, Codec, eos, error, Outcome,
  and_then, and_assert, finish_with, run_open, run_video, run_codec, run_demuxer, must_merge_config,
  to_avcodec_id, decoder_of,
}
use dskcpy.Demuxer.Frames.{header_of, payload, encode_all, Fits, session_frame, length-header_of}
use dskcpy.PacketSource.Willing.{Willing, each, every_one, hand_on_all, sinks_open_lem}
use dskcpy.Demuxer.Streams.{HasMemory, delivered, demux_stream}

-- Nothing fails on this computer.
pub record Works (ff : Ffmpeg) (sinks : List Sink) : Type 0 where
  pub memory : HasMemory ff
  pub some_sink : 0 < length sinks
  pub context : ff.alloc_context ≡ true
  pub codec_opens : ff.open_codec ≡ true
  pub packet : ff.alloc_packet ≡ true
  pub opens : All (λ (sink : Sink). sink.opens ≡ true) sinks
  pub takes : Willing sinks

length-encode_all : (items : List Item) → length items ≤ length (encode_all items)
unfolding encode_all
length-encode_all [] = omega arith
length-encode_all (item ∷ items) = omega (
  arith,
  length-encode_all items,
  length-header_of item,
  length-append (header_of item) (payload item ++ encode_all items),
  length-append (payload item) (encode_all items),
)

-- All that the sinks get in a run with these items.
abbrev pub whole_run : List Sink → Option Session → Bool → List Item → Outcome
whole_run sinks s must_merge items = (
  each every_one (opened s) 0 sinks
      ++ (hand_on_all sinks (delivered must_merge none items) ++ close_firsts (length sinks)),
  some eos,
)

run_open_lem :
    (ff : Ffmpeg) (sinks : List Sink) (id : ℕ) (s : Option Session) (items : List Item)
    (tail : List ℕ)
    → Works ff sinks
    → All Fits items
    → length tail < 12
    → run_open ff sinks id s (encode_all items ++ tail)
      ≡ whole_run sinks s (must_merge_config id) items
unfolding run_open and_then and_assert finish_with sinks_close
run_open_lem ff sinks id s items tail works fits short =
    rw
      (
        demux_stream ff sinks (must_merge_config id) (length (encode_all items ++ tail) + 1) none
            items tail works.memory works.takes works.some_sink fits short
            (omega (arith, length-encode_all items, length-append (encode_all items) tail)),
        works.codec_opens,
        works.packet,
        sinks_open_lem s sinks works.opens works.some_sink,
        with_sinks_lem sinks (close_firsts (length sinks)) works.some_sink,
      )
      refl

run_video_lem :
    (ff : Ffmpeg) (sinks : List Sink) (id : ℕ) (s : Session) (items : List Item) (tail : List ℕ)
    → Works ff sinks
    → Fits (session s)
    → s.width ≢ 0
    → s.height ≢ 0
    → All Fits items
    → length tail < 12
    → run_video ff sinks id (header_of (session s) ++ (encode_all items ++ tail))
      ≡ whole_run sinks (some s) (must_merge_config id) items
unfolding run_video
run_video_lem ff sinks id s items tail works fit w h fits short =
    let frame = session_frame s fit in
    rw (frame.0, frame.1, ==-eq_false s.width 0 w, ==-eq_false s.height 0 h)
      (run_open_lem ff sinks id (some s) items tail works fits short)

known_codec :
    (has_av1 : Bool) (id : ℕ) (codec : Codec)
    → to_avcodec_id has_av1 id ≡ some codec
    → (id ≢ 0) × (id ≢ 1)
unfolding to_avcodec_id
known_codec has_av1 id codec e = ((λ z. ground (arith, e, z)), λ z. ground (arith, e, z))

-- Whether the configs of a codec go in front of the frames.
abbrev pub merges : Codec → Bool
merges h264 = true
merges hevc = true
merges av1 = false
merges vp8 = false
merges vp9 = false
merges opus = false
merges aac = false
merges flac = false
merges pcm_s16le = false

codec_merges :
    (has_av1 : Bool) (id : ℕ) (codec : Codec)
    → to_avcodec_id has_av1 id ≡ some codec
    → must_merge_config id ≡ merges codec
unfolding to_avcodec_id
codec_merges has_av1 id h264 e = ground (arith, e)
codec_merges has_av1 id hevc e = ground (arith, e)
codec_merges has_av1 id av1 e = ground (arith, e)
codec_merges has_av1 id vp8 e = ground (arith, e)
codec_merges has_av1 id vp9 e = ground (arith, e)
codec_merges has_av1 id opus e = ground (arith, e)
codec_merges has_av1 id aac e = ground (arith, e)
codec_merges has_av1 id flac e = ground (arith, e)
codec_merges has_av1 id pcm_s16le e = ground (arith, e)

-- The id of the codec.
run_known :
    (ff : Ffmpeg) (sinks : List Sink) (id : ℕ) (codec : Codec) (is_video : Bool) (stream : List ℕ)
    → Works ff sinks
    → id < 2 ^ 32
    → to_avcodec_id ff.has_av1 id ≡ some codec
    → ff.find_decoder codec ≡ some is_video
    → run_demuxer ff sinks (be32 id ++ stream) ≡ run_codec ff sinks id (some is_video) stream
unfolding run_demuxer
run_known ff sinks id codec is_video stream works small known found =
    let k = known_codec ff.has_av1 id codec known in
    rw (read32be_at (be32 id) 0 id small refl refl refl refl) (
      rw
        (
          ltb-eq_false (length (be32 id ++ stream)) 4 (omega arith),
          ==-eq_false id 0 k.0,
          ==-eq_false id 1 k.1,
        )
        (ap (λ d. run_codec ff sinks id d stream) (ap (decoder_of ff) known ∙ found)))

run_found :
    (ff : Ffmpeg) (sinks : List Sink) (id : ℕ) (s : Session) (is_video : Bool) (items : List Item)
    (tail : List ℕ)
    → Works ff sinks
    → Fits (session s)
    → s.width ≢ 0
    → s.height ≢ 0
    → All Fits items
    → length tail < 12
    → let front = if is_video then header_of (session s) else [] in
      run_codec ff sinks id (some is_video) (front ++ (encode_all items ++ tail))
      ≡ whole_run sinks (if is_video then some s else none) (must_merge_config id) items
unfolding run_codec
run_found ff sinks id s true items tail works fit w h fits short =
    ap
      (λ ok.
        if not ok
        then ([], some error)
        else run_video ff sinks id (header_of (session s) ++ (encode_all items ++ tail)))
      works.context
    ∙ run_video_lem ff sinks id s items tail works fit w h fits short
run_found ff sinks id s false items tail works fit w h fits short =
    ap
      (λ ok.
        if not ok then ([], some error) else run_open ff sinks id none (encode_all items ++ tail))
      works.context
    ∙ run_open_lem ff sinks id none items tail works fits short

-- A stream of a known codec with a decoder, where nothing fails on this computer, there is memory
-- for sizes below 2^29, and the source has a sink: the id of the codec, for a video a session header whose size is not 0, then items in the format of the server, whose
-- packets have 1 to 2^29 - 1 bytes,
-- and behind them less than a header. The run ends with the end of the stream. Each sink is opened,
-- for a video with the first session, then gets the packets, and the other sessions if it wants
-- sessions, in the order of the stream, and is closed. For H.264 and H.265 a media packet that follows
-- a config packet, with no media packet between, has the bytes of the last such config in front.
pub run_demuxer_lem :
    (ff : Ffmpeg) (sinks : List Sink) (id : ℕ) (codec : Codec) (s : Session) (is_video : Bool)
    (items : List Item) (tail : List ℕ)
    → Works ff sinks
    → id < 2 ^ 32
    → to_avcodec_id ff.has_av1 id ≡ some codec
    → ff.find_decoder codec ≡ some is_video
    → Fits (session s)
    → s.width ≢ 0
    → s.height ≢ 0
    → All Fits items
    → length tail < 12
    → let front = if is_video then header_of (session s) else [] in
      run_demuxer ff sinks (be32 id ++ (front ++ (encode_all items ++ tail)))
      ≡ whole_run sinks (if is_video then some s else none) (merges codec) items
run_demuxer_lem ff sinks id codec s is_video items tail works small known found fit w h fits short =
    run_known ff sinks id codec is_video _ works small known found
    ∙ run_found ff sinks id s is_video items tail works fit w h fits short
    ∙ ap (λ m. whole_run sinks (if is_video then some s else none) m items)
        (codec_merges ff.has_av1 id codec known)
