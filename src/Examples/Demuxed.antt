-- ===== src/Examples/Demuxed.antt =====
-- A video stream with two sinks, and the ends of others.
use dskcpy.Prelude.{ℕ, ◌≡◌, refl, List, [], ◌∷◌, ◌++◌, some, none, true, false, arith}
use dskcpy.Util.Binary.Bytes.{be32}
use dskcpy.PacketSource.{Session, Item, session, media, Sink}
use dskcpy.PacketSource.Protocol.{AtRest, follow, fresh}
use dskcpy.Demuxer.{Ffmpeg, h264, to_avcodec_id, run_demuxer}
use dskcpy.Demuxer.Frames.{header_of, encode_all}
use dskcpy.Demuxer.Ends.{Ends, run_demuxer-Ends}
use dskcpy.Demuxer.Calls.{run_demuxer-AtRest}
use dskcpy.Demuxer.Runs.{Works, whole_run, run_demuxer_lem}

abbrev ffmpeg : Ffmpeg
ffmpeg = record {
  has_av1 = false;
  find_decoder = λ codec. some true;
  alloc_context = true;
  open_codec = true;
  alloc_packet = true;
  new_packet = λ n. true;
  malloc = λ n. true;
  grow_packet = λ n. true;
  junk = 0;
}

-- A decoder, and a recorder, which has no `push_session`.
abbrev two_sinks : List Sink
two_sinks =
    record { opens = true; takes = λ item. true; has_push_session = true; has_disable = false }
    ∷ record { opens = true; takes = λ item. true; has_push_session = false; has_disable = true }
    ∷ []

abbrev works : Works ffmpeg two_sinks
works = record {
  memory = record { packets = λ n small. refl; configs = λ n small. refl; grows = λ n small. refl };
  context = refl;
  some_sink = omega arith;
  codec_opens = refl;
  packet = refl;
  opens = (refl, (refl, tt));
  takes = ((λ item. refl), ((λ item. refl), tt));
}

abbrev screen : Session
screen = record { width = 1920; height = 1080; client_resized = false }

-- A config, the frame that gets it, a rotation, and another frame.
abbrev some_items : List Item
some_items =
    media (record { packet = record { pts = none; bytes = 7 ∷ 8 ∷ [] }; key_frame = false })
    ∷ media (record { packet = record { pts = some 0; bytes = 1 ∷ 2 ∷ 3 ∷ [] }; key_frame = true })
    ∷ session (record { width = 1080; height = 1920; client_resized = false })
    ∷ media (record { packet = record { pts = some 16000; bytes = 4 ∷ [] }; key_frame = false })
    ∷ []

h264_is_known : to_avcodec_id false 0x68323634 ≡ some h264
unfolding to_avcodec_id
h264_is_known = refl

run_demuxer_example :
    run_demuxer ffmpeg two_sinks
      (be32 0x68323634 ++ (header_of (session screen) ++ (encode_all some_items ++ (0 ∷ 0 ∷ []))))
    ≡ whole_run two_sinks (some screen) true some_items
run_demuxer_example =
    run_demuxer_lem ffmpeg two_sinks 0x68323634 h264 screen true some_items (0 ∷ 0 ∷ []) works
      (omega arith) h264_is_known refl (omega arith, omega arith) (λ e. omega (arith, e))
      (λ e. omega (arith, e))
      (
        (tt, omega arith, omega arith),
        (
          (omega arith, omega arith, omega arith),
          ((omega arith, omega arith), ((omega arith, omega arith, omega arith), tt)),
        ),
      )
      (omega arith)

-- A stream that breaks off in a packet of 5 bytes.
abbrev broken : List ℕ
broken =
    be32 0x68323634
    ++ (header_of (session screen) ++ (0 ∷ 0 ∷ 0 ∷ 0 ∷ 0 ∷ 0 ∷ 0 ∷ 0 ∷ be32 5 ++ (1 ∷ 2 ∷ [])))

calls_example : AtRest (follow 1 (run_demuxer ffmpeg two_sinks broken).0 fresh)
calls_example = run_demuxer-AtRest ffmpeg two_sinks 1 broken (omega arith)

ends_example : Ends (run_demuxer ffmpeg two_sinks broken)
ends_example = run_demuxer-Ends ffmpeg two_sinks broken (omega arith)
