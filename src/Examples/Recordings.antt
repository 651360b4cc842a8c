-- ===== src/Examples/Recordings.antt =====
-- A recording of both streams whose audio comes first, and whose second video packet repeats a
-- timestamp.
use dskcpy.Prelude.{ℕ, ◌≡◌, refl, ◌⊎◌, List, [], ◌∷◌, true, false, none, some, pos, arith}
use dskcpy.Recorder.{
  Packet, Muxer, Shared, must_wait, take_packet, drop_config, choose_origin, write_stream,
  push_video, push_audio, stop,
}
use dskcpy.Recorder.Round.{
  ended, failed, turn, work, take_packets, drop_configs, is_unused, write_packets, video_step,
  audio_step, write_last,
}
use dskcpy.Recorder.Media.{media, written}
use dskcpy.Recorder.Turns.{VideoKept, AudioKept}
use dskcpy.Recorder.Header.{Setup, process_header, pop_config, set_extradata}
use dskcpy.Recorder.History.{
  Event, video_packet, audio_packet, stops, works, Session, start, start_with, run, on_event,
  work_on, after_video, after_audio,
}
use dskcpy.Recorder.Runs.{recording_keeps}
use dskcpy.Recorder.Ends.{turns, recording_ends}

-- A muxer whose streams have the time base of the packets.
abbrev plain_muxer : Muxer
plain_muxer = record {
  rescale_video = λ t. t;
  rescale_audio = λ t. t;
  accepts = λ f. true;
  writes_trailer = true;
}

abbrev both : Shared
both = record { video = true; audio = true; stopped = false; video_queue = []; audio_queue = [] }

abbrev sample_packet : ℕ → ℕ → Packet
sample_packet id pts = record { pts = some pts; duration = pos 20; id = id }

abbrev one_waits : Shared
one_waits = record both { audio_queue = sample_packet 1 5 ∷ [] }

abbrev config : Packet
config = record { pts = none; duration = pos 0; id = 9 }

abbrev history : List Event
history =
    audio_packet true (sample_packet 1 5)
    ∷ works false
    ∷ video_packet true (sample_packet 2 10)
    ∷ video_packet true (sample_packet 3 10)
    ∷ works false
    ∷ works false
    ∷ video_packet true config
    ∷ video_packet true (sample_packet 4 50)
    ∷ stops
    ∷ []

abbrev at_stop : Session
at_stop = run plain_muxer (start both) history

abbrev at_end : Session
at_end = run plain_muxer at_stop (turns 4)

-- Both streams wait with their config packet, and the audio with a media packet.
abbrev opened : Setup
opened = record {
  shared = record {
    video = true;
    audio = true;
    stopped = false;
    video_queue = config ∷ [];
    audio_queue = config ∷ sample_packet 1 5 ∷ [];
  };
  video_init = true;
  audio_init = true;
  video_expects_config_packet = true;
  audio_expects_config_packet = true;
}

abbrev recorded : Session
recorded = run plain_muxer (start_with true true one_waits) history

recording_example :
    (media one_waits.video_queue ≡ media opened.shared.video_queue)
    × (media one_waits.audio_queue ≡ media opened.shared.audio_queue)
    × VideoKept recorded.phase
        (media recorded.video_taken)
        (media recorded.shared.video_queue)
        recorded.local
    × AudioKept recorded.phase
        (media recorded.audio_taken)
        (media recorded.shared.audio_queue)
        recorded.local
unfolding process_header pop_config set_extradata
recording_example =
    recording_keeps plain_muxer (λ p. true) true opened one_waits history ((λ e. refl), (λ e. refl))
      (refl, refl) refl

all_written : written at_end.local.video_stream.frames ≡ 2 ∷ 3 ∷ 4 ∷ []
unfolding start start_with run on_event work_on turn work take_packets take_packet drop_configs
    drop_config choose_origin is_unused must_wait write_packets video_step audio_step write_last
    write_stream push_video push_audio stop after_video after_audio
all_written = refl

ending_example : (at_end.phase ≡ ended) ⊎ (at_end.phase ≡ failed)
unfolding start start_with run on_event work_on turn work take_packets take_packet drop_configs
    drop_config choose_origin is_unused must_wait write_packets video_step audio_step write_last
    write_stream push_video push_audio stop after_video after_audio
ending_example = recording_ends plain_muxer both history 4 refl refl refl (omega arith)
