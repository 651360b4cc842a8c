-- ===== src/Demuxer.antt =====
-- app/src/demuxer.c: the thread that reads a stream of the device and hands its packets to the sinks.
-- The socket is the list of the bytes that are still to come, as `net_recv_all` returns fewer bytes
-- than wanted only at their end. FFmpeg and the memory are the parameter `Ffmpeg`.
pub mod Frames
pub mod Cases
pub mod Ends
pub mod Streams
pub mod Runs
pub mod Calls
use dskcpy.Prelude.{
  ℤ, to_i32, ℕ, zero, suc, ◌+◌, ◌-◌, ◌*◌, ◌/◌, ◌%◌, ◌^◌, ◌&&◌, ◌||◌, not, Bool, true, false, List,
  [], ◌∷◌, ◌++◌, Option, none, some, ltb, leb, ◌==◌, if◌then◌else◌, length, take, drop, get_or,
}
use dskcpy.Util.Binary.{read32be, read64be}
use dskcpy.PacketMerger.{Packet, PacketMerger, merge}
use dskcpy.PacketSource.{
  Session, MediaPacket, Sink, Log, sinks_open, sinks_close, sinks_push, sinks_push_session,
  sinks_disable,
}

pub data Codec : Type 0 where
  h264 : Codec
  hevc : Codec
  av1 : Codec
  vp8 : Codec
  vp9 : Codec
  opus : Codec
  aac : Codec
  flac : Codec
  pcm_s16le : Codec

-- `enum sc_demuxer_status`
pub data Status : Type 0 where
  eos : Status
  stream_disabled : Status
  error : Status

pub record Ffmpeg : Type 0 where
  pub has_av1 : Bool
  -- Whether the decoder of a codec is there, and is one of a video.
  pub find_decoder : Codec → Option Bool
  pub alloc_context : Bool
  pub open_codec : Bool
  pub alloc_packet : Bool
  -- Whether there is memory: for a packet of so many bytes, for its copy as a config, and for a
  -- config in front of it.
  pub new_packet : ℤ → Bool
  pub malloc : ℕ → Bool
  pub grow_packet : ℕ → Bool
  -- What the added bytes of a packet hold.
  pub junk : ℕ

abbrev pub header_size : ℕ
header_size = 12

-- `word & (1 << k)`, and `word & ((1 << k) - 1)`.
abbrev pub has_bit : ℕ → ℕ → Bool
has_bit word k = word / 2 ^ k % 2 == 1

abbrev pub low_bits : ℕ → ℕ → ℕ
low_bits word k = word % 2 ^ k

unfoldable pub to_avcodec_id : Bool → ℕ → Option Codec
to_avcodec_id has_av1 id =
    if id == 0x68323634
    then some h264
    else if id == 0x68323635
    then some hevc
    else if id == 0x00617631
    then (if has_av1 then some av1 else none)
    else if id == 0x00767038
    then some vp8
    else if id == 0x00767039
    then some vp9
    else if id == 0x6f707573
    then some opus
    else if id == 0x00616163
    then some aac
    else if id == 0x666c6163
    then some flac
    else if id == 0x00726177
    then some pcm_s16le
    else none

unfoldable pub is_session : List ℕ → Bool
is_session header = has_bit (get_or header 0 0) 7

unfoldable pub parse_session : List ℕ → Session
parse_session header = record {
  width = read32be header 4;
  height = read32be header 8;
  client_resized = has_bit (get_or header 3 0) 0;
}

-- What the flags of a header make of the bytes of a packet.
unfoldable pub flagged : ℕ → List ℕ → MediaPacket
flagged pts_flags bytes = record {
  packet = record {
    pts = if has_bit pts_flags 62 then none else some (low_bits pts_flags 61);
    bytes = bytes;
  };
  key_frame = has_bit pts_flags 61;
}

-- `sc_demuxer_recv_packet`: the packet, and the bytes behind it.
unfoldable pub recv_packet : Ffmpeg → List ℕ → List ℕ → Option (MediaPacket × List ℕ)
recv_packet ff header stream =
    let len = read32be header 8 in
    let bytes = take len stream in
    if len == 0
    then none
    else if not (ff.new_packet (to_i32 len))
    then none
    else if ltb (length bytes) len
    then none
    else some (flagged (read64be header 0) bytes, drop len stream)

-- The packet behind the merger, if there is one.
unfoldable pub merge_packet :
    Ffmpeg → Bool → PacketMerger → MediaPacket → Bool × PacketMerger × MediaPacket
merge_packet ff must_merge merger p =
    let r =
      merge ff.junk (ff.malloc (length p.packet.bytes)) (ff.grow_packet (length p.packet.bytes))
        merger p.packet in
    if must_merge then (r.0, r.1, record p { packet = r.2 }) else (true, merger, p)

-- The calls, and the status that is reported; `none` if the fuel has run out or an assertion fails.
abbrev pub Outcome : Type 0
Outcome = Log × Option Status

-- More calls, if those before went well.
unfoldable pub and_then : Log × Bool → Outcome → Outcome
and_then r rest = if r.1 then (r.0 ++ rest.0, rest.1) else (r.0, some error)

-- The same, where an assertion comes before the calls.
unfoldable pub and_assert : Option (Log × Bool) → Outcome → Outcome
and_assert none rest = ([], none)
and_assert (some r) rest = and_then r rest

-- The calls at the end of a run.
unfoldable pub finish_with : Outcome → Option Log → Outcome
finish_with o none = (o.0, none)
finish_with o (some log) = (o.0 ++ log, o.1)

-- A packet that is received, if one is, and the rest of the loop behind it.
unfoldable pub on_packet :
    Ffmpeg
    → List Sink
    → Bool
    → PacketMerger
    → Option (MediaPacket × List ℕ)
    → (PacketMerger → List ℕ → Outcome)
    → Outcome
on_packet ff sinks must_merge merger none rest = ([], some error)
on_packet ff sinks must_merge merger (some (p, stream)) rest =
    let m = merge_packet ff must_merge merger p in
    if m.0 then and_assert (sinks_push sinks m.2) (rest m.1 stream) else ([], some error)

-- The loop of `run_demuxer`; each round takes a header from the stream.
unfoldable pub demux : Ffmpeg → List Sink → Bool → ℕ → PacketMerger → List ℕ → Outcome
demux ff sinks must_merge zero merger stream = ([], none)
demux ff sinks must_merge (suc fuel) merger stream =
    let header = take header_size stream in
    let others = drop header_size stream in
    if ltb (length header) header_size then ([], some eos) else elim (is_session header) [
      | true ↦
          and_assert (sinks_push_session sinks (parse_session header))
            (demux ff sinks must_merge fuel merger others)
      | false ↦
          on_packet ff sinks must_merge merger (recv_packet ff header others)
            (λ m stream'. demux ff sinks must_merge fuel m stream')
    ]

-- Config packets are merged for H.26x only.
abbrev pub must_merge_config : ℕ → Bool
must_merge_config raw_codec_id = raw_codec_id == 0x68323634 || raw_codec_id == 0x68323635

-- `run_demuxer` from the opening of the codec on.
unfoldable pub run_open : Ffmpeg → List Sink → ℕ → Option Session → List ℕ → Outcome
run_open ff sinks raw_codec_id s stream =
    let loop = demux ff sinks (must_merge_config raw_codec_id) (length stream + 1) none stream in
    let used = if ff.alloc_packet then loop else ([], some error) in
    if ff.open_codec
    then and_assert (sinks_open sinks s) (finish_with used (sinks_close sinks))
    else ([], some error)

-- The session header of a video.
unfoldable pub run_video : Ffmpeg → List Sink → ℕ → List ℕ → Outcome
run_video ff sinks raw_codec_id stream =
    let header = take header_size stream in
    let s = parse_session header in
    if ltb (length header) header_size || not (is_session header)
    then ([], some error)
    else if s.width == 0 || s.height == 0
    then ([], some error)
    else run_open ff sinks raw_codec_id (some s) (drop header_size stream)

unfoldable pub run_codec : Ffmpeg → List Sink → ℕ → Option Bool → List ℕ → Outcome
run_codec ff sinks raw_codec_id none stream = finish_with ([], some error) (sinks_disable sinks)
run_codec ff sinks raw_codec_id (some is_video) stream =
    if not ff.alloc_context
    then ([], some error)
    else if is_video
    then run_video ff sinks raw_codec_id stream
    else run_open ff sinks raw_codec_id none stream

abbrev pub decoder_of : Ffmpeg → Option Codec → Option Bool
decoder_of ff none = none
decoder_of ff (some codec) = ff.find_decoder codec

unfoldable pub run_demuxer : Ffmpeg → List Sink → List ℕ → Outcome
run_demuxer ff sinks bytes =
    let raw_codec_id = read32be (take 4 bytes) 0 in
    if ltb (length bytes) 4
    then ([], some error)
    else if raw_codec_id == 0
    then finish_with ([], some stream_disabled) (sinks_disable sinks)
    else if raw_codec_id == 1
    then ([], some error)
    else run_codec ff sinks raw_codec_id (decoder_of ff (to_avcodec_id ff.has_av1 raw_codec_id))
        (drop 4 bytes)
