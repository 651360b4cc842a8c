-- ===== src/Demuxer/Streams.antt =====
-- app/src/demuxer.c: what the sinks get from a stream in the format of Demuxer/Frames.
use dskcpy.Prelude.{
  pos, ◌^◌, ℕ, zero, suc, ◌<◌, ◌≡◌, refl, ap, ◌∙◌, Bool, true, false, List, [], ◌∷◌, ◌++◌, Option,
  none, some, length, All, arith, append_assoc, lt→ltb, take_all,
}
use dskcpy.PacketMerger.{PacketMerger, merge}
use dskcpy.PacketMerger.Stream.{prepend-append, config_bytes}
use dskcpy.PacketSource.{Session, MediaPacket, Item, session, media, Sink, Log}
use dskcpy.Demuxer.{Ffmpeg, eos, Outcome, merge_packet, and_then, and_assert, on_packet, demux}
use dskcpy.Demuxer.Frames.{
  header_of, encode_all, Fits, session_frame, media_is_no_session, recv_packet_lem,
}
use dskcpy.PacketSource.Willing.{
  Willing, hand_on, hand_on_all, sinks_push-Willing, sinks_push_session-Willing,
}

-- Memory for sizes below 2^29; a packet with its config in front still has a size that fits an int.
pub record HasMemory (ff : Ffmpeg) : Type 0 where
  pub packets : (n : ℕ) → n < 2 ^ 29 → ff.new_packet (pos n) ≡ true
  pub configs : (n : ℕ) → n < 2 ^ 29 → ff.malloc n ≡ true
  pub grows : (n : ℕ) → n < 2 ^ 29 → ff.grow_packet n ≡ true

-- The items as the sinks get them: for H.26x a media packet that follows a config packet, with no
-- media packet between, begins with the bytes of the last such config.
unfoldable pub delivered : Bool → PacketMerger → List Item → List Item
delivered must_merge pending [] = []
delivered must_merge pending (session s ∷ items) = session s ∷ delivered must_merge pending items
delivered false pending (media p ∷ items) = media p ∷ delivered false pending items
delivered true pending (media p ∷ items) = elim p.packet.pts [
  | none ↦ media p ∷ delivered true (some p.packet.bytes) items
  | some t ↦
      media (record p {
        packet = record { pts = some t; bytes = config_bytes pending ++ p.packet.bytes };
      })
      ∷ delivered true none items
]

-- A round of the loop, on an item at the head of the stream.
session_round :
    (ff : Ffmpeg) (sinks : List Sink) (must_merge : Bool) (fuel : ℕ) (merger : PacketMerger)
    (s : Session) (rest : List ℕ)
    → Willing sinks
    → 0 < length sinks
    → Fits (session s)
    → demux ff sinks must_merge (suc fuel) merger (header_of (session s) ++ rest)
      ≡ and_then (hand_on sinks (session s), true) (demux ff sinks must_merge fuel merger rest)
unfolding demux and_then and_assert
session_round ff sinks must_merge fuel merger s rest w there fits =
    let frame = session_frame s fits in
    rw (frame.0, frame.1, sinks_push_session-Willing sinks s w there) refl

media_round :
    (ff : Ffmpeg) (sinks : List Sink) (must_merge : Bool) (fuel : ℕ) (merger : PacketMerger)
    (p : MediaPacket) (rest : List ℕ)
    → HasMemory ff
    → Fits (media p)
    → demux ff sinks must_merge (suc fuel) merger (header_of (media p) ++ (p.packet.bytes ++ rest))
      ≡ on_packet ff sinks must_merge merger
          (some (p, rest))
          (λ m stream'. demux ff sinks must_merge fuel m stream')
unfolding demux
media_round ff sinks must_merge fuel merger p rest memory fits =
    rw (media_is_no_session p fits, recv_packet_lem ff p rest fits (memory.packets _ fits.2)) refl

-- What a packet leaves of the loop behind it, where the sinks take it.
on_packet_lem :
    (ff : Ffmpeg) (sinks : List Sink) (must_merge : Bool) (merger m' : PacketMerger)
    (p p' : MediaPacket) (stream : List ℕ) (rest : PacketMerger → List ℕ → Outcome) (o : Outcome)
    → Willing sinks
    → 0 < length sinks
    → merge_packet ff must_merge merger p ≡ (true, m', p')
    → rest m' stream ≡ o
    → on_packet ff sinks must_merge merger (some (p, stream)) rest
      ≡ (hand_on sinks (media p') ++ o.0, o.1)
unfolding on_packet and_then and_assert
on_packet_lem ff sinks must_merge merger m' p p' stream rest o w there e e' =
    rw (e, sinks_push-Willing sinks p' w there, e') refl

merge_packet_config :
    (ff : Ffmpeg) (merger : PacketMerger) (bytes : List ℕ) (key : Bool)
    → HasMemory ff
    → length bytes < 2 ^ 29
    → let p : MediaPacket = record {
      packet = record { pts = none; bytes = bytes };
      key_frame = key;
    } in
      merge_packet ff true merger p ≡ (true, some bytes, p)
unfolding merge_packet merge
merge_packet_config ff merger bytes key memory small = rw (memory.configs (length bytes) small) refl

merge_packet_media :
    (ff : Ffmpeg) (merger : PacketMerger) (t : ℕ) (bytes : List ℕ) (key : Bool)
    → HasMemory ff
    → length bytes < 2 ^ 29
    → let packet = λ (b : List ℕ).
      (let p : MediaPacket = record {
        packet = record { pts = some t; bytes = b };
        key_frame = key;
      } in
        p) in
      merge_packet ff true merger (packet bytes)
      ≡ (true, none, packet (config_bytes merger ++ bytes))
unfolding merge_packet merge
merge_packet_media ff none t bytes key memory small = refl
merge_packet_media ff (some c) t bytes key memory small =
    rw (memory.grows (length bytes) small, prepend-append ff.junk c bytes) refl

-- The merge of a packet, and the items as they are delivered behind it.
demux_media :
    (ff : Ffmpeg) (sinks : List Sink) (must_merge : Bool) (merger : PacketMerger) (pts : Option ℕ)
    (bytes : List ℕ) (key : Bool) (items : List Item) (stream : List ℕ)
    (rest : PacketMerger → List ℕ → Outcome)
    → HasMemory ff
    → Willing sinks
    → 0 < length sinks
    → length bytes < 2 ^ 29
    → ((m : PacketMerger)
        → rest m stream ≡ (hand_on_all sinks (delivered must_merge m items), some eos))
    → let p : MediaPacket = record {
      packet = record { pts = pts; bytes = bytes };
      key_frame = key;
    } in
      on_packet ff sinks must_merge merger (some (p, stream)) rest
      ≡ (hand_on_all sinks (delivered must_merge merger (media p ∷ items)), some eos)
unfolding hand_on_all delivered merge_packet
demux_media ff sinks false merger pts bytes key items stream rest memory w there small others =
    on_packet_lem ff sinks false merger merger _ _ stream rest _ w there refl (others merger)
demux_media ff sinks true merger none bytes key items stream rest memory w there small others =
    on_packet_lem ff sinks true merger (some bytes) _ _ stream rest _ w there
      (merge_packet_config ff merger bytes key memory small) (others (some bytes))
demux_media ff sinks true merger (some t) bytes key items stream rest memory w there small others =
    on_packet_lem ff sinks true merger none _ _ stream rest _ w there
      (merge_packet_media ff merger t bytes key memory small) (others none)

demux_short :
    (ff : Ffmpeg) (sinks : List Sink) (must_merge : Bool) (fuel : ℕ) (merger : PacketMerger)
    (tail : List ℕ)
    → length tail < 12
    → demux ff sinks must_merge (suc fuel) merger tail ≡ ([], some eos)
unfolding demux
demux_short ff sinks must_merge fuel merger tail short =
    rw (take_all 12 tail (omega (arith, short))) (rw (lt→ltb (length tail) 12 short) refl)

and_then_lem : (log : Log) (o o' : Outcome) → o ≡ o' → and_then (log, true) o ≡ (log ++ o'.0, o'.1)
unfolding and_then
and_then_lem log o o' e = rw e refl

-- The loop on a stream of items, with less than a header behind them.
pub demux_stream :
    (ff : Ffmpeg) (sinks : List Sink) (must_merge : Bool) (fuel : ℕ) (merger : PacketMerger)
    (items : List Item) (tail : List ℕ)
    → HasMemory ff
    → Willing sinks
    → 0 < length sinks
    → All Fits items
    → length tail < 12
    → length items < fuel
    → demux ff sinks must_merge fuel merger (encode_all items ++ tail)
      ≡ (hand_on_all sinks (delivered must_merge merger items), some eos)
unfolding encode_all hand_on_all delivered
demux_stream ff sinks must_merge zero merger items tail memory w there fits short h =
    absurd (omega arith)
demux_stream ff sinks must_merge (suc fuel) merger [] tail memory w there fits short h =
    demux_short ff sinks must_merge fuel merger tail short
demux_stream ff sinks must_merge (suc fuel) merger (session s ∷ items) tail memory w there fits
      short h =
    ap (λ t. demux ff sinks must_merge (suc fuel) merger t)
      (append_assoc (header_of (session s)) (encode_all items) tail)
    ∙ session_round ff sinks must_merge fuel merger s (encode_all items ++ tail) w there fits.0
    ∙ and_then_lem (hand_on sinks (session s)) _ _ (
        demux_stream ff sinks must_merge fuel merger items tail memory w there fits.1 short
          (omega arith))
demux_stream ff sinks must_merge (suc fuel) merger (media p ∷ items) tail memory w there fits short
      h =
    ap (λ t. demux ff sinks must_merge (suc fuel) merger t)
      (append_assoc (header_of (media p)) _ tail
        ∙ ap (λ t. header_of (media p) ++ t) (append_assoc p.packet.bytes (encode_all items) tail))
    ∙ media_round ff sinks must_merge fuel merger p (encode_all items ++ tail) memory fits.0
    ∙ demux_media ff sinks must_merge merger p.packet.pts p.packet.bytes p.key_frame items
        (encode_all items ++ tail) _ memory w there fits.0.2
        (λ m.
          demux_stream ff sinks must_merge fuel m items tail memory w there fits.1 short
            (omega arith))
