-- ===== src/Demuxer/Ends.antt =====
-- app/src/demuxer.c: the thread comes to an end on every stream.
use dskcpy.Prelude.{
  either_branch, ℕ, zero, suc, ◌+◌, ◌≤◌, ◌<◌, ◌≡◌, refl, Bool, true, false, List, [], Option, none,
  some, ltb, length, take, drop, arith, length-drop, Bool-cases, length-take, inl, inr,
}
use dskcpy.Util.Binary.{read32be}
use dskcpy.PacketMerger.{PacketMerger}
use dskcpy.PacketSource.{
  Session, MediaPacket, Sink, Log, sinks_push, sinks_push_session, sinks_open, sinks_close,
  sinks_disable, with_sinks, with_sinks_lem,
}
use dskcpy.Demuxer.{
  Ffmpeg, Status, eos, error, Outcome, header_size, is_session, parse_session, recv_packet,
  merge_packet, and_then, and_assert, finish_with, on_packet, demux, run_open, run_demuxer,
  must_merge_config,
}
use dskcpy.Demuxer.Cases.{run_demuxer-all}

abbrev pub Ends : Outcome → Type 0
Ends o = (s : Status) × (o.1 ≡ some s)

and_then-Ends : (r : Log × Bool) (rest : Outcome) → Ends rest → Ends (and_then r rest)
unfolding and_then
and_then-Ends (log, true) rest e = e
and_then-Ends (log, false) rest e = (error, refl)

and_assert-Ends :
    (sinks : List Sink) (r : Log × Bool) (rest : Outcome)
    → 0 < length sinks
    → Ends rest
    → Ends (and_assert (with_sinks sinks r) rest)
unfolding and_assert
and_assert-Ends sinks r rest there e = rw (with_sinks_lem sinks r there) (and_then-Ends r rest e)

finish_with-Ends :
    (sinks : List Sink) (log : Log) (o : Outcome)
    → 0 < length sinks
    → Ends o
    → Ends (finish_with o (with_sinks sinks log))
unfolding finish_with
finish_with-Ends sinks log o there e = rw (with_sinks_lem sinks log there) e

abbrev NotLonger : List ℕ → Option (MediaPacket × List ℕ) → Type 0
NotLonger stream none = Unit
NotLonger stream (some r) = length r.1 ≤ length stream

recv_packet-NotLonger :
    (ff : Ffmpeg) (header stream : List ℕ) → NotLonger stream (recv_packet ff header stream)
unfolding recv_packet
recv_packet-NotLonger ff header stream = ground (arith, length-drop (read32be header 8) stream)

on_packet-Ends :
    (ff : Ffmpeg) (sinks : List Sink) (must_merge : Bool) (merger : PacketMerger) (stream : List ℕ)
    (received : Option (MediaPacket × List ℕ)) (rest : PacketMerger → List ℕ → Outcome)
    → 0 < length sinks
    → NotLonger stream received
    → ((m : PacketMerger) (stream' : List ℕ)
        → length stream' ≤ length stream
        → Ends (rest m stream'))
    → Ends (on_packet ff sinks must_merge merger received rest)
unfolding on_packet sinks_push
on_packet-Ends ff sinks must_merge merger stream none rest there h ends = (error, refl)
on_packet-Ends ff sinks must_merge merger stream (some (p, stream')) rest there h ends =
    let m = merge_packet ff must_merge merger p in
    elim (Bool-cases m.0) [
      | inl merged ↦
          rw merged (and_assert-Ends sinks _ (rest m.1 stream') there (ends m.1 stream' h))
      | inr failed ↦ rw failed (error, refl)
    ]

demux_round :
    (ff : Ffmpeg) (sinks : List Sink) (must_merge : Bool) (fuel : ℕ) (merger : PacketMerger)
    (stream : List ℕ) (is_one : Bool)
    → 0 < length sinks
    → ((m : PacketMerger) (stream' : List ℕ)
        → length stream' < length stream
        → Ends (demux ff sinks must_merge fuel m stream'))
    → 12 ≤ length stream
    → let header = take header_size stream in
      let others = drop header_size stream in
      Ends (elim is_one as (λ b. Outcome) [
        | true ↦
            and_assert
              (sinks_push_session sinks (parse_session header))
              (demux ff sinks must_merge fuel merger others)
        | false ↦
            on_packet ff sinks must_merge merger
              (recv_packet ff header others)
              (λ m stream'. demux ff sinks must_merge fuel m stream')
      ])
unfolding sinks_push_session
demux_round ff sinks must_merge fuel merger stream true there ends long =
    and_assert-Ends sinks _ _ there
      (ends merger (drop 12 stream) (omega (arith, length-drop 12 stream)))
demux_round ff sinks must_merge fuel merger stream false there ends long =
    let others = drop 12 stream in
    on_packet-Ends ff sinks must_merge merger others (recv_packet ff (take 12 stream) others)
      (λ m stream'. demux ff sinks must_merge fuel m stream') there
      (recv_packet-NotLonger ff (take 12 stream) others)
      (λ m stream' h. ends m stream' (omega (arith, h, length-drop 12 stream)))

-- The loop ends where it has more fuel than there are bytes.
pub demux-Ends :
    (ff : Ffmpeg) (sinks : List Sink) (must_merge : Bool) (fuel : ℕ) (merger : PacketMerger)
    (stream : List ℕ)
    → 0 < length sinks
    → length stream < fuel
    → Ends (demux ff sinks must_merge fuel merger stream)
unfolding demux
demux-Ends ff sinks must_merge zero merger stream there h = absurd (omega arith)
demux-Ends ff sinks must_merge (suc fuel) merger stream there h =
    elim (Bool-cases (ltb (length (take 12 stream)) 12)) [
      | inl short ↦ rw short (eos, refl)
      | inr full ↦ rw full (
          demux_round ff sinks must_merge fuel merger stream (is_session (take 12 stream)) there
            (λ m stream' lt.
              demux-Ends ff sinks must_merge fuel m stream' there (omega (arith, lt)))
            (ground (arith, full, length-take 12 stream)))
    ]

run_open-Ends :
    (ff : Ffmpeg) (sinks : List Sink) (id : ℕ) (s : Option Session) (stream : List ℕ)
    → 0 < length sinks
    → Ends (run_open ff sinks id s stream)
unfolding run_open sinks_open sinks_close
run_open-Ends ff sinks id s stream there =
    let fails : Ends ([], some error) = (error, refl) in
    let loop = demux ff sinks (must_merge_config id) (length stream + 1) none stream in
    let ends =
      demux-Ends ff sinks (must_merge_config id) (length stream + 1) none stream there
        (omega arith) in
    let used = either_branch Ends ff.alloc_packet loop ([], some error) ends fails in
    either_branch Ends ff.open_codec _ _
      (and_assert-Ends sinks _ _ there (finish_with-Ends sinks _ _ there used)) fails

-- Where the source has a sink: on every stream, whatever FFmpeg and the sinks answer, the thread of
-- the demuxer comes to its end, with no failed assertion, and reports a status.
pub run_demuxer-Ends :
    (ff : Ffmpeg) (sinks : List Sink) (bytes : List ℕ)
    → 0 < length sinks
    → Ends (run_demuxer ff sinks bytes)
unfolding sinks_disable
run_demuxer-Ends ff sinks bytes there =
    run_demuxer-all Ends ff sinks (error, refl)
      (λ status. finish_with-Ends sinks _ _ there (status, refl))
      (λ id s stream. run_open-Ends ff sinks id s stream there) bytes
