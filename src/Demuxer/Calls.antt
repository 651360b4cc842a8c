-- ===== src/Demuxer/Calls.antt =====
-- app/src/demuxer.c: each sink is opened and closed once, and gets items only in between.
use dskcpy.Prelude.{
  ℕ, zero, suc, ◌+◌, ◌<◌, ◌≡◌, refl, ap, sym, subst, ◌∙◌, List, [], ◌∷◌, ◌++◌, Option, none, some,
  Bool, true, false, if◌then◌else◌, length, take, drop, ltb, arith, either_branch, ◌>>=◌,
}
use dskcpy.PacketMerger.{PacketMerger}
use dskcpy.PacketSource.{
  Session, MediaPacket, Sink, Log, sinks_open, sinks_close, sinks_push, sinks_push_session,
  sinks_disable, close_firsts, with_sinks, with_sinks_lem, disable_from, open_from,
}
use dskcpy.PacketSource.Protocol.{
  fresh, in_use, done, follow, AtRest, follow-append, push_from-in_use, push_session_from-in_use,
  disable_from-AtRest, open_from-follow, close_firsts-follow,
}
use dskcpy.Demuxer.{
  Ffmpeg, Status, eos, error, Outcome, is_session, parse_session, recv_packet, merge_packet,
  and_then, and_assert, finish_with, on_packet, demux, run_open, run_demuxer, must_merge_config,
}
use dskcpy.Demuxer.Cases.{run_demuxer-all}

module _ (ff : Ffmpeg) (sinks : List Sink) (k : ℕ) where
  abbrev InUse : Outcome → Type 0
  InUse o = follow k o.0 in_use ≡ some in_use

  abbrev Rests : Outcome → Type 0
  Rests o = AtRest (follow k o.0 fresh)

  and_then-InUse :
      (r : Log × Bool) (rest : Outcome)
      → follow k r.0 in_use ≡ some in_use
      → InUse rest
      → InUse (and_then r rest)
  unfolding and_then
  and_then-InUse (log, true) rest e h =
      follow-append k log rest.0 in_use ∙ ap (λ o. o >>= (λ s. follow k rest.0 s)) e ∙ h
  and_then-InUse (log, false) rest e h = e

  nothing-InUse : (status : Option Status) → InUse ([], status)
  unfolding follow
  nothing-InUse status = refl

  asserted-InUse :
      (checked : List Sink) (r : Log × Bool) (rest : Outcome)
      → follow k r.0 in_use ≡ some in_use
      → InUse rest
      → InUse (and_assert (with_sinks checked r) rest)
  unfolding and_assert with_sinks
  asserted-InUse [] r rest e h = nothing-InUse none
  asserted-InUse (sink ∷ others) r rest e h = and_then-InUse r rest e h

  push-InUse :
      (p : MediaPacket) (rest : Outcome) → InUse rest → InUse (and_assert (sinks_push sinks p) rest)
  unfolding sinks_push
  push-InUse p rest h = asserted-InUse sinks _ rest (push_from-in_use k _ 0 sinks) h

  push_session-InUse :
      (s : Session) (rest : Outcome)
      → InUse rest
      → InUse (and_assert (sinks_push_session sinks s) rest)
  unfolding sinks_push_session
  push_session-InUse s rest h = asserted-InUse sinks _ rest (push_session_from-in_use k _ 0 sinks) h

  on_packet-InUse :
      (must_merge : Bool) (merger : PacketMerger) (received : Option (MediaPacket × List ℕ))
      (rest : PacketMerger → List ℕ → Outcome)
      → ((m : PacketMerger) (stream : List ℕ) → InUse (rest m stream))
      → InUse (on_packet ff sinks must_merge merger received rest)
  unfolding on_packet
  on_packet-InUse must_merge merger none rest h = nothing-InUse (some error)
  on_packet-InUse must_merge merger (some (p, stream)) rest h =
      let m = merge_packet ff must_merge merger p in
      either_branch InUse m.0 (and_assert (sinks_push sinks m.2) (rest m.1 stream)) ([], some error)
        (push-InUse m.2 (rest m.1 stream) (h m.1 stream)) (nothing-InUse (some error))

  demux_round-InUse :
      (must_merge is_one : Bool) (fuel : ℕ) (merger : PacketMerger) (header others : List ℕ)
      → ((m : PacketMerger) (stream : List ℕ) → InUse (demux ff sinks must_merge fuel m stream))
      → InUse (elim is_one as (λ b. Outcome) [
        | true ↦
            and_assert
              (sinks_push_session sinks (parse_session header))
              (demux ff sinks must_merge fuel merger others)
        | false ↦
            on_packet ff sinks must_merge merger
              (recv_packet ff header others)
              (λ m stream'. demux ff sinks must_merge fuel m stream')
      ])
  demux_round-InUse must_merge true fuel merger header others h =
      push_session-InUse (parse_session header) _ (h merger others)
  demux_round-InUse must_merge false fuel merger header others h =
      on_packet-InUse must_merge merger (recv_packet ff header others) _ h

  demux-InUse :
      (must_merge : Bool) (fuel : ℕ) (merger : PacketMerger) (stream : List ℕ)
      → InUse (demux ff sinks must_merge fuel merger stream)
  unfolding demux
  demux-InUse must_merge zero merger stream = nothing-InUse none
  demux-InUse must_merge (suc fuel) merger stream =
      either_branch InUse (ltb (length (take 12 stream)) 12) ([], some eos) _
        (nothing-InUse (some eos))
        (demux_round-InUse must_merge (is_session (take 12 stream)) fuel merger (take 12 stream)
          (drop 12 stream) (demux-InUse must_merge fuel))

  nothing-Rests : (status : Option Status) → Rests ([], status)
  unfolding follow
  nothing-Rests status = tt

  module _ (there : k < length sinks) where
    -- Between the opening and the closing of the sinks.
    bracket-Rests :
        (r : Log × Bool) (used : Outcome)
        → (if r.1 then follow k r.0 fresh ≡ some in_use else AtRest (follow k r.0 fresh))
        → InUse used
        → Rests (and_then r (used.0 ++ close_firsts (length sinks), used.1))
    unfolding and_then
    bracket-Rests (log, true) used h u =
        let closes : follow k (close_firsts (length sinks)) in_use ≡ some done =
          (close_firsts-follow k (length sinks)).0 there in
        subst AtRest
          (sym (
            follow-append k log _ fresh
            ∙ ap (λ o. o >>= (λ s. follow k (used.0 ++ close_firsts (length sinks)) s)) h
            ∙ follow-append k used.0 _ in_use
            ∙ ap (λ o. o >>= (λ s. follow k (close_firsts (length sinks)) s)) u
            ∙ closes))
          tt
    bracket-Rests (log, false) used h u = h

    run_open-Rests :
        (id : ℕ) (s : Option Session) (stream : List ℕ) → Rests (run_open ff sinks id s stream)
    unfolding run_open sinks_open sinks_close and_assert finish_with
    run_open-Rests id s stream =
        let there' : 0 < length sinks = omega (arith, there) in
        let loop = demux ff sinks (must_merge_config id) (length stream + 1) none stream in
        let used : Outcome = if ff.alloc_packet then loop else ([], some error) in
        either_branch Rests ff.open_codec
          (and_assert (sinks_open sinks s) (finish_with used (sinks_close sinks))) ([], some error)
          (rw
            (
              with_sinks_lem sinks (open_from s 0 sinks) there',
              with_sinks_lem sinks (close_firsts (length sinks)) there',
            )
            (bracket-Rests (open_from s 0 sinks) used
              ((open_from-follow s k 0 sinks).1 (omega arith) (omega arith))
              (either_branch InUse ff.alloc_packet loop ([], some error)
                (demux-InUse (must_merge_config id) (length stream + 1) none stream)
                (nothing-InUse (some error)))))
          (nothing-Rests (some error))

    stops-Rests : (status : Status) → Rests (finish_with ([], some status) (sinks_disable sinks))
    unfolding sinks_disable finish_with
    stops-Rests status =
        let there' : 0 < length sinks = omega (arith, there) in
        rw (with_sinks_lem sinks (disable_from 0 sinks) there') (disable_from-AtRest k 0 sinks).0

-- In every run each sink is called in the order of the protocol: it is disabled, or it refuses to
-- open, or it is opened, then gets items, and is closed, or it is not called at all. No sink is left
-- in use.
pub run_demuxer-AtRest :
    (ff : Ffmpeg) (sinks : List Sink) (k : ℕ) (bytes : List ℕ)
    → k < length sinks
    → AtRest (follow k (run_demuxer ff sinks bytes).0 fresh)
run_demuxer-AtRest ff sinks k bytes there =
    run_demuxer-all (λ o. AtRest (follow k o.0 fresh)) ff sinks
      (nothing-Rests ff sinks k (some error)) (stops-Rests ff sinks k there)
      (run_open-Rests ff sinks k there) bytes
