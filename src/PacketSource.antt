-- ===== src/PacketSource.antt =====
-- app/src/trait/packet_source.c and packet_sink.h: what is read from a stream goes to every sink of
-- its source. A sink is what it answers to the calls; the calls are recorded with the sink's index.
-- A failed assertion is `none`.
pub mod Protocol
pub mod Willing
use dskcpy.Prelude.{
  ℕ, zero, suc, ◌+◌, List, [], ◌∷◌, ◌++◌, Option, none, some, ltb, Bool, true, false, if◌then◌else◌,
  length, ◌≡◌, ◌<◌, refl, arith,
}
use dskcpy.PacketMerger.{Packet}

-- `struct sc_stream_session`
pub record Session : Type 0 where
  pub width : ℕ
  pub height : ℕ
  pub client_resized : Bool

pub record MediaPacket : Type 0 where
  pub packet : Packet
  pub key_frame : Bool

pub data Item : Type 0 where
  session : Session → Item
  media : MediaPacket → Item

-- A call of a sink, with its answer where it has one.
pub data Call : Type 0 where
  opened : Option Session → Call
  refused : Call
  took : Item → Call
  rejected : Item → Call
  closed : Call
  disabled : Call

pub record Sink : Type 0 where
  pub opens : Bool
  pub takes : Item → Bool
  pub has_push_session : Bool
  pub has_disable : Bool

abbrev pub max_sinks : ℕ
max_sinks = 2

abbrev pub Log : Type 0
Log = List (ℕ × Call)

-- The assertion of `sc_packet_source_add_sink` is that there is room.
unfoldable pub add_sink : List Sink → Sink → Option (List Sink)
add_sink sinks sink = if ltb (length sinks) max_sinks then some (sinks ++ sink ∷ []) else none

-- `sc_packet_source_sinks_close_firsts`
unfoldable pub close_firsts : ℕ → Log
close_firsts zero = []
close_firsts (suc count) = (count, closed) ∷ close_firsts count

-- The loops of the other functions, from sink `i` on.
unfoldable pub open_from : Option Session → ℕ → List Sink → Log × Bool
open_from s i [] = ([], true)
open_from s i (sink ∷ sinks) =
    let rest = open_from s (i + 1) sinks in
    if sink.opens then ((i, opened s) ∷ rest.0, rest.1) else ((i, refused) ∷ close_firsts i, false)

unfoldable pub push_from : Item → ℕ → List Sink → Log × Bool
push_from item i [] = ([], true)
push_from item i (sink ∷ sinks) =
    let rest = push_from item (i + 1) sinks in
    if sink.takes item then ((i, took item) ∷ rest.0, rest.1) else ((i, rejected item) ∷ [], false)

unfoldable pub push_session_from : Item → ℕ → List Sink → Log × Bool
push_session_from item i [] = ([], true)
push_session_from item i (sink ∷ sinks) =
    let rest = push_session_from item (i + 1) sinks in
    if sink.has_push_session
    then (if sink.takes item
        then ((i, took item) ∷ rest.0, rest.1)
        else ((i, rejected item) ∷ [], false))
    else rest

unfoldable pub disable_from : ℕ → List Sink → Log
disable_from i [] = []
disable_from i (sink ∷ sinks) =
    let rest = disable_from (i + 1) sinks in if sink.has_disable then (i, disabled) ∷ rest else rest

-- `assert(source->sink_count)`
unfoldable pub with_sinks {ℓ} : {A : Type ℓ} → List Sink → A → Option A
with_sinks [] a = none
with_sinks (sink ∷ sinks) a = some a

-- `sc_packet_source_sinks_open` and the others.
unfoldable pub sinks_open : List Sink → Option Session → Option (Log × Bool)
sinks_open sinks s = with_sinks sinks (open_from s 0 sinks)

unfoldable pub sinks_close : List Sink → Option Log
sinks_close sinks = with_sinks sinks (close_firsts (length sinks))

unfoldable pub sinks_push : List Sink → MediaPacket → Option (Log × Bool)
sinks_push sinks packet = with_sinks sinks (push_from (media packet) 0 sinks)

unfoldable pub sinks_push_session : List Sink → Session → Option (Log × Bool)
sinks_push_session sinks s = with_sinks sinks (push_session_from (session s) 0 sinks)

unfoldable pub sinks_disable : List Sink → Option Log
sinks_disable sinks = with_sinks sinks (disable_from 0 sinks)

pub with_sinks_lem {ℓ} :
    {A : Type ℓ} (sinks : List Sink) (a : A) → 0 < length sinks → with_sinks sinks a ≡ some a
unfolding with_sinks
with_sinks_lem [] a there = absurd (omega (arith, there))
with_sinks_lem (sink ∷ sinks) a there = refl
