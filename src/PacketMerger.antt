-- ===== src/PacketMerger.antt =====
-- app/src/packet_merger.c: the config packet of a stream goes in front of the next media packet. A
-- packet without a `pts` is a config packet. Whether `malloc` and `av_grow_packet` succeed are
-- arguments, and `junk` is what the added bytes hold.
pub mod Stream
use dskcpy.Prelude.{ℕ, ◌+◌, List, [], ◌∷◌, ◌++◌, Option, none, some, Bool, true, false}
use dskcpy.Prelude.{if◌then◌else◌, length, take, replicate, write_at}

pub record Packet : Type 0 where
  pub pts : Option ℕ
  pub bytes : List ℕ

-- `merger->config`
abbrev pub PacketMerger : Type 0
PacketMerger = Option (List ℕ)

-- What a packet becomes behind the config: it grows, its bytes move back, the config is copied.
unfoldable pub prepend : ℕ → List ℕ → List ℕ → List ℕ
prepend junk config media =
    let grown = media ++ replicate (length config) junk in
    let moved = write_at grown (length config) (take (length media) grown) in
    write_at moved 0 config

-- `sc_packet_merger_merge`: the return value, the merger and the packet.
unfoldable pub merge : ℕ → Bool → Bool → PacketMerger → Packet → Bool × PacketMerger × Packet
unfolding prepend
merge junk malloc_ok grow_ok config packet = elim packet.pts [
  | none ↦ if malloc_ok then (true, some packet.bytes, packet) else (false, none, packet)
  | some t ↦ elim config [
    | none ↦ (true, none, packet)
    | some c ↦
        if grow_ok
        then (true, none, record packet { bytes = prepend junk c packet.bytes })
        else (false, some c, packet)
  ]
]
