-- ===== src/PacketMerger/Stream.antt =====
-- A stream of packets through the merger of app/src/packet_merger.c.
use dskcpy.Prelude.{
  ℕ, zero, suc, ◌+◌, ◌≤◌, ◌≡◌, refl, ap, ap₂, ◌∙◌, List, [], ◌∷◌, ◌++◌, append-nil, Option, none,
  some, true, arith,
}
use dskcpy.Prelude.{
  length, length-append, length-replicate, take-append, drop, replicate, write_at, write_at_before,
  write_at_start,
}
use dskcpy.PacketMerger.{Packet, PacketMerger, prepend, merge}

drop_rest : (n : ℕ) (xs : List ℕ) → length xs ≤ n → drop n xs ≡ []
drop_rest zero [] h = refl
drop_rest zero (x ∷ xs) h = absurd (omega arith)
drop_rest (suc n) [] h = refl
drop_rest (suc n) (x ∷ xs) h = drop_rest n xs (omega arith)

-- Growing, moving and copying puts the config in front of the media bytes.
pub prepend-append :
    (junk : ℕ) (config media : List ℕ) → prepend junk config media ≡ config ++ media
unfolding prepend
prepend-append junk config media =
    ap (λ t. write_at (write_at grown (length config) t) 0 config)
      (take-append media (replicate (length config) junk))
    ∙ write_at_before grown 0 (length config) config media (omega arith)
    ∙ write_at_start grown (config ++ media) (omega (arith, sizes, length-append config media))
    ∙ ap (λ t. (config ++ media) ++ t)
        (drop_rest (length (config ++ media)) grown
          (omega (arith, sizes, length-append config media)))
    ∙ append-nil (config ++ media)
  where
    grown : List ℕ
    grown = media ++ replicate (length config) junk

    sizes : length grown ≡ length media + length config
    sizes =
        length-append media (replicate (length config) junk)
        ∙ ap (λ n. length media + n) (length-replicate {A = ℕ} (length config) junk)

abbrev pub config_bytes : Option (List ℕ) → List ℕ
config_bytes none = []
config_bytes (some c) = c

-- Every packet as it is, but each media packet that follows a config packet, with no media packet
-- between, begins with the bytes of the last such config.
unfoldable pub with_config : Option (List ℕ) → List Packet → List Packet
with_config pending [] = []
with_config pending (packet ∷ packets) = elim packet.pts [
  | none ↦ packet ∷ with_config (some packet.bytes) packets
  | some t ↦
      record { pts = some t; bytes = config_bytes pending ++ packet.bytes }
      ∷ with_config none packets
]

-- The packets merged one after the other, where memory is found.
unfoldable pub merge_all : ℕ → PacketMerger → List Packet → List Packet
unfolding merge
merge_all junk merger [] = []
merge_all junk merger (packet ∷ packets) =
    let r = merge junk true true merger packet in r.2 ∷ merge_all junk r.1 packets

-- One packet, and then others.
one_more :
    (junk : ℕ) (merger : PacketMerger) (pts : Option ℕ) (bytes : List ℕ) (packets : List Packet)
    → ((m : PacketMerger) → merge_all junk m packets ≡ with_config m packets)
    → merge_all junk merger (record { pts = pts; bytes = bytes } ∷ packets)
      ≡ with_config merger (record { pts = pts; bytes = bytes } ∷ packets)
unfolding merge_all with_config merge
one_more junk merger none bytes packets others =
    ap (λ r. record { pts = none; bytes = bytes } ∷ r) (others (some bytes))
one_more junk none (some t) bytes packets others =
    ap (λ r. record { pts = some t; bytes = bytes } ∷ r) (others none)
one_more junk (some c) (some t) bytes packets others =
    ap₂ (λ b r. record { pts = some t; bytes = b } ∷ r) (prepend-append junk c bytes) (others none)

-- Where memory is found, the merger leaves each packet as it is, but that each media packet which
-- follows a config packet, with no media packet between, begins with the bytes of the last such
-- config; a config that the merger holds at first counts as one in front of the stream.
merge_all-with_config :
    (junk : ℕ) (merger : PacketMerger) (packets : List Packet)
    → merge_all junk merger packets ≡ with_config merger packets
unfolding merge_all with_config
merge_all-with_config junk merger [] = refl
merge_all-with_config junk merger (packet ∷ packets) =
    one_more junk merger packet.pts packet.bytes packets (λ m. merge_all-with_config junk m packets)
