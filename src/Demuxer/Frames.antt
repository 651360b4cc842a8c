-- ===== src/Demuxer/Frames.antt =====
-- app/src/demuxer.c: the format of a stream, as the comment of `sc_demuxer_recv_header` draws it, and
-- what the demuxer reads from it.
use dskcpy.Prelude.{
  to_i32, pos, ℕ, ◌+◌, ◌/◌, ◌%◌, ◌^◌, ◌<◌, ◌≡◌, refl, ap₂, ◌∙◌, Bool, true, false, List, [], ◌∷◌,
  ◌++◌, Option, none, some, if◌then◌else◌, length, take-append, drop-append, arith,
}
use dskcpy.Util.Binary.{read32be, read64be}
use dskcpy.Util.Binary.Bytes.{be32, be64}
use dskcpy.Util.Binary.RoundTrip.{read32be_at, join64}
use dskcpy.PacketSource.{Session, MediaPacket, Item, session, media}
use dskcpy.Demuxer.{Ffmpeg, has_bit, is_session, parse_session, flagged, recv_packet}

abbrev pub bit_if : Bool → ℕ → ℕ
bit_if true k = 2 ^ k
bit_if false k = 0

abbrev pub pts_or_config : Option ℕ → ℕ
pts_or_config none = 2 ^ 62
pts_or_config (some pts) = pts

abbrev pub flags : MediaPacket → ℕ
flags p = bit_if p.key_frame 61 + pts_or_config p.packet.pts

-- The first twelve bytes.
abbrev pub header_of : Item → List ℕ
header_of (session s) =
    0x80 ∷ 0 ∷ 0 ∷ (if s.client_resized then 1 else 0) ∷ be32 s.width ++ be32 s.height
header_of (media p) = be64 (flags p) ++ be32 (length p.packet.bytes)

abbrev pub payload : Item → List ℕ
payload (session s) = []
payload (media p) = p.packet.bytes

unfoldable pub encode_all : List Item → List ℕ
encode_all [] = []
encode_all (item ∷ items) = header_of item ++ (payload item ++ encode_all items)

abbrev pub PtsFits : Option ℕ → Type 0
PtsFits none = Unit
PtsFits (some pts) = pts < 2 ^ 61

abbrev pub Fits : Item → Type 0
Fits (session s) = (s.width < 2 ^ 32) × (s.height < 2 ^ 32)
Fits (media p) =
    PtsFits p.packet.pts × (0 < length p.packet.bytes) × (length p.packet.bytes < 2 ^ 29)

pub length-header_of : (item : Item) → length (header_of item) ≡ 12
length-header_of (session s) = refl
length-header_of (media p) = refl

resized_bit : (b : Bool) → has_bit (if b then 1 else 0) 0 ≡ b
resized_bit true = refl
resized_bit false = refl

pub session_frame :
    (s : Session)
    → Fits (session s)
    → (is_session (header_of (session s)) ≡ true) × (parse_session (header_of (session s)) ≡ s)
unfolding is_session parse_session
session_frame s fits =
    let h = header_of (session s) in
    (
      refl,
      ap₂ (λ (w : ℕ) (t : ℕ × Bool). record { width = w; height = t.0; client_resized = t.1 })
          (read32be_at h 4 s.width fits.0 refl refl refl refl)
          (ap₂ {C = ℕ × Bool} (λ (a : ℕ) (b : Bool). (a, b))
            (read32be_at h 8 s.height fits.1 refl refl refl refl) (resized_bit s.client_resized)),
    )

flags_lt : (pts : Option ℕ) (key : Bool) → PtsFits pts → bit_if key 61 + pts_or_config pts < 2 ^ 63
flags_lt none true h = omega arith
flags_lt none false h = omega arith
flags_lt (some t) true h = omega arith
flags_lt (some t) false h = omega arith

pub media_is_no_session :
    (p : MediaPacket) → Fits (media p) → is_session (header_of (media p)) ≡ false
unfolding is_session
media_is_no_session p fits = ground (arith, flags_lt p.packet.pts p.key_frame fits.0)

flagged_lem :
    (pts : Option ℕ) (key : Bool) (bytes : List ℕ)
    → PtsFits pts
    → flagged (bit_if key 61 + pts_or_config pts) bytes
      ≡ record { packet = record { pts = pts; bytes = bytes }; key_frame = key }
unfolding flagged
flagged_lem none true bytes h = refl
flagged_lem none false bytes h = refl
flagged_lem (some t) true bytes h = ground arith
flagged_lem (some t) false bytes h = ground arith

pub read_header :
    (p : MediaPacket)
    → Fits (media p)
    → (read64be (header_of (media p)) 0 ≡ flags p)
      × (read32be (header_of (media p)) 8 ≡ length p.packet.bytes)
unfolding read64be
read_header p fits =
    let h = header_of (media p) in
    let v = flags p in
    let small = flags_lt p.packet.pts p.key_frame fits.0 in
    let len_small : length p.packet.bytes < 2 ^ 32 = omega (arith, fits.2) in
    let high : v / 2 ^ 32 % 2 ^ 32 < 2 ^ 32 = omega arith in
    let low : v % 2 ^ 32 < 2 ^ 32 = omega arith in
    let msb = read32be_at h 0 (v / 2 ^ 32 % 2 ^ 32) high refl refl refl refl in
    let lsb = read32be_at h 4 (v % 2 ^ 32) low refl refl refl refl in
    (
      rw (msb, lsb) (join64 _ _ low ∙ omega (arith, small)),
      read32be_at h 8 (length p.packet.bytes) len_small refl refl refl refl,
    )

to_i32_small : (n : ℕ) → n < 2 ^ 29 → to_i32 n ≡ pos n
to_i32_small n h = ground (arith, h)

pub recv_packet_lem :
    (ff : Ffmpeg) (p : MediaPacket) (rest : List ℕ)
    → Fits (media p)
    → ff.new_packet (pos (length p.packet.bytes)) ≡ true
    → recv_packet ff (header_of (media p)) (p.packet.bytes ++ rest) ≡ some (p, rest)
unfolding recv_packet
recv_packet_lem ff p rest fits memory =
    let r = read_header p fits in
    rw
      (
        r.0,
        r.1,
        to_i32_small (length p.packet.bytes) fits.2,
        take-append p.packet.bytes rest,
        drop-append p.packet.bytes rest,
        memory,
      )
      (ground (arith, fits.1, flagged_lem p.packet.pts p.key_frame p.packet.bytes fits.0))
