-- ===== src/Reverse/H264/Packets.antt =====
-- The packets of app/src/reverse_display.c as sequences of NAL units.
use dskcpy.Prelude.{
  ℕ, zero, suc, ◌+◌, ◌-◌, ◌*◌, ◌/◌, ◌%◌, ◌^◌, ◌≤◌, ◌<◌, ◌≡◌, ◌≢◌, refl, sym, ap, ap₂, ◌∙◌, holds_at,
  get_or, bit_and, IsByte, ltb→lt, Bool-cases, List, [], ◌∷◌, ◌++◌, arith, length, drop, take, All,
  IsBytes, Bool, true, false, ◌==◌, leb, ltb, ◌&&◌, ◌||◌, if◌then◌else◌, some, none, not,
  length-append, drop-append, take-append, leb-eq_false, le→leb, append-nil, append_assoc, Option,
  ◌>>=◌, lt→ltb, ltb-eq_false, ==-eq_false,
}
use dskcpy.Reverse.H264.{
  read_length, has_annexb_start_code, check_units, copy_units, start_code, normalize_h264,
  avcc_length_size, Normalized, copy_checked,
}
use dskcpy.Reverse.H264.Lengths.{
  big_endian, read_length-big_endian, drop-big_endian, length-big_endian,
}
use dskcpy.Reverse.H264.StartCode.{ambiguous, has_annexb-big_endian}

-- The units with their lengths in front, and the units behind start codes.
abbrev pub avcc : ℕ → List (List ℕ) → List ℕ
avcc length_size [] = []
avcc length_size (u ∷ us) = big_endian length_size (length u) ++ (u ++ avcc length_size us)

abbrev pub annex_b : List (List ℕ) → List ℕ
annex_b [] = []
annex_b (u ∷ us) = start_code ++ (u ++ annex_b us)

-- The units are not empty and their lengths fit.
abbrev pub IsUnits : ℕ → List (List ℕ) → Type 0
IsUnits length_size = All (λ (u : List ℕ). (0 < length u) × (length u < 256 ^ length_size))

module _ (k : ℕ) (k_pos : 1 ≤ k) (k_max : k ≤ 4) where
  module _ (u rest : List ℕ) (h0 : 0 < length u) (h1 : length u < 256 ^ k) where
    abbrev unit : List ℕ
    unit = big_endian k (length u) ++ (u ++ rest)

    length-unit : length unit ≡ k + (length u + length rest)
    length-unit =
        length-append (big_endian k (length u)) (u ++ rest)
        ∙ ap₂ (λ a b. a + b) (length-big_endian k (length u)) (length-append u rest)

    check-unit :
        (fuel count : ℕ) → check_units (suc fuel) k unit count ≡ check_units fuel k rest (count + 1)
    unfolding check_units
    check-unit fuel count =
        let size : read_length k unit 0 ≡ length u =
          read_length-big_endian (u ++ rest) k (length u) k_max h1 in
        let payload : drop k unit ≡ u ++ rest = drop-big_endian k (length u) (u ++ rest) in
        let enough : leb k (length unit) ≡ true =
          le→leb k (length unit) (omega (arith, length-unit)) in
        let nonzero : (length u == 0) ≡ false = ground arith in
        let whole : ltb (length (u ++ rest)) (length u) ≡ false =
          ltb-eq_false (length (u ++ rest)) (length u) (omega (arith, length-append u rest)) in
        rw (size, payload, enough, nonzero, whole, drop-append u rest) refl

    copy-unit :
        (fuel : ℕ) → copy_units (suc fuel) k unit ≡ start_code ++ (u ++ copy_units fuel k rest)
    unfolding copy_units
    copy-unit fuel =
        let size : read_length k unit 0 ≡ length u =
          read_length-big_endian (u ++ rest) k (length u) k_max h1 in
        let payload : drop k unit ≡ u ++ rest = drop-big_endian k (length u) (u ++ rest) in
        let more : ltb 0 (length unit) ≡ true =
          lt→ltb 0 (length unit) (omega (arith, length-unit)) in
        rw (size, payload, more, drop-append u rest, take-append u rest) refl

  check_units-avcc :
      (us : List (List ℕ)) (fuel count : ℕ)
      → IsUnits k us
      → length us < fuel
      → check_units fuel k (avcc k us) count ≡ some ([], count + length us)
  unfolding check_units
  check_units-avcc us zero count h f = absurd (omega arith)
  check_units-avcc [] (suc fuel) count h f = ground arith
  check_units-avcc (u ∷ us) (suc fuel) count h f =
      check-unit u (avcc k us) h.0.0 h.0.1 fuel count
      ∙ (check_units-avcc us fuel (count + 1) h.1 (omega arith)
          ∙ ap (λ (n : ℕ). some ([], n)) (omega arith))

  copy_units-avcc :
      (us : List (List ℕ)) (fuel : ℕ)
      → IsUnits k us
      → length us < fuel
      → copy_units fuel k (avcc k us) ≡ annex_b us
  unfolding copy_units
  copy_units-avcc us zero h f = absurd (omega arith)
  copy_units-avcc [] (suc fuel) h f = refl
  copy_units-avcc (u ∷ us) (suc fuel) h f =
      copy-unit u (avcc k us) h.0.0 h.0.1 fuel
      ∙ ap (λ t. start_code ++ (u ++ t)) (copy_units-avcc us fuel h.1 (omega arith))

  -- A packet is at least as long as it has units.
  length-avcc : (us : List (List ℕ)) → IsUnits k us → length us ≤ length (avcc k us)
  length-avcc [] h = omega arith
  length-avcc (u ∷ us) h = omega (arith, length-avcc us h.1, length-unit u (avcc k us) h.0.0 h.0.1)

low_bits : (b : ℕ) → b < 256 → bit_and b 3 < 4
unfolding dskcpy.Prelude.holds_up_to
low_bits b h = ltb→lt (bit_and b 3) 4 (holds_at (λ c. ltb (bit_and c 3) 4) 255 refl b (omega arith))

get_or-IsByte : (bs : List ℕ) (i : ℕ) → IsBytes bs → get_or bs i 0 < 256
get_or-IsByte [] i h = omega arith
get_or-IsByte (b ∷ bs) zero h = h.0
get_or-IsByte (b ∷ bs) (suc i) h = get_or-IsByte bs i h.1

pub avcc_length_size_range :
    (extradata : List ℕ)
    → IsBytes extradata
    → (1 ≤ avcc_length_size extradata) × (avcc_length_size extradata ≤ 4)
unfolding avcc_length_size
avcc_length_size_range extradata h =
    let small : bit_and (get_or extradata 4 0) 3 < 4 =
      low_bits (get_or extradata 4 0) (get_or-IsByte extradata 4 h) in
    ground arith

copy_checked-all :
    (fuel k n : ℕ) (packet : List ℕ)
    → 0 < n
    → n ≤ length packet
    → length packet < 2 ^ 61
    → copy_checked true fuel k packet ([], n)
      ≡ some (record { bytes = copy_units fuel k packet; owned = true })
unfolding copy_checked
copy_checked-all fuel k n packet h0 h1 h2 = ground arith

if-some :
    (b : Bool) (x : Normalized) (o : Option Normalized) (y : Normalized)
    → o ≡ some y
    → (if b then some x else o) ≡ some (if b then x else y)
if-some true x o y e = refl
if-some false x o y e = e

-- For a packet of NAL units with their lengths in front, each not empty and of a length that fits,
-- the result is a copy with start codes in place of the lengths, except for the lengths of the first
-- unit that read like a start code: then the packet itself is the result. The packet is shorter
-- than 2 ^ 61 bytes.
pub normalize_h264-avcc :
    (extradata u : List ℕ) (us : List (List ℕ))
    → IsBytes extradata
    → IsUnits (avcc_length_size extradata) (u ∷ us)
    → length (avcc (avcc_length_size extradata) (u ∷ us)) < 2 ^ 61
    → normalize_h264 true extradata (avcc (avcc_length_size extradata) (u ∷ us))
      ≡ some (
          if ambiguous (avcc_length_size extradata) (length u)
          then record { bytes = avcc (avcc_length_size extradata) (u ∷ us); owned = false }
          else record { bytes = annex_b (u ∷ us); owned = true })
unfolding normalize_h264 copy_checked
normalize_h264-avcc extradata u us hb h hlen =
    let (low, high) = avcc_length_size_range extradata hb in
    let k = avcc_length_size extradata in
    let packet = avcc k (u ∷ us) in
    let units : length (u ∷ us) ≤ length packet = length-avcc k low high (u ∷ us) h in
    let checked : check_units (suc (length packet)) k packet 0 ≡ some ([], 0 + length (u ∷ us)) =
      check_units-avcc k low high (u ∷ us) (suc (length packet)) 0 h (omega arith) in
    let copied : copy_units (suc (length packet)) k packet ≡ annex_b (u ∷ us) =
      copy_units-avcc k low high (u ∷ us) (suc (length packet)) h (omega arith) in
    let looks : has_annexb_start_code packet ≡ ambiguous k (length u) =
      has_annexb-big_endian (length u) (u ++ avcc k us) k low high h.0.0 h.0.1 in
    let fits : ltb 4 k ≡ false = ltb-eq_false 4 k high in
    rw (looks, fits, checked)
      (if-some (ambiguous k (length u)) _ _ (record { bytes = annex_b (u ∷ us); owned = true })
        (copy_checked-all (suc (length packet)) k (0 + length (u ∷ us)) packet (omega arith)
            (omega arith) hlen
          ∙ ap (λ bs. some (record { bytes = bs; owned = true })) copied))
