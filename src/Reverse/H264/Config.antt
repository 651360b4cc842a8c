-- ===== src/Reverse/H264/Config.antt =====
-- The encoder's configuration in app/src/reverse_display.c: an avcC record of parameter sets.
use dskcpy.Prelude.{
  ℕ, suc, ◌+◌, ◌-◌, ◌/◌, ◌%◌, ◌^◌, ◌≤◌, ◌<◌, ◌≡◌, refl, sym, ap, ◌∙◌, List, [], ◌∷◌, ◌++◌, arith,
  length, drop, bit_or_disjoint, bit_and, true, false, some, length-append, drop-append,
  take-append, ltb-eq_false, append_assoc, ltb, ◌==◌, get_or,
}
use dskcpy.Util.Binary.{read16be}
use dskcpy.Reverse.H264.{
  check_sets, copy_sets, copy_config, config_pps, normalize_h264_config, start_code, size_max,
  has_annexb_start_code,
}
use dskcpy.Reverse.H264.Lengths.{big_endian}
use dskcpy.Reverse.H264.StartCode.{no_zero}
use dskcpy.Reverse.H264.Packets.{IsUnits, annex_b}

-- The sets with their two-byte lengths in front of the rest of the record.
abbrev pub sets : List (List ℕ) → List ℕ → List ℕ
sets [] rest = rest
sets (u ∷ us) rest = big_endian 2 (length u) ++ (u ++ sets us rest)

module _ (u rest : List ℕ) (h0 : 0 < length u) (h1 : length u < 256 ^ 2) where
  abbrev front : List ℕ
  front = big_endian 2 (length u) ++ (u ++ rest)

  set_size : read16be front 0 ≡ length u
  unfolding read16be
  set_size =
      bit_or_disjoint 8 (length u / 256 ^ 1 % 256) (length u / 256 ^ 0 % 256) (omega arith)
      ∙ omega arith

  check-set :
      (n output_size : ℕ)
      → output_size + (4 + length u) ≤ size_max
      → check_sets (suc n) front output_size ≡ check_sets n rest (output_size + (4 + length u))
  unfolding check_sets
  check-set n output_size room =
      let header : ltb (length front) 2 ≡ false = ltb-eq_false (length front) 2 (omega arith) in
      let nonzero : (length u == 0) ≡ false = ground arith in
      let whole : ltb (length (u ++ rest)) (length u) ≡ false =
        ltb-eq_false (length (u ++ rest)) (length u) (omega (arith, length-append u rest)) in
      let fits : ltb (size_max - 4 - length u) output_size ≡ false =
        ltb-eq_false (size_max - 4 - length u) output_size (omega arith) in
      rw (set_size, header, nonzero, whole, fits, drop-append u rest) refl

  copy-set :
      (n : ℕ)
      → copy_sets (suc n) front ≡ (start_code ++ (u ++ (copy_sets n rest).0), (copy_sets n rest).1)
  unfolding copy_sets
  copy-set n = rw (set_size, drop-append u rest, take-append u rest) refl

check_sets_lem :
    (us : List (List ℕ)) (rest : List ℕ) (output_size : ℕ)
    → IsUnits 2 us
    → output_size + length (annex_b us) ≤ size_max
    → check_sets (length us) (sets us rest) output_size
      ≡ some (rest, output_size + length (annex_b us))
unfolding check_sets
check_sets_lem [] rest output_size h room = ap (λ (n : ℕ). some (rest, n)) (omega arith)
check_sets_lem (u ∷ us) rest output_size h room =
    let total : length (u ++ annex_b us) ≡ length u + length (annex_b us) =
      length-append u (annex_b us) in
    check-set u (sets us rest) h.0.0 h.0.1 (length us) output_size (omega arith)
    ∙ (check_sets_lem us rest (output_size + (4 + length u)) h.1 (omega arith)
        ∙ ap (λ (n : ℕ). some (rest, n)) (omega arith))

copy_sets_lem :
    (us : List (List ℕ)) (rest : List ℕ)
    → IsUnits 2 us
    → copy_sets (length us) (sets us rest) ≡ (annex_b us, rest)
unfolding copy_sets
copy_sets_lem [] rest h = refl
copy_sets_lem (u ∷ us) rest h =
    copy-set u (sets us rest) h.0.0 h.0.1 (length us)
    ∙ ap (λ (r : List ℕ × List ℕ). (start_code ++ (u ++ r.0), r.1)) (copy_sets_lem us rest h.1)

annex_b-append : (us vs : List (List ℕ)) → annex_b (us ++ vs) ≡ annex_b us ++ annex_b vs
annex_b-append [] vs = refl
annex_b-append (u ∷ us) vs =
    ap (λ t. start_code ++ (u ++ t)) (annex_b-append us vs)
    ∙ ap (λ t. start_code ++ t) (sym (append_assoc u (annex_b us) (annex_b vs)))

length-sets : (us : List (List ℕ)) (rest : List ℕ) → length rest ≤ length (sets us rest)
length-sets [] rest = omega arith
length-sets (u ∷ us) rest =
    let all : length (u ++ sets us rest) ≡ length u + length (sets us rest) =
      length-append u (sets us rest) in
    omega (arith, length-sets us rest)

-- An avcC record: a version of 1, three bytes of profile and level, the size of the packets'
-- lengths, and the parameter sets of both kinds behind their counts.
abbrev pub avcc_record : List ℕ → ℕ → ℕ → List (List ℕ) → List (List ℕ) → List ℕ → List ℕ
avcc_record profile length_byte count_byte sps pps rest =
    1
    ∷ get_or profile 0 0
    ∷ get_or profile 1 0
    ∷ get_or profile 2 0
    ∷ length_byte
    ∷ count_byte
    ∷ sets sps (length pps ∷ sets pps rest)

-- An avcC record with sets of both kinds, none of them empty or longer than 65535 bytes, becomes
-- all its sets behind start codes, whatever follows them, when their total size is below 2 ^ 64.
pub normalize_h264_config-avcc_record :
    (profile : List ℕ) (length_byte count_byte : ℕ) (sps pps : List (List ℕ)) (rest : List ℕ)
    → bit_and count_byte 0x1f ≡ length sps
    → 0 < length sps
    → 0 < length pps
    → IsUnits 2 sps
    → IsUnits 2 pps
    → length (annex_b sps) + length (annex_b pps) ≤ size_max
    → normalize_h264_config true (avcc_record profile length_byte count_byte sps pps rest)
      ≡ some (record { bytes = annex_b (sps ++ pps); owned = true })
unfolding normalize_h264_config config_pps copy_config has_annexb_start_code
normalize_h264_config-avcc_record profile length_byte count_byte sps pps rest count s0 p0 hs hp
      room =
    let sps_checked = check_sets_lem sps (length pps ∷ sets pps rest) 0 hs (omega arith) in
    let pps_checked = check_sets_lem pps rest (0 + length (annex_b sps)) hp (omega arith) in
    let sps_copied = copy_sets_lem sps (length pps ∷ sets pps rest) hs in
    let pps_copied = copy_sets_lem pps rest hp in
    let some_sps : (length sps == 0) ≡ false = ground arith in
    let some_pps : (length pps == 0) ≡ false = ground arith in
    let behind : List ℕ = sets sps (length pps ∷ sets pps rest) in
    let header : ltb (suc (suc (suc (suc (suc (suc (length behind))))))) 7 ≡ false =
      ltb-eq_false (suc (suc (suc (suc (suc (suc (length behind))))))) 7
        (omega (arith, length-sets sps (length pps ∷ sets pps rest))) in
    let more : (suc (length (sets pps rest)) == 0) ≡ false = ground arith in
    let avcc : has_annexb_start_code (avcc_record profile length_byte count_byte sps pps rest)
        ≡ false =
      no_zero (drop 1 (avcc_record profile length_byte count_byte sps pps rest)) 0 in
    rw
      (
        avcc, header, count, some_sps, sps_checked, more, some_pps, pps_checked, sps_copied,
        pps_copied,
      )
      (ap (λ bs. some (record { bytes = bs; owned = true })) (sym (annex_b-append sps pps)))
