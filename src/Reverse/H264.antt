-- ===== src/Reverse/H264.antt =====
-- app/src/reverse_display.c, `reverse_has_annexb_start_code` to `reverse_normalize_h264_config`: the
-- encoder's packets, which may be Annex B or length-prefixed (AVCC), become Annex B. The bytes from
-- the read position on are a list; whether `malloc` succeeds is an argument; a function that returns
-- false gives `none`.
pub mod Config
pub mod Lengths
pub mod Packets
pub mod StartCode
use dskcpy.Prelude.{
  ℕ, zero, suc, ◌+◌, ◌-◌, ◌*◌, ◌/◌, ◌%◌, ◌^◌, List, [], ◌∷◌, ◌++◌, Option, none, some, Bool, true,
  false, not, ◌&&◌, ◌||◌,
}
use dskcpy.Prelude.{
  length, get_or, take, drop, leb, ltb, ◌==◌, if◌then◌else◌, bit_or, bit_and, ◌>>=◌,
}
use dskcpy.Util.Binary.{read16be}

-- `size_t` has 64 bits.
abbrev pub size_max : ℕ
size_max = 2 ^ 64 - 1

abbrev pub leading_zeros : List ℕ → ℕ
leading_zeros [] = 0
leading_zeros (b ∷ bs) = elim b [ zero ↦ suc (leading_zeros bs) | suc _ ↦ 0 ]

unfoldable pub has_annexb_start_code : List ℕ → Bool
has_annexb_start_code packet =
    if ltb (length packet) 3
    then false
    else let pos = leading_zeros packet in
      leb 2 pos && (ltb pos (length packet) && get_or packet pos 0 == 1)

-- `extradata` is empty where the encoder has none.
unfoldable pub avcc_length_size : List ℕ → ℕ
avcc_length_size extradata =
    if leb 5 (length extradata) && get_or extradata 0 0 == 1
    then bit_and (get_or extradata 4 0) 3 + 1
    else 4

-- The data of a packet, and whether it is a copy that the result owns.
pub record Normalized : Type 0 where
  pub bytes : List ℕ
  pub owned : Bool

-- The length in front of a NAL unit, most significant byte first, in a `uint32_t`.
unfoldable pub read_length : ℕ → List ℕ → ℕ → ℕ
read_length zero rest nal_size = nal_size
read_length (suc n) rest nal_size =
    read_length n (drop 1 rest) (bit_or (nal_size * 2 ^ 8 % 2 ^ 32) (get_or rest 0 0))

-- The first loop, which checks the lengths: what is left behind the units, and their count. Each
-- round takes a byte at least, so that the length of the packet is enough fuel.
unfoldable pub check_units : ℕ → ℕ → List ℕ → ℕ → Option (List ℕ × ℕ)
check_units zero length_size rest count = none
check_units (suc fuel) length_size rest count =
    let nal_size = read_length length_size rest 0 in
    let payload = drop length_size rest in
    let later = check_units fuel length_size (drop nal_size payload) (count + 1) in
    if leb length_size (length rest)
    then (if nal_size == 0 || ltb (length payload) nal_size then none else later)
    else some (rest, count)

abbrev pub start_code : List ℕ
start_code = 0 ∷ 0 ∷ 0 ∷ 1 ∷ []

-- The second loop, which copies the units behind start codes.
unfoldable pub copy_units : ℕ → ℕ → List ℕ → List ℕ
copy_units zero length_size rest = []
copy_units (suc fuel) length_size rest =
    let nal_size = read_length length_size rest 0 in
    let payload = drop length_size rest in
    let later = copy_units fuel length_size (drop nal_size payload) in
    if ltb 0 (length rest) then start_code ++ (take nal_size payload ++ later) else []

-- What follows the first loop.
unfoldable pub copy_checked : Bool → ℕ → ℕ → List ℕ → List ℕ × ℕ → Option Normalized
copy_checked malloc_ok fuel length_size packet (rest, count) =
    if not (length rest == 0) || (count == 0 || ltb (size_max / 4) count)
    then none
    else if ltb ((size_max - length packet) / 4) count || not malloc_ok
    then none
    else some (record { bytes = copy_units fuel length_size packet; owned = true })

unfoldable pub normalize_h264 : Bool → List ℕ → List ℕ → Option Normalized
normalize_h264 malloc_ok extradata packet =
    let length_size = avcc_length_size extradata in
    let fuel = suc (length packet) in
    if has_annexb_start_code packet
    then some (record { bytes = packet; owned = false })
    else if ltb 4 length_size
    then none
    else check_units fuel length_size packet 0 >>= copy_checked malloc_ok fuel length_size packet

-- The loops over the parameter sets of one kind, whose lengths have two bytes: what is left behind
-- them, and the size of the output.
unfoldable pub check_sets : ℕ → List ℕ → ℕ → Option (List ℕ × ℕ)
check_sets zero rest output_size = some (rest, output_size)
check_sets (suc n) rest output_size =
    let nal_size = read16be rest 0 in
    let payload = drop 2 rest in
    let later = check_sets n (drop nal_size payload) (output_size + (4 + nal_size)) in
    if ltb (length rest) 2
    then none
    else if nal_size == 0
        || (ltb (length payload) nal_size || ltb (size_max - 4 - nal_size) output_size)
    then none
    else later

-- The copies, and what is left behind them.
unfoldable pub copy_sets : ℕ → List ℕ → List ℕ × List ℕ
copy_sets zero rest = ([], rest)
copy_sets (suc n) rest =
    let nal_size = read16be rest 0 in
    let payload = drop 2 rest in
    let (output, end) = copy_sets n (drop nal_size payload) in
    (start_code ++ (take nal_size payload ++ output), end)

unfoldable pub copy_config : Bool → ℕ → List ℕ → List ℕ × ℕ → Option Normalized
copy_config malloc_ok sps_count packet checked =
    let (sps, middle) = copy_sets sps_count (drop 6 packet) in
    let (pps, last) = copy_sets (get_or middle 0 0) (drop 1 middle) in
    if malloc_ok then some (record { bytes = sps ++ pps; owned = true }) else none

-- What follows the loop over the sequence parameter sets.
unfoldable pub config_pps : Bool → ℕ → List ℕ → List ℕ × ℕ → Option Normalized
config_pps malloc_ok sps_count packet (rest, output_size) =
    let pps_count = get_or rest 0 0 in
    if length rest == 0 || pps_count == 0
    then none
    else check_sets pps_count (drop 1 rest) output_size >>= copy_config malloc_ok sps_count packet

unfoldable pub normalize_h264_config : Bool → List ℕ → Option Normalized
normalize_h264_config malloc_ok packet =
    let sps_count = bit_and (get_or packet 5 0) 0x1f in
    if has_annexb_start_code packet
    then some (record { bytes = packet; owned = false })
    else if ltb (length packet) 7 || not (get_or packet 0 0 == 1)
    then none
    else if sps_count == 0
    then none
    else check_sets sps_count (drop 6 packet) 0 >>= config_pps malloc_ok sps_count packet
