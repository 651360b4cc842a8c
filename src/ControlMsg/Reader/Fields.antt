-- ===== src/ControlMsg/Reader/Fields.antt =====
-- The parsers of one field on the bytes of that field.
use dskcpy.Prelude.{
  ℕ, ◌≡◌, refl, ap, ◌∙◌, ◌+◌, ◌*◌, ◌/◌, ◌%◌, ◌^◌, ◌<◌, List, [], ◌∷◌, ◌++◌, Option, some, arith,
}
use dskcpy.Prelude.{
  to_i32, to_u32, to_u32-lt, to_i32-to_u32, bit_or, bit_or_disjoint, length, lt→ltb,
}
use dskcpy.Util.Binary.{byte}
use dskcpy.Util.Binary.Bytes.{be16, be32, be64}
use dskcpy.ControlMsg.Encode.{position_bytes, with_length, with_length_tiny}
use dskcpy.ControlMsg.Types
use dskcpy.ControlMsg.Valid.{IsPosition}
use dskcpy.ControlMsg.Reader.{
  Position, read_u16, read_word, read_int, read_long, read_fully, parse_buffer_length,
  parse_byte_array, parse_position,
}

read_at {ℓ} :
    {A : Type ℓ} {a b : A} {s : List ℕ}
    → a ≡ b
    → ◌≡◌ {A = Option (A × List ℕ)} (some (a, s)) (some (b, s))
read_at {s = s} e = ap (λ t. some (t, s)) e

pub read_u16-be16 : (v : ℕ) {s : List ℕ} → v < 2 ^ 16 → read_u16 (be16 v ++ s) ≡ some (v, s)
unfolding read_u16
read_u16-be16 v h = read_at (omega arith)

pub read_word-be32 : (v : ℕ) {s : List ℕ} → v < 2 ^ 32 → read_word (be32 v ++ s) ≡ some (v, s)
unfolding read_word
read_word-be32 v h = read_at (omega arith)

pub read_int-be32 : (v : ℕ) {s : List ℕ} → v < 2 ^ 32 → read_int (be32 v ++ s) ≡ some (to_i32 v, s)
unfolding read_int
read_int-be32 v h = rw (read_word-be32 v h)

pub read_long-be64 : (v : ℕ) {s : List ℕ} → v < 2 ^ 64 → read_long (be64 v ++ s) ≡ some (v, s)
unfolding read_long
read_long-be64 v {s} h =
    rw
      (
        read_word-be32 (v / 2 ^ 32 % 2 ^ 32) {s = be32 (v % 2 ^ 32) ++ s} (omega arith),
        read_word-be32 (v % 2 ^ 32) {s = s} (omega arith),
      )
      (read_at (omega arith))

pub received_position : Types.Position → Position
received_position p = record { x = p.x; y = p.y; width = p.width; height = p.height }

pub parse_position-bytes :
    (p : Types.Position) {s : List ℕ}
    → IsPosition p
    → parse_position (position_bytes p ++ s) ≡ some (received_position p, s)
unfolding parse_position received_position
parse_position-bytes p {s} v = rw (
  read_int-be32 (to_u32 p.x) (to_u32-lt p.x),
  read_int-be32 (to_u32 p.y) (to_u32-lt p.y),
  read_u16-be16 p.width v.width_range,
  read_u16-be16 p.height v.height_range,
  to_i32-to_u32 p.x v.x_range,
  to_i32-to_u32 p.y v.y_range,
)

pub read_fully-append : (bs : List ℕ) {s : List ℕ} → read_fully (length bs) (bs ++ s) ≡ some (bs, s)
unfolding read_fully
read_fully-append [] = refl
read_fully-append (b ∷ bs) {s} = rw (read_fully-append bs {s = s})

-- One round of `parseBufferLength`.
next_byte :
    (value b : ℕ) → value < 2 ^ 24 → b < 256 → bit_or (value * 2 ^ 8 % 2 ^ 32) b ≡ value * 2 ^ 8 + b
next_byte value b h hb =
    ap (λ t. bit_or t b) (omega arith) ∙ bit_or_disjoint 8 value b (omega arith)

length4 : (v : ℕ) {s : List ℕ} → v < 2 ^ 32 → parse_buffer_length 4 0 (be32 v ++ s) ≡ some (v, s)
unfolding parse_buffer_length
length4 v h =
    rw
      (
        next_byte 0 (byte v 24) (omega arith) (omega arith),
        next_byte (0 * 2 ^ 8 + byte v 24) (byte v 16) (omega arith) (omega arith),
        next_byte ((0 * 2 ^ 8 + byte v 24) * 2 ^ 8 + byte v 16) (byte v 8) (omega arith)
            (omega arith),
        next_byte (((0 * 2 ^ 8 + byte v 24) * 2 ^ 8 + byte v 16) * 2 ^ 8 + byte v 8) (byte v 0)
            (omega arith) (omega arith),
      )
      (read_at (omega arith))

length2 : (v : ℕ) {s : List ℕ} → v < 2 ^ 16 → parse_buffer_length 2 0 (be16 v ++ s) ≡ some (v, s)
unfolding parse_buffer_length
length2 v h =
    rw
      (
        next_byte 0 (byte v 8) (omega arith) (omega arith),
        next_byte (0 * 2 ^ 8 + byte v 8) (byte v 0) (omega arith) (omega arith),
      )
      (read_at (omega arith))

length1 : (v : ℕ) {s : List ℕ} → v < 256 → parse_buffer_length 1 0 (v ∷ s) ≡ some (v, s)
unfolding parse_buffer_length
length1 v h = rw (next_byte 0 v (omega arith) h) (read_at (omega arith))

-- A field of bytes behind its length, in each width of the length that the protocol uses.
pub parse_byte_array4 :
    (bs : List ℕ) {s : List ℕ}
    → length bs < 2 ^ 31
    → parse_byte_array 4 (with_length bs ++ s) ≡ some (bs, s)
unfolding parse_byte_array
parse_byte_array4 bs {s} h =
    rw (length4 (length bs) {s = bs ++ s} (omega arith), lt→ltb _ _ h) (read_fully-append bs)

pub parse_byte_array2 :
    (bs : List ℕ) {s : List ℕ}
    → length bs < 2 ^ 16
    → parse_byte_array 2 (be16 (length bs) ++ (bs ++ s)) ≡ some (bs, s)
unfolding parse_byte_array
parse_byte_array2 bs {s} h =
    rw (length2 (length bs) {s = bs ++ s} h, lt→ltb (length bs) (2 ^ 31) (omega arith))
      (read_fully-append bs)

pub parse_byte_array1 :
    (bs : List ℕ) {s : List ℕ}
    → length bs < 256
    → parse_byte_array 1 (with_length_tiny bs ++ s) ≡ some (bs, s)
unfolding parse_byte_array
parse_byte_array1 bs {s} h =
    rw (length1 (length bs) {s = bs ++ s} h, lt→ltb (length bs) (2 ^ 31) (omega arith))
      (read_fully-append bs)
