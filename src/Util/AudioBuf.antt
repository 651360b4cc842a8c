-- ===== src/Util/AudioBuf.antt =====
-- app/src/util/audiobuf.c and audiobuf.h: the ring of samples between the thread that decodes the
-- audio and the thread that plays it. `data` is the list of its samples, so that a product with
-- `sample_size` is no part of an index. `uint32_t` wraps at 2 ^ 32. A failed assertion is `none`.
pub mod Cells
pub mod Threads
pub mod Cursors
pub mod Fifo
pub mod Calls
use dskcpy.Prelude.{
  ℕ, ◌+◌, ◌-◌, ◌%◌, ◌^◌, Bool, true, false, List, [], ◌∷◌, ◌++◌, Option, none, some, ltb, ◌==◌,
  if◌then◌else◌, take, drop, replicate, write_at,
}

pub record AudioBuf (A : Type 0) : Type 0 where
  pub cells : List A
  pub alloc_size : ℕ
  pub head : ℕ
  pub tail : ℕ

-- `(alloc_size + head - tail) % alloc_size`
unfoldable pub readable : (alloc_size head tail : ℕ) → ℕ
readable alloc_size head tail = (alloc_size + head + (2 ^ 32 - tail)) % 2 ^ 32 % alloc_size

-- `(alloc_size + tail - head - 1) % alloc_size`
unfoldable pub writable : (alloc_size head tail : ℕ) → ℕ
writable alloc_size head tail =
    (alloc_size + tail + (2 ^ 32 - head) + (2 ^ 32 - 1)) % 2 ^ 32 % alloc_size

-- `if (samples_count > most) samples_count = most;`
abbrev pub at_most : ℕ → ℕ → ℕ
at_most most samples_count = if ltb most samples_count then most else samples_count

module _ {A : Type 0} where
  -- `junk` is what the memory holds, and `alloc_ok` tells whether it is found.
  unfoldable pub init : A → Bool → ℕ → Option (Option (AudioBuf A))
  init junk alloc_ok capacity =
      if capacity == 0
      then none
      else if alloc_ok
      then some (
          some (record {
            cells = replicate ((capacity + 1) % 2 ^ 32) junk;
            alloc_size = (capacity + 1) % 2 ^ 32;
            head = 0;
            tail = 0;
          }))
      else some none

  abbrev pub can_read : AudioBuf A → ℕ
  can_read b = readable b.alloc_size b.head b.tail

  abbrev pub can_write : AudioBuf A → ℕ
  can_write b = writable b.alloc_size b.head b.tail

  -- The two `memcpy` of a read of `n` samples from index `tail` on.
  unfoldable pub copy_out : List A → ℕ → ℕ → ℕ → List A
  copy_out cells alloc_size tail n =
      let right_count = at_most n (alloc_size - tail) in
      let right = take right_count (drop tail cells) in
      if ltb right_count n then right ++ take (n - right_count) cells else right

  -- The two `memcpy` of a write of `n` samples of `from` to index `head`.
  unfoldable pub copy_in : List A → ℕ → ℕ → ℕ → List A → List A
  copy_in cells alloc_size head n from =
      let right_count = at_most n (alloc_size - head) in
      let right = write_at cells head (take right_count from) in
      if ltb right_count n
      then write_at right 0 (take (n - right_count) (drop right_count from))
      else right

  -- The store of the new cursor.
  abbrev pub store_tail : AudioBuf A → ℕ → AudioBuf A
  store_tail b n = record b { tail = (b.tail + n) % 2 ^ 32 % b.alloc_size }

  abbrev pub store_head : AudioBuf A → ℕ → AudioBuf A
  store_head b n = record b { head = (b.head + n) % 2 ^ 32 % b.alloc_size }

  -- What is written to `to`, and the result. `wanted` tells whether `to` is not NULL.
  unfoldable pub read : AudioBuf A → Bool → ℕ → Option (List A × ℕ × AudioBuf A)
  read b wanted samples_count =
      if samples_count == 0
      then none
      else if can_read b == 0
      then some ([], 0, b)
      else let n = at_most (can_read b) samples_count in
        some (if wanted then copy_out b.cells b.alloc_size b.tail n else [], n, store_tail b n)

  -- `from` holds `samples_count` samples at least.
  unfoldable pub write : AudioBuf A → List A → ℕ → ℕ × AudioBuf A
  write b from samples_count =
      if can_write b == 0
      then (0, b)
      else let n = at_most (can_write b) samples_count in
        (n, store_head (record b { cells = copy_in b.cells b.alloc_size b.head n from }) n)

  -- The two `memset` write the sample `zero` whose bytes are all 0.
  unfoldable pub write_silence : A → AudioBuf A → ℕ → ℕ × AudioBuf A
  write_silence zero b samples_count =
      if can_write b == 0
      then (0, b)
      else let n = at_most (can_write b) samples_count in
        (
          n,
          store_head (record b { cells = copy_in b.cells b.alloc_size b.head n (replicate n zero) })
              n,
        )
