-- ===== src/Util/AudioBuf/Cursors.antt =====
-- The 32-bit arithmetic of the cursors of an audio buffer.
use dskcpy.Prelude.{ℕ, ◌+◌, ◌-◌, ◌%◌, ◌^◌, ◌≤◌, ◌<◌, ◌≡◌, ◌⊎◌, arith}
use dskcpy.Util.VecDeque.Contents.{wrap_cases}
use dskcpy.Util.AudioBuf.{readable, writable}

-- The cursors of a buffer with `2 ≤ alloc_size ≤ 2 ^ 31`, and what they say.
pub record Cursors (alloc head tail : ℕ) : Type 0 where
  pub room : 2 ≤ alloc
  pub no_wrap : alloc ≤ 2 ^ 31
  pub head_in : head < alloc
  pub tail_in : tail < alloc

pub readable_cases :
    (alloc head tail : ℕ)
    → Cursors alloc head tail
    → ((tail ≤ head) × (readable alloc head tail ≡ head - tail))
      ⊎ ((head < tail) × (readable alloc head tail ≡ alloc + head - tail))
unfolding readable
readable_cases alloc head tail v =
    let sum : (alloc + head + (2 ^ 32 - tail)) % 2 ^ 32 ≡ alloc + head - tail = omega arith in
    let round = wrap_cases alloc (alloc + head - tail) (omega arith) in
    rw sum (ground (arith, round))

pub writable_lem :
    (alloc head tail : ℕ)
    → Cursors alloc head tail
    → writable alloc head tail + readable alloc head tail + 1 ≡ alloc
unfolding writable
writable_lem alloc head tail v =
    let sum : (alloc + tail + (2 ^ 32 - head) + (2 ^ 32 - 1)) % 2 ^ 32 ≡ alloc + tail - head - 1 =
      omega arith in
    let round = wrap_cases alloc (alloc + tail - head - 1) (omega arith) in
    rw sum (ground (arith, round, readable_cases alloc head tail v))

-- The place `k` behind the tail, counted from the head.
pub place-head :
    (alloc head tail k k' : ℕ)
    → Cursors alloc head tail
    → k < alloc
    → k' < alloc
    → (k ≡ readable alloc head tail + k') ⊎ (k + alloc ≡ readable alloc head tail + k')
    → (tail + k) % alloc ≡ (head + k') % alloc
place-head alloc head tail k k' v h h' at = ground (
  arith,
  readable_cases alloc head tail v,
  wrap_cases alloc (tail + k),
  wrap_cases alloc (head + k'),
)

-- A cursor that is moved on.
moved :
    (alloc cursor n : ℕ)
    → alloc ≤ 2 ^ 31
    → cursor < alloc
    → n < alloc
    → ((cursor + n < alloc) × ((cursor + n) % 2 ^ 32 % alloc ≡ cursor + n))
      ⊎ ((alloc ≤ cursor + n) × ((cursor + n) % 2 ^ 32 % alloc ≡ cursor + n - alloc))
moved alloc cursor n small h hn =
    let sum : (cursor + n) % 2 ^ 32 ≡ cursor + n = omega arith in
    rw sum (wrap_cases alloc (cursor + n) (omega arith))

-- A store of the head makes the samples that were copied readable.
pub readable-store_head :
    (alloc head tail n head' : ℕ)
    → Cursors alloc head tail
    → readable alloc head tail + n < alloc
    → head' ≡ (head + n) % 2 ^ 32 % alloc
    → Cursors alloc head' tail × (readable alloc head' tail ≡ readable alloc head tail + n)
readable-store_head alloc head tail n head' v h e =
    let place = moved alloc head n v.no_wrap v.head_in (omega arith) in
    let v' : Cursors alloc head' tail = ground (arith, place) in
    (
      v',
      ground (arith, place, readable_cases alloc head tail v, readable_cases alloc head' tail v'),
    )

pub readable-store_tail :
    (alloc head tail n tail' : ℕ)
    → Cursors alloc head tail
    → n ≤ readable alloc head tail
    → tail' ≡ (tail + n) % 2 ^ 32 % alloc
    → Cursors alloc head tail' × (readable alloc head tail' + n ≡ readable alloc head tail)
readable-store_tail alloc head tail n tail' v h e =
    let before = readable_cases alloc head tail v in
    let place = moved alloc tail n v.no_wrap v.tail_in (ground (arith, before)) in
    let v' : Cursors alloc head tail' = ground (arith, place) in
    (v', ground (arith, place, before, readable_cases alloc head tail' v'))

pub place-store_tail :
    (alloc head tail n k tail' : ℕ)
    → Cursors alloc head tail
    → n < alloc
    → n + k < alloc
    → tail' ≡ (tail + n) % 2 ^ 32 % alloc
    → (tail' + k) % alloc ≡ (tail + (n + k)) % alloc
place-store_tail alloc head tail n k tail' v hn h e =
    let place = moved alloc tail n v.no_wrap v.tail_in hn in
    ground (arith, place, wrap_cases alloc (tail' + k), wrap_cases alloc (tail + (n + k)))
