-- ===== src/Util/AudioBuf/Calls.antt =====
-- Whole calls of `sc_audiobuf_read`, `sc_audiobuf_write` and `sc_audiobuf_write_silence`, and the
-- threads from an empty buffer on.
use dskcpy.Prelude.{
  ℕ, zero, suc, ◌+◌, ◌-◌, ◌%◌, ◌^◌, ◌≤◌, ◌<◌, ◌≡◌, ◌≢◌, refl, sym, ap, subst, ◌∙◌, inl, inr, true,
  List, [], ◌++◌, some, arith, append-nil, ◌==◌, if◌then◌else◌, length, take, replicate, min,
  length-replicate, Bool-cases, ==-eq_false,
}
use dskcpy.Util.AudioBuf.{
  AudioBuf, init, can_read, can_write, readable, at_most, copy_in, copy_out, store_head, store_tail,
  read, write, write_silence,
}
use dskcpy.Util.VecDeque.Contents.{span, length-span, wrap_cases}
use dskcpy.Util.AudioBuf.Cells.{copy_out-span}
use dskcpy.Util.AudioBuf.Cursors.{writable_lem}
use dskcpy.Util.AudioBuf.Threads.{
  idle, System, Step, write_load, write_copy, write_store, read_load, read_copy, read_store, Run,
  start, next,
}
use dskcpy.Util.AudioBuf.Fifo.{sample, contents, IsValid, Inv, Step-Inv, Run-Inv}

module _ {A : Type 0} (junk : A) where
  -- A buffer between two calls.
  abbrev pub resting : AudioBuf A → List A → List A → System A
  resting b written got = record {
    buf = b;
    writer = idle;
    reader = idle;
    written = written;
    got = got;
  }

  resting-Inv : (b : AudioBuf A) → IsValid junk b → Inv junk (resting b (contents junk b) [])
  resting-Inv b v = record { valid = v; writing = tt; reading = tt; fifo = refl }

  -- A write to a valid buffer takes as many of the samples as there is room for up to the capacity,
  -- and adds them at the end of the contents.
  pub write_lem :
      (b : AudioBuf A) (from : List A) (count : ℕ)
      → IsValid junk b
      → count ≤ length from
      → let (n, b') = write b from count in
        (n ≡ min count (b.alloc_size - 1 - can_read b))
        × IsValid junk b'
        × (contents junk b' ≡ contents junk b ++ take n from)
  unfolding write
  write_lem b from count v enough =
      let room = writable_lem b.alloc_size b.head b.tail v.cursors in
      elim (Bool-cases (can_write b == 0)) [
        | inl full ↦ rw full (ground (arith, room), v, sym (append-nil (contents junk b)))
        | inr some_room ↦
            let n = at_most (can_write b) count in
            let done = Step-Inv junk (write_store b.head n from refl) (
              Step-Inv junk (write_copy b.head n from refl) (
                Step-Inv junk (write_load from count refl enough (ground arith))
                  (resting-Inv b v))) in
            rw some_room (ground (arith, room), done.valid, sym done.fifo)
      ]

  -- A silence is a write of as many zero samples as it takes.
  pub write_silence-write :
      (zero_sample : A) (b : AudioBuf A) (count : ℕ)
      → write_silence zero_sample b count
        ≡ (let n = at_most (can_write b) count in write b (replicate n zero_sample) n)
  unfolding write_silence write
  write_silence-write zero_sample b count =
      let n = at_most (can_write b) count in
      let same : at_most (can_write b) n ≡ n = ground arith in
      ap
        (λ m. if can_write b == 0 then (0, b) else (
          m,
          store_head
              (record b { cells = copy_in b.cells b.alloc_size b.head m (replicate n zero_sample) })
              m,
        ))
        (sym same)

  -- A read of some samples from a valid buffer takes as many of the first ones as wait, and leaves
  -- the others.
  read_lem :
      (b : AudioBuf A) (count : ℕ)
      → IsValid junk b
      → count ≢ 0
      → (out : List A) × (n : ℕ) × (b' : AudioBuf A) × (read b true count ≡ some (out, n, b'))
        × (n ≡ min count (can_read b))
        × (length out ≡ n)
        × IsValid junk b'
        × (contents junk b ≡ out ++ contents junk b')
  unfolding read
  read_lem b count v asked = elim (Bool-cases (can_read b == 0)) [
    | inl empty ↦ ([], 0, b, rw (==-eq_false count 0 asked, empty), ground arith, refl, v, refl)
    | inr some_there ↦
        let n = at_most (can_read b) count in
        let out = copy_out b.cells b.alloc_size b.tail n in
        let done = Step-Inv junk (read_store b.tail n out refl) (
          Step-Inv junk (read_copy b.tail n [] refl)
            (Step-Inv junk (read_load count refl asked (ground arith)) (resting-Inv b v))) in
        (
          out,
          n,
          store_tail b n,
          rw (==-eq_false count 0 asked, some_there),
          ground arith,
          ap length (
                copy_out-span b.cells b.alloc_size b.tail n junk v.sized v.cursors.tail_in
                  (ground (arith, writable_lem b.alloc_size b.head b.tail v.cursors)))
              ∙ length-span (sample junk b) 0 n,
          done.valid,
          done.fifo,
        )
  ]

  Step-alloc : {s u : System A} → Step s u → u.buf.alloc_size ≡ s.buf.alloc_size
  Step-alloc (write_load from count e enough some_room) = refl
  Step-alloc (write_copy h n from e) = refl
  Step-alloc (write_store h n from e) = refl
  Step-alloc (read_load count e asked some_there) = refl
  Step-alloc (read_copy t n none_yet e) = refl
  Step-alloc (read_store t n out e) = refl

  Run-alloc : {s u : System A} → Run s u → u.buf.alloc_size ≡ s.buf.alloc_size
  Run-alloc start = refl
  Run-alloc (next r st) = Step-alloc st ∙ Run-alloc r

  abbrev empty_buf : ℕ → AudioBuf A
  empty_buf capacity = record {
    cells = replicate ((capacity + 1) % 2 ^ 32) junk;
    alloc_size = (capacity + 1) % 2 ^ 32;
    head = 0;
    tail = 0;
  }

  init-empty_buf :
      (capacity : ℕ) (b : AudioBuf A)
      → init junk true capacity ≡ some (some b)
      → (0 < capacity) × (b ≡ empty_buf capacity)
  unfolding init
  init-empty_buf zero b e = cc
  init-empty_buf (suc n) b e =
      let made : some (some (empty_buf (suc n))) ≡ some (some b) =
        rw (==-eq_false (suc n) 0 (omega arith)) at e in
      (omega arith, cc)

  empty_buf-IsValid :
      (capacity : ℕ)
      → 0 < capacity
      → capacity < 2 ^ 31
      → IsValid junk (empty_buf capacity)
        × ((empty_buf capacity).alloc_size ≡ capacity + 1)
        × (can_read (empty_buf capacity) ≡ 0)
  unfolding readable
  empty_buf-IsValid capacity some_room small =
      let alloc = (capacity + 1) % 2 ^ 32 in
      let sum : (alloc + 0 + (2 ^ 32 - 0)) % 2 ^ 32 ≡ alloc = omega arith in
      (
        record { sized = length-replicate alloc junk; cursors = omega arith },
        omega arith,
        rw sum (ground (arith, wrap_cases alloc alloc)),
      )

  init-IsValid :
      (capacity : ℕ) (b : AudioBuf A)
      → capacity < 2 ^ 31
      → init junk true capacity ≡ some (some b)
      → IsValid junk b × (b.alloc_size ≡ capacity + 1) × (can_read b ≡ 0)
  init-IsValid capacity b small e =
      let made = init-empty_buf capacity b e in
      subst (λ t. IsValid junk t × (t.alloc_size ≡ capacity + 1) × (can_read t ≡ 0)) (sym made.1)
        (empty_buf-IsValid capacity made.0 small)

  -- From a new buffer on, of a capacity below 2 ^ 31 and with memory, and in whatever way the steps
  -- of the reader and of the writer alternate, the samples written so far are those read so far
  -- followed by those that wait, each once and in order, and no more wait than the capacity.
  pub threads_fifo :
      (capacity : ℕ) (b : AudioBuf A) {u : System A}
      → capacity < 2 ^ 31
      → init junk true capacity ≡ some (some b)
      → Run (resting b [] []) u
      → (u.written ≡ u.got ++ contents junk u.buf) × (can_read u.buf ≤ capacity)
  threads_fifo capacity b {u} small e r =
      let fresh = init-IsValid capacity b small e in
      let first : Inv junk (resting b [] []) = record {
        valid = fresh.0;
        writing = tt;
        reading = tt;
        fifo = ap (span (sample junk b) 0) (sym fresh.2);
      } in
      let last = Run-Inv junk first r in
      (
        last.fifo,
        omega (
          arith,
          fresh.1,
          Run-alloc r,
          writable_lem u.buf.alloc_size u.buf.head u.buf.tail last.valid.cursors,
        ),
      )
