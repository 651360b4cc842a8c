-- ===== src/Util/AudioBuf/Fifo.antt =====
-- The invariant of the two threads of an audio buffer, and the order of the samples.
use dskcpy.Prelude.{
  ℕ, ◌+◌, ◌-◌, ◌%◌, ◌^◌, ◌≤◌, ◌<◌, ◌≡◌, refl, sym, ap, ap₂, subst, ◌∙◌, inl, inr, List, ◌++◌, arith,
  append_assoc, ltb, lt→ltb, ltb-eq_false, if◌then◌else◌, length, take, get_or, dec_lt,
}
use dskcpy.Util.VecDeque.Contents.{span, span_congr}
use dskcpy.Util.AudioBuf.{AudioBuf, can_read, copy_in, copy_out}
use dskcpy.Util.AudioBuf.Cells.{
  span-append, get_or-copy_in, copy_out-span, length-copy_in, take-span,
}
use dskcpy.Util.AudioBuf.Cursors.{
  Cursors, writable_lem, place-head, readable-store_head, readable-store_tail, place-store_tail,
}
use dskcpy.Util.AudioBuf.Threads.{
  Phase, idle, loaded, copied, System, Step, write_load, write_copy, write_store, read_load,
  read_copy, read_store, Run, start, next,
}

module _ {A : Type 0} (junk : A) where
  -- The sample `k` places behind the first one.
  abbrev pub sample : AudioBuf A → ℕ → A
  sample b k = get_or b.cells ((b.tail + k) % b.alloc_size) junk

  -- The samples that wait to be read.
  abbrev pub contents : AudioBuf A → List A
  contents b = span (sample b) 0 (can_read b)

  pub record IsValid (b : AudioBuf A) : Type 0 where
    pub sized : length b.cells ≡ b.alloc_size
    pub cursors : Cursors b.alloc_size b.head b.tail

  -- There is room for the samples of the writer, and it has copied them behind the others.
  abbrev pub Writing : AudioBuf A → Phase A → Type 0
  Writing b idle = Unit
  Writing b (loaded h n from) = (h ≡ b.head) × (n ≤ length from) × (can_read b + n < b.alloc_size)
  Writing b (copied h n from) =
      (h ≡ b.head)
      × (can_read b + n < b.alloc_size)
      × (span (sample b) (can_read b) n ≡ take n from)

  -- The samples of the reader are there, and it has copied the first ones.
  abbrev pub Reading : AudioBuf A → Phase A → Type 0
  Reading b idle = Unit
  Reading b (loaded t n none_yet) = (t ≡ b.tail) × (n ≤ can_read b)
  Reading b (copied t n out) = (t ≡ b.tail) × (n ≤ can_read b) × (out ≡ span (sample b) 0 n)

  pub record Inv (s : System A) : Type 0 where
    pub valid : IsValid s.buf
    pub writing : Writing s.buf s.writer
    pub reading : Reading s.buf s.reader
    pub fifo : s.written ≡ s.got ++ contents s.buf

  -- The copies of the writer touch no sample that waits.
  sample-copy_in :
      (b : AudioBuf A) (n k : ℕ) (from : List A)
      → IsValid b
      → n ≤ length from
      → can_read b + n < b.alloc_size
      → k < can_read b + n
      → get_or (copy_in b.cells b.alloc_size b.head n from) ((b.tail + k) % b.alloc_size) junk
        ≡ (if ltb k (can_read b) then sample b k else get_or from (k - can_read b) junk)
  sample-copy_in b n k from v enough room h = elim (dec_lt k (can_read b)) [
    | yes old ↦
        let k' = k + b.alloc_size - can_read b in
        rw (lt→ltb k (can_read b) old) (
          get_or-copy_in b.cells from b.alloc_size b.head n ((b.tail + k) % b.alloc_size) k' junk
            v.sized v.cursors.head_in (omega arith) enough (omega arith)
            (place-head b.alloc_size b.head b.tail k k' v.cursors (omega arith) (omega arith)
              (inr (omega arith)))
          ∙ rw (ltb-eq_false k' n (omega arith)))
    | no new ↦
        let k' = k - can_read b in
        rw (ltb-eq_false k (can_read b) (omega arith)) (
          get_or-copy_in b.cells from b.alloc_size b.head n ((b.tail + k) % b.alloc_size) k' junk
            v.sized v.cursors.head_in (omega arith) enough (omega arith)
            (place-head b.alloc_size b.head b.tail k k' v.cursors (omega arith) (omega arith)
              (inl (omega arith)))
          ∙ rw (lt→ltb k' n (omega arith)))
  ]

  -- The buffer with the samples of the writer.
  abbrev filled : AudioBuf A → ℕ → List A → AudioBuf A
  filled b n from = record b { cells = copy_in b.cells b.alloc_size b.head n from }

  module _ (b : AudioBuf A) (n : ℕ) (from : List A) (v : IsValid b) (enough : n ≤ length from)
      (room : can_read b + n < b.alloc_size) where
    filled-before :
        (m : ℕ) → m ≤ can_read b → span (sample (filled b n from)) 0 m ≡ span (sample b) 0 m
    filled-before m h = span_congr (sample (filled b n from)) (sample b) 0 0 m (λ k lt.
        sample-copy_in b n (0 + k) from v enough room (omega arith)
        ∙ rw (lt→ltb (0 + k) (can_read b) (omega arith)))

    filled-behind : span (sample (filled b n from)) (can_read b) n ≡ take n from
    filled-behind =
        span_congr (sample (filled b n from)) (λ k. get_or from k junk) (can_read b) 0 n
          (λ k lt.
            sample-copy_in b n (can_read b + k) from v enough room (omega arith)
            ∙ rw (ltb-eq_false (can_read b + k) (can_read b) (omega arith))
                (ap (λ i. get_or from i junk) (omega arith)))
        ∙ sym (take-span from n junk enough)

    Reading-filled : (p : Phase A) → Reading b p → Reading (filled b n from) p
    Reading-filled idle r = tt
    Reading-filled (loaded t m none_yet) r = r
    Reading-filled (copied t m out) r = (r.0, r.1, r.2 ∙ sym (filled-before m r.1))

  -- The copies of the writer.
  write_copy-Inv :
      (s : System A) (h n : ℕ) (from : List A)
      → s.writer ≡ loaded h n from
      → Inv s
      → Inv (record s {
        buf = record s.buf { cells = copy_in s.buf.cells s.buf.alloc_size h n from };
        writer = copied h n from;
      })
  write_copy-Inv s h n from e inv =
      let b = s.buf in
      let w : Writing b (loaded h n from) = subst (Writing b) e inv.writing in
      subst
        (λ h'. Inv (record s {
          buf = record b { cells = copy_in b.cells b.alloc_size h' n from };
          writer = copied h' n from;
        }))
        (sym w.0)
        (record {
          valid = record {
            sized = length-copy_in b.cells from b.alloc_size b.head n ∙ inv.valid.sized;
            cursors = inv.valid.cursors;
          };
          writing = (refl, w.2, filled-behind b n from inv.valid w.1 w.2);
          reading = Reading-filled b n from inv.valid w.1 w.2 s.reader inv.reading;
          fifo =
              inv.fifo
              ∙ ap (λ t. s.got ++ t)
                  (sym (filled-before b n from inv.valid w.1 w.2 (can_read b) (omega arith)));
        })

  -- The samples that wait before a store of the head still wait after it.
  Reading-store_head :
      (b : AudioBuf A) (head' : ℕ) (p : Phase A)
      → can_read b ≤ can_read (record b { head = head' })
      → Reading b p
      → Reading (record b { head = head' }) p
  Reading-store_head b head' idle h r = tt
  Reading-store_head b head' (loaded t m none_yet) h r = omega arith
  Reading-store_head b head' (copied t m out) h r = (r.0, omega (arith, r.1), r.2)

  write_store-Inv :
      (s : System A) (h n : ℕ) (from : List A)
      → s.writer ≡ copied h n from
      → Inv s
      → Inv (record s {
        buf = record s.buf { head = (h + n) % 2 ^ 32 % s.buf.alloc_size };
        writer = idle;
        written = s.written ++ take n from;
      })
  write_store-Inv s h n from e inv =
      let b = s.buf in
      let w : Writing b (copied h n from) = subst (Writing b) e inv.writing in
      let head' = (h + n) % 2 ^ 32 % b.alloc_size in
      let stored =
        readable-store_head b.alloc_size b.head b.tail n head' inv.valid.cursors w.1
          (ap (λ t. (t + n) % 2 ^ 32 % b.alloc_size) w.0) in
      record {
        valid = record { sized = inv.valid.sized; cursors = stored.0 };
        writing = tt;
        reading = Reading-store_head b head' s.reader (omega (arith, stored.1)) inv.reading;
        fifo =
            ap₂ ◌++◌ inv.fifo (sym w.2)
            ∙ append_assoc s.got (contents b) (span (sample b) (can_read b) n)
            ∙ ap (λ t. s.got ++ t)
                (ap (λ k. contents b ++ span (sample b) k n) (omega arith)
                  ∙ span-append (sample b) 0 (can_read b) n
                  ∙ ap (span (sample b) 0) (sym stored.1));
      }

  -- The buffer without the samples that were read.
  module _ (b : AudioBuf A) (n tail' : ℕ) (v : IsValid b) (there : n ≤ can_read b)
      (at : tail' ≡ (b.tail + n) % 2 ^ 32 % b.alloc_size) where
    sample-store_tail :
        (k : ℕ) → n + k < b.alloc_size → sample (record b { tail = tail' }) k ≡ sample b (n + k)
    sample-store_tail k h =
        ap (λ i. get_or b.cells i junk)
          (place-store_tail b.alloc_size b.head b.tail n k tail' v.cursors (omega arith) h at)

    left : can_read (record b { tail = tail' }) + n ≡ can_read b
    left = (readable-store_tail b.alloc_size b.head b.tail n tail' v.cursors there at).1

    below : can_read b < b.alloc_size
    below = omega (arith, writable_lem b.alloc_size b.head b.tail v.cursors)

    -- A stretch of samples counted from the new tail.
    span-store_tail :
        (i m : ℕ)
        → n + (i + m) ≤ b.alloc_size
        → span (sample (record b { tail = tail' })) i m ≡ span (sample b) (n + i) m
    span-store_tail i m h =
        span_congr (sample (record b { tail = tail' })) (sample b) i (n + i) m
          (λ k lt. sample-store_tail (i + k) (omega arith) ∙ ap (sample b) (omega arith))

    Writing-store_tail : (p : Phase A) → Writing b p → Writing (record b { tail = tail' }) p
    Writing-store_tail idle w = tt
    Writing-store_tail (loaded h m from) w = (w.0, w.1, omega (arith, w.2, left))
    Writing-store_tail (copied h m from) w = (
      w.0,
      omega (arith, w.1, left),
      span-store_tail (can_read (record b { tail = tail' })) m (omega (arith, w.1, left))
          ∙ ap (λ k. span (sample b) k m) (omega (arith, left))
          ∙ w.2,
    )

    contents-store_tail : span (sample b) 0 n ++ contents (record b { tail = tail' }) ≡ contents b
    contents-store_tail =
        ap (λ t. span (sample b) 0 n ++ t)
          (span-store_tail 0 (can_read (record b { tail = tail' })) (omega (arith, left, below))
            ∙ ap (λ k. span (sample b) k (can_read (record b { tail = tail' }))) (omega arith))
        ∙ span-append (sample b) 0 n (can_read (record b { tail = tail' }))
        ∙ ap (span (sample b) 0) (omega (arith, left))

  read_store-Inv :
      (s : System A) (t n : ℕ) (out : List A)
      → s.reader ≡ copied t n out
      → Inv s
      → Inv (record s {
        buf = record s.buf { tail = (t + n) % 2 ^ 32 % s.buf.alloc_size };
        reader = idle;
        got = s.got ++ out;
      })
  read_store-Inv s t n out e inv =
      let b = s.buf in
      let r : Reading b (copied t n out) = subst (Reading b) e inv.reading in
      let tail' = (t + n) % 2 ^ 32 % b.alloc_size in
      let at : tail' ≡ (b.tail + n) % 2 ^ 32 % b.alloc_size =
        ap (λ k. (k + n) % 2 ^ 32 % b.alloc_size) r.0 in
      let stored =
        readable-store_tail b.alloc_size b.head b.tail n tail' inv.valid.cursors r.1 at in
      record {
        valid = record { sized = inv.valid.sized; cursors = stored.0 };
        writing = Writing-store_tail b n tail' inv.valid r.1 at s.writer inv.writing;
        reading = tt;
        fifo =
            inv.fifo
            ∙ ap (λ k. s.got ++ k) (sym (contents-store_tail b n tail' inv.valid r.1 at))
            ∙ ap (λ k. s.got ++ (k ++ contents (record b { tail = tail' }))) (sym r.2)
            ∙ sym (append_assoc s.got out (contents (record b { tail = tail' })));
      }

  pub Step-Inv : {s u : System A} → Step s u → Inv s → Inv u
  Step-Inv {s} (write_load from count e enough some_room) inv = record {
    valid = inv.valid;
    writing = (
      refl,
      ground arith,
      ground (arith, writable_lem s.buf.alloc_size s.buf.head s.buf.tail inv.valid.cursors),
    );
    reading = inv.reading;
    fifo = inv.fifo;
  }
  Step-Inv {s} (write_copy h n from e) inv = write_copy-Inv s h n from e inv
  Step-Inv {s} (write_store h n from e) inv = write_store-Inv s h n from e inv
  Step-Inv {s} (read_load count e asked some_there) inv = record {
    valid = inv.valid;
    writing = inv.writing;
    reading = (refl, ground arith);
    fifo = inv.fifo;
  }
  Step-Inv {s} (read_copy t n none_yet e) inv =
      let b = s.buf in
      let r : Reading b (loaded t n none_yet) = subst (Reading b) e inv.reading in
      let fits : n ≤ b.alloc_size =
        omega (arith, r.1, writable_lem b.alloc_size b.head b.tail inv.valid.cursors) in
      record {
        valid = inv.valid;
        writing = inv.writing;
        reading = (
          r.0,
          r.1,
          ap (λ k. copy_out b.cells b.alloc_size k n) r.0
              ∙ copy_out-span b.cells b.alloc_size b.tail n junk inv.valid.sized
                  inv.valid.cursors.tail_in fits,
        );
        fifo = inv.fifo;
      }
  Step-Inv {s} (read_store t n out e) inv = read_store-Inv s t n out e inv

  -- Whatever way the steps of the reader and of the writer alternate, from a valid buffer with
  -- both threads idle and nothing read, the samples written so far are those read so far followed by
  -- those that wait in the buffer.
  pub Run-Inv : {s u : System A} → Inv s → Run s u → Inv u
  Run-Inv inv start = inv
  Run-Inv inv (next r st) = Step-Inv st (Run-Inv inv r)
