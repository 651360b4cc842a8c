-- ===== src/Util/AudioBuf/Threads.antt =====
-- The reader and the writer of app/src/util/audiobuf.c as two threads. Each operation has three
-- steps: the two atomic loads with the choice of the count, the copies, and the atomic store; the
-- steps of the two threads alternate in any way.
use dskcpy.Prelude.{ℕ, ◌+◌, ◌%◌, ◌^◌, ◌≤◌, ◌<◌, ◌≡◌, ◌≢◌, List, [], ◌++◌, length, take}
use dskcpy.Util.AudioBuf.{AudioBuf, can_read, can_write, at_most, copy_in, copy_out}

-- What a thread knows between two steps: nothing, or its own cursor, the count and the samples.
pub data Phase (A : Type 0) : Type 0 where
  idle : Phase A
  loaded : (cursor count : ℕ) (samples : List A) → Phase A
  copied : (cursor count : ℕ) (samples : List A) → Phase A

-- The buffer, the threads, and all samples that were written and read so far.
pub record System (A : Type 0) : Type 0 where
  pub buf : AudioBuf A
  pub writer : Phase A
  pub reader : Phase A
  pub written : List A
  pub got : List A

module _ {A : Type 0} where
  pub data Step (s : System A) : System A → Type 0 where
    write_load :
        (from : List A) (count : ℕ)
        → s.writer ≡ idle
        → count ≤ length from
        → can_write s.buf ≢ 0
        → Step s (record s { writer = loaded s.buf.head (at_most (can_write s.buf) count) from })
    write_copy :
        (h n : ℕ) (from : List A)
        → s.writer ≡ loaded h n from
        → Step s (record s {
          buf = record s.buf { cells = copy_in s.buf.cells s.buf.alloc_size h n from };
          writer = copied h n from;
        })
    write_store :
        (h n : ℕ) (from : List A)
        → s.writer ≡ copied h n from
        → Step s (record s {
          buf = record s.buf { head = (h + n) % 2 ^ 32 % s.buf.alloc_size };
          writer = idle;
          written = s.written ++ take n from;
        })
    read_load :
        (count : ℕ)
        → s.reader ≡ idle
        → count ≢ 0
        → can_read s.buf ≢ 0
        → Step s (record s { reader = loaded s.buf.tail (at_most (can_read s.buf) count) [] })
    read_copy :
        (t n : ℕ) (none_yet : List A)
        → s.reader ≡ loaded t n none_yet
        → Step s (record s { reader = copied t n (copy_out s.buf.cells s.buf.alloc_size t n) })
    read_store :
        (t n : ℕ) (out : List A)
        → s.reader ≡ copied t n out
        → Step s (record s {
          buf = record s.buf { tail = (t + n) % 2 ^ 32 % s.buf.alloc_size };
          reader = idle;
          got = s.got ++ out;
        })

  pub data Run (s : System A) : System A → Type 0 where
    start : Run s s
    next : {t u : System A} → Run s t → Step t u → Run s u

  pub record IsValid (b : AudioBuf A) : Type 0 where
    pub sized : length b.cells ≡ b.alloc_size
    pub room : 2 ≤ b.alloc_size
    pub no_wrap : b.alloc_size ≤ 2 ^ 31
    pub head_in : b.head < b.alloc_size
    pub tail_in : b.tail < b.alloc_size
