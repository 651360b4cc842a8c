-- ===== src/Examples/Samples.antt =====
-- Two threads on an audio buffer with room for two samples, and whole calls.
use dskcpy.Prelude.{ℕ, ◌-◌, ◌≤◌, ◌≡◌, refl, [], ◌∷◌, ◌++◌, arith, take, min, write_at}
use dskcpy.Util.AudioBuf.{AudioBuf, init, can_read, readable, writable, copy_in, copy_out, write}
use dskcpy.Util.AudioBuf.Threads.{
  idle, copied, System, write_load, write_copy, write_store, read_load, read_copy, read_store, Run,
  start, next,
}
use dskcpy.Util.AudioBuf.Fifo.{contents, IsValid}
use dskcpy.Util.AudioBuf.Calls.{resting, threads_fifo, write_lem}

abbrev empty_buf : AudioBuf ℕ
empty_buf = record { cells = 0 ∷ 0 ∷ 0 ∷ []; alloc_size = 3; head = 0; tail = 0 }

-- The writer stores a sample; it then copies two more while the reader takes the first one.
abbrev after_one : System ℕ
after_one = record {
  buf = record { cells = 7 ∷ 0 ∷ 0 ∷ []; alloc_size = 3; head = 1; tail = 0 };
  writer = idle;
  reader = idle;
  written = 7 ∷ [];
  got = [];
}

one_run : Run (resting 0 empty_buf [] []) after_one
unfolding readable writable copy_in write_at
one_run =
    next
      (next (next start (write_load (7 ∷ []) 1 refl (omega arith) (omega arith)))
        (write_copy 0 1 (7 ∷ []) refl))
      (write_store 0 1 (7 ∷ []) refl)

abbrev between : System ℕ
between = record {
  buf = record { cells = 7 ∷ 8 ∷ 0 ∷ []; alloc_size = 3; head = 1; tail = 1 };
  writer = copied 1 1 (8 ∷ 9 ∷ []);
  reader = idle;
  written = 7 ∷ [];
  got = 7 ∷ [];
}

some_run : Run (resting 0 empty_buf [] []) between
unfolding readable writable copy_in copy_out write_at
some_run =
    next
      (next
        (next
          (next (next one_run (read_load 5 refl (omega arith) (omega arith)))
            (write_load (8 ∷ 9 ∷ []) 2 refl (omega arith) (omega arith)))
          (read_copy 0 1 [] refl))
        (write_copy 1 1 (8 ∷ 9 ∷ []) refl))
      (read_store 0 1 (7 ∷ []) refl)

threads_example :
    (between.written ≡ between.got ++ contents 0 between.buf) × (can_read between.buf ≤ 2)
unfolding init
threads_example = threads_fifo 0 2 empty_buf (omega arith) refl some_run

filled-IsValid : IsValid 0 after_one.buf
filled-IsValid = record { sized = refl; cursors = omega arith }

write_example :
    ((write after_one.buf (8 ∷ 9 ∷ []) 2).0 ≡ min 2 (3 - 1 - can_read after_one.buf))
    × IsValid 0 (write after_one.buf (8 ∷ 9 ∷ []) 2).1
    × (contents 0 (write after_one.buf (8 ∷ 9 ∷ []) 2).1
        ≡ contents 0 after_one.buf ++ take (write after_one.buf (8 ∷ 9 ∷ []) 2).0 (8 ∷ 9 ∷ []))
write_example = write_lem 0 after_one.buf (8 ∷ 9 ∷ []) 2 filled-IsValid (omega arith)
