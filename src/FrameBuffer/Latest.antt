-- ===== src/FrameBuffer/Latest.antt =====
-- The buffer as a cell that holds the last frame pushed and not consumed.
use dskcpy.Prelude.{
  ◌≡◌, refl, ap, List, [], ◌∷◌, Option, none, some, Bool, true, false, ◌>>=◌, if◌then◌else◌,
}
use dskcpy.FrameBuffer.{FrameBuffer, push, consume}

-- A push with the outcome of its reference, or a consumption.
pub data Event {ℓ} (A : Type ℓ) : Type ℓ where
  pushes : (ref_ok : Bool) (frame : A) → Event A
  consumes : Event A

module _ {ℓ} {A : Type ℓ} where
  -- The frames consumed, and the buffer.
  unfoldable pub run : List (Event A) → FrameBuffer A → Option (List (Option A) × FrameBuffer A)
  unfolding push consume
  run [] fb = some ([], fb)
  run (pushes ref_ok frame ∷ es) fb = run es (push ref_ok fb frame).1
  run (consumes ∷ es) fb = do
    (frame, fb1) ← consume fb
    (frames, fb2) ← run es fb1
    some (frame ∷ frames, fb2)

  -- The same with a cell: a push that succeeds replaces what the cell holds, and only a cell that
  -- holds a frame can be consumed.
  unfoldable pub run_cell : List (Event A) → Option A → Option (List (Option A) × Option A)
  run_cell [] cell = some ([], cell)
  run_cell (pushes ref_ok frame ∷ es) cell = run_cell es (if ref_ok then some frame else cell)
  run_cell (consumes ∷ es) none = none
  run_cell (consumes ∷ es) (some frame) = do
    (frames, cell) ← run_cell es none
    some (some frame ∷ frames, cell)

  -- The buffer that stands for a cell: it has a frame exactly where the cell holds one, and the
  -- temporary frame is free.
  abbrev pub of_cell : Option A → FrameBuffer A
  of_cell none = record { pending_frame = none; tmp_frame = none; pending_frame_consumed = true }
  of_cell (some frame) = record {
    pending_frame = some frame;
    tmp_frame = none;
    pending_frame_consumed = false;
  }

  -- A result with one more frame in front.
  abbrev behind {ℓ'} : {B : Type ℓ'} → A → List (Option A) × B → Option (List (Option A) × B)
  behind frame t = some (some frame ∷ t.0, t.1)

  abbrev pub stands_for : List (Option A) × Option A → Option (List (Option A) × FrameBuffer A)
  stands_for t = some (t.0, of_cell t.1)

  goes_on :
      (frame : A) (r : Option (List (Option A) × FrameBuffer A))
      (o : Option (List (Option A) × Option A))
      → r ≡ (o >>= stands_for)
      → (r >>= behind frame) ≡ ((o >>= behind frame) >>= stands_for)
  goes_on frame r none e = ap (λ x. x >>= behind frame) e
  goes_on frame r (some t) e = ap (λ x. x >>= behind frame) e

  -- In every history from a buffer that stands for a cell, the buffer does what the cell does: the
  -- same frames are consumed, the assertion fails for both or for none, and at the end the buffer
  -- stands for the cell.
  pub run-cell :
      (es : List (Event A)) (cell : Option A)
      → run es (of_cell cell) ≡ (run_cell es cell >>= stands_for)
  unfolding run run_cell push consume
  run-cell [] cell = refl
  run-cell (pushes true frame ∷ es) none = run-cell es (some frame)
  run-cell (pushes true frame ∷ es) (some old) = run-cell es (some frame)
  run-cell (pushes false frame ∷ es) cell = run-cell es cell
  run-cell (consumes ∷ es) none = refl
  run-cell (consumes ∷ es) (some frame) = goes_on frame _ _ (run-cell es none)
