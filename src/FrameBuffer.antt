-- ===== src/FrameBuffer.antt =====
-- app/src/frame_buffer.c: the buffer that holds the last decoded frame until it is rendered. A frame
-- that is not set is `none`; whether `av_frame_ref` succeeds is an argument; a failed assertion is
-- `none`.
pub mod Latest
use dskcpy.Prelude.{Option, none, some, Bool, true, false, not, if◌then◌else◌}

pub record FrameBuffer {ℓ} (A : Type ℓ) : Type ℓ where
  pub pending_frame : Option A
  pub tmp_frame : Option A
  pub pending_frame_consumed : Bool

module _ {ℓ} {A : Type ℓ} where
  unfoldable pub init : FrameBuffer A
  init = record { pending_frame = none; tmp_frame = none; pending_frame_consumed = true }

  unfoldable pub has_frame : FrameBuffer A → Bool
  has_frame fb = not fb.pending_frame_consumed

  abbrev pub swap_frames : FrameBuffer A → FrameBuffer A
  swap_frames fb = record fb { pending_frame = fb.tmp_frame; tmp_frame = fb.pending_frame }

  unfoldable pub push : Bool → FrameBuffer A → A → Bool × FrameBuffer A
  push ref_ok fb frame =
      if ref_ok
      then (let swapped = swap_frames (record fb { tmp_frame = some frame }) in
          (true, record swapped { tmp_frame = none; pending_frame_consumed = false }))
      else (false, fb)

  -- The frame that `dst` gets.
  unfoldable pub consume : FrameBuffer A → Option (Option A × FrameBuffer A)
  consume fb =
      if fb.pending_frame_consumed
      then none
      else some
          (fb.pending_frame, record fb { pending_frame = none; pending_frame_consumed = true })
