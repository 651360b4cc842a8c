-- ===== src/Examples/Packets.antt =====
-- A history of frames.
use dskcpy.Prelude.{ℕ, ◌≡◌, List, [], ◌∷◌, none, true, false, ◌>>=◌}
use dskcpy.FrameBuffer.{init}
use dskcpy.FrameBuffer.Latest.{Event, pushes, consumes, run, run_cell, stands_for, run-cell}

-- The frame 5 is skipped, and the push of 7 fails.
abbrev frames : List (Event ℕ)
frames = pushes true 5 ∷ pushes true 6 ∷ pushes false 7 ∷ consumes ∷ pushes true 8 ∷ []

frames_example : run frames init ≡ (run_cell frames none >>= stands_for)
unfolding init
frames_example = run-cell frames none
