-- ===== src/Recorder/Ends.antt =====
-- app/src/recorder.c: the loop of a recorder that is stopped comes to its end.
use dskcpy.Prelude.{
  Bool, false, ℕ, zero, suc, ◌||◌, true, false, List, ◌≡◌, refl, ap, ◌∙◌, arith, ◌<◌, replicate,
  ◌⊎◌, inl, inr, Bool-cases,
}
use dskcpy.Recorder.{Muxer, Shared, is_empty}
use dskcpy.Recorder.Round.{Phase, running, ended, failed, crashed}
use dskcpy.Recorder.Turns.{Kept}
use dskcpy.Recorder.Drain.{is_running, weight, turn-done}
use dskcpy.Recorder.Runs.{run-Inv, start-Inv}
use dskcpy.Recorder.History.{Event, works, Session, work_on, on_event, run, start}

-- Turns of a recorder that is stopped already.
abbrev pub turns : ℕ → List Event
turns n = replicate n (works false)

-- A session whose thread runs no more is left alone by the turns.
work_on-over :
    (mux : Muxer) (late : Bool) (z : Session) (p : Phase)
    → z.phase ≡ p
    → is_running p ≡ false
    → work_on mux late z p ≡ z
unfolding work_on
work_on-over mux late z running e h = ground (arith, h)
work_on-over mux late z ended e h = refl
work_on-over mux late z failed e h = refl
work_on-over mux late z crashed e h = refl

run-over :
    (mux : Muxer) (z : Session) (n : ℕ) → is_running z.phase ≡ false → run mux z (turns n) ≡ z
unfolding run on_event
run-over mux z zero h = refl
run-over mux z (suc n) h =
    ap (λ z. run mux z (turns n)) (work_on-over mux false z z.phase refl h) ∙ run-over mux z n h

-- Each turn of a stopped recorder that goes on leaves fewer packets.
work_on-done :
    (mux : Muxer) (late : Bool) (z : Session) (p : Phase)
    → z.shared.stopped ≡ true
    → let z' = work_on mux late z p in
      is_running p ≡ true
      → is_running z'.phase ≡ true
      → (weight z'.shared z'.local < weight z.shared z.local) × (z'.shared.stopped ≡ true)
unfolding work_on
work_on-done mux late z running stopped r e =
    let d = turn-done mux late z.shared z.local stopped e in (d.0, rw d.1 refl)
work_on-done mux late z ended stopped r e = ground (arith, r)
work_on-done mux late z failed stopped r e = ground (arith, r)
work_on-done mux late z crashed stopped r e = ground (arith, r)

run-ends :
    (mux : Muxer) (z : Session) (n : ℕ)
    → z.shared.stopped ≡ true
    → weight z.shared z.local < n
    → is_running (run mux z (turns n)).phase ≡ false
unfolding run on_event
run-ends mux z zero stopped h = absurd (omega (arith, h))
run-ends mux z (suc n) stopped h =
    let z' = work_on mux false z z.phase in
    elim (Bool-cases (is_running z.phase)) [
      | inr over ↦ ap (λ z. is_running z.phase) (run-over mux z (suc n) over) ∙ over
      | inl goes ↦ elim (Bool-cases (is_running z'.phase)) [
        | inr over ↦ ap (λ z. is_running z.phase) (run-over mux z' n over) ∙ over
        | inl still ↦
            let d = work_on-done mux false z z.phase stopped goes still in
            run-ends mux z' n d.1 (omega (arith, d.0, h))
      ]
    ]

done_or_not :
    (p : Phase) (taken all frames : List ℕ) (most : ℕ)
    → is_running p ≡ false
    → Kept p taken all frames most
    → (p ≡ ended) ⊎ (p ≡ failed)
done_or_not running taken all frames most e k = ground (arith, e)
done_or_not ended taken all frames most e k = inl refl
done_or_not failed taken all frames most e k = inr refl
done_or_not crashed taken all frames most e k = absurd k

-- Where a stream that is not recorded has no packets behind the header: after any history in which
-- the recorder is stopped, its thread comes to its end, well or with an error, in one turn more than
-- the packets that are still held or queued, and no assertion fails on the way.
pub recording_ends :
    (mux : Muxer) (s : Shared) (es : List Event) (n : ℕ)
    → (s.video || is_empty s.video_queue) ≡ true
    → (s.audio || is_empty s.audio_queue) ≡ true
    → let z = run mux (start s) es in
      z.shared.stopped ≡ true
      → weight z.shared z.local < n
      → let z' = run mux z (turns n) in (z'.phase ≡ ended) ⊎ (z'.phase ≡ failed)
recording_ends mux s es n ev ea stopped h =
    let z = run mux (start s) es in
    let inv = run-Inv mux z (turns n) (run-Inv mux (start s) es (start-Inv s ev ea)) in
    done_or_not (run mux z (turns n)).phase _ _ _ _ (run-ends mux z n stopped h) inv.video_kept
