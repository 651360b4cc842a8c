-- ===== src/Controller/Wakeup.antt =====
-- The condition variable of the controller (app/src/controller.c): who signals the sending thread.
use dskcpy.Prelude.{
  ap₂, [], ◌∷◌, ◌++◌, ◌+◌, ◌<◌, length, length-append, if◌then◌else◌, ℕ, ◌≡◌, ◌≢◌, sym, ap, ◌∙◌,
  some, Bool, true, false, arith, ◌==◌, ==-eq_false,
}
use dskcpy.Util.VecDeque
use dskcpy.Util.VecDeque.Contents.{length-contents}
use dskcpy.ControlMsg.Types.{ControlMsg, type_of}
use dskcpy.Controller.{Controller, push_msg, resize, stop, must_wait}
use dskcpy.Controller.Inv.{IsValid, pending, PushOutcome, push_msg-PushOutcome}

must_wait_lem :
    {Float : Type 0} (c : Controller Float)
    → must_wait c ≡ true
    → ((c.resize_width == 0) ≡ true) × (VecDeque.is_empty c.queue ≡ true) × (c.stopped ≡ false)
unfolding must_wait
must_wait_lem c w = ground arith

empty_size :
    {Float : Type 0} (c : Controller Float) → VecDeque.is_empty c.queue ≡ true → c.queue.size ≡ 0
unfolding VecDeque.is_empty
empty_size c h = ground arith

must_wait_of_size : {Float : Type 0} (c : Controller Float) → 0 < c.queue.size → must_wait c ≡ false
unfolding must_wait VecDeque.is_empty
must_wait_of_size c h = ground arith

must_wait_of_width :
    {Float : Type 0} (c : Controller Float) → c.resize_width ≢ 0 → must_wait c ≡ false
unfolding must_wait
must_wait_of_width c h = ground arith

module _ {Float : Type 0} (max_cap : ℕ) (junk : ControlMsg Float) where
  -- While the sending thread has to wait on a valid controller, each operation of the other threads
  -- signals it, and leaves a state in which it need not wait: a push, which is then accepted, a
  -- resize to a size that is not 0, and a stop.
  pub wakeup :
      (c : Controller Float) (alloc_ok : Bool) (msg : ControlMsg Float) (width height : ℕ)
      → IsValid max_cap c
      → must_wait c ≡ true
      → type_of msg ≢ 21
      → width ≢ 0
      → height ≢ 0
      → ((c' : Controller Float) × (push_msg max_cap junk alloc_ok c msg ≡ some (true, true, c'))
          × (must_wait c' ≡ false))
        × ((c' : Controller Float) × (resize c width height ≡ some (true, c'))
            × (must_wait c' ≡ false))
        × ((stop c).0 ≡ true)
        × (must_wait (stop c).1 ≡ false)
  unfolding stop resize must_wait
  wakeup c alloc_ok msg width height valid wait other w h = (
    (
      p.after,
      p.result ∙ ap₂ (λ a b. some (a, b, p.after)) pushed (p.signal ∙ empty),
      must_wait_of_size p.after (omega (arith, filled)),
    ),
    (resized, set, must_wait_of_width resized w),
    signals,
    stopped,
  )
    where
      p : PushOutcome max_cap junk alloc_ok c msg (push_msg max_cap junk alloc_ok c msg)
      p = push_msg-PushOutcome max_cap junk alloc_ok c msg valid other

      empty : VecDeque.is_empty c.queue ≡ true
      empty = (must_wait_lem c wait).1

      pushed : p.pushed ≡ true
      pushed = p.below_limit (omega (arith, empty_size c empty))

      grown : pending max_cap junk p.after ≡ pending max_cap junk c ++ (msg ∷ [])
      grown =
          p.queue
          ∙ ap (λ b. if b then pending max_cap junk c ++ (msg ∷ []) else pending max_cap junk c)
              pushed

      filled : p.after.queue.size ≡ length (pending max_cap junk c) + 1
      filled =
          sym (length-contents junk p.after.queue)
          ∙ ap length grown
          ∙ length-append (pending max_cap junk c) (msg ∷ [])

      resized : Controller Float
      resized = record c { resize_width = width; resize_height = height }

      set : resize c width height ≡ some (true, resized)
      set = rw (resize, ==-eq_false width 0 w, ==-eq_false height 0 h, (must_wait_lem c wait).0)

      signals : (stop c).0 ≡ true
      signals = ground arith

      stopped : must_wait (stop c).1 ≡ false
      stopped = ground arith
