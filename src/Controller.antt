-- ===== src/Controller.antt =====
-- app/src/controller.c: the queue of control messages between the threads that push them and the
-- thread that sends them. Each function below is one critical section of `controller->mutex`; it
-- returns the new state, and whether it signals `msg_cond`. A failed `assert` is `none`.
pub mod Inv
pub mod Fifo
pub mod Wakeup
use dskcpy.Prelude.{
  ℕ, zero, suc, ◌+◌, ◌≡◌, List, [], ◌∷◌, Option, none, some, Bool, true, false, not, ◌&&◌, ◌||◌,
  ◌>>=◌,
}
use dskcpy.Prelude.{ltb, ◌==◌, if◌then◌else◌}
use dskcpy.Util.VecDeque
use dskcpy.Util.VecDeque.{VecDeque}
use dskcpy.ControlMsg.Types.{ControlMsg, resize_display, type_of, is_droppable}

abbrev pub queue_limit : ℕ
queue_limit = 60

pub record Controller (Float : Type 0) : Type 0 where
  pub queue : VecDeque (ControlMsg Float)
  pub stopped : Bool
  pub resize_width : ℕ
  pub resize_height : ℕ

-- `max_cap` and `junk` are those of the queue; `alloc_ok` tells whether memory is found.
module _ {Float : Type 0} (max_cap : ℕ) (junk : ControlMsg Float) where
  -- `sc_controller_init`, as far as the queue goes: `none` is its failure. The mutex and the threads
  -- are the system's.
  unfoldable pub init : Bool → Option (Controller Float)
  init alloc_ok = VecDeque.reserve max_cap junk alloc_ok VecDeque.init (queue_limit + 4) >>= λ r.
      if r.0
      then some (record { queue = r.1; stopped = false; resize_width = 0; resize_height = 0 })
      else none

  -- `sc_controller_push_msg`: whether the message was pushed, whether the condition is signalled,
  -- and the new state.
  unfoldable pub push_msg :
      Bool → Controller Float → ControlMsg Float → Option (Bool × Bool × Controller Float)
  push_msg alloc_ok c msg =
      if type_of msg == 21
      then none
      else (if ltb c.queue.size queue_limit
          then (VecDeque.push_noresize c.queue msg >>= λ q.
              some (true, VecDeque.is_empty c.queue, record c { queue = q }))
          else (if not (is_droppable msg)
              then (VecDeque.push max_cap junk alloc_ok c.queue msg >>= λ r.
                  some (r.0, false, record c { queue = r.1 }))
              else some (false, false, c)))

-- What the sending thread does with the mutex held: it waits, it stops, or it takes a message.
pub data Next (Float : Type 0) : Type 0 where
  waits : Next Float
  stops : Next Float
  takes : ControlMsg Float → Controller Float → Next Float

module _ {Float : Type 0} where
  -- `sc_controller_resize_display`: whether the condition is signalled, and the new state.
  unfoldable pub resize : Controller Float → ℕ → ℕ → Option (Bool × Controller Float)
  resize c width height =
      if width == 0 || height == 0
      then none
      else some (c.resize_width == 0, record c { resize_width = width; resize_height = height })

  unfoldable pub stop : Controller Float → Bool × Controller Float
  stop c = (true, record c { stopped = true })

  -- The condition of the `while` around `sc_cond_wait`.
  unfoldable pub must_wait : Controller Float → Bool
  must_wait c = not c.stopped && (c.resize_width == 0 && VecDeque.is_empty c.queue)

module _ {Float : Type 0} (junk : ControlMsg Float) where
  -- One round of `run_controller`, up to the unlock; `none` is a failed assertion.
  unfoldable pub next : Controller Float → Option (Next Float)
  next c =
      if must_wait c
      then some waits
      else (if c.stopped
          then some stops
          else (if not (c.resize_width == 0)
              then some (
                  takes (resize_display c.resize_width c.resize_height)
                    (record c { resize_width = 0; resize_height = 0 }))
              else (VecDeque.pop c.queue junk >>= λ r.
                  some (takes r.0 (record c { queue = r.1 })))))

-- What the loop does with a message: it goes on, or ends with the flag that `on_ended` gets.
pub data Verdict : Type 0 where
  goes_on : Verdict
  ends : (error : Bool) → Verdict

-- `process_msg` and the test of its result: `length` is the size that `serialize` returned, and
-- `sent` what `net_send_all` did, which is not called for a size of 0.
unfoldable pub process_msg : ℕ → ℕ → Verdict
process_msg length sent =
    if length == 0 then ends true else (if sent == length then goes_on else ends false)
