-- ===== src/Controller/Inv.antt =====
-- The invariant of the controller (app/src/controller.c) and the outcomes of its start and of a push.
use dskcpy.Prelude.{
  ℕ, ◌+◌, ◌≤◌, ◌<◌, ◌^◌, ◌≡◌, refl, ap, ◌∙◌, ◌⊎◌, inl, inr, List, [], ◌∷◌, ◌++◌, Option, some, Bool,
  true, false, arith, dec_lt, Bool-cases,
}
use dskcpy.Prelude.{sym, length, ◌≢◌, ==-eq_false, ◌==◌, lt→ltb, ltb-eq_false, if◌then◌else◌}
use dskcpy.Util.VecDeque
use dskcpy.Util.VecDeque.{VecDeque}
use dskcpy.Util.VecDeque.Contents.{contents, length-contents}
use dskcpy.Util.VecDeque.Inv
use dskcpy.Util.VecDeque.Grow.{reserve_lem}
use dskcpy.Util.VecDeque.Queue.{push_noresize_lem}
use dskcpy.Util.VecDeque.Push.{Refused, push_total}
use dskcpy.ControlMsg.Types.{ControlMsg, type_of, is_droppable}
use dskcpy.Controller.{Controller, queue_limit, init, push_msg, must_wait}

pub record IsValid {Float : Type 0} (max_cap : ℕ) (c : Controller Float) : Type 0 where
  pub queue : Inv.IsValid max_cap c.queue
  pub room : queue_limit + 4 ≤ c.queue.cap

module _ {Float : Type 0} (max_cap : ℕ) (junk : ControlMsg Float) where
  abbrev pub pending : Controller Float → List (ControlMsg Float)
  pending c = contents junk c.queue

  -- With memory, and a maximal capacity of at least 64 and below 2 ^ 63, the controller starts valid,
  -- with an empty queue, and its thread has to wait.
  pub init-IsValid :
      queue_limit + 4 ≤ max_cap
      → max_cap < 2 ^ 63
      → (c : Controller Float) × (init max_cap junk true ≡ some c)
        × IsValid max_cap c
        × (pending c ≡ [])
        × (must_wait c ≡ true)
  unfolding init must_wait VecDeque.init VecDeque.is_empty
  init-IsValid enough limit =
      let (q, e, wanted, same, valid) =
        reserve_lem max_cap junk VecDeque.init (queue_limit + 4) (Inv.init-IsValid max_cap limit)
          (omega arith) in
      let nothing : q.size ≡ 0 = sym (length-contents junk q) ∙ ap length same in
      (
        record { queue = q; stopped = false; resize_width = 0; resize_height = 0 },
        rw e refl,
        record { queue = valid; room = wanted },
        same,
        ap (λ n. n == 0) nothing,
      )

  -- The outcome of a push: it ends in a valid state, and the queue gets the message at its end or is
  -- as it was. It gets it whenever the queue is shorter than the limit, and a droppable message only
  -- then; another message is lost only where the queue is full and cannot grow.
  pub record PushOutcome (alloc_ok : Bool) (c : Controller Float) (msg : ControlMsg Float)
      (out : Option (Bool × Bool × Controller Float)) : Type 0 where
    pub pushed : Bool
    pub signalled : Bool
    pub after : Controller Float
    pub result : out ≡ some (pushed, signalled, after)
    pub valid : IsValid max_cap after
    pub queue : pending after ≡ (if pushed then pending c ++ (msg ∷ []) else pending c)
    pub below_limit : c.queue.size < queue_limit → pushed ≡ true
    pub at_limit : queue_limit ≤ c.queue.size → is_droppable msg ≡ true → pushed ≡ false
    pub kept : pushed ≡ false → (is_droppable msg ≡ true) ⊎ Refused max_cap junk alloc_ok c.queue
    pub signal : signalled ≡ VecDeque.is_empty c.queue
    pub others :
        (after.stopped ≡ c.stopped)
        × (after.resize_width ≡ c.resize_width)
        × (after.resize_height ≡ c.resize_height)

  module _ (alloc_ok : Bool) (c : Controller Float) (msg : ControlMsg Float)
      (valid : IsValid max_cap c) where
    below :
        c.queue.size < queue_limit
        → (type_of msg == 21) ≡ false
        → PushOutcome alloc_ok c msg (push_msg max_cap junk alloc_ok c msg)
    unfolding push_msg
    below lt plain =
        let (q, e, app, ok, cap) =
          push_noresize_lem max_cap junk c.queue msg valid.queue (omega (arith, valid.room)) in
        record {
          pushed = true;
          signalled = VecDeque.is_empty c.queue;
          after = record c { queue = q };
          result = rw (plain, lt→ltb _ _ lt, e);
          valid = record { queue = ok; room = omega (arith, cap, valid.room) };
          queue = app;
          below_limit = λ _. refl;
          at_limit = λ ge _. absurd (omega arith);
          kept = λ h. cc;
          signal = refl;
          others = (refl, refl, refl);
        }

    not_empty : queue_limit ≤ c.queue.size → false ≡ VecDeque.is_empty c.queue
    unfolding VecDeque.is_empty
    not_empty ge = sym (==-eq_false c.queue.size 0 (omega arith))

    dropped :
        queue_limit ≤ c.queue.size
        → (type_of msg == 21) ≡ false
        → is_droppable msg ≡ true
        → PushOutcome alloc_ok c msg (push_msg max_cap junk alloc_ok c msg)
    unfolding push_msg
    dropped ge plain droppable = record {
      pushed = false;
      signalled = false;
      after = c;
      result = rw (plain, ltb-eq_false _ _ ge, droppable);
      valid = valid;
      queue = refl;
      below_limit = λ lt. absurd (omega arith);
      at_limit = λ _ _. refl;
      kept = λ _. inl droppable;
      signal = not_empty ge;
      others = (refl, refl, refl);
    }

    forced :
        queue_limit ≤ c.queue.size
        → (type_of msg == 21) ≡ false
        → is_droppable msg ≡ false
        → PushOutcome alloc_ok c msg (push_msg max_cap junk alloc_ok c msg)
    unfolding push_msg
    forced ge plain needed = elim (push_total max_cap junk alloc_ok c.queue msg valid.queue) [
      | inl p ↦ record {
        pushed = true;
        signalled = false;
        after = record c { queue = p.after };
        result = rw (plain, ltb-eq_false _ _ ge, needed, p.done);
        valid = record { queue = p.valid; room = omega (arith, p.larger, valid.room) };
        queue = p.appended;
        below_limit = λ _. refl;
        at_limit = λ _ h. cc;
        kept = λ h. cc;
        signal = not_empty ge;
        others = (refl, refl, refl);
      }
      | inr (refused, why) ↦ record {
        pushed = false;
        signalled = false;
        after = c;
        result = rw (plain, ltb-eq_false _ _ ge, needed, refused);
        valid = valid;
        queue = refl;
        below_limit = λ lt. absurd (omega arith);
        at_limit = λ _ _. refl;
        kept = λ _. inr why;
        signal = not_empty ge;
        others = (refl, refl, refl);
      }
    ]

    -- The push of a message other than RESIZE_DISPLAY to a valid controller ends, keeps it valid, and
    -- adds the message at the end of the queue or leaves the queue as it was; it adds it whenever the
    -- queue is shorter than the limit, and a droppable message only then, and it drops another
    -- message only where the queue is full and either has the maximal capacity or finds no memory.
    pub push_msg-PushOutcome :
        type_of msg ≢ 21 → PushOutcome alloc_ok c msg (push_msg max_cap junk alloc_ok c msg)
    push_msg-PushOutcome other =
        let plain : (type_of msg == 21) ≡ false = ==-eq_false _ _ other in
        elim (dec_lt c.queue.size queue_limit) [
          | yes lt ↦ below lt plain
          | no ge ↦ elim (Bool-cases (is_droppable msg)) [
            | inl droppable ↦ dropped (omega arith) plain droppable
            | inr needed ↦ forced (omega arith) plain needed
          ]
        ]
