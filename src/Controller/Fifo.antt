-- ===== src/Controller/Fifo.antt =====
-- Histories of the controller: what the threads that push and the thread that sends do, in the
-- order in which they hold the mutex.
use dskcpy.Prelude.{
  ℕ, ◌<◌, ◌≡◌, ◌≢◌, refl, sym, ap, ◌∙◌, inl, inr, List, [], ◌∷◌, ◌++◌, append_assoc, Option, some,
  Bool, true, false, ◌>>=◌, arith, Bool-cases, All,
}
use dskcpy.Prelude.{◌==◌, ==-eq_false, if◌then◌else◌}
use dskcpy.Util.VecDeque
use dskcpy.Util.VecDeque.Queue.{pop_lem}
use dskcpy.ControlMsg.Types.{ControlMsg, type_of, resize_display}
use dskcpy.Controller.{
  Controller, push_msg, resize, stop, next, must_wait, Next, waits, stops, takes,
}
use dskcpy.Controller.Inv.{IsValid, pending, PushOutcome, push_msg-PushOutcome}

some_left :
    {Float : Type 0} (c : Controller Float)
    → must_wait c ≡ false
    → c.stopped ≡ false
    → (c.resize_width == 0) ≡ true
    → 0 < c.queue.size
unfolding must_wait VecDeque.is_empty
some_left c go on unset = ground arith

module _ {Float : Type 0} (max_cap : ℕ) (junk : ControlMsg Float) where
  -- The outcomes of one round of the sending thread.
  pub data NextOutcome (c : Controller Float) (out : Option (Next Float)) : Type 0 where
    waiting : must_wait c ≡ true → out ≡ some waits → NextOutcome c out
    stopping : must_wait c ≡ false → c.stopped ≡ true → out ≡ some stops → NextOutcome c out
    resizing :
        c.stopped ≡ false
        → (c.resize_width == 0) ≡ false
        → out
          ≡ some (
              takes
                (resize_display c.resize_width c.resize_height)
                (record c { resize_width = 0; resize_height = 0 }))
        → NextOutcome c out
    popping :
        (msg : ControlMsg Float) (c' : Controller Float)
        → c.stopped ≡ false
        → (c.resize_width == 0) ≡ true
        → out ≡ some (takes msg c')
        → pending max_cap junk c ≡ msg ∷ pending max_cap junk c'
        → IsValid max_cap c'
        → NextOutcome c out

  -- A round of the sending thread in a valid state waits when there is nothing to do; else it stops
  -- if it is told to; else it takes the resize and clears it; else it takes the first pending
  -- message, and the state stays valid.
  next-NextOutcome : (c : Controller Float) → IsValid max_cap c → NextOutcome c (next junk c)
  unfolding next
  next-NextOutcome c valid = elim (Bool-cases (must_wait c)) [
    | inl wait ↦ waiting wait (rw wait)
    | inr go ↦ elim (Bool-cases c.stopped) [
      | inl stopped ↦ stopping go stopped (rw (go, stopped))
      | inr on ↦ elim (Bool-cases (c.resize_width == 0)) [
        | inr set ↦ resizing on set (rw (go, on, set))
        | inl unset ↦
            let (m, q, e, first, ok, cap, size) =
              pop_lem max_cap junk c.queue valid.queue (some_left c go on unset) in
            popping m (record c { queue = q }) on unset (rw (go, on, unset, e)) first
              (record { queue = ok; room = omega (arith, cap, valid.room) })
      ]
    ]
  ]

  -- What happens to a controller: a push with the outcome of its allocation, a resize, a stop, or a
  -- round of the sending thread.
  pub data Event : Type 0 where
    pushes : (alloc_ok : Bool) (msg : ControlMsg Float) → Event
    resizes : (width height : ℕ) → Event
    told_to_stop : Event
    round : Event

  -- The controller with two logs: the messages that `push_msg` said it pushed, and those that the
  -- sending thread took from the queue.
  pub record System : Type 0 where
    pub controller : Controller Float
    pub accepted : List (ControlMsg Float)
    pub sent : List (ControlMsg Float)

  took : System → Next Float → System
  took s waits = s
  took s stops = s
  took s (takes msg c) = record s {
    controller = c;
    sent = if s.controller.resize_width == 0 then s.sent ++ (msg ∷ []) else s.sent;
  }

  pub step : Event → System → Option System
  unfolding took
  step (pushes alloc_ok msg) s = do
    (pushed, signalled, c) ← push_msg max_cap junk alloc_ok s.controller msg
    some (record s {
      controller = c;
      accepted = if pushed then s.accepted ++ (msg ∷ []) else s.accepted;
    })
  step (resizes width height) s = do
    (signalled, c) ← resize s.controller width height
    some (record s { controller = c })
  step told_to_stop s = some (record s { controller = (stop s.controller).1 })
  step round s = do n ← next junk s.controller; some (took s n)

  pub run : List Event → System → Option System
  unfolding step
  run [] s = some s
  run (e ∷ es) s = do s' ← step e s; run es s'

  -- The callers keep the assertions of the two operations with arguments.
  abbrev pub IsCall : Event → Type 0
  IsCall (pushes alloc_ok msg) = type_of msg ≢ 21
  IsCall (resizes width height) = (width ≢ 0) × (height ≢ 0)
  IsCall told_to_stop = Unit {0}
  IsCall round = Unit {0}

  -- The messages accepted are those sent, in the same order, and behind them those pending.
  pub record IsOrdered (s : System) : Type 0 where
    pub valid : IsValid max_cap s.controller
    pub order : s.accepted ≡ s.sent ++ pending max_cap junk s.controller

  abbrev Steps : System → Option System → Type 0
  Steps s out = (s' : System) × (out ≡ some s') × IsOrdered s'

  push_order :
      (accepted sent q q' : List (ControlMsg Float)) (msg : ControlMsg Float) (pushed : Bool)
      → accepted ≡ sent ++ q
      → q' ≡ (if pushed then q ++ (msg ∷ []) else q)
      → (if pushed then accepted ++ (msg ∷ []) else accepted) ≡ sent ++ q'
  push_order accepted sent q q' msg true e f =
      ap (λ t. t ++ (msg ∷ [])) e ∙ append_assoc sent q (msg ∷ []) ∙ ap (λ t. sent ++ t) (sym f)
  push_order accepted sent q q' msg false e f = e ∙ ap (λ t. sent ++ t) (sym f)

  round-Steps :
      (s : System)
      → IsOrdered s
      → NextOutcome s.controller (next junk s.controller)
      → Steps s (step round s)
  unfolding step
  round-Steps s o (waiting w e) = (s, ap (λ r. r >>= λ n. some (took s n)) e, o)
  round-Steps s o (stopping w h e) = (s, ap (λ r. r >>= λ n. some (took s n)) e, o)
  round-Steps s o (resizing on set e) = (
    _,
    ap (λ r. r >>= λ n. some (took s n)) e,
    record {
      valid = record { queue = o.valid.queue; room = o.valid.room };
      order = rw set o.order;
    },
  )
  round-Steps s o (popping msg c' on unset e first ok) = (
    _,
    ap (λ r. r >>= λ n. some (took s n)) e,
    record {
      valid = ok;
      order =
          rw unset (o.order ∙ ap (λ t. s.sent ++ t) first ∙ sym (append_assoc s.sent (msg ∷ []) _));
    },
  )

  -- Each event of a history ends, and keeps the state ordered.
  pub step-Steps : (e : Event) (s : System) → IsCall e → IsOrdered s → Steps s (step e s)
  unfolding step resize stop
  step-Steps (pushes alloc_ok msg) s call o =
      let p : PushOutcome max_cap junk alloc_ok s.controller msg
          (push_msg max_cap junk alloc_ok s.controller msg) =
        push_msg-PushOutcome max_cap junk alloc_ok s.controller msg o.valid call in
      (
        record s {
          controller = p.after;
          accepted = if p.pushed then s.accepted ++ (msg ∷ []) else s.accepted;
        },
        ap
            (λ r. r >>= λ t. some (record s {
              controller = t.2;
              accepted = if t.0 then s.accepted ++ (msg ∷ []) else s.accepted;
            }))
            p.result,
        record {
          valid = p.valid;
          order = push_order s.accepted s.sent _ _ msg p.pushed o.order p.queue;
        },
      )
  step-Steps (resizes width height) s (w, h) o = (
    record s {
      controller = record (s.controller) { resize_width = width; resize_height = height };
    },
    rw (==-eq_false width 0 w, ==-eq_false height 0 h),
    record { valid = record { queue = o.valid.queue; room = o.valid.room }; order = o.order },
  )
  step-Steps told_to_stop s call o = (
    _,
    refl,
    record { valid = record { queue = o.valid.queue; room = o.valid.room }; order = o.order },
  )
  step-Steps round s call o = round-Steps s o (next-NextOutcome s.controller o.valid)

  -- In every history of calls that keep the assertions, from a valid state in order, no assertion of
  -- the controller or of its queue fails, and the messages accepted are those sent followed by those
  -- pending, in the same order.
  pub run-IsOrdered :
      (es : List Event) (s : System)
      → All IsCall es
      → IsOrdered s
      → (s' : System) × (run es s ≡ some s') × IsOrdered s'
  unfolding run
  run-IsOrdered [] s calls o = (s, refl, o)
  run-IsOrdered (e ∷ es) s (call, calls) o =
      let (s1, first, o1) = step-Steps e s call o in
      let (s2, others, o2) = run-IsOrdered es s1 calls o1 in
      (s2, ap (λ r. r >>= λ t. run es t) first ∙ others, o2)
