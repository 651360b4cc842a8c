-- ===== src/PacketSource/Protocol.antt =====
-- app/src/trait/packet_source.c: the order in which a sink is called.
use dskcpy.Prelude.{
  ℕ, zero, suc, ◌+◌, ◌≤◌, ◌<◌, ◌≡◌, refl, List, [], ◌∷◌, ◌++◌, Option, none, some, Bool, true,
  false, if◌then◌else◌, length, ◌==◌, arith, inl, inr, ◌>>=◌, Bool-cases, ==-eq_false,
}
use dskcpy.PacketSource.{
  Session, Item, Call, opened, refused, took, rejected, closed, disabled, Sink, Log, close_firsts,
  open_from, push_from, push_session_from, disable_from,
}

-- Where a sink is between its calls.
pub data State : Type 0 where
  fresh : State
  in_use : State
  done : State

-- A call in a state, if the sink may be called so.
abbrev pub next : State → Call → Option State
next fresh (opened s) = some in_use
next fresh refused = some done
next fresh disabled = some done
next in_use (took item) = some in_use
next in_use (rejected item) = some in_use
next in_use closed = some done
next state call = none

-- The calls of sink `k`.
unfoldable pub follow : ℕ → Log → State → Option State
follow k [] state = some state
follow k ((i, call) ∷ log) state =
    if i == k then next state call >>= (λ state'. follow k log state') else follow k log state

append_step :
    (own : Bool) (o : Option State) (f g h : State → Option State)
    → ((s : State) → h s ≡ (f s >>= g))
    → (state : State)
    → (if own then o >>= h else h state) ≡ ((if own then o >>= f else f state) >>= g)
append_step true none f g h e state = refl
append_step true (some s) f g h e state = e s
append_step false o f g h e state = e state

pub follow-append :
    (k : ℕ) (a b : Log) (state : State)
    → follow k (a ++ b) state ≡ (follow k a state >>= (λ state'. follow k b state'))
unfolding follow
follow-append k [] b state = refl
follow-append k ((i, call) ∷ a) b state =
    append_step (i == k) (next state call) (λ state'. follow k a state')
      (λ state'. follow k b state') (λ state'. follow k (a ++ b) state')
      (λ state'. follow-append k a b state') state

-- The sinks below `count` are closed.
pub close_firsts-follow :
    (k count : ℕ)
    → (k < count → follow k (close_firsts count) in_use ≡ some done)
      × (count ≤ k → (state : State) → follow k (close_firsts count) state ≡ some state)
unfolding follow close_firsts
close_firsts-follow k zero = ((λ h. absurd (omega (arith, h))), λ h state. refl)
close_firsts-follow k (suc count) =
    let before = close_firsts-follow k count in
    (
      λ h. elim (Bool-cases (count == k)) [
        | inl own ↦ rw own (before.1 (ground (arith, own)) done)
        | inr other ↦ rw other (before.0 (ground (arith, other, h)))
      ],
      λ h state.
          let other : (count == k) ≡ false = ==-eq_false count k (omega (arith, h)) in
          rw other (before.1 (omega (arith, h)) state),
    )

-- A push leaves every sink in use.
pub push_from-in_use :
    (k : ℕ) (item : Item) (i : ℕ) (sinks : List Sink)
    → follow k (push_from item i sinks).0 in_use ≡ some in_use
unfolding follow push_from
push_from-in_use k item i [] = refl
push_from-in_use k item i (sink ∷ sinks) = ground (arith, push_from-in_use k item (i + 1) sinks)

pub push_session_from-in_use :
    (k : ℕ) (item : Item) (i : ℕ) (sinks : List Sink)
    → follow k (push_session_from item i sinks).0 in_use ≡ some in_use
unfolding follow push_session_from
push_session_from-in_use k item i [] = refl
push_session_from-in_use k item i (sink ∷ sinks) =
    ground (arith, push_session_from-in_use k item (i + 1) sinks)

-- Not in use.
abbrev pub AtRest : Option State → Type 0
AtRest none = ⊥
AtRest (some fresh) = Unit
AtRest (some in_use) = ⊥
AtRest (some done) = Unit

disable_step :
    (k i : ℕ) (has own : Bool) (rest : Log)
    → (i == k) ≡ own
    → AtRest (follow k rest fresh)
      × (k < i + 1 → (state : State) → follow k rest state ≡ some state)
    → let log = if has then (i, disabled) ∷ rest else rest in
      AtRest (follow k log fresh) × (k < i → (state : State) → follow k log state ≡ some state)
unfolding follow
disable_step k i false own rest e ih = (ih.0, λ h state. ih.1 (omega (arith, h)) state)
disable_step k i true true rest e ih =
    (rw e (rw (ih.1 (ground (arith, e)) done) tt), λ h state. absurd (ground (arith, e, h)))
disable_step k i true false rest e ih = (rw e ih.0, λ h state. rw e (ih.1 (omega (arith, h)) state))

pub disable_from-AtRest :
    (k i : ℕ) (sinks : List Sink)
    → (AtRest (follow k (disable_from i sinks) fresh))
      × (k < i → (state : State) → follow k (disable_from i sinks) state ≡ some state)
unfolding follow disable_from
disable_from-AtRest k i [] = (tt, λ h state. refl)
disable_from-AtRest k i (sink ∷ sinks) =
    disable_step k i sink.has_disable (i == k) (disable_from (i + 1) sinks) refl
      (disable_from-AtRest k (i + 1) sinks)

-- What `open_from-follow` says of the sinks from `i` on.
abbrev pub Tried : ℕ → ℕ → ℕ → Log × Bool → Type 0
Tried k i count r =
    (k < i → follow k r.0 in_use ≡ some (if r.1 then in_use else done))
    × (i ≤ k
        → k < i + count
        → if r.1 then follow k r.0 fresh ≡ some in_use else AtRest (follow k r.0 fresh))

in_use_or_rest :
    (o : Option State) (ok : Bool)
    → o ≡ some (if ok then in_use else done)
    → if ok then o ≡ some in_use else AtRest o
in_use_or_rest o true e = e
in_use_or_rest o false e = rw e tt

open_step :
    (s : Option Session) (k i count : ℕ) (opens own : Bool) (rest : Log × Bool)
    → (i == k) ≡ own
    → Tried k (i + 1) count rest
    → let r : Log × Bool =
        if opens
        then ((i, opened s) ∷ rest.0, rest.1)
        else ((i, refused) ∷ close_firsts i, false) in
      Tried k i (suc count) r
unfolding follow
open_step s k i count false true rest e ih =
    (λ h. absurd (ground (arith, e, h)), λ h h'. rw e (rw ((close_firsts-follow k i).1 h done) tt))
open_step s k i count false false rest e ih = (
  λ h. rw e ((close_firsts-follow k i).0 h),
  λ h h'. rw e (rw ((close_firsts-follow k i).1 h fresh) tt),
)
open_step s k i count true true rest e ih = (
  λ h. absurd (ground (arith, e, h)),
  λ h h'. rw e (in_use_or_rest (follow k rest.0 in_use) rest.1 (ih.0 (ground (arith, e)))),
)
open_step s k i count true false rest e ih = (
  λ h. rw e (ih.0 (omega (arith, h))),
  λ h h'. rw e (ih.1 (ground (arith, e, h)) (omega (arith, h'))),
)

-- Sink `k` behind the attempt to open the sinks from `i` on, those before being in use: all are in
-- use, or none is.
pub open_from-follow :
    (s : Option Session) (k i : ℕ) (sinks : List Sink)
    → Tried k i (length sinks) (open_from s i sinks)
unfolding follow open_from
open_from-follow s k i [] = ((λ h. refl), λ h h'. absurd (omega (arith, h, h')))
open_from-follow s k i (sink ∷ sinks) =
    open_step s k i (length sinks) sink.opens (i == k) (open_from s (i + 1) sinks) refl
      (open_from-follow s k (i + 1) sinks)
