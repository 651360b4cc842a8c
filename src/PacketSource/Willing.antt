-- ===== src/PacketSource/Willing.antt =====
-- app/src/trait/packet_source.c: the calls of sinks that take all that they get.
use dskcpy.Prelude.{
  ap, ◌∙◌, ◌<◌, length, some, ℕ, ◌+◌, ◌≡◌, refl, Bool, true, false, List, [], ◌∷◌, ◌++◌, Option,
  if◌then◌else◌, All,
}
use dskcpy.PacketSource.{
  Session, MediaPacket, Item, session, media, Sink, Call, opened, took, Log, open_from, push_from,
  push_session_from, sinks_open, sinks_push, sinks_push_session, with_sinks_lem,
}

-- Every sink takes all that it gets, and memory is always found.
abbrev pub Willing : List Sink → Type 0
Willing = All (λ (sink : Sink). (item : Item) → sink.takes item ≡ true)

-- The same call of each sink that takes part, in the order of the sinks.
abbrev pub each : (Sink → Bool) → Call → ℕ → List Sink → Log
each part call i [] = []
each part call i (sink ∷ sinks) =
    let others = each part call (i + 1) sinks in if part sink then (i, call) ∷ others else others

abbrev pub every_one : Sink → Bool
every_one sink = true

-- The calls by which the sinks get an item.
abbrev pub hand_on : List Sink → Item → Log
hand_on sinks (session s) = each (λ (sink : Sink). sink.has_push_session) (took (session s)) 0 sinks
hand_on sinks (media p) = each every_one (took (media p)) 0 sinks

unfoldable pub hand_on_all : List Sink → List Item → Log
hand_on_all sinks [] = []
hand_on_all sinks (item ∷ items) = hand_on sinks item ++ hand_on_all sinks items

push_from-Willing :
    (sinks : List Sink) (item : Item) (i : ℕ)
    → Willing sinks
    → push_from item i sinks ≡ (each every_one (took item) i sinks, true)
unfolding push_from
push_from-Willing [] item i w = refl
push_from-Willing (sink ∷ sinks) item i w =
    rw (w.0 item, push_from-Willing sinks item (i + 1) w.1) refl

pair_if :
    (b : Bool) (x y : Log)
    → (let r : Log × Bool = if b then (x, true) else (y, true) in r) ≡ (if b then x else y, true)
pair_if true x y = refl
pair_if false x y = refl

push_session_from-Willing :
    (sinks : List Sink) (item : Item) (i : ℕ)
    → Willing sinks
    → push_session_from item i sinks
      ≡ (each (λ (sink : Sink). sink.has_push_session) (took item) i sinks, true)
unfolding push_session_from
push_session_from-Willing [] item i w = refl
push_session_from-Willing (sink ∷ sinks) item i w =
    let part = λ (sink : Sink). sink.has_push_session in
    rw (w.0 item, push_session_from-Willing sinks item (i + 1) w.1)
      (pair_if sink.has_push_session ((i, took item) ∷ each part (took item) (i + 1) sinks)
        (each part (took item) (i + 1) sinks))

pub sinks_push-Willing :
    (sinks : List Sink) (p : MediaPacket)
    → Willing sinks
    → 0 < length sinks
    → sinks_push sinks p ≡ some (hand_on sinks (media p), true)
unfolding sinks_push
sinks_push-Willing sinks p w there =
    with_sinks_lem sinks _ there ∙ ap some (push_from-Willing sinks (media p) 0 w)

pub sinks_push_session-Willing :
    (sinks : List Sink) (s : Session)
    → Willing sinks
    → 0 < length sinks
    → sinks_push_session sinks s ≡ some (hand_on sinks (session s), true)
unfolding sinks_push_session
sinks_push_session-Willing sinks s w there =
    with_sinks_lem sinks _ there ∙ ap some (push_session_from-Willing sinks (session s) 0 w)

open_from_lem :
    (s : Option Session) (i : ℕ) (sinks : List Sink)
    → All (λ (sink : Sink). sink.opens ≡ true) sinks
    → open_from s i sinks ≡ (each every_one (opened s) i sinks, true)
unfolding open_from
open_from_lem s i [] h = refl
open_from_lem s i (sink ∷ sinks) h = rw (h.0, open_from_lem s (i + 1) sinks h.1) refl

pub sinks_open_lem :
    (s : Option Session) (sinks : List Sink)
    → All (λ (sink : Sink). sink.opens ≡ true) sinks
    → 0 < length sinks
    → sinks_open sinks s ≡ some (each every_one (opened s) 0 sinks, true)
unfolding sinks_open
sinks_open_lem s sinks h there = with_sinks_lem sinks _ there ∙ ap some (open_from_lem s 0 sinks h)
