-- ===== src/Adb/Tunnel/Port.antt =====
-- app/src/adb/adb_tunnel.c: which port a tunnel takes.
use dskcpy.Prelude.{
  ℕ, zero, suc, ◌+◌, ◌-◌, ◌≤◌, ◌<◌, ◌≡◌, refl, ap, ◌∙◌, sym, none, ◌&&◌, Bool, true, false, some,
  ltb, ◌==◌, arith, Bool-cases, inl, inr, max, ==_iff,
}
use mathlib.Core.Bool.{false≢true}
use dskcpy.Adb.Tunnel.{Answers, Tunnel, World, add_reverse, drop_reverse, reverse_from}

abbrev pub Within : (first last port : ℕ) → Type 0
Within first last port = (first ≤ port) × (port ≤ max first last)

-- The tunnel listens on the first port of the range where that works.
pub record Reversed (a : Answers) (first last : ℕ) (w : World) : Type 0 where
  pub on : w.tunnel.enabled ≡ true
  pub kept_way : w.tunnel.forward ≡ false
  pub within : Within first last w.tunnel.local_port
  pub listens : w.tunnel.server_socket ≡ some w.tunnel.local_port
  pub ruled : a.reverse w.tunnel.local_port ≡ true
  pub works : (a.socket w.tunnel.local_port && a.listen w.tunnel.local_port) ≡ true
  pub is_first : (p : ℕ) → first ≤ p → p < w.tunnel.local_port → (a.socket p && a.listen p) ≡ false

pub record Forwarded (a : Answers) (first last : ℕ) (w : World) : Type 0 where
  pub on : w.tunnel.enabled ≡ true
  pub new_way : w.tunnel.forward ≡ true
  pub within : Within first last w.tunnel.local_port
  pub ruled : a.forward w.tunnel.local_port ≡ true
  pub is_first : (p : ℕ) → first ≤ p → p < w.tunnel.local_port → a.forward p ≡ false

abbrev pub CleansUp : Answers → Type 0
CleansUp a = ((p : ℕ) → a.reverse_remove p ≡ true) × ((p : ℕ) → a.interrupted_reverse p ≡ false)

-- What is left of an attempt with `adb reverse`.
abbrev pub AfterReverse : Answers → (first last : ℕ) → World → Bool × World → Type 0
AfterReverse a first last before r =
    (r.0 ≡ true → Reversed a first last r.1 × (r.1.reversed ≡ some r.1.tunnel.local_port))
    × (r.0 ≡ false → r.1.tunnel ≡ before.tunnel)
    × (r.0 ≡ false → CleansUp a → before.reversed ≡ none → r.1.reversed ≡ none)
    × (r.1.forwarded ≡ before.forwarded)

-- What an attempt on one port leaves when it does not listen.
drop_reverse_lem :
    (a : Answers) (port : ℕ) (w : World)
    → let w' = drop_reverse a port (add_reverse port w) in
      (w'.tunnel ≡ w.tunnel) × (CleansUp a → w'.reversed ≡ none) × (w'.forwarded ≡ w.forwarded)
drop_reverse_lem a port w = elim (Bool-cases (a.reverse_remove port)) [
  | inl gone ↦ rw gone (refl, (λ clean. refl), refl)
  | inr stays ↦ rw stays (refl, (λ clean. absurd (false≢true (sym stays ∙ clean.0 port))), refl)
]

pub tested_up_to :
    (test : ℕ → Bool) (first port : ℕ)
    → ((p : ℕ) → first ≤ p → p < port → test p ≡ false)
    → test port ≡ false
    → (p : ℕ) → first ≤ p
    → p < port + 1
    → test p ≡ false
tested_up_to test first port tested this p lo hi = elim (Bool-cases (p == port)) [
  | inl same ↦ ap test ((==_iff p port).0 same) ∙ this
  | inr other ↦ tested p lo (ground (arith, other, hi))
]

-- From a later attempt to this one.
retried :
    (a : Answers) (first last : ℕ) (w w' : World) (r : Bool × World)
    → (w'.tunnel ≡ w.tunnel) × (CleansUp a → w'.reversed ≡ none) × (w'.forwarded ≡ w.forwarded)
    → AfterReverse a first last w' r
    → AfterReverse a first last w r
retried a first last w w' r left h =
    (h.0, (λ f. h.1 f ∙ left.0), (λ f clean e. h.2 f clean (left.1 clean)), h.3 ∙ left.2)

pub reverse_from_lem :
    (a : Answers) (fuel first port last : ℕ) (w : World)
    → first ≤ port
    → port ≤ max first last
    → last - port < fuel
    → w.tunnel.forward ≡ false
    → ((p : ℕ) → first ≤ p → p < port → (a.socket p && a.listen p) ≡ false)
    → (r : Bool × World) × (reverse_from a fuel port last w ≡ some r)
      × AfterReverse a first last w r
unfolding reverse_from
reverse_from_lem a zero first port last w lo hi h way tested = absurd (omega (arith, h))
reverse_from_lem a (suc fuel) first port last w lo hi h way tested =
    let left = drop_reverse_lem a port w in
    elim (Bool-cases (a.reverse port)) [
      | inr fails ↦ (
        (false, w),
        rw fails refl,
        ((λ t. absurd (false≢true t)), (λ f. refl), (λ f clean e. e), refl),
      )
      | inl runs ↦ elim (Bool-cases (a.socket port && a.listen port)) [
        | inl listens ↦ (
          (
            true,
            record w {
              tunnel = record w.tunnel {
                server_socket = some port;
                local_port = port;
                enabled = true;
              };
              reversed = some port;
            },
          ),
          rw (runs, listens) refl,
          (
            λ t. (
              record {
                on = refl;
                kept_way = way;
                within = (lo, hi);
                listens = refl;
                ruled = runs;
                works = listens;
                is_first = tested;
              },
              refl,
            ),
            (λ f. absurd (false≢true (sym f))),
            (λ f. absurd (false≢true (sym f))),
            refl,
          ),
        )
        | inr busy ↦ elim (Bool-cases (a.interrupted_reverse port)) [
          | inl stop ↦ (
            (false, add_reverse port w),
            rw (runs, busy, stop) refl,
            (
              (λ t. absurd (false≢true t)),
              (λ f. refl),
              (λ f clean e. absurd (false≢true (sym (clean.1 port) ∙ stop))),
              refl,
            ),
          )
          | inr goes ↦ elim (Bool-cases (ltb port last)) [
            | inr over ↦ (
              (false, drop_reverse a port (add_reverse port w)),
              rw (runs, busy, goes, over) refl,
              ((λ t. absurd (false≢true t)), (λ f. left.0), (λ f clean e. left.1 clean), left.2),
            )
            | inl more ↦
                let w' = drop_reverse a port (add_reverse port w) in
                let later =
                  reverse_from_lem a fuel first (port + 1) last w' (omega arith)
                    (ground (arith, more)) (ground (arith, more, h))
                    (ap (λ (t : Tunnel). t.forward) left.0 ∙ way)
                    (tested_up_to (λ p. a.socket p && a.listen p) first port tested busy) in
                (
                  later.0,
                  rw (runs, busy, goes, more) later.1,
                  retried a first last w w' later.0 left later.2,
                )
          ]
        ]
      ]
    ]
