-- ===== src/Adb/Tunnel/Open.antt =====
-- app/src/adb/adb_tunnel.c: what opening a tunnel comes to.
use dskcpy.Prelude.{
  ◌⊎◌, ℕ, zero, suc, ◌+◌, ◌-◌, ◌≤◌, ◌<◌, ◌≡◌, refl, ap, ◌∙◌, sym, subst, Bool, true, false, ◌∷◌,
  Option, none, some, ltb, if◌then◌else◌, arith, Bool-cases, inl, inr, max,
}
use mathlib.Core.Bool.{false≢true}
use dskcpy.Adb.Tunnel.{
  Answers, Tunnel, World, PortRange, init, reverse_from, forward_from,
  enable_tunnel_reverse_any_port, enable_tunnel_forward_any_port, tunnel_open, or_forward,
}
use dskcpy.Adb.Tunnel.Port.{
  Reversed, Forwarded, AfterReverse, CleansUp, tested_up_to, reverse_from_lem,
}

abbrev pub AfterForward : Answers → (first last : ℕ) → World → Bool × World → Type 0
AfterForward a first last before r =
    (r.0 ≡ true
      → Forwarded a first last r.1 × (r.1.forwarded ≡ r.1.tunnel.local_port ∷ before.forwarded))
    × (r.0 ≡ false → (r.1.tunnel.enabled ≡ false) × (r.1.forwarded ≡ before.forwarded))
    × (r.1.reversed ≡ before.reversed)

forward_from_lem :
    (a : Answers) (fuel first port last : ℕ) (w : World)
    → first ≤ port
    → port ≤ max first last
    → last - port < fuel
    → w.tunnel.forward ≡ true
    → w.tunnel.enabled ≡ false
    → ((p : ℕ) → first ≤ p → p < port → a.forward p ≡ false)
    → (r : Bool × World) × (forward_from a fuel port last w ≡ some r)
      × AfterForward a first last w r
unfolding forward_from
forward_from_lem a zero first port last w lo hi h way off tested = absurd (omega (arith, h))
forward_from_lem a (suc fuel) first port last w lo hi h way off tested =
    elim (Bool-cases (a.forward port)) [
      | inl runs ↦ (
        (
          true,
          record w {
            tunnel = record w.tunnel { local_port = port; enabled = true };
            forwarded = port ∷ w.forwarded;
          },
        ),
        rw runs refl,
        (
          λ t. (
            record { on = refl; new_way = way; within = (lo, hi); ruled = runs; is_first = tested },
            refl,
          ),
          (λ f. ground (arith, f)),
          refl,
        ),
      )
      | inr fails ↦ elim (Bool-cases (a.interrupted_forward port)) [
        | inl stop ↦ (
          (false, w),
          rw (fails, stop) refl,
          ((λ t. ground (arith, t)), (λ f. (off, refl)), refl),
        )
        | inr goes ↦ elim (Bool-cases (ltb port last)) [
          | inr over ↦ (
            (false, w),
            rw (fails, goes, over) refl,
            ((λ t. ground (arith, t)), (λ f. (off, refl)), refl),
          )
          | inl more ↦
              rw (fails, goes, more)
                (forward_from_lem a fuel first (port + 1) last w (omega arith)
                  (ground (arith, more)) (ground (arith, more, h)) way off
                  (tested_up_to a.forward first port tested fails))
        ]
      ]
    ]

-- What opening a tunnel comes to.
abbrev pub AfterOpen : Answers → PortRange → World → Bool × World → Type 0
AfterOpen a r before result =
    (result.0 ≡ true
      → (Reversed a r.first r.last result.1
          × (result.1.reversed ≡ some result.1.tunnel.local_port)
          × (result.1.forwarded ≡ before.forwarded))
        ⊎ (Forwarded a r.first r.last result.1
            × (result.1.forwarded ≡ result.1.tunnel.local_port ∷ before.forwarded)))
    × (result.0 ≡ false
        → (result.1.tunnel.enabled ≡ false) × (result.1.forwarded ≡ before.forwarded))

forward_lem :
    (a : Answers) (r : PortRange) (w : World)
    → w.tunnel.enabled ≡ false
    → (result : Bool × World) × (enable_tunnel_forward_any_port a r w ≡ some result)
      × AfterOpen a r w result
      × (result.1.reversed ≡ w.reversed)
unfolding enable_tunnel_forward_any_port
forward_lem a r w off =
    let f =
      forward_from_lem a (r.last - r.first + 1) r.first r.first r.last
        (record w { tunnel = record w.tunnel { forward = true } }) (omega arith) (omega arith)
        (omega arith) refl off (λ p lo hi. absurd (omega (arith, lo, hi))) in
    (f.0, f.1, ((λ t. inr (f.2.0 t)), f.2.1), f.2.2)

-- No rule of `adb reverse` is left where the tunnel is not one.
abbrev pub NoneLeft : Answers → World → World → Type 0
NoneLeft a before w =
    CleansUp a → before.reversed ≡ none → w.tunnel.forward ≡ true → w.reversed ≡ none

after_reverse :
    (a : Answers) (r : PortRange) (before : World) (tried : Bool × World)
    → before.tunnel.enabled ≡ false
    → AfterReverse a r.first r.last before tried
    → (result : Bool × World) × (or_forward a r (some tried) ≡ some result)
      × (AfterOpen a r before result × NoneLeft a before result.1)
after_reverse a r before (true, w) off h = (
  (true, w),
  refl,
  (
    ((λ t. inl ((h.0 refl).0, (h.0 refl).1, h.3)), λ f. absurd (false≢true (sym f))),
    λ clean e way. absurd (false≢true (sym ((h.0 refl).0.kept_way) ∙ way)),
  ),
)
after_reverse a r before (false, w) off h =
    let f = forward_lem a r w (ap (λ (t : Tunnel). t.enabled) (h.1 refl) ∙ off) in
    (
      f.0,
      f.1,
      (
        subst (λ ports. AfterOpen a r (record before { forwarded = ports }) f.0) h.3 f.2,
        λ clean e way. f.3 ∙ h.2 refl clean e,
      ),
    )

chosen :
    {R : Type 0} (b : Bool) (P : R → Type 0) (x y : Option R)
    → ((r : R) × (x ≡ some r) × P r)
    → ((r : R) × (y ≡ some r) × P r)
    → (r : R) × ((if b then x else y) ≡ some r) × P r
chosen true P x y hx hy = hx
chosen false P x y hx hy = hy

pub open_all :
    (a : Answers) (r : PortRange) (force : Bool) (w : World)
    → w.tunnel ≡ init
    → (result : Bool × World) × (tunnel_open a r force w ≡ some result)
      × (AfterOpen a r w result × NoneLeft a w result.1)
unfolding tunnel_open init enable_tunnel_reverse_any_port
open_all a r force w new =
    let off : w.tunnel.enabled ≡ false = ap (λ (t : Tunnel). t.enabled) new in
    let way : w.tunnel.forward ≡ false = ap (λ (t : Tunnel). t.forward) new in
    let v =
      reverse_from_lem a (r.last - r.first + 1) r.first r.first r.last w (omega arith) (omega arith)
        (omega arith) way (λ p lo hi. absurd (omega (arith, lo, hi))) in
    let both = λ (result : Bool × World). AfterOpen a r w result × NoneLeft a w result.1 in
    let reversed : (result : Bool × World) × (or_forward a r
            (reverse_from a (r.last - r.first + 1) r.first r.last w)
          ≡ some result)
        × both result =
      rw v.1 (after_reverse a r w v.0 off v.2) in
    let forwarded = forward_lem a r w off in
    let all =
      chosen force both (enable_tunnel_forward_any_port a r w)
        (or_forward a r (reverse_from a (r.last - r.first + 1) r.first r.last w))
        (forwarded.0, forwarded.1, (forwarded.2, λ clean e way'. forwarded.3 ∙ e)) reversed in
    (
      all.0,
      ap
            (λ (b : Bool).
              if b
              then none
              else if force
              then enable_tunnel_forward_any_port a r w
              else or_forward a r (reverse_from a (r.last - r.first + 1) r.first r.last w))
            off
          ∙ all.1,
      all.2,
    )

-- The opening of a tunnel comes to an end, whatever adb and the network answer. An open tunnel has a
-- port of the range: the first one on which the server socket listens, to which the rule of
-- `adb reverse` leads then, with no new rule of `adb forward`; or the first one that is forwarded,
-- whose rule is the only new one of `adb forward`. A tunnel that could not be opened is not enabled,
-- and has no new rule of `adb forward`.
pub tunnel_open_lem :
    (a : Answers) (r : PortRange) (force : Bool) (w : World)
    → w.tunnel ≡ init
    → (result : Bool × World) × (tunnel_open a r force w ≡ some result) × AfterOpen a r w result
tunnel_open_lem a r force w new = let all = open_all a r force w new in (all.0, all.1, all.2.0)
