-- ===== src/Adb/Tunnel/Close.antt =====
-- app/src/adb/adb_tunnel.c: what is left of a tunnel that is closed.
use dskcpy.Prelude.{
  ℕ, ◌≡◌, refl, ap, sym, ◌∙◌, Bool, true, false, [], ◌∷◌, Option, none, some, inl, inr, not, subst,
  if◌then◌else◌, ==_refl, some_inj,
}
use dskcpy.Adb.Tunnel.{Answers, World, PortRange, remove_port, init, tunnel_open, tunnel_close}
use dskcpy.Adb.Tunnel.Port.{Reversed, Forwarded, CleansUp}
use dskcpy.Adb.Tunnel.Open.{AfterOpen, NoneLeft, open_all}

-- No rule is left, and the tunnel is not enabled.
abbrev pub Clean : World → Type 0
Clean w = (w.tunnel.enabled ≡ false) × (w.reversed ≡ none) × (w.forwarded ≡ [])

-- The branches of the code.
branch_reverse :
    {R : Type 0} (enabled forward : Bool) (socket : Option ℕ) (port : ℕ) (x y : R)
    → enabled ≡ true
    → forward ≡ false
    → socket ≡ some port
    → (if not enabled
        then none
        else if forward
        then some x
        else elim socket [ none ↦ none | some listening ↦ some y ])
      ≡ some y
branch_reverse enabled forward socket port x y on way listens = rw (on, way, listens) refl

branch_forward :
    {R : Type 0} (enabled forward : Bool) (x : R) (y : Option R)
    → enabled ≡ true
    → forward ≡ true
    → (if not enabled then none else if forward then some x else y) ≡ some x
branch_forward enabled forward x y on way = rw (on, way) refl

removal :
    (ok : Bool) (w w' : World)
    → ok ≡ true
    → let result : Option (Bool × World) = some (ok, if ok then w else w') in
      result ≡ some (true, w)
removal ok w w' e = rw e refl

tunnel_close-Reversed :
    (a : Answers) (first last : ℕ) (w : World)
    → Reversed a first last w
    → ((p : ℕ) → a.reverse_remove p ≡ true)
    → w.forwarded ≡ []
    → (w' : World) × (tunnel_close a w ≡ some (true, w')) × Clean w'
unfolding tunnel_close
tunnel_close-Reversed a first last w open' removes e =
    let t = w.tunnel in
    (
      record w { tunnel = record t { enabled = false }; reversed = none },
      branch_reverse t.enabled t.forward t.server_socket t.local_port _ _ open'.on open'.kept_way
            open'.listens
          ∙ removal (a.reverse_remove t.local_port) _ _ (removes t.local_port),
      (refl, refl, e),
    )

remove_only : (port : ℕ) → remove_port port (port ∷ []) ≡ []
remove_only port = rw (==_refl port) refl

tunnel_close-Forwarded :
    (a : Answers) (first last : ℕ) (w : World)
    → Forwarded a first last w
    → ((p : ℕ) → a.forward_remove p ≡ true)
    → w.forwarded ≡ w.tunnel.local_port ∷ []
    → w.reversed ≡ none
    → (w' : World) × (tunnel_close a w ≡ some (true, w')) × Clean w'
unfolding tunnel_close
tunnel_close-Forwarded a first last w open' removes e e' =
    let t = w.tunnel in
    (
      record w {
        tunnel = record t { enabled = false };
        forwarded = remove_port t.local_port w.forwarded;
      },
      branch_forward t.enabled t.forward _ _ open'.on open'.new_way
          ∙ removal (a.forward_remove t.local_port) _ _ (removes t.local_port),
      (refl, e', ap (remove_port t.local_port) e ∙ remove_only t.local_port),
    )

close_either :
    (a : Answers) (r : PortRange) (w : World) (result : Bool × World)
    → CleansUp a
    → ((p : ℕ) → a.forward_remove p ≡ true)
    → w.reversed ≡ none
    → w.forwarded ≡ []
    → AfterOpen a r w result
    → NoneLeft a w result.1
    → result.0 ≡ true
    → (w' : World) × (tunnel_close a result.1 ≡ some (true, w')) × Clean w'
close_either a r w result clean removes none_reversed none_forwarded h left ok = elim (h.0 ok) [
  | inl way ↦ tunnel_close-Reversed a r.first r.last result.1 way.0 clean.0 (way.2 ∙ none_forwarded)
  | inr way ↦
      tunnel_close-Forwarded a r.first r.last result.1 way.0 removes
        (way.1 ∙ ap (λ ports. result.1.tunnel.local_port ∷ ports) none_forwarded)
        (left clean none_reversed way.0.new_way)
]

-- Where adb removes every rule that it is told to remove, and the client is not interrupted while it
-- tries `adb reverse`, a tunnel that is opened with no rules there can be closed again, and then no
-- rule is left and the tunnel is not enabled.
pub close_opened :
    (a : Answers) (r : PortRange) (force : Bool) (w opened : World)
    → CleansUp a
    → ((p : ℕ) → a.forward_remove p ≡ true)
    → w.tunnel ≡ init
    → w.reversed ≡ none
    → w.forwarded ≡ []
    → tunnel_open a r force w ≡ some (true, opened)
    → (w' : World) × (tunnel_close a opened ≡ some (true, w')) × Clean w'
close_opened a r force w opened clean removes new none_reversed none_forwarded e =
    let all = open_all a r force w new in
    let same : all.0 ≡ (true, opened) = some_inj (sym all.1 ∙ e) in
    let closed =
      close_either a r w (true, opened) clean removes none_reversed none_forwarded
        (subst (AfterOpen a r w) same all.2.0)
        (subst (λ (result : Bool × World). NoneLeft a w result.1) same all.2.1) refl in
    closed
