-- ===== src/Util/VecDeque/Push.antt =====
-- `sc_vecdeque_push`, which enlarges a full buffer first.
use dskcpy.Prelude.{
  dec_lt, ltb-eq_false, ℕ, ◌≤◌, ◌<◌, ◌≡◌, refl, ap, ◌∙◌, ◌⊎◌, inl, inr, [], ◌∷◌, ◌++◌, Option, some,
  Bool, true, false, ==-eq_false, ==_iff, arith,
}
use dskcpy.Util.VecDeque.{VecDeque, is_full, grow, grow_if_needed, push}
use dskcpy.Util.VecDeque.Inv.{IsValid}
use dskcpy.Util.VecDeque.Contents.{contents}
use dskcpy.Util.VecDeque.Grow.{Enlarged, grow-Enlarged, grown_cap, grown_cap_lt, grow_no_memory}
use dskcpy.Util.VecDeque.Queue.{push_noresize_lem}

module _ {ℓ} {A : Type ℓ} (max_cap : ℕ) (junk : A) where
  -- The outcome of a push that succeeds: `x` at the end of the contents, in a valid buffer that is
  -- no smaller.
  pub record Pushed (v : VecDeque A) (x : A) (out : Option (Bool × VecDeque A)) : Type ℓ where
    pub after : VecDeque A
    pub done : out ≡ some (true, after)
    pub appended : contents junk after ≡ contents junk v ++ (x ∷ [])
    pub valid : IsValid max_cap after
    pub larger : v.cap ≤ after.cap

  -- A push into a valid buffer that is not full needs no memory.
  pub push_room :
      (alloc_ok : Bool) (v : VecDeque A) (x : A)
      → IsValid max_cap v
      → v.size < v.cap
      → Pushed v x (push max_cap junk alloc_ok v x)
  unfolding push grow_if_needed is_full
  push_room alloc_ok v x valid room =
      let (v', e, app, ok, cap) = push_noresize_lem max_cap junk v x valid room in
      record {
        after = v';
        done = rw (==-eq_false v.size v.cap (omega arith), e);
        appended = app;
        valid = ok;
        larger = omega (arith, cap);
      }

  -- A push into a full buffer below the maximal capacity succeeds when there is memory.
  pub push_full :
      (v : VecDeque A) (x : A)
      → IsValid max_cap v
      → v.size ≡ v.cap
      → v.cap < max_cap
      → Pushed v x (push max_cap junk true v x)
  unfolding push grow_if_needed is_full
  push_full v x valid full less =
      let e : Enlarged max_cap junk v (grown_cap max_cap junk v) (grow max_cap junk true v) =
        grow-Enlarged max_cap junk v valid less in
      let (more, le) = grown_cap_lt max_cap junk v valid less in
      let grown : VecDeque A = e.after in
      let (v', pushed, app, ok, cap) =
        push_noresize_lem max_cap junk grown x e.valid (omega (arith, e.size, e.cap)) in
      record {
        after = v';
        done = rw ((==_iff v.size v.cap).1 full, e.done, pushed);
        appended = app ∙ ap (λ t. t ++ (x ∷ [])) e.same;
        valid = ok;
        larger = omega (arith, cap, e.cap);
      }

  -- Without memory a push into a full buffer fails and leaves the buffer as it was.
  pub push_no_memory :
      (v : VecDeque A) (x : A)
      → IsValid max_cap v
      → v.size ≡ v.cap
      → v.cap < max_cap
      → push max_cap junk false v x ≡ some (false, v)
  unfolding push grow_if_needed is_full
  push_no_memory v x valid full less =
      rw ((==_iff v.size v.cap).1 full, grow_no_memory max_cap junk v valid less) refl

  push_at_max :
      (v : VecDeque A) (x : A) (alloc_ok : Bool)
      → v.size ≡ v.cap
      → max_cap ≤ v.cap
      → push max_cap junk alloc_ok v x ≡ some (false, v)
  unfolding push grow_if_needed is_full grow
  push_at_max v x alloc_ok full max =
      rw ((==_iff v.size v.cap).1 full, ltb-eq_false v.cap max_cap max)

  -- A push into a valid buffer that is full and cannot grow.
  abbrev pub Refused : Bool → VecDeque A → Type 0
  Refused alloc_ok v = (v.size ≡ v.cap) × ((alloc_ok ≡ false) ⊎ (v.cap ≡ max_cap))

  -- A push into any valid buffer ends: either it succeeds, or the buffer is as it was.
  pub push_total :
      (alloc_ok : Bool) (v : VecDeque A) (x : A)
      → IsValid max_cap v
      → Pushed v x (push max_cap junk alloc_ok v x)
        ⊎ ((push max_cap junk alloc_ok v x ≡ some (false, v)) × Refused alloc_ok v)
  push_total alloc_ok v x valid = elim (dec_lt v.size v.cap) [
    | yes room ↦ inl (push_room alloc_ok v x valid room)
    | no full ↦ elim (dec_lt v.cap max_cap) [
      | yes less ↦ full_buffer alloc_ok (omega (arith, valid.fits)) less
      | no max ↦
          let whole : v.size ≡ v.cap = omega (arith, valid.fits) in
          inr (
            push_at_max v x alloc_ok whole (omega arith),
            (whole, inr (omega (arith, valid.small))),
          )
    ]
  ]
    where
      full_buffer :
          (ok : Bool)
          → v.size ≡ v.cap
          → v.cap < max_cap
          → Pushed v x (push max_cap junk ok v x)
            ⊎ ((push max_cap junk ok v x ≡ some (false, v)) × Refused ok v)
      full_buffer false full less = inr (push_no_memory v x valid full less, (full, inl refl))
      full_buffer true full less = inl (push_full v x valid full less)
