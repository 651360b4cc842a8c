-- ===== src/Util/VecDeque/Grow.antt =====
-- The operations of app/src/util/vecdeque.h that enlarge the buffer, in both layouts of the ring.
use dskcpy.Prelude.{
  ℕ, ◌+◌, ◌-◌, ◌%◌, ◌≤◌, ◌<◌, ◌≡◌, refl, ap, ◌∙◌, List, ◌++◌, Bool, true, false, Option, some,
  arith,
}
use dskcpy.Prelude.{
  get_or, get_or-append, get_or-take, get_or-drop, take, drop, replicate, length, length-append,
  length-replicate, length-take, length-drop, min, max, le→leb, lt→ltb, leb-eq_false, ltb-eq_false,
  ==-eq_false, write_at, length-write_at, get_or-write_at, get_or-write_at_before, dec_lt, dec_le,
}
use native.Mathlib.Nat.{mod-eq_of_lt}
use dskcpy.Util.VecDeque.{VecDeque, add_size, copy_both, realloc, growsize, grow, reserve, mincap}
use dskcpy.Util.VecDeque.Inv.{IsValid}
use dskcpy.Util.VecDeque.Contents.{span_congr, wrap_cases, contents}

module _ {ℓ} {A : Type ℓ} (junk : A) where
  -- The two copies of a ring that goes round its end.
  module _ (v : VecDeque A) (newcap : ℕ) where
    pub right_len : ℕ
    right_len = min v.size (v.cap - v.origin)

    pub left_copy : List A
    left_copy = write_at (replicate newcap junk) 0 (take right_len (drop v.origin v.items))

    pub both_copies : List A
    both_copies = write_at left_copy right_len (take (v.size - right_len) v.items)

  length-both_copies : (v : VecDeque A) (newcap : ℕ) → length (both_copies v newcap) ≡ newcap
  unfolding both_copies left_copy
  length-both_copies v newcap =
      length-write_at (left_copy v newcap) (right_len v newcap) _
      ∙ length-write_at (replicate newcap junk) 0 _
      ∙ length-replicate newcap junk

  copied_item :
      (v : VecDeque A) (newcap k : ℕ)
      → length v.items ≡ v.cap
      → v.origin ≤ v.cap - 1
      → v.size ≤ v.cap
      → v.cap < v.origin + v.size
      → v.cap < newcap
      → k < v.size
      → get_or (both_copies v newcap) k junk ≡ get_or v.items ((v.origin + k) % v.cap) junk
  unfolding both_copies left_copy right_len
  copied_item v newcap k room start fits round more lt = elim (dec_lt k (v.cap - v.origin)) [
    | yes right ↦
        get_or-write_at_before (left_copy v newcap) r k second junk (omega arith)
        ∙ get_or-write_at (replicate newcap junk) 0 k k first junk (omega arith)
            (omega (arith, first_length)) (omega (arith, first_length, fresh_length))
        ∙ get_or-take r (drop v.origin v.items) k junk (omega arith)
        ∙ get_or-drop v.origin v.items k junk
        ∙ (let e : v.origin + k ≡ (v.origin + k) % v.cap =
              ground (arith, wrap_cases v.cap (v.origin + k)) in
            ap at e)
    | no left ↦
        get_or-write_at (left_copy v newcap) r k (k - r) second junk (omega arith)
          (omega (arith, second_length)) (omega (arith, second_length, left_length, fresh_length))
        ∙ get_or-take (v.size - r) v.items (k - r) junk (omega arith)
        ∙ (let e : k - r ≡ (v.origin + k) % v.cap =
              ground (arith, wrap_cases v.cap (v.origin + k)) in
            ap at e)
  ]
    where
      r : ℕ
      r = min v.size (v.cap - v.origin)

      at : ℕ → A
      at j = get_or v.items j junk

      first : List A
      first = take r (drop v.origin v.items)

      second : List A
      second = take (v.size - r) v.items

      first_length : length first ≡ r
      first_length =
          omega (arith, length-take r (drop v.origin v.items), length-drop v.origin v.items)

      second_length : length second ≡ v.size - r
      second_length = omega (arith, length-take (v.size - r) v.items)

      fresh_length : length (replicate newcap junk) ≡ newcap
      fresh_length = length-replicate newcap junk

      left_length : length (left_copy v newcap) ≡ length (replicate newcap junk)
      left_length = length-write_at (replicate newcap junk) 0 first

module _ {ℓ} {A : Type ℓ} (max_cap : ℕ) (junk : A) where
  -- The outcome of an operation that may enlarge a buffer: without memory it is as it was, else it
  -- has the capacity `newcap`, the same contents, and is valid.
  pub record Enlarged (v : VecDeque A) (newcap : ℕ) (out : Option (Bool × VecDeque A))
      : Type ℓ where
    pub after : VecDeque A
    pub done : out ≡ some (true, after)
    pub cap : after.cap ≡ newcap
    pub size : after.size ≡ v.size
    pub same : contents junk after ≡ contents junk v
    pub valid : IsValid max_cap after

  module _ (v : VecDeque A) (newcap : ℕ) (valid : IsValid max_cap v) (more : v.cap < newcap)
      (le : newcap ≤ max_cap) where
    open valid use {storage, small, start, fits, limit}

    abbrev in_place : List A
    in_place = v.items ++ replicate (newcap - v.cap) junk

    in_place-Enlarged :
        v.origin + v.size ≤ v.cap
        → Enlarged v newcap (some (true, record v { cap = newcap; items = in_place }))
    in_place-Enlarged stays = record {
      after = record v { cap = newcap; items = in_place };
      done = refl;
      cap = refl;
      size = refl;
      same = span_congr _ _ 0 0 v.size item;
      valid = record {
        storage = omega (
          arith,
          length-append v.items (replicate (newcap - v.cap) junk),
          length-replicate (newcap - v.cap) junk,
        );
        small = le;
        start = omega arith;
        fits = omega arith;
        limit = limit;
      };
    }
      where
        item :
            (k : ℕ)
            → k < v.size
            → get_or in_place ((v.origin + (0 + k)) % newcap) junk
              ≡ get_or v.items ((v.origin + (0 + k)) % v.cap) junk
        item k lt =
            rw
              (
                mod-eq_of_lt {n = v.origin + (0 + k)} {m = newcap} (omega arith),
                mod-eq_of_lt {n = v.origin + (0 + k)} {m = v.cap} (omega arith),
              )
              (get_or-append v.items _ (v.origin + (0 + k)) junk (omega arith))

    copied_Enlarged :
        v.cap < v.origin + v.size
        → Enlarged v newcap
            (some (true, record v { cap = newcap; origin = 0; items = both_copies junk v newcap }))
    copied_Enlarged round = record {
      after = record v { cap = newcap; origin = 0; items = both_copies junk v newcap };
      done = refl;
      cap = refl;
      size = refl;
      same = span_congr _ _ 0 0 v.size item;
      valid = record {
        storage = length-both_copies junk v newcap;
        small = le;
        start = omega arith;
        fits = omega arith;
        limit = limit;
      };
    }
      where
        item :
            (k : ℕ)
            → k < v.size
            → get_or (both_copies junk v newcap) ((0 + (0 + k)) % newcap) junk
              ≡ get_or v.items ((v.origin + (0 + k)) % v.cap) junk
        item k lt = rw (mod-eq_of_lt {n = 0 + (0 + k)} {m = newcap} (omega arith)) (
            (let e : 0 + (0 + k) ≡ 0 + k = omega arith in
              ap (λ j. get_or (both_copies junk v newcap) j junk) e)
            ∙ copied_item junk v newcap (0 + k) storage start fits round more (omega arith))

    -- A reallocation that gets its memory keeps the contents of a valid buffer.
    pub realloc-Enlarged : Enlarged v newcap (realloc max_cap junk true v newcap)
    unfolding realloc copy_both both_copies left_copy right_len
    realloc-Enlarged = elim (dec_le (v.origin + v.size) v.cap) [
      | yes stays ↦
          rw
            (
              leb-eq_false newcap v.cap (omega arith),
              le→leb (add_size v.origin v.size) v.cap (omega arith),
            )
            (in_place-Enlarged stays)
      | no round ↦
          rw
            (
              leb-eq_false newcap v.cap (omega arith),
              leb-eq_false (add_size v.origin v.size) v.cap (omega arith),
              ==-eq_false v.size 0 (λ z. omega (arith, z)),
              ==-eq_false (min v.size (v.cap - v.origin)) 0 (λ z. omega (arith, z)),
              lt→ltb (min v.size (v.cap - v.origin)) v.size (omega arith),
            )
            (copied_Enlarged (omega arith))
    ]

module _ {ℓ} {A : Type ℓ} (max_cap : ℕ) (junk : A) where
  -- The capacity that `grow` asks for.
  abbrev pub grown_cap : VecDeque A → ℕ
  grown_cap v = min (max (growsize v.cap) mincap) max_cap

  pub grown_cap_lt :
      (v : VecDeque A)
      → IsValid max_cap v
      → v.cap < max_cap
      → (v.cap < grown_cap v) × (grown_cap v ≤ max_cap)
  unfolding growsize
  grown_cap_lt v valid less = omega arith

  -- `grow` enlarges a valid buffer below the maximal capacity when there is memory.
  pub grow-Enlarged :
      (v : VecDeque A)
      → IsValid max_cap v
      → v.cap < max_cap
      → Enlarged max_cap junk v (grown_cap v) (grow max_cap junk true v)
  unfolding grow
  grow-Enlarged v valid less = rw (lt→ltb _ _ less) (
      let (more, le) = grown_cap_lt v valid less in
      realloc-Enlarged max_cap junk v (grown_cap v) valid more le)

  no_memory :
      (v : VecDeque A) (newcap : ℕ)
      → IsValid max_cap v
      → v.cap < newcap
      → realloc max_cap junk false v newcap ≡ some (false, v)
  unfolding realloc
  no_memory v newcap valid more = elim (dec_le (add_size v.origin v.size) v.cap) [
    | yes stays ↦ rw (leb-eq_false newcap v.cap (omega arith), le→leb _ _ stays) refl
    | no round ↦
        rw
          (
            leb-eq_false newcap v.cap (omega arith),
            leb-eq_false (add_size v.origin v.size) v.cap (omega arith),
            ==-eq_false v.size 0
                (λ z. omega (arith, z, round, valid.start, valid.small, valid.limit)),
          )
          refl
  ]

  pub grow_no_memory :
      (v : VecDeque A)
      → IsValid max_cap v
      → v.cap < max_cap
      → grow max_cap junk false v ≡ some (false, v)
  unfolding grow
  grow_no_memory v valid less =
      rw (lt→ltb _ _ less) (no_memory v (grown_cap v) valid (grown_cap_lt v valid less).0)

  -- `sc_vecdeque_reserve` of a valid buffer with a capacity within the maximum, at least 10 items:
  -- with memory it succeeds, keeps the contents and the validity, and reaches the capacity asked for.
  pub reserve_lem :
      (v : VecDeque A) (wanted : ℕ)
      → IsValid max_cap v
      → max wanted mincap ≤ max_cap
      → (v' : VecDeque A) × (reserve max_cap junk true v wanted ≡ some (true, v'))
        × (wanted ≤ v'.cap)
        × (contents junk v' ≡ contents junk v)
        × IsValid max_cap v'
  unfolding reserve
  reserve_lem v wanted valid le = elim (dec_le (max wanted mincap) v.cap) [
    | yes enough ↦ (
      v,
      rw (ltb-eq_false max_cap wanted (omega arith), le→leb _ _ enough) refl,
      omega arith,
      refl,
      valid,
    )
    | no short ↦
        let newcap : ℕ = min (max (growsize v.cap) (max wanted mincap)) max_cap in
        let e : Enlarged max_cap junk v newcap (realloc max_cap junk true v newcap) =
          realloc-Enlarged max_cap junk v newcap valid (omega arith) (omega arith) in
        (
          e.after,
          rw
              (
                ltb-eq_false max_cap wanted (omega arith),
                leb-eq_false (max wanted mincap) v.cap (omega arith),
                le→leb _ _ le,
              )
              e.done,
          omega (arith, e.cap),
          e.same,
          e.valid,
        )
  ]
