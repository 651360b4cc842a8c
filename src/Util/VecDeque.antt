-- ===== src/Util/VecDeque.antt =====
-- app/src/util/vecdeque.h: a queue in a growable ring buffer. An operation on `*pv` returns the
-- new structure. Whether an allocation succeeds is an argument, and `junk` is what fresh memory
-- holds. A failed `assert` is `none`.
pub mod Contents
pub mod Inv
pub mod Grow
pub mod Queue
pub mod Push
use dskcpy.Prelude.{
  ℕ, ◌+◌, ◌-◌, ◌*◌, ◌/◌, ◌%◌, ◌^◌, ◌≡◌, List, [], ◌∷◌, ◌++◌, Option, none, some, Bool, true, false,
  not, ◌||◌, ◌>>=◌,
}
use dskcpy.Prelude.{
  ltb, leb, ◌==◌, if◌then◌else◌, min, max, set, get_or, take, drop, replicate, write_at,
}

pub record VecDeque {ℓ} (A : Type ℓ) : Type ℓ where
  pub cap : ℕ
  pub origin : ℕ
  pub size : ℕ
  pub items : List A

abbrev pub mincap : ℕ
mincap = 10

-- `size_t` arithmetic.
abbrev pub add_size : ℕ → ℕ → ℕ
add_size a b = (a + b) % 2 ^ 64

unfoldable pub growsize : ℕ → ℕ
growsize value = add_size value (value / 2)

module _ {ℓ} {A : Type ℓ} where
  unfoldable pub init : VecDeque A
  init = record { cap = 0; origin = 0; size = 0; items = [] }

  unfoldable pub is_empty : VecDeque A → Bool
  is_empty v = v.size == 0

  unfoldable pub is_full : VecDeque A → Bool
  is_full v = v.size == v.cap

-- `max_cap` is `SIZE_MAX / 2 / sizeof(*data)`, which depends on the type of the items.
module _ {ℓ} {A : Type ℓ} (max_cap : ℕ) (junk : A) (alloc_ok : Bool) where
  -- The two copies of a ring that goes round its end.
  unfoldable pub copy_both : VecDeque A → ℕ → List A
  copy_both v newcap =
      let right_len = min v.size (v.cap - v.origin) in
      let left = write_at (replicate newcap junk) 0 (take right_len (drop v.origin v.items)) in
      if ltb right_len v.size
      then write_at left right_len (take (v.size - right_len) v.items)
      else left

  -- `sc_vecdeque_realloc_` with `sc_vecdeque_reallocdata_`.
  unfoldable pub realloc : VecDeque A → ℕ → Option (Bool × VecDeque A)
  realloc v newcap =
      if leb newcap v.cap
      then none
      else if leb (add_size v.origin v.size) v.cap
      then (if alloc_ok
          then some
              (true, record v { cap = newcap; items = v.items ++ replicate (newcap - v.cap) junk })
          else some (false, v))
      else if v.size == 0
      then none
      else if not alloc_ok
      then some (false, v)
      else if min v.size (v.cap - v.origin) == 0
      then none
      else some (true, record v { cap = newcap; origin = 0; items = copy_both v newcap })

  unfoldable pub reserve : VecDeque A → ℕ → Option (Bool × VecDeque A)
  reserve v mincap_arg =
      let wanted = max mincap_arg mincap in
      if ltb max_cap mincap_arg
      then none
      else if leb wanted v.cap
      then some (true, v)
      else (if leb wanted max_cap
          then realloc v (min (max (growsize v.cap) wanted) max_cap)
          else some (false, v))

  unfoldable pub grow : VecDeque A → Option (Bool × VecDeque A)
  grow v =
      if ltb v.cap max_cap
      then realloc v (min (max (growsize v.cap) mincap) max_cap)
      else some (false, v)

  unfoldable pub grow_if_needed : VecDeque A → Option (Bool × VecDeque A)
  unfolding is_full
  grow_if_needed v = if not (is_full v) then some (true, v) else grow v

module _ {ℓ} {A : Type ℓ} where
  unfoldable pub push_noresize : VecDeque A → A → Option (VecDeque A)
  unfolding is_full
  push_noresize v item =
      if is_full v
      then none
      else some (record v {
        size = v.size + 1;
        items = set v.items (add_size v.origin v.size % v.cap) item;
      })

  -- The item and the queue without it.
  unfoldable pub pop : VecDeque A → A → Option (A × VecDeque A)
  unfolding is_empty
  pop v junk =
      if is_empty v
      then none
      else some (
        get_or v.items v.origin junk,
        record v { origin = add_size v.origin 1 % v.cap; size = v.size - 1 },
      )

module _ {ℓ} {A : Type ℓ} (max_cap : ℕ) (junk : A) (alloc_ok : Bool) where
  unfoldable pub push : VecDeque A → A → Option (Bool × VecDeque A)
  push v item = grow_if_needed max_cap junk alloc_ok v >>= λ r.
      if r.0 then (push_noresize r.1 item >>= λ v'. some (true, v')) else some (false, r.1)
