-- ===== src/Util/VecDeque/Inv.antt =====
-- The representation invariant of a ring buffer.
use dskcpy.Prelude.{ℕ, ◌-◌, ◌^◌, ◌≤◌, ◌<◌, ◌≡◌, arith}
use dskcpy.Prelude.{length}
use dskcpy.Util.VecDeque.{VecDeque, init}

pub record IsValid {ℓ} {A : Type ℓ} (max_cap : ℕ) (v : VecDeque A) : Type 0 where
  pub storage : length v.items ≡ v.cap
  pub small : v.cap ≤ max_cap
  pub start : v.origin ≤ v.cap - 1
  pub fits : v.size ≤ v.cap
  -- `max_cap` is at most SIZE_MAX / 2.
  pub limit : max_cap < 2 ^ 63

pub init-IsValid {ℓ} :
    {A : Type ℓ} (max_cap : ℕ) → max_cap < 2 ^ 63 → IsValid max_cap (init {A = A})
unfolding init
init-IsValid max_cap h = omega arith
