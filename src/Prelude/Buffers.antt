-- ===== src/Prelude/Buffers.antt =====
-- Byte buffers: a copy into a buffer at an offset, as `memcpy` does it.
use Prim.Native.Nat.{ℕ, zero, suc, ◌+◌, ◌≤◌, ◌<◌}
use mathlib.Core.Path.{◌≡◌, refl, ap, ◌∙◌}
use mathlib.Core.List.{List, [], ◌∷◌, ◌++◌}
use native.Mathlib.Omega.{arith}
use dskcpy.Prelude.Lists.{
  length, set, get_or, drop, length-set, set-set_comm, get_or-set_self, get_or-set_ne,
}

module _ {ℓ} {A : Type ℓ} where
  -- `memcpy(&buf[i], bs, n)`, item by item; what lies outside the buffer is not written.
  unfoldable pub write_at : List A → ℕ → List A → List A
  write_at buf i [] = buf
  write_at buf i (b ∷ bs) = write_at (set buf i b) (suc i) bs

  pub length-write_at :
      (buf : List A) (i : ℕ) (bs : List A) → length (write_at buf i bs) ≡ length buf
  unfolding write_at
  length-write_at buf i [] = refl
  length-write_at buf i (b ∷ bs) = length-write_at (set buf i b) (suc i) bs ∙ length-set buf i b

  pub set-write_at :
      (buf : List A) (i j : ℕ) (v : A) (bs : List A)
      → i < j
      → set (write_at buf j bs) i v ≡ write_at (set buf i v) j bs
  unfolding write_at
  set-write_at buf i j v [] h = refl
  set-write_at buf i j v (b ∷ bs) h =
      set-write_at (set buf j b) i (suc j) v bs (omega arith)
      ∙ ap (λ t. write_at t (suc j) bs) (set-set_comm buf j i b v (omega arith))

  -- A copy right behind another one.
  pub write_at-append :
      (buf : List A) (i j : ℕ) (a b : List A)
      → j ≡ i + length a
      → write_at (write_at buf i a) j b ≡ write_at buf i (a ++ b)
  unfolding write_at
  write_at-append buf i j [] b h = ap (λ t. write_at buf t b) (omega arith)
  write_at-append buf i j (x ∷ a) b h = write_at-append (set buf i x) (suc i) j a b (omega arith)

  -- The same two copies in the other order.
  pub write_at_before :
      (buf : List A) (i j : ℕ) (a b : List A)
      → j ≡ i + length a
      → write_at (write_at buf j b) i a ≡ write_at buf i (a ++ b)
  unfolding write_at
  write_at_before buf i j [] b h = ap (λ t. write_at buf t b) (omega arith)
  write_at_before buf i j (x ∷ a) b h =
      ap (λ t. write_at t (suc i) a) (set-write_at buf i j x b (omega arith))
      ∙ write_at_before (set buf i x) (suc i) j a b (omega arith)

  write_at-cons :
      (x : A) (buf : List A) (i : ℕ) (bs : List A)
      → write_at (x ∷ buf) (suc i) bs ≡ x ∷ write_at buf i bs
  unfolding write_at
  write_at-cons x buf i [] = refl
  write_at-cons x buf i (b ∷ bs) = write_at-cons x (set buf i b) (suc i) bs

  -- What a copy to the start of a large enough buffer leaves in it.
  pub write_at_start :
      (buf bs : List A) → length bs ≤ length buf → write_at buf 0 bs ≡ bs ++ drop (length bs) buf
  unfolding write_at
  write_at_start buf [] h = refl
  write_at_start [] (b ∷ bs) h = absurd (omega arith)
  write_at_start (x ∷ buf) (b ∷ bs) h =
      write_at-cons b buf 0 bs ∙ ap (λ t. b ∷ t) (write_at_start buf bs (omega arith))

  pub get_or-write_at_before :
      (buf : List A) (i j : ℕ) (bs : List A) (d : A)
      → j < i
      → get_or (write_at buf i bs) j d ≡ get_or buf j d
  unfolding write_at
  get_or-write_at_before buf i j [] d h = refl
  get_or-write_at_before buf i j (b ∷ bs) d h =
      get_or-write_at_before (set buf i b) (suc i) j bs d (omega arith)
      ∙ get_or-set_ne buf i j b d (omega arith)

  -- What a copy inside the buffer puts at index `j`.
  pub get_or-write_at :
      (buf : List A) (i j k : ℕ) (bs : List A) (d : A)
      → j ≡ i + k
      → k < length bs
      → i + length bs ≤ length buf
      → get_or (write_at buf i bs) j d ≡ get_or bs k d
  unfolding write_at
  get_or-write_at buf i j k [] d e h room = absurd (omega arith)
  get_or-write_at buf i j zero (b ∷ bs) d e h room =
      ap (λ t. get_or (write_at (set buf i b) (suc i) bs) t d) (omega arith)
      ∙ get_or-write_at_before (set buf i b) (suc i) i bs d (omega arith)
      ∙ get_or-set_self buf i b d (omega arith)
  get_or-write_at buf i j (suc k) (b ∷ bs) d e h room =
      get_or-write_at (set buf i b) (suc i) j k bs d (omega arith) (omega arith)
        (omega (arith, length-set buf i b))

  pub set-set_same : (buf : List A) (i : ℕ) (x y : A) → set (set buf i x) i y ≡ set buf i y
  set-set_same [] i x y = refl
  set-set_same (b ∷ buf) zero x y = refl
  set-set_same (b ∷ buf) (suc i) x y = ap (λ t. b ∷ t) (set-set_same buf i x y)

  set-write_at_first :
      (buf : List A) (i : ℕ) (x y : A) (bs : List A)
      → set (write_at (set buf i x) (suc i) bs) i y ≡ write_at (set buf i y) (suc i) bs
  set-write_at_first buf i x y bs =
      set-write_at (set buf i x) i (suc i) y bs (omega arith)
      ∙ ap (λ t. write_at t (suc i) bs) (set-set_same buf i x y)

  -- A write into what was copied.
  pub set-write_at_inside :
      (buf : List A) (i j k : ℕ) (y : A) (bs : List A)
      → j ≡ i + k
      → k < length bs
      → set (write_at buf i bs) j y ≡ write_at buf i (set bs k y)
  unfolding write_at
  set-write_at_inside buf i j k y [] e h = absurd (omega arith)
  set-write_at_inside buf i j zero y (b ∷ bs) e h =
      ap (λ t. set (write_at (set buf i b) (suc i) bs) t y) (omega arith)
      ∙ set-write_at_first buf i b y bs
  set-write_at_inside buf i j (suc k) y (b ∷ bs) e h =
      set-write_at_inside (set buf i b) (suc i) j k y bs (omega arith) (omega arith)

  -- A copy over another one.
  pub write_at_over :
      (buf : List A) (i : ℕ) (xs ys : List A)
      → length xs ≤ length ys
      → write_at (write_at buf i xs) i ys ≡ write_at buf i ys
  unfolding write_at
  write_at_over buf i [] ys h = refl
  write_at_over buf i (x ∷ xs) [] h = absurd (omega arith)
  write_at_over buf i (x ∷ xs) (y ∷ ys) h =
      ap (λ t. write_at t (suc i) ys) (set-write_at_first buf i x y xs)
      ∙ write_at_over (set buf i y) (suc i) xs ys (omega arith)

  -- What a copy leaves behind its end.
  pub get_or-write_at_after :
      (buf : List A) (i j : ℕ) (bs : List A) (d : A)
      → i + length bs ≤ j
      → get_or (write_at buf i bs) j d ≡ get_or buf j d
  unfolding write_at
  get_or-write_at_after buf i j [] d h = refl
  get_or-write_at_after buf i j (b ∷ bs) d h =
      get_or-write_at_after (set buf i b) (suc i) j bs d (omega arith)
      ∙ get_or-set_ne buf i j b d (omega arith)
