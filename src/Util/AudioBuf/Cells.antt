-- ===== src/Util/AudioBuf/Cells.antt =====
-- What the copies into and out of the ring do to its cells.
use dskcpy.Prelude.{
  ℕ, zero, suc, ◌+◌, ◌-◌, ◌%◌, ◌≤◌, ◌<◌, ◌≡◌, refl, sym, ap, ap₂, ◌∙◌, ◌⊎◌, List, [], ◌∷◌, ◌++◌,
  arith, ltb, lt→ltb, ltb-eq_false, if◌then◌else◌, length, take, drop, get_or, length-take,
  length-drop, write_at, get_or-write_at, get_or-write_at_before, get_or-write_at_after,
  get_or-take, get_or-drop, length-write_at, dec_lt,
}
use native.Mathlib.Nat.{mod-eq_of_lt}
use dskcpy.Util.VecDeque.Contents.{span, span_congr, wrap_cases}
use dskcpy.Util.AudioBuf.{copy_out, copy_in}

straight_index : (t k alloc : ℕ) → t + k < alloc → (t + (0 + k)) % alloc ≡ t + k
straight_index t k alloc h = ap (λ i. i % alloc) (omega arith) ∙ mod-eq_of_lt h

wrapped_index : (t r k alloc : ℕ) → t + r ≡ alloc → k < alloc → (t + (0 + r + k)) % alloc ≡ 0 + k
wrapped_index t r k alloc e h =
    let round = wrap_cases alloc (t + (0 + r + k)) (omega arith) in ground arith

module _ {A : Type 0} where
  pub span-append : (f : ℕ → A) (s n m : ℕ) → span f s n ++ span f (s + n) m ≡ span f s (n + m)
  span-append f s zero m = ap₂ (span f) (omega arith) (omega arith)
  span-append f s (suc n) m =
      ap (λ t. f s ∷ t)
        (ap (λ k. span f (suc s) n ++ span f k m) (omega arith) ∙ span-append f (suc s) n m)
      ∙ (let e : suc (n + m) ≡ suc n + m = omega arith in ap (span f s) e)

  pub take-span :
      (xs : List A) (n : ℕ) (d : A) → n ≤ length xs → take n xs ≡ span (λ k. get_or xs k d) 0 n
  take-span xs zero d h = refl
  take-span [] (suc n) d h = absurd (omega arith)
  take-span (x ∷ xs) (suc n) d h =
      ap (λ t. x ∷ t)
        (take-span xs n d (omega arith)
          ∙ span_congr (λ k. get_or xs k d) (λ k. get_or (x ∷ xs) k d) 0 1 n
              (λ k lt.
                let e : suc k ≡ 1 + k = omega arith in
                ap (λ j. get_or xs j d) (omega arith) ∙ ap (λ j. get_or (x ∷ xs) j d) e))

  -- A stretch of a list.
  take-drop-span :
      (cells : List A) (t n : ℕ) (d : A)
      → t + n ≤ length cells
      → take n (drop t cells) ≡ span (λ k. get_or cells k d) t n
  take-drop-span cells t n d h =
      take-span (drop t cells) n d (omega (arith, length-drop t cells))
      ∙ span_congr (λ k. get_or (drop t cells) k d) (λ k. get_or cells k d) 0 t n
          (λ k lt. ap (λ j. get_or (drop t cells) j d) (omega arith) ∙ get_or-drop t cells k d)

  -- A part of the samples that are copied.
  get_or-part :
      (ys : List A) (r m k : ℕ) (d : A)
      → k < m
      → get_or (take m (drop r ys)) k d ≡ get_or ys (r + k) d
  get_or-part ys r m k d h = get_or-take m (drop r ys) k d h ∙ get_or-drop r ys k d

  length-part : (ys : List A) (r m : ℕ) → r + m ≤ length ys → length (take m (drop r ys)) ≡ m
  length-part ys r m h = omega (arith, length-take m (drop r ys), length-drop r ys)

  -- A copy that does not reach the end of the array.
  straight :
      (cells ys : List A) (alloc head n j k : ℕ) (d : A)
      → length cells ≡ alloc
      → n ≤ length ys
      → head + n ≤ alloc
      → (j ≡ head + k) ⊎ ((j < head) × (n ≤ k))
      → get_or (write_at cells head (take n ys)) j d
        ≡ (if ltb k n then get_or ys k d else get_or cells j d)
  straight cells ys alloc head n j k d size hy fits at = ground (
    arith,
    length-take n ys,
    get_or-take n ys k d,
    get_or-write_at cells head j k (take n ys) d,
    get_or-write_at_after cells head j (take n ys) d,
    get_or-write_at_before cells head j (take n ys) d,
  )

  -- A copy that goes on at the start of the array.
  around :
      (cells ys : List A) (alloc head r m j k : ℕ) (d : A)
      → length cells ≡ alloc
      → r + m ≤ length ys
      → head + r ≡ alloc
      → m ≤ head
      → ((j ≡ head + k) × (k < r)) ⊎ (j + r ≡ k)
      → k < alloc
      → get_or (write_at (write_at cells head (take r ys)) 0 (take m (drop r ys))) j d
        ≡ (if ltb k (r + m) then get_or ys k d else get_or cells j d)
  around cells ys alloc head r m j k d size hy fits small at hk =
      let right = write_at cells head (take r ys) in
      ground (
        arith,
        length-take r ys,
        length-part ys r m hy,
        length-write_at cells head (take r ys),
        get_or-take r ys k d,
        get_or-part ys r m j d,
        get_or-write_at cells head j k (take r ys) d,
        get_or-write_at_before cells head j (take r ys) d,
        get_or-write_at right 0 j j (take m (drop r ys)) d,
        get_or-write_at_after right 0 j (take m (drop r ys)) d,
      )

  pub length-copy_in :
      (cells ys : List A) (alloc head n : ℕ) → length (copy_in cells alloc head n ys) ≡ length cells
  unfolding copy_in
  length-copy_in cells ys alloc head n =
      let r = if ltb n (alloc - head) then n else alloc - head in
      ground (
        arith,
        length-write_at cells head (take r ys),
        length-write_at (write_at cells head (take r ys)) 0 (take (n - r) (drop r ys)),
      )

  -- `k` places behind `head` a copy of `n` samples leaves its sample `k`, or what was there.
  pub get_or-copy_in :
      (cells ys : List A) (alloc head n j k : ℕ) (d : A)
      → length cells ≡ alloc
      → head < alloc
      → n ≤ alloc
      → n ≤ length ys
      → k < alloc
      → j ≡ (head + k) % alloc
      → get_or (copy_in cells alloc head n ys) j d
        ≡ (if ltb k n then get_or ys k d else get_or cells j d)
  unfolding copy_in
  get_or-copy_in cells ys alloc head n j k d size hh hn hy hk at =
      let place = wrap_cases alloc (head + k) (omega arith) in
      elim (dec_lt (alloc - head) n) [
        | yes over ↦
            let parts : (alloc - head) + (n - (alloc - head)) ≡ n = omega arith in
            let two : (if ltb n (alloc - head) then n else alloc - head) ≡ alloc - head =
              ground arith in
            rw (two, lt→ltb (alloc - head) n over)
              (around cells ys alloc head (alloc - head) (n - (alloc - head)) j k d size
                  (omega arith) (omega arith) (omega arith) (ground arith) hk
                ∙ ap (λ t. if ltb k t then get_or ys k d else get_or cells j d) parts)
        | no fits ↦
            let one : (if ltb n (alloc - head) then n else alloc - head) ≡ n = ground arith in
            rw (one, ltb-eq_false n n (omega arith))
              (straight cells ys alloc head n j k d size hy (omega arith) (ground arith))
      ]

  pub copy_out-span :
      (cells : List A) (alloc tail n : ℕ) (d : A)
      → length cells ≡ alloc
      → tail < alloc
      → n ≤ alloc
      → copy_out cells alloc tail n ≡ span (λ k. get_or cells ((tail + k) % alloc) d) 0 n
  unfolding copy_out
  copy_out-span cells alloc tail n d size ht hn = elim (dec_lt (alloc - tail) n) [
    | yes over ↦
        let f = λ (k : ℕ). get_or cells ((tail + k) % alloc) d in
        let r = alloc - tail in
        let two : (if ltb n r then n else r) ≡ r = ground arith in
        rw (two, lt→ltb r n over)
          (ap₂ ◌++◌
              (take-drop-span cells tail r d (omega arith)
                ∙ span_congr (λ k. get_or cells k d) f tail 0 r
                    (λ k lt.
                      ap (λ j. get_or cells j d) (sym (straight_index tail k alloc (omega arith)))))
              (take-span cells (n - r) d (omega arith)
                ∙ span_congr (λ k. get_or cells k d) f 0 (0 + r) (n - r)
                    (λ k lt.
                      ap (λ j. get_or cells j d)
                        (sym (wrapped_index tail r k alloc (omega arith) (omega arith)))))
            ∙ span-append f 0 r (n - r)
            ∙ ap (span f 0) (omega arith))
    | no fits ↦
        let one : (if ltb n (alloc - tail) then n else alloc - tail) ≡ n = ground arith in
        rw (one, ltb-eq_false n n (omega arith))
          (take-drop-span cells tail n d (omega arith)
            ∙ span_congr (λ k. get_or cells k d) (λ k. get_or cells ((tail + k) % alloc) d) tail 0 n
                (λ k lt.
                  ap (λ j. get_or cells j d) (sym (straight_index tail k alloc (omega arith)))))
  ]
