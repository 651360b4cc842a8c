-- ===== src/Adb/Devices/Tokens.antt =====
-- app/src/adb/adb_parser.c: the last token of a text, and what is before it.
use dskcpy.Prelude.{
  ℕ, zero, suc, ◌+◌, ◌-◌, ◌<◌, ◌≡◌, ap, sym, subst, ◌∙◌, true, false, List, [], ◌∷◌, ◌++◌,
  append_assoc, length, length-append, take, drop, take-append, drop-append, get_or, get_or-append,
  All, arith, if◌then◌else◌,
}
use dskcpy.Adb.Devices.{is_blank, rstrip_len, token_start, locate_last_token}

abbrev pub Blank : ℕ → Type 0
Blank c = is_blank c ≡ true

abbrev pub Solid : ℕ → Type 0
Solid c = is_blank c ≡ false

-- The text ends with a character that is no blank, or with a blank, or is empty.
abbrev pub EndsWith : (ℕ → Type 0) → List ℕ → Type 0
EndsWith P s = (before : List ℕ) × (c : ℕ) × (s ≡ before ++ c ∷ []) × P c

pub get_or-after : (a b : List ℕ) (i : ℕ) → get_or (a ++ b) (length a + i) 0 ≡ get_or b i 0
get_or-after [] b i = ap (λ j. get_or b j 0) (omega arith)
get_or-after (x ∷ a) b i =
    let e : suc (length a) + i ≡ suc (length a + i) = omega arith in
    ap (λ j. get_or (x ∷ (a ++ b)) j 0) e ∙ get_or-after a b i

pub All-get_or : (P : ℕ → Type 0) (s : List ℕ) (i : ℕ) → All P s → i < length s → P (get_or s i 0)
All-get_or P [] i h lt = absurd (omega arith)
All-get_or P (x ∷ s) zero h lt = h.0
All-get_or P (x ∷ s) (suc i) h lt = All-get_or P s i h.1 (omega arith)

-- Past the blanks, down to `n`.
rstrip_blanks :
    (s : List ℕ) (n m : ℕ)
    → ((i : ℕ) → i < m → Blank (get_or s (n + i) 0))
    → rstrip_len s (n + m) ≡ rstrip_len s n
unfolding rstrip_len
rstrip_blanks s n zero h = let e : n + 0 ≡ n = omega arith in ap (rstrip_len s) e
rstrip_blanks s n (suc m) h =
    let e : n + suc m ≡ suc (n + m) = omega arith in
    ap (rstrip_len s) e
    ∙ ap (λ b. if b then rstrip_len s (n + m) else suc (n + m)) (h m (omega arith))
    ∙ rstrip_blanks s n m (λ i lt. h i (omega arith))

start_solids :
    (s : List ℕ) (n m : ℕ)
    → ((i : ℕ) → i < m → Solid (get_or s (n + i) 0))
    → token_start s (n + m) ≡ token_start s n
unfolding token_start
start_solids s n zero h = let e : n + 0 ≡ n = omega arith in ap (token_start s) e
start_solids s n (suc m) h =
    let e : n + suc m ≡ suc (n + m) = omega arith in
    ap (token_start s) e
    ∙ ap (λ b. if b then suc (n + m) else token_start s (n + m)) (h m (omega arith))
    ∙ start_solids s n m (λ i lt. h i (omega arith))

-- The last character of a text in front of others.
get_or-last :
    (P : ℕ → Type 0) (s others : List ℕ) (e : EndsWith P s)
    → (length s ≡ length e.0 + 1) × P (get_or (s ++ others) (length e.0) 0)
get_or-last P s others (before, c, e, h) = (
  ap length e ∙ length-append before (c ∷ []),
  let there : get_or (s ++ others) (length before) 0 ≡ c =
        ap (λ t. get_or (t ++ others) (length before) 0) e
        ∙ ap (λ t. get_or t (length before) 0) (append_assoc before (c ∷ []) others)
        ∙ (let z : length before ≡ length before + 0 = omega arith in
            ap (λ j. get_or (before ++ (c ∷ others)) j 0) z)
        ∙ get_or-after before (c ∷ others) 0 in
      subst P (sym there) h,
)

-- A part of a text that all has a property.
part-All :
    (P : ℕ → Type 0) (s part others : List ℕ)
    → All P part
    → (i : ℕ) → i < length part
    → P (get_or (s ++ (part ++ others)) (length s + i) 0)
part-All P s part others h i lt =
    subst P (sym (get_or-after s (part ++ others) i ∙ get_or-append part others i 0 lt))
      (All-get_or P part i h lt)

-- Behind a text that ends with no blank, blanks do not count.
pub rstrip_len_lem :
    (s gap others : List ℕ)
    → EndsWith Solid s
    → All Blank gap
    → rstrip_len (s ++ (gap ++ others)) (length s + length gap) ≡ length s
unfolding rstrip_len
rstrip_len_lem s gap others ends blanks =
    let t = s ++ (gap ++ others) in
    let last = get_or-last Solid s (gap ++ others) ends in
    let e : length s ≡ suc (length ends.0) = omega (arith, last.0) in
    rstrip_blanks t (length s) (length gap) (part-All Blank s gap others blanks)
    ∙ ap (rstrip_len t) e
    ∙ ap (λ b. if b then rstrip_len t (length ends.0) else suc (length ends.0)) last.1
    ∙ sym e

-- A token behind a blank.
pub token_start_lem :
    (s token others : List ℕ)
    → EndsWith Blank s
    → All Solid token
    → token_start (s ++ (token ++ others)) (length s + length token) ≡ length s
unfolding token_start
token_start_lem s token others ends solid =
    let t = s ++ (token ++ others) in
    let last = get_or-last Blank s (token ++ others) ends in
    let e : length s ≡ suc (length ends.0) = omega (arith, last.0) in
    start_solids t (length s) (length token) (part-All Solid s token others solid)
    ∙ ap (token_start t) e
    ∙ ap (λ b. if b then suc (length ends.0) else token_start t (length ends.0)) last.1
    ∙ sym e

-- The last token of a text, with blanks behind it.
pub locate_last_token_lem :
    (before token gap others : List ℕ)
    → EndsWith Blank before
    → EndsWith Solid (before ++ token)
    → All Solid token
    → All Blank gap
    → locate_last_token
        ((before ++ token) ++ (gap ++ others))
        (length (before ++ token) + length gap)
      ≡ (length before, length before + length token)
unfolding locate_last_token
locate_last_token_lem before token gap others ends ends' solid blanks =
    let end = rstrip_len_lem (before ++ token) gap others ends' blanks in
    let len = length-append before token in
    rw (end, len)
      (ap (λ n. (n, length before + length token))
        (ap (λ s. token_start s (length before + length token))
            (append_assoc before token (gap ++ others))
          ∙ token_start_lem before token (gap ++ others) ends solid))

pub token_lem :
    (before token others : List ℕ)
    → take
        ((length before + length token) - length before)
        (drop (length before) ((before ++ token) ++ others))
      ≡ token
token_lem before token others =
    let n : (length before + length token) - length before ≡ length token = omega arith in
    rw n (
      ap (λ s. take (length token) (drop (length before) s)) (append_assoc before token others)
      ∙ ap (take (length token)) (drop-append before (token ++ others))
      ∙ take-append token others)
