-- ===== src/Util/Str.antt =====
-- app/src/util/str.c: where a UTF-8 text may be cut, and the search in a list of tokens.
-- A C string is the list of its bytes before the terminator, so that the byte at its length is 0.
pub mod Truncation
pub mod ListContains
use dskcpy.Prelude.{ℕ, zero, suc, ◌≡◌, List, [], ◌∷◌, Bool, true, false, Option, none, some, not}
use dskcpy.Prelude.{
  ◌+◌, ◌-◌, ◌&&◌, ◌||◌, ◌==◌, leb, if◌then◌else◌, bit_and, get_or, length, take, drop,
}

-- `(c & 0x80) != 0 && (c & 0xc0) != 0xc0`: inside a character of several bytes.
unfoldable pub is_continuation : ℕ → Bool
is_continuation c = not (bit_and c 0x80 == 0) && not (bit_and c 0xc0 == 0xc0)

-- The `while` loop from index `len` down; `none` is the wrap of `len` below 0, undefined in C.
unfoldable pub back_up : List ℕ → ℕ → Option ℕ
back_up utf8 zero = if is_continuation (get_or utf8 0 0) then none else some 0
back_up utf8 (suc n) =
    let before = back_up utf8 n in
    if is_continuation (get_or utf8 (suc n) 0) then before else some (suc n)

unfoldable pub utf8_truncation_index : List ℕ → ℕ → Option ℕ
unfolding back_up is_continuation
utf8_truncation_index utf8 max_len =
    if leb (length utf8) max_len then some (length utf8) else back_up utf8 max_len

-- `!strncmp(a, b, n)`.
unfoldable pub strncmp_eq : List ℕ → List ℕ → ℕ → Bool
strncmp_eq a b zero = true
strncmp_eq [] [] (suc n) = true
strncmp_eq [] (y ∷ b) (suc n) = false
strncmp_eq (x ∷ a) [] (suc n) = false
strncmp_eq (x ∷ a) (y ∷ b) (suc n) = x == y && strncmp_eq a b n

-- `strchr(s, c) - s`, if `c` occurs.
unfoldable pub strchr : List ℕ → ℕ → Option ℕ
strchr [] c = none
strchr (x ∷ s) c =
    if x == c then some 0 else elim (strchr s c) [ none ↦ none | some i ↦ some (suc i) ]

-- `sc_str_list_contains`, the `do` loop on fuel: each round but the last one drops a character.
unfoldable pub list_contains_loop : ℕ → List ℕ → ℕ → List ℕ → Option Bool
unfolding strncmp_eq strchr
list_contains_loop zero list sep s = none
list_contains_loop (suc fuel) list sep s = elim (strchr list sep) [
  | none ↦ some (strncmp_eq list s (length list))
  | some i ↦
      if strncmp_eq list s i then some true else list_contains_loop fuel (drop (i + 1) list) sep s
]

unfoldable pub list_contains : List ℕ → ℕ → List ℕ → Option Bool
unfolding list_contains_loop
list_contains list sep s = list_contains_loop (suc (length list)) list sep s

-- `sc_str_remove_trailing_cr`: the length that it returns.
unfoldable pub trailing_cr_len : List ℕ → ℕ → ℕ
trailing_cr_len s zero = zero
trailing_cr_len s (suc i) =
    let shorter = trailing_cr_len s i in if get_or s i 0 == 13 then shorter else suc i

unfoldable pub remove_trailing_cr : List ℕ → List ℕ
remove_trailing_cr s = take (trailing_cr_len s (length s)) s
