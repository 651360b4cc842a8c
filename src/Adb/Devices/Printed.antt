-- ===== src/Adb/Devices/Printed.antt =====
-- app/src/adb/adb_parser.c: the lines that adb prints.
use dskcpy.Prelude.{
  ℕ, zero, suc, ◌+◌, ◌<◌, ◌≡◌, ◌≢◌, refl, ap, sym, ◌∙◌, Bool, true, false, List, [], ◌∷◌, ◌++◌,
  append-nil, ◌==◌, if◌then◌else◌, length, length-append, take, take-append, get_or, get_or-append,
  All, arith, not, ◌&&◌,
}
use dskcpy.Util.Str.{trailing_cr_len, remove_trailing_cr}
use dskcpy.Adb.Devices.{codes, starts_with, is_device_state, Device, Memory, lines, push_front}
use dskcpy.Adb.Devices.Tokens.{Blank, Solid, EndsWith, get_or-after, All-get_or}
use dskcpy.Adb.Devices.Fields.{Field, NoState}
use dskcpy.Adb.Devices.Line.{line_of, model_of}

-- A character that ends no line.
abbrev pub Plain : ℕ → Type 0
Plain c = ((c == 10) ≡ false) × ((c == 13) ≡ false)

-- The parts of the line of a device.
pub record Entry : Type 0 where
  pub serial : List ℕ
  pub gap : List ℕ
  pub state : List ℕ
  pub fields : List Field
  pub trail : List ℕ

abbrev pub printed : Entry → List ℕ
printed e = line_of e.serial e.gap e.state e.fields e.trail

pub record IsEntry (e : Entry) : Type 0 where
  pub serial_ends : EndsWith Solid e.serial
  pub no_star : get_or e.serial 0 0 ≢ 42
  pub no_server : starts_with (codes "adb server") (printed e) ≡ false
  pub blanks : All Blank e.gap
  pub some_blank : 0 < length e.gap
  pub is_state : is_device_state e.state ≡ true
  pub no_states : All NoState e.fields
  pub trailing : All Blank e.trail
  pub plain : All Plain (printed e)

abbrev pub device_of : Entry → Device
device_of e = record {
  serial = e.serial;
  state = e.state;
  model = model_of e.fields;
  selected = false;
}

abbrev pub devices_of : List Entry → List Device
devices_of [] = []
devices_of (e ∷ es) = device_of e ∷ devices_of es

-- The lines with their ends, which are those of Windows if `crlf`.
abbrev pub end_of_line : Bool → List ℕ
end_of_line crlf = if crlf then 13 ∷ [] else []

abbrev pub print_lines : Bool → List (List ℕ) → List ℕ
print_lines crlf [] = []
print_lines crlf (line ∷ others) = line ++ (end_of_line crlf ++ (10 ∷ print_lines crlf others))

abbrev pub print_all : Bool → List Entry → List ℕ
print_all crlf [] = []
print_all crlf (e ∷ es) = printed e ++ (end_of_line crlf ++ (10 ∷ print_all crlf es))

abbrev pub AllThere : Memory → Type 0
AllThere m =
    (m.for_serial ≡ true) × (m.for_state ≡ true) × (m.for_model ≡ true) × (m.for_push ≡ true)

lines_line : (line s : List ℕ) → All Plain line → lines (line ++ (10 ∷ s)) ≡ line ∷ lines s
unfolding lines
lines_line [] s h = refl
lines_line (c ∷ line) s h =
    ap (λ b. if b then [] ∷ lines (line ++ (10 ∷ s)) else push_front c (lines (line ++ (10 ∷ s))))
      h.0.0
    ∙ ap (push_front c) (lines_line line s h.1)

pub lines_line_crlf :
    (crlf : Bool) (line s : List ℕ)
    → All Plain line
    → lines (line ++ (end_of_line crlf ++ (10 ∷ s))) ≡ (line ++ end_of_line crlf) ∷ lines s
unfolding lines
lines_line_crlf true [] s h = refl
lines_line_crlf false line s h = lines_line line s h ∙ ap (λ t. t ∷ lines s) (sym (append-nil line))
lines_line_crlf true (c ∷ line) s h =
    let others = line ++ (13 ∷ 10 ∷ s) in
    ap (λ b. if b then [] ∷ lines others else push_front c (lines others)) h.0.0
    ∙ ap (push_front c) (lines_line_crlf true line s h.1)

cr_stays :
    (s : List ℕ) (n : ℕ)
    → ((i : ℕ) → i < n → (get_or s i 0 == 13) ≡ false)
    → trailing_cr_len s n ≡ n
unfolding trailing_cr_len
cr_stays s zero h = refl
cr_stays s (suc n) h = ap (λ b. if b then trailing_cr_len s n else suc n) (h n (omega arith))

line_stays :
    (line others : List ℕ)
    → All Plain line
    → trailing_cr_len (line ++ others) (length line) ≡ length line
line_stays line others h = cr_stays (line ++ others) (length line) (λ i lt.
    ap (λ c. c == 13) (get_or-append line others i 0 lt) ∙ (All-get_or Plain line i h lt).1)

cr_goes :
    (line : List ℕ)
    → trailing_cr_len (line ++ 13 ∷ []) (length line + 1)
      ≡ trailing_cr_len (line ++ 13 ∷ []) (length line)
unfolding trailing_cr_len
cr_goes line =
    let s = line ++ 13 ∷ [] in
    let here : get_or s (length line) 0 ≡ 13 =
      (let z : length line ≡ length line + 0 = omega arith in ap (λ j. get_or s j 0) z)
      ∙ get_or-after line (13 ∷ []) 0 in
    let e : length line + 1 ≡ suc (length line) = omega arith in
    ap (trailing_cr_len s) e
    ∙ ap (λ c. if c == 13 then trailing_cr_len s (length line) else suc (length line)) here

pub remove_cr :
    (crlf : Bool) (line : List ℕ)
    → All Plain line
    → remove_trailing_cr (line ++ end_of_line crlf) ≡ line
unfolding remove_trailing_cr
remove_cr true line h =
    let s = line ++ 13 ∷ [] in
    ap (λ n. take n s)
      (ap (trailing_cr_len s) (length-append line (13 ∷ []))
        ∙ cr_goes line
        ∙ line_stays line (13 ∷ []) h)
    ∙ take-append line (13 ∷ [])
remove_cr false line h =
    ap remove_trailing_cr (append-nil line)
    ∙ ap (λ n. take n line)
        (ap (λ s. trailing_cr_len s (length line)) (sym (append-nil line)) ∙ line_stays line [] h)
    ∙ ap (take (length line)) (sym (append-nil line))
    ∙ take-append line []

abbrev pub all_plain : List ℕ → Bool
all_plain [] = true
all_plain (c ∷ s) = not (c == 10) && not (c == 13) && all_plain s

pub all_plain-All : (s : List ℕ) → all_plain s ≡ true → All Plain s
all_plain-All [] h = tt
all_plain-All (c ∷ s) h =
    ((ground (arith, h), ground (arith, h)), all_plain-All s (ground (arith, h)))
