-- ===== src/Adb/Devices/Output.antt =====
-- app/src/adb/adb_parser.c: the whole output of `adb devices -l`.
use dskcpy.Prelude.{
  ℕ, suc, ◌+◌, ◌≡◌, refl, ap, sym, ◌∙◌, Bool, true, false, List, [], ◌∷◌, ◌++◌, append_assoc,
  append-nil, length, All, arith,
}
use dskcpy.Util.Str.{strncmp_eq}
use dskcpy.Adb.Devices.{
  starts_with, Device, Memory, header, lines, parse_line, parse_lines, parse_devices,
}
use dskcpy.Adb.Devices.Line.{parse_device_lem}
use dskcpy.Adb.Devices.Printed.{
  Plain, Entry, printed, IsEntry, device_of, devices_of, end_of_line, print_lines, print_all,
  AllThere, lines_line_crlf, remove_cr, all_plain-All,
}

-- A line in front of the header, which does not begin like it.
abbrev pub IsGarbage : Bool → List ℕ → Type 0
IsGarbage crlf line = All Plain line × (starts_with header (line ++ end_of_line crlf) ≡ false)

skip_garbage :
    (memory : ℕ → Memory) (crlf : Bool) (i : ℕ) (garbage : List (List ℕ)) (s : List ℕ)
    → All (IsGarbage crlf) garbage
    → parse_lines memory i (lines (print_lines crlf garbage ++ s)) (false, [])
      ≡ parse_lines memory (i + length garbage) (lines s) (false, [])
unfolding parse_lines parse_line
skip_garbage memory crlf i [] s h =
    let e : i ≡ i + 0 = omega arith in ap (λ j. parse_lines memory j (lines s) (false, [])) e
skip_garbage memory crlf i (line ∷ garbage) s h =
    let eol = end_of_line crlf in
    let later = print_lines crlf garbage in
    let same : (line ++ (eol ++ (10 ∷ later))) ++ s ≡ line ++ (eol ++ (10 ∷ (later ++ s))) =
      append_assoc line (eol ++ (10 ∷ later)) s
      ∙ ap (λ t. line ++ t) (append_assoc eol (10 ∷ later) s) in
    let e : i + 1 + length garbage ≡ i + suc (length garbage) = omega arith in
    ap (λ t. parse_lines memory i (lines t) (false, [])) same
    ∙ ap (λ t. parse_lines memory i t (false, [])) (lines_line_crlf crlf line (later ++ s) h.0.0)
    ∙ ap (λ b. parse_lines memory (i + 1) (lines (later ++ s)) (b, [])) h.0.1
    ∙ skip_garbage memory crlf (i + 1) garbage s h.1
    ∙ ap (λ j. parse_lines memory j (lines s) (false, [])) e

parse_entry :
    (memory : Memory) (crlf : Bool) (e : Entry) (ds : List Device)
    → AllThere memory
    → IsEntry e
    → parse_line memory (printed e ++ end_of_line crlf) (true, ds) ≡ (true, ds ++ device_of e ∷ [])
unfolding parse_line
parse_entry memory crlf e ds there is = rw (remove_cr crlf (printed e) is.plain) (
    rw
      (parse_device_lem memory e.serial e.gap e.state e.fields e.trail is.serial_ends is.no_star
        is.no_server is.blanks is.some_blank is.is_state is.no_states is.trailing there.0 there.1)
      (rw (there.2, there.3) refl))

parse_entries :
    (memory : ℕ → Memory) (crlf : Bool) (i : ℕ) (es : List Entry) (ds : List Device)
    → ((j : ℕ) → AllThere (memory j))
    → All IsEntry es
    → parse_lines memory i (lines (print_all crlf es)) (true, ds) ≡ (true, ds ++ devices_of es)
unfolding parse_lines lines
parse_entries memory crlf i [] ds there h = ap (λ t. (true, t)) (sym (append-nil ds))
parse_entries memory crlf i (e ∷ es) ds there h =
    ap (λ t. parse_lines memory i t (true, ds))
      (lines_line_crlf crlf (printed e) (print_all crlf es) h.0.plain)
    ∙ ap (parse_lines memory (i + 1) (lines (print_all crlf es)))
        (parse_entry (memory i) crlf e ds (there i) h.0)
    ∙ parse_entries memory crlf (i + 1) es (ds ++ device_of e ∷ []) there h.1
    ∙ ap (λ t. (true, t)) (append_assoc ds (device_of e ∷ []) (devices_of es))

header-All : All Plain header
header-All = all_plain-All header refl

parse_header :
    (memory : Memory) (crlf : Bool) (ds : List Device)
    → parse_line memory (header ++ end_of_line crlf) (false, ds) ≡ (true, ds)
unfolding parse_line strncmp_eq
parse_header memory true ds = refl
parse_header memory false ds = refl

-- The output of adb is read back, with the ends of line of Unix or of Windows: lines that do not begin
-- like the header, the header, and then a line for each device, give the devices in the order of their
-- lines, each with its serial, its state, and what is behind the first `model:` of its line. The line of
-- a device has a serial that ends with no blank and may have blanks, blanks, a device state, fields that
-- are no device states, each behind blanks, and blanks; it does not begin with `*` or `adb server`, and
-- no character in it is a line feed or a carriage return. There is memory for all.
pub parse_devices_lem :
    (memory : ℕ → Memory) (crlf : Bool) (garbage : List (List ℕ)) (es : List Entry)
    → ((j : ℕ) → AllThere (memory j))
    → All (IsGarbage crlf) garbage
    → All IsEntry es
    → parse_devices memory
        (print_lines crlf garbage ++ (header ++ (end_of_line crlf ++ (10 ∷ print_all crlf es))))
      ≡ (true, devices_of es)
unfolding parse_devices parse_lines
parse_devices_lem memory crlf garbage es there h h' =
    let n = 0 + length garbage in
    skip_garbage memory crlf 0 garbage _ h
    ∙ ap (λ t. parse_lines memory n t (false, []))
        (lines_line_crlf crlf header (print_all crlf es) header-All)
    ∙ ap (parse_lines memory (n + 1) (lines (print_all crlf es))) (parse_header (memory n) crlf [])
    ∙ parse_entries memory crlf (n + 1) es [] there h'
