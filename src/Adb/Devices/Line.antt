-- ===== src/Adb/Devices/Line.antt =====
-- app/src/adb/adb_parser.c: a line that describes a device.
use dskcpy.Prelude.{
  ℕ, ◌+◌, ◌≤◌, ◌<◌, ◌≡◌, ◌≢◌, refl, ap, ap₂, sym, subst, ◌∙◌, Bool, true, false, List, [], ◌∷◌,
  ◌++◌, append_assoc, append-nil, Option, none, some, ◌==◌, if◌then◌else◌, length, length-append,
  take, drop, take-append, get_or, get_or-append, All, arith, ==-eq_false,
}
use dskcpy.Adb.Devices.{
  codes, starts_with, is_device_state, model_prefix, rstrip_len, find_state, Memory, strdup_model,
  to_device, parse_device,
}
use dskcpy.Adb.Devices.Tokens.{Blank, Solid, EndsWith, rstrip_len_lem}
use dskcpy.Adb.Devices.Fields.{Field, NoState, text, last_model, find_state_lem, part-EndsWith}

-- The fields behind the state, in the order of the line.
abbrev pub render : List Field → List ℕ
render [] = []
render (f ∷ fs) = f.gap ++ (f.token ++ render fs)

-- What is behind the first `model:`.
abbrev pub model_of : List Field → Option (List ℕ)
model_of [] = none
model_of (f ∷ fs) = if starts_with model_prefix f.token then some (drop 6 f.token) else model_of fs

abbrev rev_onto : List Field → List Field → List Field
rev_onto [] acc = acc
rev_onto (f ∷ fs) acc = rev_onto fs (f ∷ acc)

text-rev_onto :
    (front : List ℕ) (fs acc : List Field)
    → text front (rev_onto fs acc) ≡ text front acc ++ render fs
text-rev_onto front [] acc = sym (append-nil (text front acc))
text-rev_onto front (f ∷ fs) acc =
    text-rev_onto front fs (f ∷ acc)
    ∙ append_assoc (text front acc ++ f.gap) f.token (render fs)
    ∙ append_assoc (text front acc) f.gap (f.token ++ render fs)

abbrev or_else : Option (List ℕ) → Option (List ℕ) → Option (List ℕ)
or_else none other = other
or_else (some m) other = some m

or_else-if :
    (b : Bool) (m : List ℕ) (o other : Option (List ℕ))
    → (if b then some m else or_else o other) ≡ or_else (if b then some m else o) other
or_else-if true m o other = refl
or_else-if false m o other = refl

last_model-rev_onto :
    (fs acc : List Field) (model : Option (List ℕ))
    → last_model (rev_onto fs acc) model ≡ last_model acc (or_else (model_of fs) model)
last_model-rev_onto [] acc model = refl
last_model-rev_onto (f ∷ fs) acc model =
    last_model-rev_onto fs (f ∷ acc) model
    ∙ ap (last_model acc) (or_else-if (starts_with model_prefix f.token) _ (model_of fs) model)

All-rev_onto :
    (fs acc : List Field) → All NoState fs → All NoState acc → All NoState (rev_onto fs acc)
All-rev_onto [] acc h h' = h'
All-rev_onto (f ∷ fs) acc h h' = All-rev_onto fs (f ∷ acc) h.1 (h.0, h')

length-text :
    (front : List ℕ) (fs : List Field)
    → All NoState fs
    → length front + length fs ≤ length (text front fs)
length-text front [] h = omega arith
length-text front (f ∷ fs) h = omega (
  arith,
  length-text front fs h.1,
  length-append (text front fs ++ f.gap) f.token,
  length-append (text front fs) f.gap,
  h.0.0.some_solid,
)

-- What `adb` prints of a device.
abbrev pub line_of : (serial gap state : List ℕ) → List Field → (trail : List ℕ) → List ℕ
line_of serial gap state fields trail = ((serial ++ gap) ++ state) ++ (render fields ++ trail)

or_none : (o : Option (List ℕ)) → or_else o none ≡ o
or_none none = refl
or_none (some m) = refl

found :
    (serial gap state : List ℕ) (fields : List Field) (trail : List ℕ)
    → All Blank gap
    → 0 < length gap
    → is_device_state state ≡ true
    → All NoState fields
    → All Blank trail
    → let line = line_of serial gap state fields trail in
      find_state (length line) line (length line) none
      ≡ some (length (serial ++ gap), state, model_of fields)
found serial gap state fields trail blanks some_blank is_state good trailing =
    let front = (serial ++ gap) ++ state in
    let fs = rev_onto fields [] in
    let whole = text front fs ++ (trail ++ []) in
    let e : whole ≡ line_of serial gap state fields trail =
      ap₂ (λ a b. a ++ b) (text-rev_onto front fields []) (append-nil trail)
      ∙ append_assoc front (render fields) trail in
    let len : length whole ≡ length (text front fs) + length trail =
      length-append (text front fs) (trail ++ [])
      ∙ ap (λ s. length (text front fs) + length s) (append-nil trail) in
    subst
      (λ line.
        find_state (length line) line (length line) none
        ≡ some (length (serial ++ gap), state, model_of fields))
      e
      (ap (λ n. find_state (length whole) whole n none) len
        ∙ find_state_lem (length whole) (serial ++ gap) state fs trail [] none
            (part-EndsWith Blank serial gap blanks some_blank) is_state
            (All-rev_onto fields [] good tt) trailing
            (omega (
              arith,
              len,
              length-text front fs (All-rev_onto fields [] good tt),
              length-append (serial ++ gap) state,
              length-append serial gap,
              some_blank,
            ))
        ∙ ap (λ m. some (length (serial ++ gap), state, m))
            (last_model-rev_onto fields [] none ∙ or_none (model_of fields)))

read_serial :
    (memory : Memory) (serial gap others state : List ℕ) (model : Option (List ℕ))
    → EndsWith Solid serial
    → All Blank gap
    → memory.for_serial ≡ true
    → memory.for_state ≡ true
    → to_device memory ((serial ++ gap) ++ others) (some (length (serial ++ gap), state, model))
      ≡ some (record {
        serial = serial;
        state = state;
        model = strdup_model memory.for_model model;
        selected = false;
      })
unfolding to_device
read_serial memory serial gap others state model ends blanks m1 m2 =
    let line = (serial ++ gap) ++ others in
    let n : rstrip_len line (length (serial ++ gap)) ≡ length serial =
      ap₂ rstrip_len (append_assoc serial gap others) (length-append serial gap)
      ∙ rstrip_len_lem serial gap others ends blanks in
    let some_serial : (length serial == 0) ≡ false =
      ==-eq_false _ _
        (λ e. omega (arith, e, ap length ends.2, length-append ends.0 (ends.1 ∷ []))) in
    let text' : take (length serial) line ≡ serial =
      ap (take (length serial)) (append_assoc serial gap others)
      ∙ take-append serial (gap ++ others) in
    rw (n, some_serial, text', m1, m2) refl

-- A line with a serial that ends with no blank, at least one blank, a device state, fields that are no
-- device states, each behind at least one blank, and blanks at the end, is read as the device with that
-- serial and state, and as model what is behind the first `model:`, if there is one and memory for it.
-- The serial may have blanks, and its first character is not `*`; the line does not start with
-- `adb server`; there is memory for the serial and the state.
pub parse_device_lem :
    (memory : Memory) (serial gap state : List ℕ) (fields : List Field) (trail : List ℕ)
    → EndsWith Solid serial
    → get_or serial 0 0 ≢ 42
    → starts_with (codes "adb server") (line_of serial gap state fields trail) ≡ false
    → All Blank gap
    → 0 < length gap
    → is_device_state state ≡ true
    → All NoState fields
    → All Blank trail
    → memory.for_serial ≡ true
    → memory.for_state ≡ true
    → parse_device memory (line_of serial gap state fields trail)
      ≡ some (record {
        serial = serial;
        state = state;
        model = strdup_model memory.for_model (model_of fields);
        selected = false;
      })
unfolding parse_device
parse_device_lem memory serial gap state fields trail ends no_star no_server blanks some_blank
      is_state good trailing m1 m2 =
    let line = line_of serial gap state fields trail in
    let e : line ≡ serial ++ (gap ++ (state ++ (render fields ++ trail))) =
      append_assoc (serial ++ gap) state (render fields ++ trail)
      ∙ append_assoc serial gap (state ++ (render fields ++ trail)) in
    let first : get_or line 0 0 ≡ get_or serial 0 0 =
      ap (λ s. get_or s 0 0) e
      ∙ get_or-append serial (gap ++ (state ++ (render fields ++ trail))) 0 0
          (omega (arith, ap length ends.2, length-append ends.0 (ends.1 ∷ []))) in
    let star : (get_or line 0 0 == 42) ≡ false = ==-eq_false _ _ (λ h. no_star (sym first ∙ h)) in
    rw (star, no_server)
      (ap (to_device memory line)
          (found serial gap state fields trail blanks some_blank is_state good trailing)
        ∙ ap (λ s. to_device memory s (some (length (serial ++ gap), state, model_of fields)))
            (append_assoc (serial ++ gap) state (render fields ++ trail))
        ∙ read_serial memory serial gap (state ++ (render fields ++ trail)) state (model_of fields)
            ends blanks m1 m2)
