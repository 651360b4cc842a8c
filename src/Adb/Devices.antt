-- ===== src/Adb/Devices.antt =====
-- app/src/adb/adb_parser.c the devices that `adb devices -l` prints. A text is the list of its characters, none of which is 0. Where the code writes a 0 behind a
-- token and goes on with a pointer, the model has the characters of the token. Whether `strdup` finds
-- memory is an argument.
pub mod Tokens
pub mod Fields
pub mod Line
pub mod Printed
pub mod Output
use Prim.Native.String.{String}
use Prim.Native.Char.{code}
use dskcpy.Prelude.{
  ℕ, zero, suc, ◌+◌, ◌-◌, ◌&&◌, ◌||◌, not, Bool, true, false, List, [], ◌∷◌, ◌++◌, Option, none,
  some, ◌==◌, if◌then◌else◌, length, take, drop, get_or,
}
use dskcpy.Util.Str.{strncmp_eq, remove_trailing_cr}

-- The characters of a text of the source.
abbrev pub codes : String → List ℕ
codes String.[] = []
codes (String.◌∷◌ c s) = code c ∷ codes s

abbrev pub is_blank : ℕ → Bool
is_blank c = c == 32 || c == 9

-- The loop of `rstrip_len`, and the one behind it in `locate_last_token`.
unfoldable pub rstrip_len : List ℕ → ℕ → ℕ
rstrip_len s zero = zero
rstrip_len s (suc i) =
    let shorter = rstrip_len s i in if is_blank (get_or s i 0) then shorter else suc i

unfoldable pub token_start : List ℕ → ℕ → ℕ
token_start s zero = zero
token_start s (suc i) =
    let earlier = token_start s i in if is_blank (get_or s i 0) then suc i else earlier

-- `locate_last_token`: the start and the end.
unfoldable pub locate_last_token : List ℕ → ℕ → ℕ × ℕ
locate_last_token s len = (token_start s (rstrip_len s len), rstrip_len s len)

abbrev pub strcmp_eq : List ℕ → List ℕ → Bool
strcmp_eq [] [] = true
strcmp_eq (x ∷ a) (y ∷ b) = x == y && strcmp_eq a b
strcmp_eq a b = false

-- `!strncmp(prefix, s, sizeof(prefix) - 1)`
abbrev pub starts_with : List ℕ → List ℕ → Bool
starts_with prefix s = strncmp_eq prefix s (length prefix)

abbrev pub is_one_of : List (List ℕ) → List ℕ → Bool
is_one_of [] s = false
is_one_of (t ∷ ts) s = strcmp_eq s t || is_one_of ts s

abbrev pub device_states : List (List ℕ)
device_states =
    codes "device"
    ∷ codes "unauthorized"
    ∷ codes "offline"
    ∷ codes "bootloader"
    ∷ codes "host"
    ∷ codes "recovery"
    ∷ codes "rescue"
    ∷ codes "sideload"
    ∷ codes "authorizing"
    ∷ codes "connecting"
    ∷ codes "detached"
    ∷ []

unfoldable pub is_device_state : List ℕ → Bool
is_device_state s = is_one_of device_states s

-- `struct sc_adb_device`
pub record Device : Type 0 where
  pub serial : List ℕ
  pub state : List ℕ
  pub model : Option (List ℕ)
  pub selected : Bool

abbrev pub model_prefix : List ℕ
model_prefix = codes "model:"

-- The loop of `sc_adb_parse_device`: where the token of the state starts, the state, and the model.
-- Each round begins at an earlier place of the line, at most `fuel`; at 0 there is no token.
unfoldable pub find_state : ℕ → List ℕ → ℕ → Option (List ℕ) → Option (ℕ × List ℕ × Option (List ℕ))
find_state zero line len model = none
find_state (suc fuel) line len model =
    let place = locate_last_token line len in
    let token = take (place.1 - place.0) (drop place.0 line) in
    let as_model = find_state fuel line place.0 (some (drop 6 token)) in
    let others = find_state fuel line place.0 model in
    if place.0 == place.1
    then none
    else if starts_with model_prefix token
    then as_model
    else if is_device_state token
    then some (place.0, token, model)
    else others

-- Whether `strdup` finds memory for the serial, the state and the model, and the vector for a device.
pub record Memory : Type 0 where
  pub for_serial : Bool
  pub for_state : Bool
  pub for_model : Bool
  pub for_push : Bool

abbrev pub strdup_model : Bool → Option (List ℕ) → Option (List ℕ)
strdup_model true model = model
strdup_model false model = none

unfoldable pub to_device : Memory → List ℕ → Option (ℕ × List ℕ × Option (List ℕ)) → Option Device
to_device memory line none = none
to_device memory line (some (start, state, model)) =
    let serial_len = rstrip_len line start in
    if serial_len == 0
    then none
    else if memory.for_serial && memory.for_state
    then some (record {
      serial = take serial_len line;
      state = state;
      model = strdup_model memory.for_model model;
      selected = false;
    })
    else none

-- `sc_adb_parse_device`
unfoldable pub parse_device : Memory → List ℕ → Option Device
parse_device memory line =
    if get_or line 0 0 == 42
    then none
    else if starts_with (codes "adb server") line
    then none
    else to_device memory line (find_state (length line) line (length line) none)

abbrev pub header : List ℕ
header = codes "List of devices attached"

-- The lines of a text, each without its end.
abbrev pub push_front : ℕ → List (List ℕ) → List (List ℕ)
push_front c [] = (c ∷ []) ∷ []
push_front c (line ∷ others) = (c ∷ line) ∷ others

unfoldable pub lines : List ℕ → List (List ℕ)
lines [] = []
lines (c ∷ s) = if c == 10 then [] ∷ lines s else push_front c (lines s)

abbrev pub push_device : Bool → Option Device → List Device → List Device
push_device has_room none devices = devices
push_device true (some d) devices = devices ++ d ∷ []
push_device false (some d) devices = devices

-- A round of `sc_adb_parse_devices`: whether the header is found, and the vector.
unfoldable pub parse_line : Memory → List ℕ → Bool × List Device → Bool × List Device
parse_line memory line (header_found, devices) =
    if not header_found
    then (starts_with header line, devices)
    else (true, push_device memory.for_push (parse_device memory (remove_trailing_cr line)) devices)

unfoldable pub parse_lines :
    (ℕ → Memory) → ℕ → List (List ℕ) → Bool × List Device → Bool × List Device
parse_lines memory i [] state = state
parse_lines memory i (line ∷ others) state =
    parse_lines memory (i + 1) others (parse_line (memory i) line state)

-- `sc_adb_parse_devices`, where `memory` answers for each line: what it returns, and the vector.
unfoldable pub parse_devices : (ℕ → Memory) → List ℕ → Bool × List Device
parse_devices memory str = parse_lines memory 0 (lines str) (false, [])
