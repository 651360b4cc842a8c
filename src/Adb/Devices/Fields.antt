-- ===== src/Adb/Devices/Fields.antt =====
-- app/src/adb/adb_parser.c: the loop of `sc_adb_parse_device`, from the end of a line to the state.
use dskcpy.Prelude.{
  ℕ, zero, suc, ◌+◌, ◌<◌, ◌≡◌, refl, ap, sym, subst, ◌∙◌, ◌&&◌, ◌||◌, Bool, true, false, List, [],
  ◌∷◌, ◌++◌, append_assoc, Option, some, ◌==◌, if◌then◌else◌, not, ltb, length, length-append, drop,
  All, arith, Bool-cases, inl, inr, ==-eq_false,
}
use dskcpy.Util.Str.{strncmp_eq}
use dskcpy.Adb.Devices.{
  is_blank, strcmp_eq, starts_with, is_one_of, device_states, is_device_state, model_prefix,
  find_state,
}
use dskcpy.Adb.Devices.Tokens.{Blank, Solid, EndsWith, locate_last_token_lem, token_lem}

-- Blanks, and the token behind them.
pub record Field : Type 0 where
  pub gap : List ℕ
  pub token : List ℕ

pub record IsField (f : Field) : Type 0 where
  pub blanks : All Blank f.gap
  pub some_blank : 0 < length f.gap
  pub solid : All Solid f.token
  pub some_solid : 0 < length f.token

abbrev is_model : List ℕ → Bool
is_model token = starts_with model_prefix token

cons-EndsWith :
    (P : ℕ → Type 0) (s : List ℕ) (x : ℕ) (t : List ℕ) → All P (x ∷ t) → EndsWith P (s ++ (x ∷ t))
cons-EndsWith P s x [] h = (s, x, refl, h.0)
cons-EndsWith P s x (y ∷ t) h =
    subst (EndsWith P) (append_assoc s (x ∷ []) (y ∷ t)) (cons-EndsWith P (s ++ x ∷ []) y t h.1)

pub part-EndsWith : (P : ℕ → Type 0) (s t : List ℕ) → All P t → 0 < length t → EndsWith P (s ++ t)
part-EndsWith P s [] h some_one = absurd (omega (arith, some_one))
part-EndsWith P s (x ∷ t) h some_one = cons-EndsWith P s x t h

-- A device state is one of the texts of the list.
strcmp_eq-≡ : (a b : List ℕ) → strcmp_eq a b ≡ true → a ≡ b
strcmp_eq-≡ [] [] h = refl
strcmp_eq-≡ [] (y ∷ b) h = absurd (ground (arith, h))
strcmp_eq-≡ (x ∷ a) [] h = absurd (ground (arith, h))
strcmp_eq-≡ (x ∷ a) (y ∷ b) h =
    let first : x ≡ y = ground (arith, h) in
    let others : strcmp_eq a b ≡ true = ground (arith, h) in
    ap (λ c. c ∷ a) first ∙ ap (λ t. y ∷ t) (strcmp_eq-≡ a b others)

abbrev all_of : (List ℕ → Bool) → List (List ℕ) → Bool
all_of p [] = true
all_of p (t ∷ ts) = p t && all_of p ts

is_one_of-all_of :
    (p : List ℕ → Bool) (ts : List (List ℕ)) (s : List ℕ)
    → all_of p ts ≡ true
    → is_one_of ts s ≡ true
    → p s ≡ true
is_one_of-all_of p [] s h e = absurd (ground (arith, e))
is_one_of-all_of p (t ∷ ts) s h e = elim (Bool-cases (strcmp_eq s t)) [
  | inl same ↦ ap p (strcmp_eq-≡ s t same) ∙ (ground (arith, h))
  | inr other ↦
      is_one_of-all_of p ts s (ground (arith, h)) (ap (λ b. b || is_one_of ts s) (sym other) ∙ e)
]

abbrev pub all_solid : List ℕ → Bool
all_solid [] = true
all_solid (c ∷ s) = not (is_blank c) && all_solid s

pub all_solid-All : (s : List ℕ) → all_solid s ≡ true → All Solid s
all_solid-All [] e = tt
all_solid-All (c ∷ s) e = (ground (arith, e), all_solid-All s (ground (arith, e)))

abbrev looks_like_state : List ℕ → Bool
looks_like_state s = all_solid s && ltb 0 (length s) && not (is_model s)

states_look_so : all_of looks_like_state device_states ≡ true
unfolding strncmp_eq
states_look_so = refl

abbrev pub IsState : List ℕ → Type 0
IsState s = All Solid s × (0 < length s) × (is_model s ≡ false)

pub state_lem : (s : List ℕ) → is_device_state s ≡ true → IsState s
unfolding is_device_state
state_lem s e =
    let look : looks_like_state s ≡ true =
      is_one_of-all_of looks_like_state device_states s states_look_so e in
    (all_solid-All s (ground (arith, look)), ground (arith, look), ground (arith, look))

-- A round of the loop at a token.
find_round :
    (fuel : ℕ) (before token trail others : List ℕ) (model : Option (List ℕ))
    → EndsWith Blank before
    → All Solid token
    → 0 < length token
    → All Blank trail
    → let line = (before ++ token) ++ (trail ++ others) in
      find_state (suc fuel) line (length (before ++ token) + length trail) model ≡ (
        if is_model token
        then find_state fuel line (length before) (some (drop 6 token))
        else if is_device_state token
        then some (length before, token, model)
        else find_state fuel line (length before) model)
unfolding find_state
find_round fuel before token trail others model ends solid some_solid blanks =
    let place =
      locate_last_token_lem before token trail others ends
        (part-EndsWith Solid before token solid some_solid) solid blanks in
    let there : (length before == length before + length token) ≡ false =
      ==-eq_false _ _ (λ e. omega (arith, e, some_solid)) in
    rw (place, token_lem before token (trail ++ others), there) refl

-- A line up to its last field; the fields are those behind the state, from the last one on.
abbrev pub text : List ℕ → List Field → List ℕ
text front [] = front
text front (f ∷ fs) = (text front fs ++ f.gap) ++ f.token

-- The model, if the fields are read from the end.
abbrev pub last_model : List Field → Option (List ℕ) → Option (List ℕ)
last_model [] model = model
last_model (f ∷ fs) model =
    last_model fs (if is_model f.token then some (drop 6 f.token) else model)

abbrev pub NoState : Field → Type 0
NoState f = IsField f × (is_device_state f.token ≡ false)

goes_on :
    {A : Type 0} (m d : Bool) (found : A) (f : Option (List ℕ) → A) (token : List ℕ)
    (model : Option (List ℕ))
    → d ≡ false
    → (if m then f (some (drop 6 token)) else if d then found else f model)
      ≡ f (if m then some (drop 6 token) else model)
goes_on true d found f token model e = refl
goes_on false d found f token model e = rw e refl

stops_here :
    {A : Type 0} (m d : Bool) (as_model found others : A)
    → m ≡ false
    → d ≡ true
    → (if m then as_model else if d then found else others) ≡ found
stops_here m d as_model found others e e' = rw (e, e') refl

pub find_state_lem :
    (fuel : ℕ) (before state : List ℕ) (fs : List Field) (trail others : List ℕ)
    (model : Option (List ℕ))
    → EndsWith Blank before
    → is_device_state state ≡ true
    → All NoState fs
    → All Blank trail
    → length fs < fuel
    → find_state fuel
        (text (before ++ state) fs ++ (trail ++ others))
        (length (text (before ++ state) fs) + length trail)
        model
      ≡ some (length before, state, last_model fs model)
find_state_lem zero before state fs trail others model ends is_state good blanks h =
    absurd (omega (arith, h))
find_state_lem (suc fuel) before state [] trail others model ends is_state good blanks h =
    let looks = state_lem state is_state in
    find_round fuel before state trail others model ends looks.0 looks.1 blanks
    ∙ stops_here (is_model state) (is_device_state state) _ _ _ looks.2 is_state
find_state_lem (suc fuel) before state (f ∷ fs) trail others model ends is_state good blanks h =
    let field = good.0.0 in
    let front = text (before ++ state) fs in
    let line = (((front ++ f.gap) ++ f.token) ++ (trail ++ others)) in
    let same : line ≡ front ++ (f.gap ++ (f.token ++ (trail ++ others))) =
      append_assoc (front ++ f.gap) f.token (trail ++ others)
      ∙ append_assoc front f.gap (f.token ++ (trail ++ others)) in
    let model' = if is_model f.token then some (drop 6 f.token) else model in
    find_round fuel (front ++ f.gap) f.token trail others model
      (part-EndsWith Blank front f.gap field.blanks field.some_blank) field.solid field.some_solid
      blanks
    ∙ goes_on (is_model f.token) (is_device_state f.token) _
        (λ m. find_state fuel line (length (front ++ f.gap)) m) f.token model good.0.1
    ∙ ap (λ s. find_state fuel s (length (front ++ f.gap)) model') same
    ∙ ap (λ n. find_state fuel (front ++ (f.gap ++ (f.token ++ (trail ++ others)))) n model')
        (length-append front f.gap)
    ∙ find_state_lem fuel before state fs f.gap (f.token ++ (trail ++ others)) model' ends is_state
        good.1 field.blanks (omega (arith, h))
