-- ===== src/Receiver/Stream.antt =====
-- What a stream of bytes says, as a relation, and `process_msgs` of app/src/receiver.c against it.
use dskcpy.Prelude.{
  ℕ, zero, suc, ◌+◌, ◌≤◌, ◌<◌, ◌≡◌, ◌≢◌, refl, sym, ap₂, ◌∙◌, subst, List, [], ◌∷◌, ◌++◌, Bool,
  arith, ℕ_discrete,
}
use dskcpy.Prelude.{==-eq_false, ==_iff, length, length-drop, drop, drop-drop, drop-all}
use dskcpy.DeviceMsg.{DeviceMsg, Parsed, incomplete, failed, message, deserialize}
use dskcpy.DeviceMsg.Prefix.{deserialize-append, drop-append_le}
use dskcpy.DeviceMsg.Consumed.{consumed_bounds}
use dskcpy.Receiver.{broken, consumed, Processed, add_message, process_msgs}

-- A stream ends in an invalid message, or in bytes that are not a complete message yet.
pub data Tail : Type 0 where
  invalid : Tail
  waiting : (rest : List ℕ) → Tail

module _ (malloc : ℕ → Bool) where
  -- The messages of a stream, one behind the other.
  pub data Reads : List ℕ → List DeviceMsg → Tail → Type 0 where
    stops : {s : List ℕ} → deserialize malloc s ≡ incomplete → Reads s [] (waiting s)
    breaks : {s : List ℕ} → deserialize malloc s ≡ failed → Reads s [] invalid
    goes_on :
        {s : List ℕ} {n : ℕ} {msg : DeviceMsg} {msgs : List DeviceMsg} {tail : Tail}
        → deserialize malloc s ≡ message n msg
        → Reads (drop n s) msgs tail
        → Reads s (msg ∷ msgs) tail

  settled :
      (s : List ℕ) {n : ℕ} {msg : DeviceMsg}
      → deserialize malloc s ≡ message n msg
      → deserialize malloc s ≢ incomplete
  settled s e f = cc

  message_inj : {n n' : ℕ} {m m' : DeviceMsg} → message n m ≡ message n' m' → (n ≡ n') × (m ≡ m')
  message_inj e = (cc, cc)

  -- More bytes behind a stream go on where it waits.
  pub Reads-more :
      (s more : List ℕ) (msgs msgs' : List DeviceMsg) (rest : List ℕ) (tail : Tail)
      → Reads s msgs (waiting rest)
      → Reads (rest ++ more) msgs' tail
      → Reads (s ++ more) (msgs ++ msgs') tail
  Reads-more s more [] msgs' rest tail (stops e) r = r
  Reads-more s more (msg ∷ msgs) msgs' rest tail (goes_on {n = n} e r) r' =
      goes_on (deserialize-append malloc s more (settled s e) ∙ e) (
        subst (λ t. Reads t (msgs ++ msgs') tail)
          (sym (drop-append_le n s more ((consumed_bounds malloc s e).1)))
          (Reads-more (drop n s) more msgs msgs' rest tail r r'))

  pub Reads-invalid :
      (s more : List ℕ) (msgs : List DeviceMsg)
      → Reads s msgs invalid
      → Reads (s ++ more) msgs invalid
  Reads-invalid s more [] (breaks e) = breaks (deserialize-append malloc s more (λ f. cc) ∙ e)
  Reads-invalid s more (msg ∷ msgs) (goes_on {n = n} e r) =
      goes_on (deserialize-append malloc s more (settled s e) ∙ e) (
        subst (λ t. Reads t msgs invalid)
          (sym (drop-append_le n s more ((consumed_bounds malloc s e).1)))
          (Reads-invalid (drop n s) more msgs r))

  -- A stream says one thing only.
  pub Reads-unique :
      (s : List ℕ) (msgs msgs' : List DeviceMsg) (tail tail' : Tail)
      → Reads s msgs tail
      → Reads s msgs' tail'
      → (msgs ≡ msgs') × (tail ≡ tail')
  Reads-unique s [] [] tail tail' (stops e) (stops f) = (refl, refl)
  Reads-unique s [] [] tail tail' (stops e) (breaks f) = absurd cc
  Reads-unique s [] (m' ∷ ms') tail tail' (stops e) (goes_on f r) = absurd cc
  Reads-unique s [] [] tail tail' (breaks e) (stops f) = absurd cc
  Reads-unique s [] [] tail tail' (breaks e) (breaks f) = (refl, refl)
  Reads-unique s [] (m' ∷ ms') tail tail' (breaks e) (goes_on f r) = absurd cc
  Reads-unique s (m ∷ ms) [] tail tail' (goes_on e r) (stops f) = absurd cc
  Reads-unique s (m ∷ ms) [] tail tail' (goes_on e r) (breaks f) = absurd cc
  Reads-unique s (m ∷ ms) (m' ∷ ms') tail tail' (goes_on {n = n} e r) (goes_on {n = n'} f r') =
      let (same_n, same_m) : (n ≡ n') × (m ≡ m') = message_inj (sym e ∙ f) in
      let (rest, tails) =
        Reads-unique (drop n s) ms ms' tail tail' r
          (subst (λ k. Reads (drop k s) ms' tail') (sym same_n) r') in
      (ap₂ (λ a b. a ∷ b) same_m rest, tails)

  -- What `process_msgs` returns for a buffer from `head` on.
  pub data Outcome (buf : List ℕ) (head : ℕ) (p : Processed) : Type 0 where
    breaking : p.result ≡ broken → Reads (drop head buf) p.messages invalid → Outcome buf head p
    keeping :
        (n : ℕ)
        → p.result ≡ consumed n
        → n ≤ length buf
        → Reads (drop head buf) p.messages (waiting (drop n buf))
        → Outcome buf head p

  add :
      (buf : List ℕ) (head n : ℕ) (msg : DeviceMsg) (p : Processed)
      → deserialize malloc (drop head buf) ≡ message n msg
      → Outcome buf (head + n) p
      → Outcome buf head (add_message msg p)
  add buf head n msg p e (breaking h r) =
      breaking h
        (goes_on e (subst (λ t. Reads t p.messages invalid) (sym (drop-drop n head buf)) r))
  add buf head n msg p e (keeping k h le r) = keeping k h le (
      goes_on e
        (subst (λ t. Reads t p.messages (waiting (drop k buf))) (sym (drop-drop n head buf)) r))

  all_read :
      (buf : List ℕ) (n : ℕ)
      → n ≡ length buf
      → Outcome buf n (record { messages = []; result = consumed n })
  unfolding deserialize
  all_read buf n e = keeping n refl (omega arith) (stops (rw (e, drop-all buf) refl))

  -- One round of the loop, where the rounds behind it are `others`.
  by_result :
      (fuel : ℕ) (buf : List ℕ) (head : ℕ)
      → head ≤ length buf
      → ((n : ℕ)
          → 0 < n
          → head + n ≤ length buf
          → Outcome buf (head + n) (process_msgs malloc fuel buf (head + n)))
      → (d : Parsed) → deserialize malloc (drop head buf) ≡ d
      → Outcome buf head (process_msgs malloc (suc fuel) buf head)
  unfolding process_msgs
  by_result fuel buf head h others incomplete e =
      rw (process_msgs, e) (keeping head refl h (stops e))
  by_result fuel buf head h others failed e = rw (process_msgs, e) (breaking refl (breaks e))
  by_result fuel buf head h others (message n msg) e =
      let (some_byte, inside) = consumed_bounds malloc (drop head buf) e in
      rw (process_msgs, e)
        (add buf head n msg _ e (elim (ℕ_discrete (head + n) (length buf)) [
          | yes all ↦ rw ((==_iff (head + n) (length buf)).1 all) (all_read buf (head + n) all)
          | no more ↦
              rw (==-eq_false (head + n) (length buf) more)
                (others n some_byte (omega (arith, length-drop head buf, inside)))
        ]))

  -- From an index within the buffer, with more fuel than there are bytes behind it, `process_msgs`
  -- returns: with an error, where the bytes read as messages and an invalid one, or else with the index
  -- at which the bytes that are not a complete message begin; it hands on exactly those messages.
  pub process_msgs-Outcome :
      (fuel : ℕ) (buf : List ℕ) (head : ℕ)
      → head ≤ length buf
      → length buf < head + fuel
      → Outcome buf head (process_msgs malloc fuel buf head)
  process_msgs-Outcome zero buf head h f = absurd (omega arith)
  process_msgs-Outcome (suc fuel) buf head h f =
      by_result fuel buf head h
        (λ n some_byte inside. process_msgs-Outcome fuel buf (head + n) inside (omega arith))
        (deserialize malloc (drop head buf)) refl
