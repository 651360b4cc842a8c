-- ===== src/Receiver/Chunks.antt =====
-- The loop of `run_receiver` of app/src/receiver.c over the chunks of the stream.
use dskcpy.Prelude.{
  ℕ, suc, ◌≤◌, ◌≡◌, ◌≢◌, refl, sym, ap, ◌∙◌, subst, List, [], ◌∷◌, ◌++◌, append-nil, append_assoc,
  Bool, true, false, arith, dec_lt,
}
use dskcpy.Prelude.{lt→ltb, ltb-eq_false, ==-eq_false, length, drop}
use dskcpy.DeviceMsg.{DeviceMsg, incomplete, deserialize}
use dskcpy.Receiver.{max_size, Processed, ended, no_room, Session, run_receiver, resume}
use dskcpy.Receiver.Stream.{
  Tail, invalid, waiting, Reads, stops, goes_on, Reads-more, Reads-invalid, Reads-unique,
}
use dskcpy.Receiver.Stream.{Outcome, breaking, keeping, process_msgs-Outcome}

-- The bytes of the calls of `net_recv`, up to the end of the stream.
unfoldable pub received : List (List ℕ) → List ℕ
received [] = []
received ([] ∷ chunks) = []
received ((b ∷ chunk) ∷ chunks) = (b ∷ chunk) ++ received chunks

module _ (malloc : ℕ → Bool) where
  -- A session that starts with `buf` and has `more` to receive. The assertion fails only where bytes
  -- fill the buffer and are not a complete message.
  pub data IsSession (buf more : List ℕ) (s : Session) : Type 0 where
    disconnected :
        (rest : List ℕ)
        → s.ending ≡ ended false
        → Reads malloc (buf ++ more) s.messages (waiting rest)
        → IsSession buf more s
    errored :
        s.ending ≡ ended true → Reads malloc (buf ++ more) s.messages invalid → IsSession buf more s
    filled :
        (front back rest : List ℕ)
        → s.ending ≡ no_room
        → more ≡ front ++ back
        → max_size ≤ length rest
        → Reads malloc (buf ++ front) s.messages (waiting rest)
        → IsSession buf more s

  joined :
      (buf chunk more : List ℕ) (msgs : List DeviceMsg) (tail : Tail)
      → Reads malloc ((buf ++ chunk) ++ more) msgs tail
      → Reads malloc (buf ++ (chunk ++ more)) msgs tail
  joined buf chunk more msgs tail r =
      subst (λ t. Reads malloc t msgs tail) (append_assoc buf chunk more) r

  waiting_invalid : {rest : List ℕ} → waiting rest ≢ invalid
  waiting_invalid e = cc

  waits :
      {s : List ℕ} {msgs : List DeviceMsg} {rest : List ℕ}
      → Reads malloc s msgs (waiting rest)
      → deserialize malloc rest ≡ incomplete
  waits (stops e) = e
  waits (goes_on e r) = waits r

  -- The session goes on behind the messages of one chunk.
  behind :
      (buf chunk more rest : List ℕ) (msgs : List DeviceMsg) (s : Session)
      → Reads malloc (buf ++ chunk) msgs (waiting rest)
      → IsSession rest more s
      → IsSession buf (chunk ++ more) (record { messages = msgs ++ s.messages; ending = s.ending })
  behind buf chunk more rest msgs s r (disconnected rest' e r') = disconnected rest' e (
      joined buf chunk more _ _ (Reads-more malloc (buf ++ chunk) more msgs s.messages rest _ r r'))
  behind buf chunk more rest msgs s r (errored e r') = errored e (
      joined buf chunk more _ _ (Reads-more malloc (buf ++ chunk) more msgs s.messages rest _ r r'))
  behind buf chunk more rest msgs s r (filled front back rest' e f full r') =
      filled (chunk ++ front) back rest' e
        (ap (λ t. chunk ++ t) f ∙ sym (append_assoc chunk front back)) full
        (joined buf chunk front _ _
          (Reads-more malloc (buf ++ chunk) front msgs s.messages rest _ r r'))

  full_buffer :
      (buf more : List ℕ)
      → deserialize malloc buf ≡ incomplete
      → max_size ≤ length buf
      → IsSession buf more (record { messages = []; ending = no_room })
  full_buffer buf more e full =
      filled [] more buf refl refl full
        (subst (λ t. Reads malloc t [] (waiting buf)) (sym (append-nil buf)) (stops e))

  at_end :
      (buf : List ℕ)
      → deserialize malloc buf ≡ incomplete
      → IsSession buf [] (record { messages = []; ending = ended false })
  at_end buf e =
      disconnected buf refl
        (subst (λ t. Reads malloc t [] (waiting buf)) (sym (append-nil buf)) (stops e))

  after_chunk :
      (buf chunk more : List ℕ) (p : Processed) (others : ℕ → Session)
      → Outcome malloc (buf ++ chunk) 0 p
      → ((n : ℕ)
          → deserialize malloc (drop n (buf ++ chunk)) ≡ incomplete
          → IsSession (drop n (buf ++ chunk)) more (others n))
      → IsSession buf (chunk ++ more) (resume p.messages p.result others)
  unfolding resume
  after_chunk buf chunk more p others (breaking e r) h = rw e (
      errored refl
        (joined buf chunk more _ _ (Reads-invalid malloc (buf ++ chunk) more p.messages r)))
  after_chunk buf chunk more p others (keeping n e inside r) h =
      rw e (behind buf chunk more (drop n (buf ++ chunk)) p.messages (others n) r (h n (waits r)))

  -- From a buffer that waits, `run_receiver` reads the stream that the buffer begins.
  session :
      (chunks : List (List ℕ)) (buf : List ℕ)
      → deserialize malloc buf ≡ incomplete
      → IsSession buf (received chunks) (run_receiver malloc chunks buf)
  unfolding run_receiver received
  session [] buf e = elim (dec_lt (length buf) max_size) [
    | yes room ↦ rw (lt→ltb _ _ room) (at_end buf e)
    | no full ↦
        rw (ltb-eq_false (length buf) max_size (omega arith)) (full_buffer buf [] e (omega arith))
  ]
  session ([] ∷ chunks) buf e = elim (dec_lt (length buf) max_size) [
    | yes room ↦ rw (lt→ltb _ _ room) (at_end buf e)
    | no full ↦
        rw (ltb-eq_false (length buf) max_size (omega arith)) (full_buffer buf [] e (omega arith))
  ]
  session ((b ∷ chunk) ∷ chunks) buf e = elim (dec_lt (length buf) max_size) [
    | yes room ↦
        rw (lt→ltb _ _ room, ==-eq_false (suc (length chunk)) 0 (omega arith))
          (after_chunk buf (b ∷ chunk) (received chunks) _ _
            (process_msgs-Outcome malloc (suc (length (buf ++ b ∷ chunk))) (buf ++ b ∷ chunk) 0
              (omega arith) (omega arith))
            (λ n waiting. session chunks (drop n (buf ++ b ∷ chunk)) waiting))
    | no full ↦
        rw (ltb-eq_false (length buf) max_size (omega arith)) (full_buffer buf _ e (omega arith))
  ]

  -- From an empty buffer, `run_receiver` hands on the messages of the bytes received, in order and
  -- each once: all of them when the stream ends, those before an invalid message when it meets one
  -- (and only then with an error), and those before a message that does not fit into the buffer.
  pub run_receiver-IsSession :
      (chunks : List (List ℕ)) → IsSession [] (received chunks) (run_receiver malloc chunks [])
  unfolding deserialize
  run_receiver-IsSession chunks = session chunks [] refl

  same_session :
      (stream : List ℕ) (s t : Session)
      → s.ending ≢ no_room
      → t.ending ≢ no_room
      → IsSession [] stream s
      → IsSession [] stream t
      → (s.messages ≡ t.messages) × (s.ending ≡ t.ending)
  same_session stream s t hs ht (disconnected rest e r) (disconnected rest' e' r') =
      ((Reads-unique malloc stream _ _ _ _ r r').0, e ∙ sym e')
  same_session stream s t hs ht (disconnected rest e r) (errored e' r') =
      absurd (waiting_invalid (Reads-unique malloc stream _ _ _ _ r r').1)
  same_session stream s t hs ht (errored e r) (disconnected rest e' r') =
      absurd (waiting_invalid (sym (Reads-unique malloc stream _ _ _ _ r r').1))
  same_session stream s t hs ht (errored e r) (errored e' r') =
      ((Reads-unique malloc stream _ _ _ _ r r').0, e ∙ sym e')
  same_session stream s t hs ht (filled front back rest e f full r) q = absurd (hs e)
  same_session stream s t hs ht (disconnected rest e r) (filled front back rest' e' f full r') =
      absurd (ht e')
  same_session stream s t hs ht (errored e r) (filled front back rest' e' f full r') =
      absurd (ht e')

  -- How the network cuts the stream does not matter: where the same bytes are received and the
  -- buffer does not overflow, the same messages are handed on and the thread ends the same way.
  pub chunks_irrelevant :
      (chunks chunks' : List (List ℕ))
      → received chunks ≡ received chunks'
      → (run_receiver malloc chunks []).ending ≢ no_room
      → (run_receiver malloc chunks' []).ending ≢ no_room
      → ((run_receiver malloc chunks []).messages ≡ (run_receiver malloc chunks' []).messages)
        × ((run_receiver malloc chunks []).ending ≡ (run_receiver malloc chunks' []).ending)
  chunks_irrelevant chunks chunks' e h h' =
      same_session (received chunks) _ _ h h' (run_receiver-IsSession chunks) (
        subst (λ t. IsSession [] t (run_receiver malloc chunks' [])) (sym e)
          (run_receiver-IsSession chunks'))
