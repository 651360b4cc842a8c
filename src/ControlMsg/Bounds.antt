-- ===== src/ControlMsg/Bounds.antt =====
-- The sizes of the control messages against SC_CONTROL_MSG_MAX_SIZE.
use dskcpy.Prelude.{ℕ, ◌≡◌, refl, ap, ◌∙◌, ◌≤◌, List, [], ◌++◌, Option, none, some, ◌>>=◌, arith}
use dskcpy.Prelude.{length, length-append, length-take, take, drop, write_at, write_at_start}
use dskcpy.Util.Str.Truncation.{truncation_IsCut}
use dskcpy.ControlMsg.{
  serialize, scroll_word, max_size, inject_text_max_length, clipboard_text_max_length,
  scan_file_path_max_length,
}
use dskcpy.ControlMsg.Encode.{encode, payload}
use dskcpy.Util.Binary.Bytes.{be16}
use dskcpy.ControlMsg.Refine.{IsKnown, serialize-encode}
use dskcpy.ControlMsg.Valid.{IsText, IsValid, IsConvertible}
use dskcpy.ControlMsg.Types.{FloatOps, ControlMsg}
use dskcpy.ControlMsg.Types.{
  inject_text, inject_touch_event, inject_scroll_event, set_clipboard, uhid_create, uhid_input,
  start_app, scan_file, unknown,
}

-- The part of a text that is sent exists, and is no longer than allowed.
pub payload_total :
    (text : Option (List ℕ)) (max_len : ℕ)
    → IsText text
    → (bs : List ℕ) × (payload text max_len ≡ some bs) × (length bs ≤ max_len)
payload_total none max_len v = ([], refl, omega arith)
payload_total (some s) max_len v =
    let (n, e, cut) = truncation_IsCut s max_len v.1 in
    (
      take n s,
      ap (λ o. o >>= λ len. some (take len s)) e,
      omega (arith, length-take n s, cut.within),
    )

IsValid→IsKnown : {Float : Type 0} (msg : ControlMsg Float) → IsValid msg → IsKnown msg
IsValid→IsKnown (unknown t) v = v
IsValid→IsKnown _ v = tt

-- The wire format of a valid message exists, and its size is at most the buffer's.
abbrev Fits : Option (List ℕ) → Type 0
Fits o = (bs : List ℕ) × (o ≡ some bs) × (length bs ≤ max_size)

bind_Fits :
    {p : Option (List ℕ)} (f : List ℕ → List ℕ) {bs : List ℕ}
    → p ≡ some bs
    → length (f bs) ≤ max_size
    → Fits (p >>= λ b. some (f b))
bind_Fits f {bs} e le = (f bs, ap (λ o. o >>= λ b. some (f b)) e, le)

module _ {Float : Type 0} (ops : FloatOps Float) where
  pub encode-Fits :
      (msg : ControlMsg Float) → IsValid msg → IsConvertible ops msg → Fits (encode ops msg)
  unfolding encode scroll_word
  encode-Fits (inject_touch_event action action_button buttons pointer_id position pressure) v
        (word, e) =
      rw e (_, refl, omega arith)
  encode-Fits (inject_scroll_event position hscroll vscroll buttons) v ((h, e), (h', e')) =
      rw (e, e') (_, refl, omega arith)
  encode-Fits (inject_text text) v c =
      let (bs, e, le) = payload_total text inject_text_max_length v in bind_Fits _ e (omega arith)
  encode-Fits (set_clipboard sequence text paste) v c =
      let (bs, e, le) = payload_total text clipboard_text_max_length v.1 in
      bind_Fits _ e (omega arith)
  encode-Fits (unknown t) v c = absurd v
  encode-Fits (uhid_create id vendor_id product_id name report_desc) v c =
      let (bs, e, le) = payload_total name 127 v.3 in
      bind_Fits _ e
        (omega (arith, length-append bs (be16 (length report_desc) ++ report_desc), v.4))
  encode-Fits (uhid_input id bytes) v c = (_, refl, omega (arith, v.1))
  encode-Fits (start_app name) v c =
      let (bs, e, le) = payload_total name 255 v in bind_Fits _ e (omega arith)
  encode-Fits (scan_file path) v c =
      let (bs, e, le) = payload_total path scan_file_path_max_length v in
      bind_Fits _ e (omega arith)
  encode-Fits _ v c = (_, refl, omega arith)

  -- In a buffer of SC_CONTROL_MSG_MAX_SIZE bytes the serialization of a valid message whose floats
  -- satisfy the assertions of their conversion ends, and
  -- leaves its wire format at the start, the rest of the buffer as it was, and the size of the
  -- wire format, which is within the buffer, as the result.
  pub serialize_lem :
      (msg : ControlMsg Float) (buf : List ℕ)
      → IsValid msg
      → IsConvertible ops msg
      → length buf ≡ max_size
      → (bs : List ℕ) × (encode ops msg ≡ some bs)
        × (length bs ≤ max_size)
        × (serialize ops msg buf ≡ some (length bs, bs ++ drop (length bs) buf))
  serialize_lem msg buf v c room =
      let (bs, e, le) = encode-Fits msg v c in
      (
        bs,
        e,
        le,
        serialize-encode ops buf msg (IsValid→IsKnown msg v)
            ∙ ap (λ o. o >>= λ b. some (length b, write_at buf 0 b)) e
            ∙ ap (λ t. some (length bs, t)) (write_at_start buf bs (omega arith)),
      )
