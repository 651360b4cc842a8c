-- ===== src/ControlMsg/RoundTrip.antt =====
-- The wire format of app/src/control_msg.c against the reader of the device.
use dskcpy.Prelude.{
  ◌&&◌, if◌then◌else◌, Bool-cases, inl, inr, ap, sym, ◌∙◌, ℤ, none_ne_some, ℕ, ◌≡◌, refl, ◌<◌, ◌^◌,
  List, [], ◌++◌, append_assoc, Option, none, some, ◌>>=◌, arith, true, false,
}
use native.Mathlib.Nat.{mod-eq_of_lt}
use dskcpy.Prelude.{length, to_i32, to_u16, to_u16-lt}
use dskcpy.Util.Binary.{clamp_u16fp}
use dskcpy.Util.Binary.Bytes.{be16}
use dskcpy.ControlMsg.{
  float_to_u16fp, scroll_fp, scroll_word, inject_text_max_length, clipboard_text_max_length,
  scan_file_path_max_length,
}
use dskcpy.ControlMsg.Encode.{encode, payload}
use dskcpy.ControlMsg.Bounds.{payload_total}
use dskcpy.ControlMsg.Valid.{IsValid, IsConvertible}
use dskcpy.ControlMsg.Reader
use dskcpy.ControlMsg.Reader.{ControlMessage, Read, read, read_boolean, read_u8, parse}
use dskcpy.ControlMsg.Reader.Fields.{
  read_u16-be16, read_int-be32, read_long-be64, received_position, parse_position-bytes,
  parse_byte_array4, parse_byte_array2, parse_byte_array1,
}
use dskcpy.ControlMsg.Types.{FloatOps, ControlMsg, type_of}
use dskcpy.ControlMsg.Types.{
  inject_keycode, inject_text, inject_touch_event, inject_scroll_event, back_or_screen_on,
  expand_notification_panel, expand_settings_panel, collapse_panels, get_clipboard, set_clipboard,
  set_display_power, rotate_device, uhid_create, uhid_input, uhid_destroy,
  open_hard_keyboard_settings, start_app, reset_video, camera_set_torch, camera_zoom_in,
  camera_zoom_out, resize_display, scan_file, unknown,
}

-- The part of a text that is sent.
unfoldable pub sent : Option (List ℕ) → ℕ → List ℕ
sent text max_len = elim (payload text max_len) [ none ↦ [] | some bs ↦ bs ]

sent_lem :
    (text : Option (List ℕ)) (max_len : ℕ) {bs : List ℕ}
    → payload text max_len ≡ some bs
    → sent text max_len ≡ bs
unfolding sent
sent_lem text max_len e = rw (e, sent)

-- The word of a conversion.
abbrev pub word_of : Option ℕ → ℕ
word_of none = 0
word_of (some word) = word

clamp_u16fp-lt : (u w : ℕ) → clamp_u16fp u ≡ some w → w < 2 ^ 16
unfolding clamp_u16fp
clamp_u16fp-lt u w e = ground (arith, e)

module _ {Float : Type 0} (ops : FloatOps Float) where
  -- The message of the device for a message of the client: texts are cut, floats are the words of
  -- their fixed-point values, and words that Java holds in an `int` are signed.
  unfoldable pub received : ControlMsg Float → ControlMessage
  received (inject_keycode action keycode repeat metastate) =
      Reader.inject_keycode action (to_i32 keycode) (to_i32 repeat) (to_i32 metastate)
  received (inject_text text) = Reader.inject_text (sent text inject_text_max_length)
  received (inject_touch_event action action_button buttons pointer_id position pressure) =
      Reader.inject_touch_event action pointer_id (received_position position)
        (word_of (float_to_u16fp ops pressure)) (to_i32 action_button) (to_i32 buttons)
  received (inject_scroll_event position hscroll vscroll buttons) =
      Reader.inject_scroll_event (received_position position) (word_of (scroll_word ops hscroll))
        (word_of (scroll_word ops vscroll)) (to_i32 buttons)
  received (back_or_screen_on action) = Reader.back_or_screen_on action
  received (get_clipboard copy_key) = Reader.get_clipboard copy_key
  received (set_clipboard sequence text paste) =
      Reader.set_clipboard sequence (sent text clipboard_text_max_length) paste
  received (set_display_power on) = Reader.set_display_power on
  received (uhid_create id vendor_id product_id name report_desc) =
      Reader.uhid_create id vendor_id product_id (sent name 127) report_desc
  received (uhid_input id bytes) = Reader.uhid_input id bytes
  received (uhid_destroy id) = Reader.uhid_destroy id
  received (start_app name) = Reader.start_app (sent name 255)
  received (camera_set_torch on) = Reader.camera_set_torch on
  received (resize_display width height) = Reader.resize_display width height
  received (scan_file path) = Reader.scan_file (sent path scan_file_path_max_length)
  received msg = Reader.empty (type_of msg)

  float_to_u16fp-lt : (f : Float) (w : ℕ) → float_to_u16fp ops f ≡ some w → w < 2 ^ 16
  unfolding float_to_u16fp
  float_to_u16fp-lt f w e = elim (Bool-cases (ops.le ops.zero f && ops.le f ops.one)) [
    | inl within ↦
        clamp_u16fp-lt (ops.times_2_16 f) w
          (sym (ap (λ b. if b then clamp_u16fp (ops.times_2_16 f) else none) within) ∙ e)
    | inr outside ↦ absurd (
        none_ne_some
          (sym (ap (λ b. if b then clamp_u16fp (ops.times_2_16 f) else none) outside) ∙ e))
  ]

  scroll_word_lem :
      (f : Float) (i : ℤ) → scroll_fp ops f ≡ some i → scroll_word ops f ≡ some (to_u16 i)
  unfolding scroll_word
  scroll_word_lem f i e = rw e refl

  -- The wire format of a valid message whose floats satisfy the assertions of their conversion, with
  -- any bytes behind it, is read as that message, and the reader leaves exactly those bytes.
  pub read-encode :
      (msg : ControlMsg Float) (rest : List ℕ)
      → IsValid msg
      → IsConvertible ops msg
      → (encode ops msg >>= λ bs. read (bs ++ rest)) ≡ some (received msg, rest)
  unfolding encode received read type_of read_boolean
  read-encode (inject_keycode action keycode repeat metastate) rest v c = rw (
    mod-eq_of_lt v.0,
    read_int-be32 keycode v.1,
    read_int-be32 repeat v.2,
    read_int-be32 metastate v.3,
  )
  read-encode (inject_text text) rest v c =
      let (bs, e, le) = payload_total text inject_text_max_length v in
      rw (e, sent_lem text inject_text_max_length e, parse_byte_array4 bs (omega arith))
  read-encode (inject_touch_event action action_button buttons pointer_id position pressure) rest v
        c =
      rw (
        c.1,
        mod-eq_of_lt v.0,
        read_long-be64 pointer_id v.3,
        parse_position-bytes position v.4,
        read_u16-be16 c.0 (float_to_u16fp-lt pressure c.0 c.1),
        read_int-be32 action_button v.1,
        read_int-be32 buttons v.2,
      )
  read-encode (inject_scroll_event position hscroll vscroll buttons) rest v c = rw (
    scroll_word_lem hscroll c.0.0 c.0.1,
    scroll_word_lem vscroll c.1.0 c.1.1,
    parse_position-bytes position v.0,
    read_u16-be16 (to_u16 c.0.0) (to_u16-lt c.0.0),
    read_u16-be16 (to_u16 c.1.0) (to_u16-lt c.1.0),
    read_int-be32 buttons v.1,
  )
  read-encode (back_or_screen_on action) rest v c = rw (mod-eq_of_lt v)
  read-encode expand_notification_panel rest v c = refl
  read-encode expand_settings_panel rest v c = refl
  read-encode collapse_panels rest v c = refl
  read-encode (get_clipboard copy_key) rest v c = rw (mod-eq_of_lt v)
  read-encode (set_clipboard sequence text true) rest v c =
      let (bs, e, le) = payload_total text clipboard_text_max_length v.1 in
      rw (
        e,
        sent_lem text clipboard_text_max_length e,
        read_long-be64 sequence v.0,
        parse_byte_array4 bs (omega arith),
      )
  read-encode (set_clipboard sequence text false) rest v c =
      let (bs, e, le) = payload_total text clipboard_text_max_length v.1 in
      rw (
        e,
        sent_lem text clipboard_text_max_length e,
        read_long-be64 sequence v.0,
        parse_byte_array4 bs (omega arith),
      )
  read-encode (set_display_power true) rest v c = refl
  read-encode (set_display_power false) rest v c = refl
  read-encode rotate_device rest v c = refl
  read-encode (uhid_create id vendor_id product_id name report_desc) rest v c =
      let (bs, e, le) = payload_total name 127 v.3 in
      rw (
        e,
        sent_lem name 127 e,
        append_assoc bs (be16 (length report_desc) ++ report_desc) rest,
        read_u16-be16 id v.0,
        read_u16-be16 vendor_id v.1,
        read_u16-be16 product_id v.2,
        parse_byte_array1 bs (omega arith),
        parse_byte_array2 report_desc v.4,
      )
  read-encode (uhid_input id bytes) rest v c =
      rw (read_u16-be16 id v.0, parse_byte_array2 bytes (omega (arith, v.1)))
  read-encode (uhid_destroy id) rest v c = rw (read_u16-be16 id v)
  read-encode open_hard_keyboard_settings rest v c = refl
  read-encode (start_app name) rest v c =
      let (bs, e, le) = payload_total name 255 v in
      rw (e, sent_lem name 255 e, parse_byte_array1 bs (omega arith))
  read-encode reset_video rest v c = refl
  read-encode (camera_set_torch true) rest v c = refl
  read-encode (camera_set_torch false) rest v c = refl
  read-encode camera_zoom_in rest v c = refl
  read-encode camera_zoom_out rest v c = refl
  read-encode (resize_display width height) rest v c =
      rw (read_u16-be16 width v.0, read_u16-be16 height v.1)
  read-encode (scan_file path) rest v c =
      let (bs, e, le) = payload_total path scan_file_path_max_length v in
      rw (e, sent_lem path scan_file_path_max_length e, parse_byte_array4 bs (omega arith))
  read-encode (unknown t) rest v c = absurd v
