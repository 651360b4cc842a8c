-- ===== src/ControlMsg/Refine.antt =====
-- `sc_control_msg_serialize` of app/src/control_msg.c against the wire format.
mod Writers
use Writers.{
  Holds, put_bytes, put8, put16, put32, put64, put_first, put_position, put_string, put_string_tiny,
  sized, text_result,
}
use dskcpy.Prelude.{
  ℕ, suc, ◌≡◌, refl, ap, ◌∙◌, ◌+◌, ◌≤◌, ◌<◌, ◌%◌, List, [], ◌∷◌, ◌++◌, Option, none, some, ◌>>=◌,
  arith,
}
use dskcpy.Prelude.{
  set, length, length-append, drop, write_at, write_at_start, Option-cases, inl, inr,
}
use dskcpy.Prelude.{append_assoc}
use dskcpy.Util.Binary.{byte, write16be}
use dskcpy.Util.Binary.Bytes.{be16, be64}
use dskcpy.ControlMsg.{
  serialize, of_bool, float_to_u16fp, scroll_word, max_size, inject_text_max_length,
  clipboard_text_max_length, scan_file_path_max_length,
}
use dskcpy.ControlMsg.Encode.{encode, payload, with_length, with_length_tiny}
use dskcpy.ControlMsg.Types.{FloatOps, Position, ControlMsg}
use dskcpy.ControlMsg.Types.{
  inject_keycode, inject_text, inject_touch_event, inject_scroll_event, back_or_screen_on,
  expand_notification_panel, expand_settings_panel, collapse_panels, get_clipboard, set_clipboard,
  set_display_power, rotate_device, uhid_create, uhid_input, uhid_destroy,
  open_hard_keyboard_settings, start_app, reset_video, camera_set_torch, camera_zoom_in,
  camera_zoom_out, resize_display, scan_file, unknown,
}

-- The message has a type of the enum.
abbrev pub IsKnown : {Float : Type 0} → ControlMsg Float → Type 0
IsKnown (unknown t) = ⊥
IsKnown _ = Unit {0}

module _ {Float : Type 0} (ops : FloatOps Float) (buf : List ℕ) where
  -- The size of the bytes, and the buffer with the bytes copied to its start.
  abbrev pub copied : Option (List ℕ) → Option (ℕ × List ℕ)
  copied bytes = bytes >>= λ bs. some (length bs, write_at buf 0 bs)

  bind_copied :
      (p : Option ℕ) (f : ℕ → Option (ℕ × List ℕ)) (g : ℕ → Option (List ℕ))
      → ((w : ℕ) → f w ≡ copied (g w))
      → (p >>= f) ≡ copied (p >>= g)
  bind_copied none f g h = refl
  bind_copied (some w) f g h = h w

  one_byte : (t : ℕ) → Holds buf 0 (t ∷ []) (set buf 0 t)
  one_byte = put_first buf

  two_bytes : (t v : ℕ) → Holds buf 0 (t ∷ v ∷ []) (set (set buf 0 t) 1 v)
  two_bytes t v = put8 1 (one_byte t) refl v

  -- A message that ends with a text, `k` bytes behind the start.
  text_message :
      (k : ℕ) (a : List ℕ) (wrap : List ℕ → List ℕ) (p : Option (List ℕ))
      → k ≡ length a
      → (text_result buf a wrap p >>= λ r. some (k + r.0, r.1))
        ≡ copied (p >>= λ b. some (a ++ wrap b))
  text_message k a wrap none e = refl
  text_message k a wrap (some b) e = sized (omega (arith, length-append a (wrap b))) refl

  uhid_ids :
      (id vendor product : ℕ)
      → Holds buf 0
          (12 ∷ be16 id ++ (be16 vendor ++ be16 product))
          (write16be (write16be (write16be (set buf 0 12) 1 id) 3 vendor) 5 product)
  uhid_ids id vendor product =
      put16 5 (put16 3 (put16 1 (one_byte 12) refl id) refl vendor) refl product

  -- What `UHID_CREATE` writes behind the name.
  uhid_create_end :
      (id vendor product : ℕ) (desc : List ℕ) (p : Option (List ℕ))
      → (text_result buf (12 ∷ be16 id ++ (be16 vendor ++ be16 product)) with_length_tiny p >>= λ r.
          some (
            7 + r.0 + 2 + length desc,
            write_at (write16be r.1 (7 + r.0) (length desc)) (7 + r.0 + 2) desc,
          ))
        ≡ copied (
            p >>= λ b. some (
              12 ∷ be16 id
              ++ (be16 vendor
                  ++ (be16 product ++ (with_length_tiny b ++ (be16 (length desc) ++ desc))))))
  uhid_create_end id vendor product desc none = refl
  uhid_create_end id vendor product desc (some b) =
      sized (omega (arith, length-append b (byte (length desc) 8 ∷ byte (length desc) 0 ∷ desc))) (
        (put_bytes (7 + suc (length b) + 2)
          (put16 (7 + suc (length b)) named (omega arith) (length desc))
          (omega (arith, length-append b (be16 (length desc)))) desc).eq
        ∙ ap
            (λ t.
              write_at buf 0 (12 ∷ be16 id ++ (be16 vendor ++ (be16 product ++ (length b ∷ t)))))
            (append_assoc b (be16 (length desc)) desc))
    where
      named :
          Holds buf 0
            (12 ∷ be16 id ++ (be16 vendor ++ (be16 product ++ with_length_tiny b)))
            (write_at buf 0 (12 ∷ be16 id ++ (be16 vendor ++ (be16 product ++ with_length_tiny b))))
      named = record { eq = refl }

  -- The serialization of a message of the enum is the size of its wire format and the buffer with the
  -- wire format copied to its start; it fails where the message has no wire format, since its text
  -- cannot be cut or a float fails an assertion of its conversion.
  pub serialize-encode :
      (msg : ControlMsg Float) → IsKnown msg → serialize ops msg buf ≡ copied (encode ops msg)
  unfolding serialize encode
  serialize-encode (inject_keycode action keycode repeat metastate) known =
      sized refl
        (put32 10 (put32 6 (put32 2 (two_bytes 0 (action % 256)) refl keycode) refl repeat) refl
          metastate).eq
  serialize-encode (inject_text text) known =
      rw (put_string 1 (one_byte 1) refl text inject_text_max_length)
        (text_message 1 (1 ∷ []) with_length _ refl)
  serialize-encode (inject_touch_event action action_button buttons pointer_id position pressure)
        known =
      bind_copied (float_to_u16fp ops pressure) _ _ (λ word.
        sized refl
          (put32 28
            (put32 24
              (put16 22
                (put_position 10 (put64 2 (two_bytes 2 (action % 256)) refl pointer_id) refl
                  position)
                refl word)
              refl action_button)
            refl buttons).eq)
  serialize-encode (inject_scroll_event position hscroll vscroll buttons) known =
      bind_copied (scroll_word ops hscroll) _ _ (λ h.
        bind_copied (scroll_word ops vscroll) _ _ (λ v.
          sized refl
            (put32 17
              (put16 15 (put16 13 (put_position 1 (one_byte 3) refl position) refl h) refl v) refl
              buttons).eq))
  serialize-encode (back_or_screen_on action) known = sized refl (two_bytes 4 (action % 256)).eq
  serialize-encode expand_notification_panel known = sized refl (one_byte 5).eq
  serialize-encode expand_settings_panel known = sized refl (one_byte 6).eq
  serialize-encode collapse_panels known = sized refl (one_byte 7).eq
  serialize-encode (get_clipboard copy_key) known = sized refl (two_bytes 8 (copy_key % 256)).eq
  serialize-encode (set_clipboard sequence text paste) known =
      rw
        (put_string 10 (put8 9 (put64 1 (one_byte 9) refl sequence) refl (of_bool paste)) refl text
          clipboard_text_max_length)
        (text_message 10 (9 ∷ be64 sequence ++ (of_bool paste ∷ [])) with_length _ refl)
  serialize-encode (set_display_power on) known = sized refl (two_bytes 10 (of_bool on)).eq
  serialize-encode rotate_device known = sized refl (one_byte 11).eq
  serialize-encode (uhid_create id vendor_id product_id name report_desc) known =
      rw (put_string_tiny 7 (uhid_ids id vendor_id product_id) refl name 127)
        (uhid_create_end id vendor_id product_id report_desc (payload name 127))
  serialize-encode (uhid_input id bytes) known =
      sized (omega arith)
        (put_bytes 5 (put16 3 (put16 1 (one_byte 13) refl id) refl (length bytes)) refl bytes).eq
  serialize-encode (uhid_destroy id) known = sized refl (put16 1 (one_byte 14) refl id).eq
  serialize-encode open_hard_keyboard_settings known = sized refl (one_byte 15).eq
  serialize-encode (start_app name) known =
      rw (put_string_tiny 1 (one_byte 16) refl name 255)
        (text_message 1 (16 ∷ []) with_length_tiny _ refl)
  serialize-encode reset_video known = sized refl (one_byte 17).eq
  serialize-encode (camera_set_torch on) known = sized refl (two_bytes 18 (of_bool on)).eq
  serialize-encode camera_zoom_in known = sized refl (one_byte 19).eq
  serialize-encode camera_zoom_out known = sized refl (one_byte 20).eq
  serialize-encode (resize_display width height) known =
      sized refl (put16 3 (put16 1 (one_byte 21) refl width) refl height).eq
  serialize-encode (scan_file path) known =
      rw (put_string 1 (one_byte 22) refl path scan_file_path_max_length)
        (text_message 1 (22 ∷ []) with_length _ refl)
  serialize-encode (unknown t) known = absurd known
