-- ===== src/ControlMsg/Encode.antt =====
-- The wire format of the control messages, as the list of the bytes of each: the specification
-- of `sc_control_msg_serialize`. A message whose floats fail an assertion of their conversion has
-- none.
use dskcpy.Prelude.{ℕ, ◌%◌, List, [], ◌∷◌, ◌++◌, Option, none, some, ◌>>=◌}
use dskcpy.Prelude.{length, take, to_u32}
use dskcpy.Util.Binary.Bytes.{be16, be32, be64}
use dskcpy.Util.Str.{utf8_truncation_index}
use dskcpy.ControlMsg.{
  of_bool, float_to_u16fp, scroll_word, inject_text_max_length, clipboard_text_max_length,
  scan_file_path_max_length,
}
use dskcpy.ControlMsg.Types.{FloatOps, Position, ControlMsg}
use dskcpy.ControlMsg.Types.{
  inject_keycode, inject_text, inject_touch_event, inject_scroll_event, back_or_screen_on,
  expand_notification_panel, expand_settings_panel, collapse_panels, get_clipboard, set_clipboard,
  set_display_power, rotate_device, uhid_create, uhid_input, uhid_destroy,
  open_hard_keyboard_settings, start_app, reset_video, camera_set_torch, camera_zoom_in,
  camera_zoom_out, resize_display, scan_file, unknown,
}

-- The bytes of a text that are sent: none of a NULL one, else up to the cut.
abbrev pub payload : Option (List ℕ) → ℕ → Option (List ℕ)
payload none max_len = some []
payload (some utf8) max_len = do len ← utf8_truncation_index utf8 max_len; some (take len utf8)

abbrev pub with_length : List ℕ → List ℕ
with_length bs = be32 (length bs) ++ bs

abbrev pub with_length_tiny : List ℕ → List ℕ
with_length_tiny bs = length bs ∷ bs

abbrev pub position_bytes : Position → List ℕ
position_bytes p = be32 (to_u32 p.x) ++ (be32 (to_u32 p.y) ++ (be16 p.width ++ be16 p.height))

module _ {Float : Type 0} (ops : FloatOps Float) where
  unfoldable pub encode : ControlMsg Float → Option (List ℕ)
  encode (inject_keycode action keycode repeat metastate) =
      some (0 ∷ action % 256 ∷ be32 keycode ++ (be32 repeat ++ be32 metastate))
  encode (inject_text text) = do bs ← payload text inject_text_max_length; some (1 ∷ with_length bs)
  encode (inject_touch_event action action_button buttons pointer_id position pressure) =
      float_to_u16fp ops pressure >>= λ word. some (
        2 ∷ action % 256 ∷ be64 pointer_id
        ++ (position_bytes position ++ (be16 word ++ (be32 action_button ++ be32 buttons))))
  encode (inject_scroll_event position hscroll vscroll buttons) = scroll_word ops hscroll >>= λ h.
      scroll_word ops vscroll >>= λ v.
      some (3 ∷ position_bytes position ++ (be16 h ++ (be16 v ++ be32 buttons)))
  encode (back_or_screen_on action) = some (4 ∷ action % 256 ∷ [])
  encode expand_notification_panel = some (5 ∷ [])
  encode expand_settings_panel = some (6 ∷ [])
  encode collapse_panels = some (7 ∷ [])
  encode (get_clipboard copy_key) = some (8 ∷ copy_key % 256 ∷ [])
  encode (set_clipboard sequence text paste) = do
    bs ← payload text clipboard_text_max_length
    some (9 ∷ be64 sequence ++ (of_bool paste ∷ with_length bs))
  encode (set_display_power on) = some (10 ∷ of_bool on ∷ [])
  encode rotate_device = some (11 ∷ [])
  encode (uhid_create id vendor_id product_id name report_desc) = do
    bs ← payload name 127
    some (
        12 ∷ be16 id
        ++ (be16 vendor_id
            ++ (be16 product_id
                ++ (with_length_tiny bs ++ (be16 (length report_desc) ++ report_desc)))))
  encode (uhid_input id bytes) = some (13 ∷ be16 id ++ (be16 (length bytes) ++ bytes))
  encode (uhid_destroy id) = some (14 ∷ be16 id)
  encode open_hard_keyboard_settings = some (15 ∷ [])
  encode (start_app name) = do bs ← payload name 255; some (16 ∷ with_length_tiny bs)
  encode reset_video = some (17 ∷ [])
  encode (camera_set_torch on) = some (18 ∷ of_bool on ∷ [])
  encode camera_zoom_in = some (19 ∷ [])
  encode camera_zoom_out = some (20 ∷ [])
  encode (resize_display width height) = some (21 ∷ be16 width ++ be16 height)
  encode (scan_file path) = do
    bs ← payload path scan_file_path_max_length
    some (22 ∷ with_length bs)
  encode (unknown t) = some []
