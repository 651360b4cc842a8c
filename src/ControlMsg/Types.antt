-- ===== src/ControlMsg/Types.antt =====
-- The messages of control_msg.h and the float operations that their serialization uses.
use dskcpy.Prelude.{not, ◌&&◌, ◌==◌, ℕ, ◌≡◌, List, Option, Bool, true, false, ℤ, negsuc, ◌≤ℤ◌}

-- `struct sc_position` of app/src/coords.h: the point, then the screen size.
pub record Position : Type 0 where
  pub x : ℤ
  pub y : ℤ
  pub width : ℕ
  pub height : ℕ

-- What the client does with C floats: the comparisons, the constants 0, 1 and -1, the division by 16,
-- `(uint32_t) (f * 0x1p16f)` and `(int32_t) (f * 0x1p15f)`. The laws are of IEEE arithmetic.
pub record FloatOps (Float : Type 0) : Type 0 where
  pub lt : Float → Float → Bool
  pub le : Float → Float → Bool
  pub zero : Float
  pub one : Float
  pub neg_one : Float
  pub div16 : Float → Float
  pub times_2_16 : Float → ℕ
  pub times_2_15 : Float → ℤ
  pub lt_asymm : (a b : Float) → lt a b ≡ true → lt b a ≡ false
  pub lt_irrefl : (a : Float) → lt a a ≡ false
  pub neg_one-lt-one : lt neg_one one ≡ true
  pub times_2_15_ge : (f : Float) → lt f neg_one ≡ false → negsuc 0x7fff ≤ℤ times_2_15 f

pub data ControlMsg (Float : Type 0) : Type 0 where
  inject_keycode : (action keycode repeat metastate : ℕ) → ControlMsg Float
  inject_text : (text : Option (List ℕ)) → ControlMsg Float
  inject_touch_event :
      (action action_button buttons pointer_id : ℕ) (position : Position) (pressure : Float)
      → ControlMsg Float
  inject_scroll_event :
      (position : Position) (hscroll vscroll : Float) (buttons : ℕ) → ControlMsg Float
  back_or_screen_on : (action : ℕ) → ControlMsg Float
  expand_notification_panel : ControlMsg Float
  expand_settings_panel : ControlMsg Float
  collapse_panels : ControlMsg Float
  get_clipboard : (copy_key : ℕ) → ControlMsg Float
  set_clipboard : (sequence : ℕ) (text : Option (List ℕ)) (paste : Bool) → ControlMsg Float
  set_display_power : (on : Bool) → ControlMsg Float
  rotate_device : ControlMsg Float
  uhid_create :
      (id vendor_id product_id : ℕ) (name : Option (List ℕ)) (report_desc : List ℕ)
      → ControlMsg Float
  uhid_input : (id : ℕ) (bytes : List ℕ) → ControlMsg Float
  uhid_destroy : (id : ℕ) → ControlMsg Float
  open_hard_keyboard_settings : ControlMsg Float
  start_app : (name : Option (List ℕ)) → ControlMsg Float
  reset_video : ControlMsg Float
  camera_set_torch : (on : Bool) → ControlMsg Float
  camera_zoom_in : ControlMsg Float
  camera_zoom_out : ControlMsg Float
  resize_display : (width height : ℕ) → ControlMsg Float
  scan_file : (path : Option (List ℕ)) → ControlMsg Float
  -- a type that is none of the enum's
  unknown : (type : ℕ) → ControlMsg Float

-- `msg->type`, in the order of `enum sc_control_msg_type`.
unfoldable pub type_of : {Float : Type 0} → ControlMsg Float → ℕ
type_of (inject_keycode _ _ _ _) = 0
type_of (inject_text _) = 1
type_of (inject_touch_event _ _ _ _ _ _) = 2
type_of (inject_scroll_event _ _ _ _) = 3
type_of (back_or_screen_on _) = 4
type_of expand_notification_panel = 5
type_of expand_settings_panel = 6
type_of collapse_panels = 7
type_of (get_clipboard _) = 8
type_of (set_clipboard _ _ _) = 9
type_of (set_display_power _) = 10
type_of rotate_device = 11
type_of (uhid_create _ _ _ _ _) = 12
type_of (uhid_input _ _) = 13
type_of (uhid_destroy _) = 14
type_of open_hard_keyboard_settings = 15
type_of (start_app _) = 16
type_of reset_video = 17
type_of (camera_set_torch _) = 18
type_of camera_zoom_in = 19
type_of camera_zoom_out = 20
type_of (resize_display _ _) = 21
type_of (scan_file _) = 22
type_of (unknown t) = t

-- `sc_control_msg_is_droppable`.
unfoldable pub is_droppable : {Float : Type 0} → ControlMsg Float → Bool
unfolding type_of
is_droppable msg = not (type_of msg == 12) && not (type_of msg == 14)
