-- ===== src/Examples/Messages.antt =====
-- Control messages, serialized and read back.
use dskcpy.Prelude.{
  ℕ, ◌^◌, ◌+◌, ◌≤◌, ◌≡◌, refl, List, [], ◌∷◌, ◌++◌, some, ◌>>=◌, true, arith, pos, length, drop,
  replicate, length-replicate,
}
use dskcpy.ControlMsg.{serialize, max_size, float_to_u16fp}
use dskcpy.Util.Binary.{clamp_u16fp}
use dskcpy.ControlMsg.Encode.{encode}
use dskcpy.ControlMsg.Bounds.{serialize_lem}
use dskcpy.ControlMsg.Valid.{IsValid, IsConvertible}
use dskcpy.ControlMsg.Refine.{copied, serialize-encode}
use dskcpy.ControlMsg.Reader.{read}
use dskcpy.ControlMsg.RoundTrip.{received, read-encode}
use dskcpy.ControlMsg.Types.{ControlMsg, inject_touch_event, set_clipboard}
use dskcpy.Examples.Floats.{fixed_point}

-- A touch at (100, 200) of a screen of 1080 by 1920, at half the pressure.
abbrev touch : ControlMsg ℕ
touch =
    inject_touch_event 0 1 1 7 (record { x = pos 100; y = pos 200; width = 1080; height = 1920 })
      (2 ^ 20 + 2 ^ 14)

-- The text is "é", two bytes.
abbrev copied_text : ControlMsg ℕ
copied_text = set_clipboard 5 (some (0xc3 ∷ 0xa9 ∷ [])) true

touch-IsValid : IsValid touch
touch-IsValid = (
  omega arith,
  omega arith,
  omega arith,
  omega arith,
  record {
    x_range = (omega arith, omega arith);
    y_range = (omega arith, omega arith);
    width_range = omega arith;
    height_range = omega arith;
  },
)

touch-IsConvertible : IsConvertible fixed_point touch
unfolding float_to_u16fp clamp_u16fp
touch-IsConvertible = (2 ^ 15, refl)

read-encode_example :
    (encode fixed_point touch >>= λ bs. read (bs ++ (4 ∷ 0 ∷ [])))
    ≡ some (received fixed_point touch, 4 ∷ 0 ∷ [])
read-encode_example = read-encode fixed_point touch (4 ∷ 0 ∷ []) touch-IsValid touch-IsConvertible

serialize_example :
    (bs : List ℕ) × (encode fixed_point touch ≡ some bs)
    × (length bs ≤ max_size)
    × (serialize fixed_point touch (replicate max_size 0)
        ≡ some (length bs, bs ++ drop (length bs) (replicate max_size 0)))
serialize_example =
    serialize_lem fixed_point touch (replicate max_size 0) touch-IsValid touch-IsConvertible
      (length-replicate {A = ℕ} max_size 0)

serialize-encode_example :
    serialize fixed_point copied_text (replicate 20 0)
    ≡ copied fixed_point (replicate 20 0) (encode fixed_point copied_text)
serialize-encode_example = serialize-encode fixed_point (replicate 20 0) copied_text tt
