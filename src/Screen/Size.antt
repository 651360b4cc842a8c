-- ===== src/Screen/Size.antt =====
-- app/src/screen.c: the size of the window. Sizes are 16-bit words; the products are computed in
-- 32 bits, which the casts of the code see to, and a quotient is cut to 16 bits where it is stored.
-- `bounds` stands for what `get_preferred_display_bounds` gets from SDL: the usable size of the
-- display, if there is one.
pub mod Optimal
use dskcpy.Prelude.{
  ℕ, ◌-◌, ◌*◌, ◌/◌, ◌%◌, ◌^◌, ◌&&◌, ◌||◌, not, Bool, true, false, Option, none, some, ◌==◌, ltb,
  if◌then◌else◌, min, ◌>>=◌, ℤ, pos, negsuc, to_u16,
}
use dskcpy.Screen.Orientation.{is_swap}

pub record Size : Type 0 where
  pub width : ℕ
  pub height : ℕ

abbrev pub display_margins : ℕ
display_margins = 96

unfoldable pub get_oriented_size : Size → ℕ → Option Size
get_oriented_size size orientation = is_swap orientation >>= λ swap.
    some (if swap then record { width = size.height; height = size.width } else size)

-- `MAX(0, side - DISPLAY_MARGINS)`, stored in 16 bits.
abbrev pub less_margins : ℤ → ℕ
less_margins (pos n) = to_u16 (pos (n - display_margins))
less_margins (negsuc n) = 0

unfoldable pub get_preferred_display_bounds : Option (ℤ × ℤ) → Option Size
get_preferred_display_bounds none = none
get_preferred_display_bounds (some (w, h)) =
    some (record { width = less_margins w; height = less_margins h })

-- `(uint32_t) a * b / c`
abbrev pub scaled : ℕ → ℕ → ℕ → ℕ
scaled a b c = a * b % 2 ^ 32 / c

unfoldable pub is_optimal_size : Size → Size → Bool
is_optimal_size current content =
    current.height == scaled current.width content.height content.width
    || current.width == scaled current.height content.width content.height

-- The size that fits the display: `window_size` before its borders are removed.
unfoldable pub constrain : Size → Bool → Option Size → Size
constrain current within_display_bounds none = current
constrain current false (some display) = current
constrain current true (some display) = record {
  width = min current.width display.width;
  height = min current.height display.height;
}

unfoldable pub remove_borders : Size → Size → Size
remove_borders window content =
    if ltb (content.height * window.width % 2 ^ 32) (content.width * window.height % 2 ^ 32)
    then record window { height = scaled content.height window.width content.width % 2 ^ 16 }
    else record window { width = scaled content.width window.height content.height % 2 ^ 16 }

unfoldable pub get_optimal_size : Size → Size → Bool → Option (ℤ × ℤ) → Size
unfolding constrain is_optimal_size remove_borders
get_optimal_size current content within_display_bounds bounds =
    if content.width == 0 || content.height == 0
    then current
    else let window =
        constrain current within_display_bounds (get_preferred_display_bounds bounds) in
      if is_optimal_size window content then window else remove_borders window content

-- A division by zero is `none`; the sizes requested are 0 where the user gave none.
unfoldable pub get_initial_optimal_size : Size → ℕ → ℕ → Option (ℤ × ℤ) → Option Size
get_initial_optimal_size content req_width req_height bounds =
    if req_width == 0 && req_height == 0
    then some (get_optimal_size content content true bounds)
    else if not (req_width == 0) && not (req_height == 0)
    then some (record { width = req_width; height = req_height })
    else if req_width == 0
    then (if content.height == 0
        then none
        else some (record {
          width = scaled req_height content.width content.height % 2 ^ 16;
          height = req_height;
        }))
    else (if content.width == 0
        then none
        else some (record {
          width = req_width;
          height = scaled req_width content.height content.width % 2 ^ 16;
        }))
