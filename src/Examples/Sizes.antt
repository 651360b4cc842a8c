-- ===== src/Examples/Sizes.antt =====
-- A rotation after a flip, and a window for a wide content on a small display.
use dskcpy.Prelude.{ℕ, ◌≤◌, ◌≡◌, some, arith}
use dskcpy.Screen.Orientation.{apply}
use dskcpy.Screen.Orientation.Compose.{act, apply_composes}
use dskcpy.Screen.Size.{Size}

apply_example :
    (r : ℕ) × (apply 1 4 ≡ some r)
    × (r ≤ 7)
    × ((c : ℕ) → c ≤ 3 → act r c ≡ act 4 (act 1 c))
    × ((o : ℕ) → o ≤ 7 → ((c : ℕ) → c ≤ 3 → act o c ≡ act 4 (act 1 c)) → o ≡ r)
apply_example = apply_composes 1 4 (omega arith) (omega arith)

abbrev wide : Size
wide = record { width = 2400; height = 1080 }
