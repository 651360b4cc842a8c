-- ===== src/Examples/Bytes.antt =====
-- Words in buffers, and texts.
use dskcpy.Prelude.{ℕ, ◌≡◌, refl, [], ◌∷◌, some}
use dskcpy.Util.Str.{is_continuation, utf8_truncation_index, list_contains}
use dskcpy.Util.Str.Truncation.{IsCut, truncation_IsCut}
use dskcpy.Util.Str.ListContains.{tokens, any_prefix, list_contains-any_prefix}

-- "aé" cut at two bytes.
truncation_example :
    (n : ℕ) × (utf8_truncation_index (0x61 ∷ 0xc3 ∷ 0xa9 ∷ []) 2 ≡ some n)
    × IsCut (0x61 ∷ 0xc3 ∷ 0xa9 ∷ []) 2 n
unfolding is_continuation
truncation_example = truncation_IsCut (0x61 ∷ 0xc3 ∷ 0xa9 ∷ []) 2 refl

-- "a,mp" and the name "mp4".
list_contains_example :
    list_contains (97 ∷ 44 ∷ 109 ∷ 112 ∷ []) 44 (109 ∷ 112 ∷ 52 ∷ [])
    ≡ some (any_prefix (tokens 44 (97 ∷ 44 ∷ 109 ∷ 112 ∷ [])) (109 ∷ 112 ∷ 52 ∷ []))
list_contains_example = list_contains-any_prefix (97 ∷ 44 ∷ 109 ∷ 112 ∷ []) 44 (109 ∷ 112 ∷ 52 ∷ [])
