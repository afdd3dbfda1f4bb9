-- ===== src/Text/Trim/Examples.antt =====
-- Tests of the trimming functions, and the theorem at a concrete string.
use commlib.Base.{◌≡◌, refl, List, [], ◌∷◌, ℕ}
use commlib.Text.Trim.{strim, left_strim, right_strim}
use commlib.Text.Trim.Laws.{Trimmed, strim-Trimmed}

-- "  a b\n"
abbrev padded : List ℕ
padded = 32 ∷ 32 ∷ 97 ∷ 32 ∷ 98 ∷ 10 ∷ []

strim-padded : strim padded ≡ 97 ∷ 32 ∷ 98 ∷ []
unfolding strim left_strim right_strim
strim-padded = refl

strim_blank : strim (32 ∷ 9 ∷ []) ≡ []
unfolding strim left_strim right_strim
strim_blank = refl

strim-Trimmed_example : Trimmed padded (strim padded)
strim-Trimmed_example = strim-Trimmed padded
