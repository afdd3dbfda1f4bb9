-- ===== src/Text/PathName/Examples.antt =====
-- Tests of gen_path_last_component, and the theorems at concrete paths.
use commlib.Base.{◌≡◌, refl, inl, inr, some, List, [], ◌∷◌, ℕ}
use commlib.Text.PathName.{path_last_component}
use commlib.Text.PathName.Laws.{LastComponent, path_last_component-LastComponent}

-- "/te/da//"
abbrev dir_path : List ℕ
dir_path = 47 ∷ 116 ∷ 101 ∷ 47 ∷ 100 ∷ 97 ∷ 47 ∷ 47 ∷ []

path_dir : path_last_component (some dir_path) ≡ some (100 ∷ 97 ∷ 47 ∷ 47 ∷ [])
unfolding path_last_component
path_dir = refl

path_last_component-LastComponent_example :
    (base : List ℕ) × (path_last_component (some dir_path) ≡ some base)
    × LastComponent dir_path base
path_last_component-LastComponent_example =
    path_last_component-LastComponent dir_path (inr (inl refl))
