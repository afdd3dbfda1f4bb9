-- ===== src/Text/PathName.antt =====
-- gen_path_last_component of src/myfcp/genstring.c.
mod Laws
mod Examples
use commlib.Base.{ℕ, Bool, true, false, Option, none, some, List, [], ◌∷◌, ◌==◌, if◌then◌else◌}

abbrev pub slash : ℕ
slash = 47

-- `while('/' == *base) base++;`
pub skip_slashes : List ℕ → List ℕ
skip_slashes [] = []
skip_slashes (c ∷ s) = if c == slash then skip_slashes s else c ∷ s

-- The loop over `p`, with the variables `base` and `next_slash`.
pub scan : List ℕ → Bool → List ℕ → List ℕ
scan base next_slash [] = base
scan base next_slash (c ∷ p) = elim (c == slash) [
  | true ↦ scan base true p
  | false ↦ elim next_slash [ true ↦ scan (c ∷ p) false p | false ↦ scan base false p ]
]

-- `none` is the NULL pointer, as an argument and as the result.
pub path_last_component : Option (List ℕ) → Option (List ℕ)
unfolding skip_slashes scan
path_last_component none = none
path_last_component (some []) = none
path_last_component (some (c ∷ s)) = let base = skip_slashes (c ∷ s) in some (scan base false base)
