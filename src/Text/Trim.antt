-- ===== src/Text/Trim.antt =====
-- gen_left_strim, gen_right_strim and gen_strim of src/myfcp/genstring.c.
mod Laws
mod Examples
use commlib.Base.{
  ℕ, zero, suc, Bool, List, [], ◌∷◌, ◌==◌, leb, ◌&&◌, ◌||◌, if◌then◌else◌, length, get_or, take,
}

-- C's `isspace` in the C locale.
abbrev pub isspace : ℕ → Bool
isspace c = c == 32 || (leb 9 c && leb c 13)

-- The pointer that is returned is the string that starts there; the terminator is no space.
pub left_strim : List ℕ → List ℕ
left_strim [] = []
left_strim (c ∷ s) = if isspace c then left_strim s else c ∷ s

-- `pend + 1 - str` when the loop over `pend` ends, from the same number at its start.
pub right_end : List ℕ → ℕ → ℕ
right_end s zero = zero
right_end s (suc n) = if isspace (get_or s n 0) then right_end s n else suc n

-- The string after the terminator is written at `pend + 1`.
pub right_strim : List ℕ → List ℕ
unfolding right_end
right_strim s = if length s == 0 then s else take (right_end s (length s)) s

pub strim : List ℕ → List ℕ
strim s = left_strim (right_strim s)
