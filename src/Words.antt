-- ===== src/Words.antt =====
-- general_get_field of src/myfcp/general.c: a line is cut into fields in its own buffer.
pub mod Scan
pub mod Laws
pub mod Version
mod Examples
use commlib.Base.{
  ℕ, zero, suc, ◌+◌, ◌-◌, Bool, true, false, Option, none, some, List, [], ◌∷◌, ◌++◌, ◌==◌, ◌||◌,
  if◌then◌else◌, length, get_elem?, set, take, drop,
}
use commlib.Libc.{text_at}

-- `field` is inside a field, `blanks` behind a key, where the next field has not started.
pub data Mode : Type 0 where
  field blanks : Mode

-- How a call ends: the buffer with the terminators written, and the offsets stored in `field`; or
-- -1; or an access outside of the buffer.
pub data Fields : Type 0 where
  fields : List ℕ → List ℕ → Fields
  ret_err : Fields
  fault : Fields

abbrev pub keep_byte : ℕ → Option (List ℕ × List ℕ) → Option (List ℕ × List ℕ)
keep_byte c none = none
keep_byte c (some (buff, offsets)) = some (c ∷ buff, offsets)

abbrev pub store_offset : ℕ → Option (List ℕ × List ℕ) → Option (List ℕ × List ℕ)
store_offset pos none = none
store_offset pos (some (buff, offsets)) = some (buff, pos ∷ offsets)

abbrev pub is_blank : ℕ → Bool
is_blank c = c == b' ' || c == 9

-- The `for` loop and the `while` loop in it, from the offset `pos` on, where the buffer is what is
-- left of it, and `left` more fields are wanted. The byte at which a field behind a key starts is
-- not looked at again, since `pstr++` of the `for` loop steps over it.
pub split_from : ℕ → ℕ → Mode → ℕ → List ℕ → Option (List ℕ × List ℕ)
split_from key left mode pos [] = none
split_from key left Mode.field pos (c ∷ buff) = elim (c == 0) [
  | true ↦ some (c ∷ buff, [])
  | false ↦ elim (c == key) [
    | false ↦ keep_byte c (split_from key left Mode.field (pos + 1) buff)
    | true ↦ elim left [
      | zero ↦ some (0 ∷ buff, [])
      | suc fewer ↦ keep_byte 0 (split_from key fewer Mode.blanks (pos + 1) buff)
    ]
  ]
]
split_from key left Mode.blanks pos (c ∷ buff) = elim (is_blank c) [
  | true ↦ keep_byte c (split_from key left Mode.blanks (pos + 1) buff)
  | false ↦ store_offset pos (keep_byte c (split_from key left Mode.field (pos + 1) buff))
]

-- `while(*pstr == ' ') pstr++`.
pub spaces : List ℕ → ℕ
spaces [] = 0
spaces (c ∷ buff) = if c == b' ' then suc (spaces buff) else 0

-- The fields of the buffer behind `lead` bytes, the first of which is stored at once.
split_line : ℕ → ℕ → ℕ → List ℕ → Fields
unfolding split_from
split_line key fieldnum lead buff = elim (length (text_at (drop lead buff)) == 0) [
  | true ↦ ret_err
  | false ↦ elim (split_from key (fieldnum - 1) Mode.field lead (drop lead buff)) [
    | none ↦ fault
    | some (rest, offsets) ↦ fields (take lead buff ++ rest) (lead ∷ offsets)
  ]
]

-- `if( '\n' == pstr[buflen-1] ) pstr[buflen-1] = '\0'`, where `pstr` has moved and `buflen` has not.
cut_newline : ℕ → ℕ → ℕ → ℕ → List ℕ → Fields
unfolding split_line
cut_newline key fieldnum lead last buff = elim (get_elem? buff last) [
  | none ↦ fault
  | some c ↦ split_line key fieldnum lead (if c == b'\n' then set buff last 0 else buff)
]

-- For pointers that are no NULL. A buffer without a terminator is left by `strlen`.
pub general_get_field : List ℕ → ℕ → ℕ → Fields
unfolding cut_newline spaces
general_get_field buff key fieldnum =
    let buflen = length (text_at buff) in
    if fieldnum == 0 || buflen == 0
    then ret_err
    else if buflen == length buff
    then fault
    else cut_newline key fieldnum (spaces buff) ((spaces buff + buflen) - 1) buff

-- The texts that the stored pointers lead to.
abbrev pub texts : List ℕ → List ℕ → List (List ℕ)
texts buff [] = []
texts buff (pos ∷ offsets) = text_at (drop pos buff) ∷ texts buff offsets
