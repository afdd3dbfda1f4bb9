-- ===== src/Libc/Buffers.antt =====
-- strcmp, strchr, strrchr, fgets, and texts in buffers.
use commlib.Base.{
  ℕ, zero, suc, ◌+◌, ◌-◌, Bool, true, false, Option, none, some, List, [], ◌∷◌, ◌++◌, ◌==◌, ◌&&◌,
  if◌then◌else◌, drop, length,
}

-- The text that starts a buffer; the buffer's end ends it too.
unfoldable pub text_at : List ℕ → List ℕ
text_at [] = []
text_at (c ∷ b) = if c == 0 then [] else c ∷ text_at b

-- `strchr`: what stands before the character, and what behind it.
unfoldable pub strchr : ℕ → List ℕ → Option (List ℕ × List ℕ)
strchr key [] = none
strchr key (c ∷ s) =
    if c == key
    then some ([], s)
    else elim (strchr key s) [ none ↦ none | some (before, behind) ↦ some (c ∷ before, behind) ]

-- `strrchr(s, key) + 1`.
unfoldable pub strrchr : ℕ → List ℕ → Option (List ℕ)
strrchr key [] = none
strrchr key (c ∷ s) = elim (strrchr key s) [
  | some behind ↦ some behind
  | none ↦ if c == key then some s else none
]

-- `strstr(s, t) != NULL`.
unfoldable pub starts_with : List ℕ → List ℕ → Bool
starts_with s [] = true
starts_with [] (d ∷ t) = false
starts_with (c ∷ s) (d ∷ t) = c == d && starts_with s t

unfoldable pub contains : List ℕ → List ℕ → Bool
unfolding starts_with
contains [] t = starts_with [] t
contains (c ∷ s) t = if starts_with (c ∷ s) t then true else contains s t

-- `!strcmp(s, t)`.
unfoldable pub same : List ℕ → List ℕ → Bool
same [] [] = true
same [] (d ∷ t) = false
same (c ∷ s) [] = false
same (c ∷ s) (d ∷ t) = c == d && same s t

-- At most `room` bytes up to and with a newline, and what is left of the file.
unfoldable pub read_line : ℕ → List ℕ → List ℕ × List ℕ
read_line zero bytes = ([], bytes)
read_line (suc room) [] = ([], [])
read_line (suc room) (c ∷ bytes) = elim (c == b'\n') [
  | true ↦ (c ∷ [], bytes)
  | false ↦ (c ∷ (read_line room bytes).0, (read_line room bytes).1)
]

-- `fgets` on the bytes that are left of a file; `none` is NULL, at the end of the file.
unfoldable pub fgets : ℕ → List ℕ → Option (List ℕ × List ℕ)
unfolding read_line
fgets size [] = none
fgets size (c ∷ bytes) = some (read_line (size - 1) (c ∷ bytes))

-- A buffer after `fgets` has written a line and the terminator at its start.
abbrev pub put_line : List ℕ → List ℕ → List ℕ
put_line line buff = line ++ (0 ∷ drop (length line + 1) buff)
