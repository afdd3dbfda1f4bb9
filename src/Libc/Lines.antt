-- ===== src/Libc/Lines.antt =====
-- fgets on a file that has the whole line.
use commlib.Base.{
  ℕ, zero, suc, ◌+◌, ◌-◌, ◌<◌, ◌≡◌, refl, ap, false, some, List, [], ◌∷◌, ◌++◌, ◌==◌, arith, All,
  length,
}
use commlib.Libc.Buffers.{read_line, fgets}

abbrev pub NotNewline : ℕ → Type 0
NotNewline c = (c == b'\n') ≡ false

read_line-append :
    (room : ℕ) (line rest : List ℕ)
    → All NotNewline line
    → length line < room
    → read_line room (line ++ (b'\n' ∷ rest)) ≡ (line ++ b'\n' ∷ [], rest)
unfolding read_line
read_line-append zero line rest h fits = absurd (omega arith)
read_line-append (suc room) [] rest h fits = refl
read_line-append (suc room) (c ∷ line) rest h fits =
    rw (read_line, h.0)
      (ap (λ (p : List ℕ × List ℕ). (c ∷ p.0, p.1))
        (read_line-append room line rest h.1 (omega arith)))

pub fgets-append :
    (size c : ℕ) (line rest : List ℕ)
    → All NotNewline (c ∷ line)
    → length line + 2 < size
    → fgets size ((c ∷ line) ++ (b'\n' ∷ rest)) ≡ some ((c ∷ line) ++ b'\n' ∷ [], rest)
unfolding fgets
fgets-append size c line rest h fits =
    ap some (read_line-append (size - 1) (c ∷ line) rest h (omega arith))

pub fgets_line :
    (size : ℕ) (line rest : List ℕ)
    → 0 < length line
    → All NotNewline line
    → length line + 1 < size
    → fgets size (line ++ (b'\n' ∷ rest)) ≡ some (line ++ b'\n' ∷ [], rest)
fgets_line size [] rest some_byte h fits = absurd (omega (arith, some_byte))
fgets_line size (c ∷ line) rest some_byte h fits = fgets-append size c line rest h (omega arith)
