-- ===== src/Proc/Cmdline/Terminator.antt =====
-- The text that process_cmdline leaves, and whether it is terminated.
use commlib.Base.{
  ℕ, zero, suc, ◌+◌, ◌-◌, ◌≤◌, ◌≡◌, ◌↔◌, refl, ap, ◌∙◌, true, false, Option, some, List, [], ◌∷◌,
  ◌++◌, ◌==◌, arith, All, if◌then◌else◌, length, replicate, drop, take, length-append, length-take,
  length-replicate, suc-ne-zero, Bool-cases, inl, inr,
}
use commlib.Libc.{text_at, fgets, put_line}
use commlib.Libc.Buffers.{read_line}
use commlib.Libc.Lines.{NotNewline}
use commlib.Proc.Cmdline.{cmdline_path, join_arguments, process_cmdline}

-- Zeros as spaces.
abbrev pub spaced : List ℕ → List ℕ
spaced [] = []
spaced (c ∷ s) = (if c == 0 then b' ' else c) ∷ spaced s

length-spaced : (s : List ℕ) → length (spaced s) ≡ length s
length-spaced [] = refl
length-spaced (c ∷ s) = ap suc (length-spaced s)

join_arguments-append :
    (line buff : List ℕ)
    → All NotNewline line
    → join_arguments (line ++ buff) ≡ spaced line ++ join_arguments buff
unfolding join_arguments
join_arguments-append [] buff h = refl
join_arguments-append (c ∷ line) buff h =
    rw (join_arguments, h.0)
      (ap (◌∷◌ (if c == 0 then b' ' else c)) (join_arguments-append line buff h.1))

text_at-spaced : (line buff : List ℕ) → text_at (spaced line ++ buff) ≡ spaced line ++ text_at buff
unfolding text_at
text_at-spaced [] buff = refl
text_at-spaced (c ∷ line) buff =
    let n : ((if c == 0 then b' ' else c) == 0) ≡ false = ground arith in
    rw (text_at, n) (ap (◌∷◌ (if c == 0 then b' ' else c)) (text_at-spaced line buff))

drop-replicate : (i n v : ℕ) → drop {A = ℕ} i (replicate n v) ≡ replicate (n - i) v
drop-replicate zero n v = let e : n ≡ n - 0 = omega arith in ap (λ (k : ℕ). replicate k v) e
drop-replicate (suc i) zero v =
    let e : 0 ≡ 0 - suc i = omega arith in ap (λ (k : ℕ). replicate k v) e
drop-replicate (suc i) (suc n) v =
    let e : n - i ≡ suc n - suc i = omega arith in
    drop-replicate i n v ∙ ap (λ (k : ℕ). replicate k v) e

take-NotNewline : (n : ℕ) (s : List ℕ) → All NotNewline s → All NotNewline (take n s)
take-NotNewline zero s h = tt
take-NotNewline (suc n) [] h = tt
take-NotNewline (suc n) (c ∷ s) h = (h.0, take-NotNewline n s h.1)

read_line-take :
    (room : ℕ) (file : List ℕ) → All NotNewline file → (read_line room file).0 ≡ take room file
unfolding read_line
read_line-take zero file h = refl
read_line-take (suc room) [] h = refl
read_line-take (suc room) (c ∷ file) h =
    rw (read_line, h.0) (ap (◌∷◌ c) (read_line-take room file h.1))

-- Behind the line stand the space and, if there is room, a terminator.
after_line : (k : ℕ) → text_at (join_arguments (0 ∷ replicate k b'\n')) ≡ b' ' ∷ []
unfolding text_at join_arguments
after_line zero = refl
after_line (suc k) = refl

length-join_arguments : (buff : List ℕ) → length (join_arguments buff) ≡ length buff
unfolding join_arguments
length-join_arguments [] = refl
length-join_arguments (c ∷ buff) = elim (Bool-cases (c == b'\n')) [
  | inl newline ↦ rw (join_arguments, newline)
  | inr other ↦ rw (join_arguments, other) (ap suc (length-join_arguments buff))
]

module _ (room : ℕ) (c : ℕ) (file : List ℕ) (one_line : All NotNewline (c ∷ file)) where
  abbrev line : List ℕ
  line = take room (c ∷ file)

  abbrev left : ℕ
  left = suc room - (length line + 1)

  written : put_line line (replicate (suc room) b'\n') ≡ line ++ (0 ∷ replicate left b'\n')
  written = ap (λ (b : List ℕ). line ++ (0 ∷ b)) (drop-replicate (length line + 1) (suc room) b'\n')

  joined :
      join_arguments (put_line line (replicate (suc room) b'\n'))
      ≡ spaced line ++ join_arguments (0 ∷ replicate left b'\n')
  joined =
      ap join_arguments written
      ∙ join_arguments-append line (0 ∷ replicate left b'\n')
          (take-NotNewline room (c ∷ file) one_line)

  joined_text :
      text_at (join_arguments (put_line line (replicate (suc room) b'\n')))
      ≡ spaced line ++ b' ' ∷ []
  joined_text =
      ap text_at joined
      ∙ text_at-spaced line (join_arguments (0 ∷ replicate left b'\n'))
      ∙ ap (λ (s : List ℕ). spaced line ++ s) (after_line left)

  joined_length : length (join_arguments (put_line line (replicate (suc room) b'\n'))) ≡ suc room
  joined_length =
      ap length (ap join_arguments written)
      ∙ length-join_arguments (line ++ (0 ∷ replicate left b'\n'))
      ∙ omega (
        arith,
        length-append line (0 ∷ replicate left b'\n'),
        length-replicate {A = ℕ} left b'\n',
        length-take room (c ∷ file),
      )

  text_length :
      length (text_at (join_arguments (put_line line (replicate (suc room) b'\n'))))
      ≡ length line + 1
  text_length =
      ap length joined_text
      ∙ omega (arith, length-append (spaced line) (b' ' ∷ []), length-spaced line)

  fgets_line : fgets (suc room) (c ∷ file) ≡ some (line, (read_line room (c ∷ file)).1)
  unfolding fgets
  fgets_line =
      let e : suc room - 1 ≡ room = omega arith in
      rw e (
        ap (λ (l : List ℕ). some (l, (read_line room (c ∷ file)).1))
          (read_line-take room (c ∷ file) one_line))

  -- For a command line of at least one byte and without a newline, process_cmdline returns 0 and
  -- leaves in the buffer what fits of the command line with spaces for the zeros, and one space more. The buffer holds no
  -- terminator exactly when its size is at most one more than the length of the command line.
  pub process_cmdline-text :
      (files : List ℕ → Option (List ℕ)) (pid : ℕ) (linebuff : List ℕ)
      → files (cmdline_path pid) ≡ some (c ∷ file)
      → length linebuff ≡ suc room
      → let r = process_cmdline files pid linebuff in
        (r.1 ≡ true)
        × (text_at r.0 ≡ spaced (take room (c ∷ file)) ++ b' ' ∷ [])
        × ((length (text_at r.0) ≡ length r.0) ↔ (suc room ≤ length (c ∷ file) + 1))
  unfolding process_cmdline
  process_cmdline-text files pid linebuff opens size =
      let e : process_cmdline files pid linebuff
          ≡ (join_arguments (put_line line (replicate (suc room) b'\n')), true) =
        rw (process_cmdline, size, suc-ne-zero room, opens, size, fgets_line, size) in
      rw e (
        refl,
        joined_text,
        (
          λ full. omega (arith, text_length, joined_length, length-take room (c ∷ file)),
          λ short. omega (arith, text_length, joined_length, length-take room (c ∷ file)),
        ),
      )
