-- ===== src/Proc/Cmdline.antt =====
-- process_cmdline of src/myfcp/fcp_proc.c.
pub mod Terminator
use commlib.Base.{
  ℕ, zero, suc, ◌+◌, ◌-◌, ◌<◌, ◌≤◌, ◌≡◌, refl, sym, ap, ◌∙◌, Bool, true, false, Option, none, some,
  List, [], ◌∷◌, ◌++◌, ◌==◌, arith, All, if◌then◌else◌, length, replicate, drop, take,
}
use commlib.Libc.{text_at, fgets, put_line, decimal}

-- "/proc/%u/cmdline".
pub cmdline_path : ℕ → List ℕ
cmdline_path pid =
    b'/'
    ∷ b'p'
    ∷ b'r'
    ∷ b'o'
    ∷ b'c'
    ∷ b'/'
    ∷ (decimal pid ++ (b'/' ∷ b'c' ∷ b'm' ∷ b'd' ∷ b'l' ∷ b'i' ∷ b'n' ∷ b'e' ∷ []))

-- The `for` loop: zeros become spaces up to the first newline, which becomes the terminator.
pub join_arguments : List ℕ → List ℕ
join_arguments [] = []
join_arguments (c ∷ buff) = elim (c == b'\n') [
  | true ↦ 0 ∷ buff
  | false ↦ (if c == 0 then b' ' else c) ∷ join_arguments buff
]

-- `linebuff` after the call, and whether it returned 0; `size` is the size of `linebuff`.
pub process_cmdline : (List ℕ → Option (List ℕ)) → ℕ → List ℕ → List ℕ × Bool
unfolding join_arguments
process_cmdline files pid linebuff = elim (length linebuff == 0) [
  | true ↦ (linebuff, false)
  | false ↦ elim (files (cmdline_path pid)) [
    | none ↦ (linebuff, false)
    | some file ↦
        let blank = replicate (length linebuff) b'\n' in
        elim (fgets (length linebuff) file) [
          | none ↦ (blank, false)
          | some (line, rest) ↦ (join_arguments (put_line line blank), true)
        ]
  ]
]
