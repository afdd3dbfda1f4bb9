-- ===== src/File/Laws.antt =====
-- What the classification of files tells.
use commlib.Base.{
  ℕ, ◌≡◌, refl, false, Option, none, some, List, ◌==◌, leb, arith, length, bit_and-zero, Bool-cases,
  inl, inr,
}
use commlib.File.{
  FileStat, FileView, FileType, type_bits, dir, reg, lnk, blk, chr, fifo, sock, judge_file_type,
  file_is, ExecType, elf_exc, elf_dyn, elf_rel, elf_core, header_size, magic, has_prefix,
  script_type, header_type, head_bytes, opened_type, stat_type, file_execute_type, ElfType, exe,
  dyn, core, rel, elf_type,
}

judge-zero : (st : Option FileStat) (t : FileType) → judge_file_type st (type_bits t) ≡ false
unfolding judge_file_type
judge-zero none t = refl
judge-zero (some st) dir = rw (bit_and-zero st.mode)
judge-zero (some st) reg = rw (bit_and-zero st.mode)
judge-zero (some st) lnk = rw (bit_and-zero st.mode)
judge-zero (some st) blk = rw (bit_and-zero st.mode)
judge-zero (some st) chr = rw (bit_and-zero st.mode)
judge-zero (some st) fifo = rw (bit_and-zero st.mode)
judge-zero (some st) sock = rw (bit_and-zero st.mode)

-- The test of the file's type compares S_IFMT with the type before the mode is masked, so each of
-- file_is_dir, file_is_reg, file_is_lnk, file_is_blk, file_is_chr, file_is_fifo and file_is_sock
-- answers 0 for every file.
pub file_is-false : (t : FileType) (v : FileView) → file_is t v ≡ false
unfolding file_is
file_is-false t v = judge-zero v.stat t

-- A file that can be classified: it has a size, and opens as a descriptor above 0.
pub record IsOpened (v : FileView) (st : FileStat) (fd : ℕ) : Type 0 where
  pub stats : v.stat ≡ some st
  pub sized : (st.size == 0) ≡ false
  pub opens : v.fd ≡ some fd
  pub positive : (leb fd 0) ≡ false

-- For such a file the guard on its type is passed, regular or not.
file_execute_type-header :
    (v : FileView) (st : FileStat) (fd : ℕ)
    → IsOpened v st fd
    → file_execute_type v ≡ header_type st.mode (head_bytes v.content)
unfolding file_execute_type
file_execute_type-header v st fd o =
    rw (file_is-false reg v, o.stats, o.opens)
      (unfold stat_type opened_type in rw (o.sized, o.positive))

-- The kind of ELF file that a classification names, if it names one.
abbrev pub kind_of_exec : ExecType → Option ElfType
kind_of_exec elf_exc = some exe
kind_of_exec elf_dyn = some dyn
kind_of_exec elf_rel = some rel
kind_of_exec elf_core = some core
kind_of_exec _ = none

abbrev pub kind_of_elf : ElfType → Option ElfType
kind_of_elf exe = some exe
kind_of_elf dyn = some dyn
kind_of_elf rel = some rel
kind_of_elf core = some core
kind_of_elf _ = none

script_kind : (mode : ℕ) (buff : List ℕ) → kind_of_exec (script_type mode buff) ≡ none
unfolding script_type
script_kind mode buff = ground arith

header_kind :
    (mode fd : ℕ) (content : Option (List ℕ))
    → kind_of_exec (header_type mode (head_bytes content))
      ≡ kind_of_elf (elf_type (some fd) content)
unfolding header_type elf_type
header_kind mode fd content = elim (Bool-cases (length (head_bytes content) == header_size)) [
  | inr short ↦ rw (short, script_kind mode (head_bytes content))
  | inl whole ↦ elim (Bool-cases (has_prefix (head_bytes content) magic)) [
    | inr plain ↦ rw (whole, plain, script_kind mode (head_bytes content))
    | inl marked ↦ rw (whole, marked) (ground (arith, script_kind mode (head_bytes content)))
  ]
]

-- On a file with a size that opens as a descriptor above 0, file_execute_type and taskutil_elf_type
-- agree: one names an executable, a shared object, a relocatable or a core file exactly when the
-- other names the same.
pub file_execute_type-elf_type :
    (v : FileView) (st : FileStat) (fd : ℕ)
    → IsOpened v st fd
    → kind_of_exec (file_execute_type v) ≡ kind_of_elf (elf_type v.fd v.content)
file_execute_type-elf_type v st fd o =
    rw (file_execute_type-header v st fd o, o.opens) (header_kind st.mode fd v.content)
