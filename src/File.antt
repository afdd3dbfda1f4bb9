-- ===== src/File.antt =====
-- The classification of files: src/myfcp/fcp_file.c, and taskutil_elf_type of src/myfcp/fcp_proc.c.
-- The files themselves are parameters: what `stat`, `open` and `read` answer for the path.
mod Laws
mod Examples
use commlib.Base.{
  ℕ, ◌+◌, ◌*◌, Bool, true, false, not, Option, none, some, List, [], ◌∷◌, ◌==◌, ◌&&◌, ◌||◌, leb,
  ltb, if◌then◌else◌, length, get_or, take, bit_and, bit_or,
}

-- The two fields of `struct stat` that are read.
pub record FileStat : Type 0 where
  pub mode : ℕ
  pub size : ℕ

-- One path during a call: the answers of `stat` and `open`, with `none` for -1, and the file's
-- bytes, with `none` for a `read` that fails.
pub record FileView : Type 0 where
  pub stat : Option FileStat
  pub fd : Option ℕ
  pub content : Option (List ℕ)

-- S_IFMT, and the file types of <sys/stat.h>.
abbrev pub s_ifmt : ℕ
s_ifmt = 0o170000

pub data FileType : Type 0 where
  dir reg lnk blk chr fifo sock : FileType

abbrev pub type_bits : FileType → ℕ
type_bits dir = 0o040000
type_bits reg = 0o100000
type_bits lnk = 0o120000
type_bits blk = 0o060000
type_bits chr = 0o020000
type_bits fifo = 0o010000
type_bits sock = 0o140000

-- The value of `a == b` in C.
abbrev int_of : Bool → ℕ
int_of true = 1
int_of false = 0

-- `st.st_mode & S_IFMT == type` is `st.st_mode & (S_IFMT == type)`.
pub judge_file_type : Option FileStat → ℕ → Bool
judge_file_type none type = false
judge_file_type (some st) type =
    if bit_and st.mode (int_of (s_ifmt == type)) == 0 then false else true

-- file_is_dir, file_is_reg, file_is_lnk, file_is_blk, file_is_chr, file_is_fifo and file_is_sock.
pub file_is : FileType → FileView → Bool
file_is t v = judge_file_type v.stat (type_bits t)

-- The values EXEC_TYPE_.
pub data ExecType : Type 0 where
  notexec elf_exc elf_dyn elf_rel elf_core shell_scrpt python_scrpt suspicious_scrpt : ExecType

-- `sizeof(struct elf32_hdr)`.
abbrev pub header_size : ℕ
header_size = 52

abbrev pub magic : List ℕ
magic = 0x7f ∷ 69 ∷ 76 ∷ 70 ∷ []

-- "#!/bin/bash", "#!/bin/sh" and "#!/bin/python".
abbrev bin : List ℕ
bin = 35 ∷ 33 ∷ 47 ∷ 98 ∷ 105 ∷ 110 ∷ 47 ∷ []

abbrev bash_line : List ℕ
bash_line = 35 ∷ 33 ∷ 47 ∷ 98 ∷ 105 ∷ 110 ∷ 47 ∷ 98 ∷ 97 ∷ 115 ∷ 104 ∷ []

abbrev sh_line : List ℕ
sh_line = 35 ∷ 33 ∷ 47 ∷ 98 ∷ 105 ∷ 110 ∷ 47 ∷ 115 ∷ 104 ∷ []

abbrev python_line : List ℕ
python_line = 35 ∷ 33 ∷ 47 ∷ 98 ∷ 105 ∷ 110 ∷ 47 ∷ 112 ∷ 121 ∷ 116 ∷ 104 ∷ 111 ∷ 110 ∷ []

-- `!memcmp(s, t, length t)` and `!strncmp(s, t, length t)`, for a `t` without a zero. What lies
-- behind the bytes that were read is zero.
pub has_prefix : List ℕ → List ℕ → Bool
has_prefix s [] = true
has_prefix [] (c ∷ t) = false
has_prefix (b ∷ s) (c ∷ t) = b == c && has_prefix s t

-- `e_type`, two bytes at the offset 16.
pub e_type : List ℕ → ℕ
e_type buff = get_or buff 16 0 + get_or buff 17 0 * 256

-- S_IXUSR, S_IXGRP and S_IXOTH.
may_execute : ℕ → Bool
may_execute mode =
    not (bit_and mode 0o100 == 0) || not (bit_and mode 0o010 == 0) || not (bit_and mode 0o001 == 0)

-- The tests on the first lines of a script, and on the mode.
pub script_type : ℕ → List ℕ → ExecType
unfolding may_execute
script_type mode buff =
    if has_prefix buff bash_line || has_prefix buff sh_line
    then shell_scrpt
    else if has_prefix buff python_line
    then python_scrpt
    else if may_execute mode
    then suspicious_scrpt
    else notexec

-- The tests on a complete header; another type falls through to the scripts.
pub header_type : ℕ → List ℕ → ExecType
header_type mode buff =
    if length buff == header_size && has_prefix buff magic
    then if e_type buff == 2
      then elf_exc
      else if e_type buff == 3
      then elf_dyn
      else if e_type buff == 1
      then elf_rel
      else if e_type buff == 4
      then elf_core
      else script_type mode buff
    else script_type mode buff

-- What `read(fd, buff, sizeof(struct elf32_hdr))` leaves in the zeroed buffer.
abbrev pub head_bytes : Option (List ℕ) → List ℕ
head_bytes none = []
head_bytes (some bytes) = take header_size bytes

opened_type : ℕ → Option ℕ → Option (List ℕ) → ExecType
opened_type mode none content = notexec
opened_type mode (some fd) content =
    if leb fd 0 then notexec else header_type mode (head_bytes content)

stat_type : Option FileStat → Option ℕ → Option (List ℕ) → ExecType
unfolding opened_type
stat_type none fd content = notexec
stat_type (some st) fd content = if st.size == 0 then notexec else opened_type st.mode fd content

pub file_execute_type : FileView → ExecType
unfolding stat_type
file_execute_type v =
    if file_is reg v && not (file_is lnk v) then notexec else stat_type v.stat v.fd v.content

-- The values ELF_TYPE_ of fcp_proc.h.
pub data ElfType : Type 0 where
  error exe dyn core rel other : ElfType

-- taskutil_elf_type. The stream opens when `open` gives a descriptor; `none` is `fopen`'s NULL.
pub elf_type : Option ℕ → Option (List ℕ) → ElfType
elf_type none content = error
elf_type (some fd) content =
    let hdr = head_bytes content in
    if not (length hdr == header_size)
    then other
    else if not (has_prefix hdr magic)
    then other
    else if e_type hdr == 1
    then rel
    else if e_type hdr == 2
    then exe
    else if e_type hdr == 3
    then dyn
    else if e_type hdr == 4
    then core
    else other

-- O_CLOEXEC, and fileutil_open_on_closeexec where the system has it: the flags that `open` is
-- given, and the descriptor that is returned; `none` is -1. A `none` path is NULL.
abbrev pub o_cloexec : ℕ
o_cloexec = 0o2000000

pub open_on_closeexec : (ℕ → Option ℕ) → Option (List ℕ) → ℕ → Option ℕ
open_on_closeexec open_file none flags = none
open_on_closeexec open_file (some []) flags = none
open_on_closeexec open_file (some (c ∷ s)) flags = open_file (bit_or flags o_cloexec)
