-- ===== src/Proc.antt =====
-- src/myfcp/fcp_proc.c but taskutil_elf_type: what /proc tells of processes, and daemons. The files
-- are a parameter: the bytes of the file at a path, with `none` for one that does not open.
pub mod Stat
pub mod Cmdline
pub mod Daemon
pub mod CpuTime
mod Examples
use commlib.Base.{
  ℕ, zero, suc, ◌+◌, ◌-◌, ◌/◌, ◌%◌, ◌^◌, Bool, true, false, Option, none, some, List, [], ◌∷◌, ◌++◌,
  ◌==◌, leb, if◌then◌else◌, length, replicate,
}
use commlib.Directory.{
  Dirent, Memory, Item, zero_item, Step, ret_ok, ret_err, null_read, foreach_dir_entry, path_of,
}
use commlib.Libc.{ℤ, pos, negsuc, negate, strtol, strtoul, decimal, fgets}

-- The bytes of a file.
abbrev pub Files : Type 0
Files = List ℕ → Option (List ℕ)

-- "/proc/".
abbrev pub proc_slash : List ℕ
proc_slash = b'/' ∷ b'p' ∷ b'r' ∷ b'o' ∷ b'c' ∷ b'/' ∷ []

-- What `read` answers in turn: bytes, a failure with EINTR, or another failure.
pub data ReadAnswer : Type 0 where
  bytes : List ℕ → ReadAnswer
  interrupted failed : ReadAnswer

-- The `int` that a `unsigned int` is converted to.
abbrev pub to_int : ℕ → ℤ
to_int n = if leb (2 ^ 31) n then negate (2 ^ 32 - n) else pos n

-- `strtoul`, and the test of `errno`.
session_of : List ℕ → ℤ
session_of buff =
    if leb 16 (length buff)
    then negsuc 0
    else if leb (2 ^ 64) (strtol 10 buff).1
    then negsuc 0
    else to_int (strtoul 10 buff % 2 ^ 32)

-- taskutil_current_session after `open`: the loop reads again while it is interrupted. Answers that
-- have run out are a failure.
pub read_session : List ReadAnswer → ℤ
unfolding session_of
read_session [] = negsuc 0
read_session (interrupted ∷ answers) = read_session answers
read_session (failed ∷ answers) = negsuc 0
read_session (bytes buff ∷ answers) = session_of buff

pub current_session : Option ℕ → List ReadAnswer → ℤ
unfolding read_session
current_session none answers = negsuc 0
current_session (some fd) answers = read_session answers

-- "/proc/sys/kernel/pid_max" as an open file.
pub process_max_number : Option (List ℕ) → ℤ
process_max_number none = negsuc 0
process_max_number (some file) = elim (fgets 20 file) [
  | none ↦ negsuc 0
  | some (line, rest) ↦ let (minus, n) = strtol 10 line in if minus then negate n else pos n
]

-- `kill(pid, SIGKILL) != 0`.
pub kill_task : (ℕ → Bool) → ℕ → Bool
kill_task kill pid = if kill pid then true else false

-- "/schedstat".
abbrev schedstat : List ℕ
schedstat = b'/' ∷ b's' ∷ b'c' ∷ b'h' ∷ b'e' ∷ b'd' ∷ b's' ∷ b't' ∷ b'a' ∷ b't' ∷ []

-- What one thread adds to the sum, as a number of 32 bits: the milliseconds of the nanoseconds that
-- stand first in its file.
pub thread_time : Files → List ℕ → ℕ
thread_time files path = elim (files (path ++ schedstat)) [
  | none ↦ 0
  | some file ↦ elim (fgets 256 file) [
    | none ↦ 0
    | some (line, rest) ↦
        let (minus, nt) = strtol 10 line in
        let milliseconds = nt / 1000000 % 2 ^ 32 in
        if minus then (2 ^ 32 - milliseconds) % 2 ^ 32 else milliseconds
  ]
]

-- "/proc/%u/task/".
pub task_dir : ℕ → List ℕ
task_dir pid = proc_slash ++ (decimal pid ++ (b'/' ∷ b't' ∷ b'a' ∷ b's' ∷ b'k' ∷ b'/' ∷ []))

-- The loop of process_cpu_mtime; `none` is a NULL read, or a round more than the fuel. The sum is kept
-- as the 32 bits of an `int`.
module _ (mem : Memory) (dir : Option (List Dirent)) (files : Files) (path : List ℕ) where
  pub mtime_loop : ℕ → Item → ℕ → Option ℕ
  mtime_loop zero item summt = none
  mtime_loop (suc n) item summt = elim (foreach_dir_entry mem path dir item) [
    | null_read ↦ none
    | ret_err item' ↦ some summt
    | ret_ok item' ↦ mtime_loop n item' ((summt + thread_time files (path_of item'.text)) % 2 ^ 32)
  ]

pub process_cpu_mtime : Memory → Option (List Dirent) → Files → ℕ → ℕ → Option ℤ
unfolding mtime_loop
process_cpu_mtime mem dir files fuel pid =
    elim (mtime_loop mem dir files (task_dir pid) fuel zero_item 0) [
      | none ↦ none
      | some summt ↦ some (to_int summt)
    ]
