-- ===== src/Proc/Stat.antt =====
-- taskutil_task_proc_stat and taskutil_kernel_task of src/myfcp/fcp_proc.c.
pub mod Laws
use commlib.Base.{
  ℕ, zero, suc, ◌+◌, ◌-◌, ◌*◌, ◌/◌, ◌%◌, ◌^◌, Bool, true, false, Option, none, some, List, [], ◌∷◌,
  ◌++◌, ◌==◌, if◌then◌else◌, get_elem?, take, drop, replicate, bit_and,
}
use commlib.Libc.{ℤ, pos, negsuc, to_u32, atoi, same, fgets, put_line, decimal}
use commlib.Proc.{to_int}
use commlib.Words.{Fields, fields, ret_err, fault, general_get_field, texts}

-- `enum task_state`.
pub data TaskState : Type 0 where
  running interruptible uninterruptible zombie stopped traced dead unknown : TaskState

-- `struct task_proc_stat`.
pub record TaskStat : Type 0 where
  pub pid : ℕ
  pub comm : List ℕ
  pub state : TaskState
  pub ppid : ℕ
  pub pgid : ℕ
  pub session : ℕ
  pub tty_nr_major : ℕ
  pub tty_nr_minor : ℕ
  pub tpgid : ℤ
  pub flags : ℤ

-- `major` and `minor` of <sys/sysmacros.h>, on the number as an `unsigned long`.
abbrev device : ℤ → ℕ
device (pos n) = n
device (negsuc n) = 2 ^ 64 - 1 - n

pub major : ℤ → ℕ
major tty =
    let dev = device tty in (dev / 2 ^ 8 % 2 ^ 12 + (dev / 2 ^ 32 - dev / 2 ^ 32 % 2 ^ 12)) % 2 ^ 32

pub minor : ℤ → ℕ
minor tty = let dev = device tty in (dev % 2 ^ 8 + (dev / 2 ^ 12 - dev / 2 ^ 12 % 2 ^ 8)) % 2 ^ 32

-- `comm[strlen(comm) - 1] = '\0'` where that byte is a bracket. An empty `comm` is left, unless the
-- byte before it, the highest of `pid`, is a bracket; it is not in a pid.
pub cut_bracket : List ℕ → List ℕ
cut_bracket [] = []
cut_bracket (c ∷ []) = if c == b')' then [] else c ∷ []
cut_bracket (c ∷ d ∷ s) = c ∷ cut_bracket (d ∷ s)

-- `snprintf` of what stands behind the first byte.
pub comm_of : List ℕ → List ℕ
unfolding cut_bracket
comm_of text = cut_bracket (take 255 (drop 1 text))

unfoldable pub state_of : List ℕ → TaskState
state_of text =
    if same (b'R' ∷ []) text
    then running
    else if same (b'S' ∷ []) text
    then interruptible
    else if same (b'D' ∷ []) text
    then uninterruptible
    else if same (b'Z' ∷ []) text
    then zombie
    else if same (b'T' ∷ []) text
    then stopped
    else if same (b't' ∷ []) text
    then traced
    else if same (b'X' ∷ []) text
    then dead
    else if same (b'x' ∷ []) text
    then dead
    else unknown

-- `if(NULL != field[i]) …`.
abbrev with_field {ℓ} : {A : Type ℓ} → List (List ℕ) → ℕ → (List ℕ → A → A) → A → A
with_field field i f a = elim (get_elem? field i) [ none ↦ a | some text ↦ f text a ]

-- The nine blocks that read the fields; an `int` keeps the low 32 bits of the number.
pub read_fields : List (List ℕ) → TaskStat → TaskStat
unfolding major minor comm_of state_of
read_fields field s =
    let s0 = with_field field 0 (λ t (s : TaskStat). record s { pid = to_u32 (atoi t) }) s in
    let s1 = with_field field 1 (λ t (s : TaskStat). record s { comm = comm_of t }) s0 in
    let s2 = with_field field 2 (λ t (s : TaskStat). record s { state = state_of t }) s1 in
    let s3 = with_field field 3 (λ t (s : TaskStat). record s { ppid = to_u32 (atoi t) }) s2 in
    let s4 = with_field field 4 (λ t (s : TaskStat). record s { pgid = to_u32 (atoi t) }) s3 in
    let s5 = with_field field 5 (λ t (s : TaskStat). record s { session = to_u32 (atoi t) }) s4 in
    let s6 =
      with_field field 6
        (λ t (s : TaskStat). record s {
          tty_nr_major = major (to_int (to_u32 (atoi t)));
          tty_nr_minor = minor (to_int (to_u32 (atoi t)));
        })
        s5 in
    let s7 =
      with_field field 7 (λ t (s : TaskStat). record s { tpgid = to_int (to_u32 (atoi t)) }) s6 in
    with_field field 8 (λ t (s : TaskStat). record s { flags = to_int (to_u32 (atoi t)) }) s7

-- How a call ends; `fault` is an access outside of the buffer.
pub data StatResult : Type 0 where
  stat : TaskStat → StatResult
  stat_err stat_fault : StatResult

-- "/proc/%u/stat".
pub stat_path : ℕ → List ℕ
stat_path pid =
    b'/'
    ∷ b'p'
    ∷ b'r'
    ∷ b'o'
    ∷ b'c'
    ∷ b'/'
    ∷ (decimal pid ++ (b'/' ∷ b's' ∷ b't' ∷ b'a' ∷ b't' ∷ []))

-- The answer of general_get_field.
pub take_fields : Fields → TaskStat → StatResult
unfolding read_fields
take_fields ret_err s = stat_err
take_fields fault s = stat_fault
take_fields (fields buff offsets) s = stat (read_fields (texts buff offsets) s)

-- The file's path as an open file, and `pstat` as it was.
pub parse_stat : Option (List ℕ) → TaskStat → StatResult
unfolding take_fields
parse_stat none s = stat_err
parse_stat (some file) s = elim (fgets 2048 file) [
  | none ↦ stat_err
  | some (line, rest) ↦ take_fields (general_get_field (put_line line (replicate 2048 0)) b' ' 9) s
]

-- `exists` is the answer of `stat`.
pub task_proc_stat : (List ℕ → Bool) → (List ℕ → Option (List ℕ)) → ℕ → TaskStat → StatResult
unfolding parse_stat
task_proc_stat exists files pid s =
    if exists (stat_path pid) then parse_stat (files (stat_path pid)) s else stat_err

abbrev pub zero_stat : TaskStat
zero_stat = record {
  pid = 0;
  comm = [];
  state = running;
  ppid = 0;
  pgid = 0;
  session = 0;
  tty_nr_major = 0;
  tty_nr_minor = 0;
  tpgid = pos 0;
  flags = pos 0;
}

-- Whether a kernel thread was found; `none` is a fault.
pub is_kernel : StatResult → Option Bool
is_kernel stat_err = some false
is_kernel stat_fault = none
is_kernel (stat s) = some (if bit_and (to_u32 s.flags) 0x00200000 == 0 then false else true)

pub kernel_task : (List ℕ → Bool) → (List ℕ → Option (List ℕ)) → ℕ → Option Bool
unfolding is_kernel
kernel_task exists files pid = is_kernel (task_proc_stat exists files pid zero_stat)
