-- ===== src/Proc/Daemon.antt =====
-- taskutil_task_to_daemon of src/myfcp/fcp_proc.c: what becomes of the process that calls it.
pub mod Laws
use commlib.Base.{
  ℕ, zero, suc, ◌+◌, ◌-◌, Bool, true, false, Option, none, some, ◌==◌, ltb, if◌then◌else◌,
}

-- What a descriptor leads to.
pub data Target : Type 0 where
  dev_null : Target
  other : ℕ → Target

pub record Task : Type 0 where
  -- Whether it leads its session, and whether the session is a new one.
  pub leads : Bool
  pub detached : Bool
  pub fds : ℕ → Option Target
  pub in_root : Bool
  pub ignores_children : Bool
  pub mask : ℕ

-- The two sides of `fork`, and -1.
pub data ForkAnswer : Type 0 where
  parent child failed : ForkAnswer

-- `rlim_max`.
pub data Limit : Type 0 where
  infinity : Limit
  files : ℕ → Limit

-- What the system calls answer: the two forks, `setsid`, the descriptor of /dev/null, `getrlimit`
-- and `chdir`. `none` and `false` are -1.
pub record Answers : Type 0 where
  pub first_fork : ForkAnswer
  pub new_session : Bool
  pub second_fork : ForkAnswer
  pub null_fd : Option ℕ
  pub limit : Option Limit
  pub changes_dir : Bool

-- The arguments; `true` is not 0.
pub record Options : Type 0 where
  pub nochdir : Bool
  pub nofileclose : Bool
  pub nostdclose : Bool
  pub nochildign : Bool

-- The process ends with the status 0 or not, or it returns from the function.
pub data Outcome : Type 0 where
  exited : Bool → Outcome
  running : Task → Outcome

abbrev pub put_fd : (ℕ → Option Target) → ℕ → Option Target → ℕ → Option Target
put_fd fds fd target n = if n == fd then target else fds n

-- `for (i = 0; i < 3; i++) dup2(tmpfd, i)`, from `i` on with the rounds left.
pub dup_loop : ℕ → ℕ → Option Target → (ℕ → Option Target) → ℕ → Option Target
dup_loop zero i target fds = fds
dup_loop (suc n) i target fds = dup_loop n (i + 1) target (put_fd fds i target)

-- Where /dev/null does not open, `dup2` fails and nothing changes.
pub redirect : Option ℕ → (ℕ → Option Target) → ℕ → Option Target
unfolding dup_loop
redirect none fds = fds
redirect (some tmpfd) fds =
    let duplicated = dup_loop 3 0 (some dev_null) (put_fd fds tmpfd (some dev_null)) in
    if ltb 2 tmpfd then put_fd duplicated tmpfd none else duplicated

-- `for(i=3; i<filenum; i++) close(i)`, from `i` on with the rounds left.
pub close_loop : ℕ → ℕ → (ℕ → Option Target) → ℕ → Option Target
close_loop zero i fds = fds
close_loop (suc n) i fds = close_loop n (i + 1) (put_fd fds i none)

abbrev pub file_number : Limit → ℕ
file_number infinity = 1024
file_number (files n) = n

-- The last three blocks.
settle : Options → Answers → Task → Outcome
settle o a t =
    let quiet = λ (t : Task). running (record t {
      ignores_children = if o.nochildign then t.ignores_children else true;
      mask = 0;
    }) in
    if o.nochdir
    then quiet t
    else if a.changes_dir
    then quiet (record t { in_root = true })
    else exited false

close_files : Options → Answers → Task → Outcome
unfolding close_loop settle
close_files o a t = if o.nofileclose then settle o a t else elim a.limit [
  | none ↦ exited false
  | some limit ↦ settle o a (record t { fds = close_loop (file_number limit - 3) 3 t.fds })
]

second_child : Options → Answers → Task → Outcome
unfolding redirect close_files
second_child o a t =
    close_files o a
      (record t { leads = false; fds = if o.nostdclose then t.fds else redirect a.null_fd t.fds })

fork_again : Options → Answers → Task → Outcome
unfolding second_child
fork_again o a t = elim a.second_fork [
  | parent ↦ exited true
  | failed ↦ exited false
  | child ↦ second_child o a t
]

unfoldable pub to_daemon : Options → Answers → Task → Outcome
unfolding fork_again
to_daemon o a t = elim a.first_fork [
  | parent ↦ exited true
  | failed ↦ exited false
  | child ↦
      if a.new_session
      then fork_again o a (record t { leads = true; detached = true })
      else exited false
]
