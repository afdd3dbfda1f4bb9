-- ===== src/Proc/CpuTime.antt =====
-- process_cpu_mtime of src/myfcp/fcp_proc.c over the directory iterator of src/myfcp/general.c.
pub mod Line
mod Examples
use commlib.Base.{
  leb, ℕ, zero, suc, ◌+◌, ◌*◌, ◌/◌, ◌%◌, ◌^◌, ◌<◌, ◌≤◌, ◌≡◌, ◌∙◌, refl, sym, ap, Bool, true, false,
  Option, none, some, List, [], ◌∷◌, ◌++◌, ◌==◌, arith, All, All-append, length, length-append,
  append_assoc, ltb,
}
use commlib.Libc.{ℤ, pos, strtol, digits_from, digit, is_space, without_0x, signed_digits, fgets}
use commlib.Directory.{
  Dirent, Item, zero_item, dt_dir, Step, ret_ok, ret_err, null_read, foreach_dir_entry,
  foreach_inode_entry, path_of,
}
use commlib.Directory.Laws.{
  no_failure, round, walk, paths_of, deliver, foreach_dir_entry_lem, walk-paths_of,
}
use commlib.Proc.CpuTime.Line.{
  Schedule, IsSchedule, schedule_text, value_from, strtol-schedule_text, fgets-schedule_text,
}
use commlib.Proc.{Files, schedstat, thread_time, task_dir, to_int, mtime_loop, process_cpu_mtime}

-- A sum over the threads' directories.
abbrev pub sum_over : (List ℕ → ℕ) → List (List ℕ) → ℕ
sum_over time [] = 0
sum_over time (path ∷ paths) = time path + sum_over time paths

module _ (files : Files) (path : List ℕ) (dir : List Dirent) where
  -- What the loop makes of the paths that the iterator delivers.
  abbrev sum_of : ℕ → Option (List (List ℕ) × Item) → Option ℕ
  sum_of s none = none
  sum_of s (some (paths, item)) = some ((s + sum_over (thread_time files) paths) % 2 ^ 32)

  sum_of-deliver :
      (s : ℕ) (full : List ℕ) (r : Option (List (List ℕ) × Item))
      → sum_of ((s + thread_time files full) % 2 ^ 32) r ≡ sum_of s (deliver full r)
  sum_of-deliver s full none = refl
  sum_of-deliver s full (some (paths, item)) = ap some (omega arith)

  mtime_loop-walk :
      (n : ℕ) (item : Item) (s : ℕ)
      → s < 2 ^ 32
      → mtime_loop no_failure (some dir) files path n item s
        ≡ sum_of s (walk n path dir dt_dir item)
  unfolding mtime_loop
  mtime_loop-walk zero item s small = refl
  mtime_loop-walk (suc n) item s small =
      rw (mtime_loop, foreach_dir_entry_lem no_failure path (some dir) item)
        (after (mtime_loop-walk n) (foreach_inode_entry no_failure path (some dir) dt_dir item))
    where
      after :
          ((item : Item) (s : ℕ)
            → s < 2 ^ 32
            → mtime_loop no_failure (some dir) files path n item s
              ≡ sum_of s (walk n path dir dt_dir item))
          → (step : Step)
          → elim step [
            | null_read ↦ none
            | ret_err item' ↦ some s
            | ret_ok item' ↦
                mtime_loop no_failure
                  (some dir)
                  files
                  path
                  n
                  item'
                  ((s + thread_time files (path_of item'.text)) % 2 ^ 32)
          ]
            ≡ sum_of s (round step (walk n path dir dt_dir))
      after later null_read = refl
      after later (ret_err item') = ap some (omega (arith, small))
      after later (ret_ok item') =
          later item' ((s + thread_time files (path_of item'.text)) % 2 ^ 32) (omega arith)
          ∙ sum_of-deliver s (path_of item'.text) (walk n path dir dt_dir item')

-- The milliseconds of a thread; a thread that has ended has no file.
abbrev pub milliseconds : Option Schedule → ℕ
milliseconds none = 0
milliseconds (some t) = value_from 0 (t.first ∷ t.digits) / 1000000

-- The file of a thread as the kernel writes it.
abbrev pub schedule_file : Option Schedule → Option (List ℕ)
schedule_file none = none
schedule_file (some t) = some (schedule_text t)

abbrev pub IsScheduled : Option Schedule → Type 0
IsScheduled none = Unit
IsScheduled (some t) = IsSchedule t

module _ (files : Files) (schedule : List ℕ → Option Schedule) where
  -- The file of the thread says what the schedule does.
  abbrev pub Reads : List ℕ → Type 0
  Reads path =
      IsScheduled (schedule path) × (files (path ++ schedstat) ≡ schedule_file (schedule path))

  thread_time-milliseconds :
      (path : List ℕ) (t : Option Schedule)
      → IsScheduled t
      → files (path ++ schedstat) ≡ schedule_file t
      → thread_time files path ≡ milliseconds t % 2 ^ 32
  unfolding thread_time
  thread_time-milliseconds path none h e = rw (thread_time, e)
  thread_time-milliseconds path (some t) h e =
      rw (thread_time, e, fgets-schedule_text t h, strtol-schedule_text t h) refl

  sum_over-milliseconds :
      (paths : List (List ℕ))
      → All Reads paths
      → sum_over (thread_time files) paths % 2 ^ 32
        ≡ sum_over (λ path. milliseconds (schedule path)) paths % 2 ^ 32
  sum_over-milliseconds [] h = refl
  sum_over-milliseconds (path ∷ paths) h = omega (
    arith,
    thread_time-milliseconds path (schedule path) h.0.0 h.0.1,
    sum_over-milliseconds paths h.1,
  )

  -- Where the directory of the threads opens and every malloc of the iterator succeeds, and every file
  -- of a thread either does not open or says the thread's nanoseconds as the kernel writes them,
  -- process_cpu_mtime ends and returns the sum of the milliseconds of the threads, if that
  -- fits an int. It takes at most one call of the iterator more than the directory has entries.
  pub process_cpu_mtime-threads :
      (dir : List Dirent) (pid n : ℕ)
      → All Reads (paths_of dt_dir (task_dir pid) dir)
      → length dir ≤ n
      → let total =
          sum_over (λ path. milliseconds (schedule path)) (paths_of dt_dir (task_dir pid) dir) in
        total < 2 ^ 31
        → process_cpu_mtime no_failure (some dir) files (suc n) pid ≡ some (pos total)
  unfolding process_cpu_mtime
  process_cpu_mtime-threads dir pid n h enough small =
      let total =
        sum_over (λ path. milliseconds (schedule path)) (paths_of dt_dir (task_dir pid) dir) in
      let walked = walk-paths_of (task_dir pid) dir dt_dir n enough in
      let times = sum_over-milliseconds (paths_of dt_dir (task_dir pid) dir) h in
      let whole : (0 + sum_over (thread_time files) (paths_of dt_dir (task_dir pid) dir)) % 2 ^ 32
          ≡ total =
        omega (arith, times, small) in
      let no_sign : leb (2 ^ 31) total ≡ false = ground (arith, small) in
      rw
        (
          process_cpu_mtime,
          mtime_loop-walk files (task_dir pid) dir (suc n) zero_item 0 (omega arith),
          walked,
          whole,
          no_sign,
        )
        refl
