-- ===== src/Proc/CpuTime/Examples.antt =====
-- Two threads of the process 7, one of which has ended before its file is opened.
use commlib.Base.{arith, ℕ, ◌≡◌, ◌++◌, refl, Option, none, some, List, [], ◌∷◌, if◌then◌else◌}
use commlib.Libc.{pos, same, decimal}
use commlib.Directory.{Dirent, dt_dir, full_path}
use commlib.Directory.Laws.{no_failure}
use commlib.Proc.{Files, task_dir, schedstat, process_cpu_mtime}
use commlib.Proc.CpuTime.Line.{Schedule, IsSchedule, schedule_text}
use commlib.Proc.CpuTime.{process_cpu_mtime-threads}

abbrev entry : List ℕ → Dirent
entry name = record { d_name = name; d_type = dt_dir }

abbrev task_entries : List Dirent
task_entries = entry (b'.' ∷ []) ∷ entry (b'7' ∷ []) ∷ entry (b'9' ∷ []) ∷ []

-- "2000001 5 1".
abbrev two_milliseconds : Schedule
two_milliseconds = record {
  first = 2;
  digits = 0 ∷ 0 ∷ 0 ∷ 0 ∷ 0 ∷ 1 ∷ [];
  more = b'5' ∷ b' ' ∷ b'1' ∷ [];
}

two_milliseconds-IsSchedule : IsSchedule two_milliseconds
two_milliseconds-IsSchedule = (
  (
    omega arith,
    (omega arith, (omega arith, (omega arith, (omega arith, (omega arith, (omega arith, tt)))))),
  ),
  (refl, (refl, (refl, tt))),
  omega arith,
)

abbrev ended : List ℕ
ended = task_dir 7 ++ b'9' ∷ []

abbrev schedule : List ℕ → Option Schedule
schedule path = if same path ended then none else some two_milliseconds

abbrev schedule_files : Files
schedule_files path =
    if same path (ended ++ schedstat) then none else some (schedule_text two_milliseconds)

process_cpu_mtime-threads_example :
    process_cpu_mtime no_failure (some task_entries) schedule_files 4 7 ≡ some (pos 2)
unfolding decimal same full_path task_dir
process_cpu_mtime-threads_example =
    process_cpu_mtime-threads schedule_files schedule task_entries 7 3
      ((two_milliseconds-IsSchedule, refl), ((tt, refl), tt)) (omega arith) (omega arith)
