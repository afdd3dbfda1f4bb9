-- ===== src/Directory/Examples.antt =====
-- A /proc with two processes, a directory of another name, and a file.
use commlib.Base.{ℕ, ◌≡◌, refl, Bool, true, false, some, List, [], ◌∷◌, ◌++◌, arith, All}
use commlib.Directory.{
  Dirent, zero_item, dt_dir, dt_reg, proc_dir, find_proc_pid, atoi, behind_slash, is_proc_path,
}
use commlib.Directory.Laws.{no_failure, walk, Listed, without_slash, foreach_inode_entry-Listed}
use commlib.Directory.Procs.{visit}
use commlib.Directory.Procs.Numbered.{IsName, Visits, find_proc_pid-Visits}

abbrev named : ℕ → List ℕ → Dirent
named type name = record { d_name = name; d_type = type }

-- ".", "bus", "7", "file" and "12".
abbrev proc_entries : List Dirent
proc_entries =
    named dt_dir (46 ∷ [])
    ∷ named dt_dir (98 ∷ 117 ∷ 115 ∷ [])
    ∷ named dt_dir (55 ∷ [])
    ∷ named dt_reg (102 ∷ 105 ∷ 108 ∷ 101 ∷ [])
    ∷ named dt_dir (49 ∷ 50 ∷ [])
    ∷ []

foreach_inode_entry-Listed_example :
    (paths : List (List ℕ)) × Listed dt_dir (proc_dir ++ b'/' ∷ []) proc_entries paths
    × (walk 6 proc_dir proc_entries dt_dir zero_item ≡ some (paths, zero_item))
foreach_inode_entry-Listed_example =
    foreach_inode_entry-Listed proc_dir (proc_dir ++ b'/' ∷ []) proc_entries dt_dir 5
      (without_slash (b'/' ∷ b'p' ∷ b'r' ∷ b'o' ∷ []) b'c' (λ e. omega (arith, e))) (omega arith)

-- The callback keeps the paths, and stops where it is told so.
abbrev collect : Bool → List ℕ → List (List ℕ) → List (List ℕ) × Bool
collect stop path seen = (path ∷ seen, stop)

proc_entries-IsName : All IsName proc_entries
proc_entries-IsName = (
  ((refl, tt), (omega arith, refl, refl)),
  (
    ((refl, (refl, (refl, tt))), (omega arith, refl, refl)),
    (
      ((refl, tt), (omega arith, refl, refl)),
      (
        ((refl, (refl, (refl, (refl, tt)))), (omega arith, refl, refl)),
        (((refl, (refl, tt)), (omega arith, refl, refl)), tt),
      ),
    ),
  ),
)

find_proc_pid-Visits_example :
    (seen : List (List ℕ)) × (find_proc_pid no_failure (some proc_entries) (collect true) 6 []
      ≡ some seen)
    × Visits (collect true) proc_entries [] seen
find_proc_pid-Visits_example =
    find_proc_pid-Visits proc_entries (collect true) 5 [] proc_entries-IsName (omega arith)

abbrev path_7 : List ℕ
path_7 = 47 ∷ 112 ∷ 114 ∷ 111 ∷ 99 ∷ 47 ∷ 55 ∷ []

abbrev path_12 : List ℕ
path_12 = 47 ∷ 112 ∷ 114 ∷ 111 ∷ 99 ∷ 47 ∷ 49 ∷ 50 ∷ []

visited_processes :
    (visit (collect false) [] (path_7 ∷ path_12 ∷ []) ≡ path_12 ∷ path_7 ∷ [])
    × (visit (collect true) [] (path_7 ∷ path_12 ∷ []) ≡ path_7 ∷ [])
unfolding is_proc_path behind_slash atoi
visited_processes = (refl, refl)
