-- ===== src/Directory/Owned/Examples.antt =====
-- /proc with two processes, where the fourth call of `malloc` fails, and where a callback stops the
-- loop.
use commlib.Base.{arith, ℕ, ◌≡◌, refl, Bool, true, false, not, none, some, List, [], ◌∷◌, ◌==◌}
use commlib.Directory.{
  Dirent, dt_dir, proc_dir, read_entry, full_path, is_proc_path, foreach_inode_entry,
}
use commlib.Directory.Owned.{Pool, clear_item, owned_entry, owned_find}
use commlib.Directory.Owned.Laws.{idle, Result}
use commlib.Directory.Owned.Find.{owned_find_released}
use commlib.Directory.Owned.Refine.{
  erase_step, erase_item, answers, owned_entry-foreach_inode_entry,
}

abbrev two_processes : List Dirent
two_processes =
    record { d_name = b'7' ∷ []; d_type = dt_dir }
    ∷ record { d_name = b'9' ∷ []; d_type = dt_dir }
    ∷ []

abbrev fourth_fails : ℕ → Bool
fourth_fails i = not (i == 3)

-- Two blocks and a stream of the program itself.
abbrev some_pool : Pool
some_pool = record { mallocs = 0; opens = 5; live = 70 ∷ 71 ∷ []; dirs = 4 ∷ [] }

abbrev remember : Bool → List ℕ → List (List ℕ) → List (List ℕ) × Bool
remember stops path seen = (path ∷ seen, stops)

owned_find_released_example :
    (seen : List (List ℕ)) × (p' : Pool) × (owned_find fourth_fails
        (some two_processes)
        (remember false)
        3
        clear_item
        []
        some_pool
      ≡ some (seen, p'))
    × (p'.live ≡ 70 ∷ 71 ∷ [])
    × (p'.dirs ≡ 4 ∷ [])
owned_find_released_example =
    owned_find_released fourth_fails (some two_processes) (remember false) 2 [] some_pool
      (omega arith)

owned_entry-foreach_inode_entry_example :
    let step = owned_entry fourth_fails proc_dir (some two_processes) dt_dir clear_item some_pool in
    (erase_step step
      ≡ foreach_inode_entry
          (answers fourth_fails clear_item some_pool)
          proc_dir
          (some two_processes)
          dt_dir
          (erase_item clear_item))
    × Result (70 ∷ 71 ∷ []) (4 ∷ []) 2 step
owned_entry-foreach_inode_entry_example =
    owned_entry-foreach_inode_entry (70 ∷ 71 ∷ []) (4 ∷ []) fourth_fails dt_dir proc_dir
      (some two_processes) (idle none some_pool refl refl (omega arith))

-- One process is seen before the fourth call of `malloc` fails, or before the callback stops.
seen_before :
    (owned_find fourth_fails (some two_processes) (remember false) 3 clear_item [] some_pool
      ≡ some (
        (b'/' ∷ b'p' ∷ b'r' ∷ b'o' ∷ b'c' ∷ b'/' ∷ b'7' ∷ []) ∷ [],
        record { mallocs = 4; opens = 6; live = 70 ∷ 71 ∷ []; dirs = 4 ∷ [] },
      ))
    × (owned_find (λ i. true) (some two_processes) (remember true) 3 clear_item [] some_pool
        ≡ some (
          (b'/' ∷ b'p' ∷ b'r' ∷ b'o' ∷ b'c' ∷ b'/' ∷ b'7' ∷ []) ∷ [],
          record { mallocs = 3; opens = 6; live = 70 ∷ 71 ∷ []; dirs = 4 ∷ [] },
        ))
unfolding owned_find owned_entry read_entry is_proc_path full_path
seen_before = (refl, refl)
