-- ===== src/Lock/Examples.antt =====
-- A machine with one file that can be locked.
use commlib.Base.{ℕ, suc, ◌≤◌, ◌≡◌, refl, Bool, true, false, none, some, List, [], ◌∷◌, not}
use commlib.Libc.{negsuc}
use commlib.Lock.{Files, program_is_running}
use commlib.Lock.Laws.{LockLaws, runners, program_is_running-runners}

-- The next descriptor, and whether the file has a lock.
abbrev Machine : Type 0
Machine = ℕ × Bool

abbrev machine : Files Machine
machine = record {
  open_file = λ s path. ((suc s.0, s.1), some s.0);
  flock = λ s fd. ((s.0, true), not s.1);
  close_file = λ s fd. s;
}

abbrev Locked : Machine → Type 0
Locked s = s.1 ≡ true

machine_laws : (path : List ℕ) → LockLaws machine path Locked
machine_laws path = record {
  open_keeps = λ s held. held;
  refused = λ s fd held e. rw held;
  refusal_keeps = λ s fd held e. refl;
  granted = λ s fd e grant. refl;
}

program_is_running-runners_example :
    (runners machine (b'p' ∷ []) 5 (9, true) ≤ 1) × (runners machine (b'p' ∷ []) 3 (7, false) ≡ 1)
program_is_running-runners_example =
    program_is_running-runners machine (b'p' ∷ []) Locked 5 2 7 (7, false) (9, true)
      (machine_laws (b'p' ∷ [])) refl refl

no_path : program_is_running machine (7, false) none ≡ ((7, false), negsuc 0)
unfolding program_is_running
no_path = refl
