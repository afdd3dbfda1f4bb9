-- ===== src/Lock/Laws.antt =====
-- At most one of the programs that ask for the same path runs.
use commlib.Base.{
  ℕ, zero, suc, ◌≤◌, ◌≡◌, ◌∙◌, refl, ap, true, false, some, List, arith, Bool-cases, Option-cases,
  inl, inr,
}
use commlib.Libc.{ℤ, pos, negsuc}
use commlib.Lock.{Files, lock_file, program_is_running}

-- What flock(2) documents of the lock on the file of a path, where `locked` says that some descriptor
-- holds it: a second descriptor is refused, and opening, being refused and closing a refused
-- descriptor leave the lock; a grant makes it.
pub record LockLaws {S : Type 0} (files : Files S) (path : List ℕ) (locked : S → Type 0)
    : Type 0 where
  pub open_keeps : (s : S) → locked s → locked (files.open_file s path).0
  pub refused :
      (s : S) (fd : ℕ)
      → locked s
      → (files.open_file s path).1 ≡ some fd
      → (files.flock (files.open_file s path).0 fd).1 ≡ false
  pub refusal_keeps :
      (s : S) (fd : ℕ)
      → locked s
      → (files.open_file s path).1 ≡ some fd
      → locked (files.close_file (files.flock (files.open_file s path).0 fd).0 fd)
  pub granted :
      (s : S) (fd : ℕ)
      → (files.open_file s path).1 ≡ some fd
      → (files.flock (files.open_file s path).0 fd).1 ≡ true
      → locked (files.flock (files.open_file s path).0 fd).0

module _ {S : Type 0} (files : Files S) (path : List ℕ) where
  -- A number of programs that start one after the other and stay; how many of them are told 0.
  abbrev count_zero : ℤ → ℕ → ℕ
  count_zero (pos zero) n = suc n
  count_zero (pos (suc m)) n = n
  count_zero (negsuc m) n = n

  abbrev pub runners : ℕ → S → ℕ
  runners zero s = 0
  runners (suc n) s =
      count_zero (program_is_running files s (some path)).1
        (runners n (program_is_running files s (some path)).0)

  module _ (locked : S → Type 0) (laws : LockLaws files path locked) where
    held_program :
        (s : S)
        → locked s
        → ((program_is_running files s (some path)).1 ≡ pos 1)
          × locked (program_is_running files s (some path)).0
    unfolding program_is_running lock_file
    held_program s held = elim (Option-cases (files.open_file s path).1) [
      | inl e ↦ (rw (program_is_running, e), rw (program_is_running, e) (laws.open_keeps s held))
      | inr (fd, e) ↦
          let no_lock = laws.refused s fd held e in
          (
            rw (program_is_running, e, lock_file, no_lock),
            rw (program_is_running, e, lock_file, no_lock) (laws.refusal_keeps s fd held e),
          )
    ]

    held_runners : (n : ℕ) (s : S) → locked s → runners n s ≡ 0
    held_runners zero s held = refl
    held_runners (suc n) s held =
        let p = held_program s held in
        ap (λ (r : ℤ). count_zero r (runners n (program_is_running files s (some path)).0)) p.0
        ∙ held_runners n (program_is_running files s (some path)).0 p.1

    first_runs :
        (n : ℕ) (s : S) (fd : ℕ)
        → (files.open_file s path).1 ≡ some fd
        → (files.flock (files.open_file s path).0 fd).1 ≡ true
        → runners (suc n) s ≡ 1
    unfolding program_is_running lock_file
    first_runs n s fd e grant =
        let none_later : runners n (program_is_running files s (some path)).0 ≡ 0 =
          held_runners n (program_is_running files s (some path)).0
            (rw (program_is_running, e, lock_file, grant) (laws.granted s fd e grant)) in
        let runs : (program_is_running files s (some path)).1 ≡ pos 0 =
          rw (program_is_running, e, lock_file, grant) in
        ap (λ (r : ℤ). count_zero r (runners n (program_is_running files s (some path)).0)) runs
        ∙ ap suc none_later

    other_waits :
        (n : ℕ) (s : S)
        → (program_is_running files s (some path)).1 ≡ pos 1
        → runners n (program_is_running files s (some path)).0 ≤ 1
        → runners (suc n) s ≤ 1
    other_waits n s waits later = rw waits later

    one_runs : (n : ℕ) (s : S) → runners n s ≤ 1
    unfolding program_is_running lock_file
    one_runs zero s = omega arith
    one_runs (suc n) s =
        let later = one_runs n (program_is_running files s (some path)).0 in
        elim (Option-cases (files.open_file s path).1) [
          | inl e ↦ other_waits n s (rw (program_is_running, e)) later
          | inr (fd, e) ↦ elim (Bool-cases (files.flock (files.open_file s path).0 fd).1) [
            | inl grant ↦ omega (arith, first_runs n s fd e grant)
            | inr no_lock ↦ other_waits n s (rw (program_is_running, e, lock_file, no_lock)) later
          ]
        ]

-- Where flock behaves as documented, of any number of programs that ask program_is_running for one path,
-- one after the other, and stay, at most one is told 0, from any state; and exactly one is, the first,
-- from a state in which the file opens and its lock is granted.
pub program_is_running-runners :
    {S : Type 0} (files : Files S) (path : List ℕ) (locked : S → Type 0) (m n fd : ℕ) (s t : S)
    → LockLaws files path locked
    → (files.open_file s path).1 ≡ some fd
    → (files.flock (files.open_file s path).0 fd).1 ≡ true
    → (runners files path m t ≤ 1) × (runners files path (suc n) s ≡ 1)
program_is_running-runners files path locked m n fd s t laws e grant =
    (one_runs files path locked laws m t, first_runs files path locked laws n s fd e grant)
