-- ===== src/Lock.antt =====
-- program_is_running of src/myfcp/fcp_base.c. The files of the system, with the locks on them, are a
-- parameter: a state with the three calls that the function makes.
pub mod Laws
mod Examples
use commlib.Base.{ℕ, zero, suc, Bool, true, false, Option, none, some, List, [], ◌∷◌, ◌==◌}
use commlib.Libc.{ℤ, pos, negsuc}

-- `open` answers a descriptor, `none` for a failure; `flock` with LOCK_EX and LOCK_NB answers whether
-- it has the lock.
pub record Files (S : Type 0) : Type 0 where
  pub open_file : S → List ℕ → S × Option ℕ
  pub flock : S → ℕ → S × Bool
  pub close_file : S → ℕ → S

module _ {S : Type 0} (files : Files S) where
  pub lock_file : S → ℕ → S × ℤ
  lock_file s fd = elim ((files.flock s fd).1) [
    | true ↦ ((files.flock s fd).0, pos 0)
    | false ↦ (files.close_file (files.flock s fd).0 fd, pos 1)
  ]

  -- A `none` path is NULL. The descriptor stays open where the call returns 0.
  pub program_is_running : S → Option (List ℕ) → S × ℤ
  unfolding lock_file
  program_is_running s none = (s, negsuc 0)
  program_is_running s (some path) = elim ((files.open_file s path).1) [
    | none ↦ ((files.open_file s path).0, pos 1)
    | some fd ↦ lock_file (files.open_file s path).0 fd
  ]
