-- ===== src/Directory/Procs.antt =====
-- general_find_proc_pid of src/myfcp/general.c, over the iterator.
pub mod Numbered
use commlib.Base.{
  ℕ, zero, suc, ◌≤◌, ◌≡◌, refl, ◌∙◌, sym, ap, Bool, true, false, Option, none, some, List, [], ◌∷◌,
  arith, length, Bool-cases, inl, inr,
}
use commlib.Directory.{
  Dirent, InodeEntry, Item, zero_item, stop_flag, dt_dir, ret_ok, is_passed, read_entry, full_path,
  read_on, start_loop, stop_loop, foreach_inode_entry, foreach_dir_entry, proc_dir, is_proc_path,
  find_loop, find_proc_pid,
}
use commlib.Directory.Laws.{no_failure, paths_of, opened, at_path, con_item, foreach-at_path}

-- The callback is given the paths whose last component is a number other than 0, up to the first
-- one for which it returns something else than 0.
abbrev pub visit {ℓ} : {U : Type ℓ} → (List ℕ → U → U × Bool) → U → List (List ℕ) → U
visit callback u [] = u
visit callback u (path ∷ rest) = elim (is_proc_path (some path)) [
  | false ↦ visit callback u rest
  | true ↦ elim ((callback path u).1) [
    | false ↦ visit callback (callback path u).0 rest
    | true ↦ (callback path u).0
  ]
]

module _ {ℓ} {U : Type ℓ} (dir : List Dirent) (callback : List ℕ → U → U × Bool) where
  -- The item is at the entries that are left.
  abbrev IsAt : Item → List Dirent → Type 0
  IsAt item entries =
      (this : Option InodeEntry) × (text : Option (List ℕ)) × (foreach_dir_entry no_failure proc_dir
          (some dir) item
        ≡ read_on true dt_dir (con_item this text) (opened proc_dir entries))

  at_path-IsAt : (full : List ℕ) (rest : List Dirent) → IsAt (at_path proc_dir full rest) rest
  unfolding foreach_dir_entry
  at_path-IsAt full rest = (_, _, foreach-at_path proc_dir dir dt_dir full rest)

  abbrev find : ℕ → Item → U → Option U
  find = find_loop no_failure (some dir) callback

  find_stop :
      (n : ℕ) (full : List ℕ) (rest : List Dirent) (u : U)
      → find (suc n) (record (at_path proc_dir full rest) { flag = stop_flag }) u ≡ some u
  unfolding find_loop foreach_dir_entry foreach_inode_entry stop_loop
  find_stop n full rest u = refl

  found_path :
      (n : ℕ) (item : Item) (full : List ℕ) (rest : List Dirent) (paths : List (List ℕ)) (u : U)
      → foreach_dir_entry no_failure proc_dir (some dir) item ≡ ret_ok (at_path proc_dir full rest)
      → ((v : U) → find (suc n) (at_path proc_dir full rest) v ≡ some (visit callback v paths))
      → find (suc (suc n)) item u ≡ some (visit callback u (full ∷ paths))
  unfolding find_loop
  found_path n item full rest paths u e go = elim (Bool-cases (is_proc_path (some full))) [
    | inr other ↦ rw (find_loop, visit, e, other) (go u)
    | inl process ↦ elim (Bool-cases ((callback full u).1)) [
      | inr goes ↦ rw (find_loop, visit, e, process, goes) (go (callback full u).0)
      | inl stops ↦
          let found : find (suc (suc n)) item u ≡ some (callback full u).0 =
            rw (find_loop, e, process, stops) (find_stop n full rest (callback full u).0) in
          let spec : visit callback u (full ∷ paths) ≡ (callback full u).0 =
            rw (visit, process, stops) in
          found ∙ ap some (sym spec)
    ]
  ]

  find_loop-visit :
      (n : ℕ) (item : Item) (entries : List Dirent) (u : U)
      → length entries ≤ n
      → IsAt item entries
      → find (suc n) item u ≡ some (visit callback u (paths_of dt_dir proc_dir entries))
  unfolding find_loop read_on read_entry
  find_loop-visit n item [] u h (this, text, e) = rw (find_loop, e)
  find_loop-visit zero item (ent ∷ rest) u h at = absurd (omega arith)
  find_loop-visit (suc n) item (ent ∷ rest) u h (this, text, e) =
      elim (Bool-cases (is_passed dt_dir ent)) [
        | inl passed ↦ rw passed (
            find_loop-visit (suc n) item rest u (omega arith)
              (this, text, e ∙ rw (read_on, read_entry, passed)))
        | inr read ↦ rw read (
            found_path n item (full_path proc_dir ent.d_name) rest (paths_of dt_dir proc_dir rest) u
              (e ∙ rw (read_on, read_entry, read))
              (λ v. find_loop-visit n _ rest v (omega arith) (at_path-IsAt _ rest)))
      ]

  pub find_proc_pid-visit :
      (n : ℕ) (u : U)
      → length dir ≤ n
      → find_proc_pid no_failure (some dir) callback (suc n) u
        ≡ some (visit callback u (paths_of dt_dir proc_dir dir))
  unfolding find_proc_pid foreach_dir_entry foreach_inode_entry start_loop
  find_proc_pid-visit n u h = find_loop-visit n zero_item dir u h starts
    where
      starts : IsAt zero_item dir
      starts = (some (opened proc_dir dir), none, refl)
