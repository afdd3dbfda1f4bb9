-- ===== src/Directory/Owned/Find.antt =====
-- general_find_proc_pid gives back what its iterator owns.
use commlib.Base.{
  ℕ, zero, suc, ◌<◌, ◌≤◌, ◌≡◌, refl, Bool, true, false, Option, none, some, List, arith, length,
  Bool-cases, inl, inr,
}
use commlib.Directory.{Dirent, stop_flag, dt_dir, is_proc_path, path_of, proc_dir}
use commlib.Directory.Owned.{
  Pool, OwnedItem, clear_item, OwnedStep, gives, ends, fault, owned_entry, owned_find,
}
use commlib.Directory.Owned.Laws.{
  size_of, Result, given, ended, State, idle, reading, stopping, owned_entry-Result,
}

module _ (live dirs : List ℕ) where
  module _ {ℓ} {U : Type ℓ} (alloc : ℕ → Bool) (dir : Option (List Dirent))
      (callback : List ℕ → U → U × Bool) where
    -- The call ends, and what is live and open is what was before it.
    abbrev Released : Option (U × Pool) → Type ℓ
    Released result =
        (u : U) × (p : Pool) × (result ≡ some (u, p)) × (p.live ≡ live) × (p.dirs ≡ dirs)

    abbrev Releases : ℕ → Type ℓ
    Releases n =
        (size : ℕ) (item : OwnedItem) (p : Pool) (u : U)
        → State live dirs alloc dt_dir proc_dir dir size item p
        → size < n
        → Released (owned_find alloc dir callback n item u p)

    -- What the loop does with the answer of the iterator.
    abbrev find_on : ℕ → U → OwnedStep → Option (U × Pool)
    find_on n u fault = none
    find_on n u (ends item p) = some (u, p)
    find_on n u (gives item p) = elim (is_proc_path item.text) [
      | false ↦ owned_find alloc dir callback n item u p
      | true ↦
          let (u', stops) = callback (path_of item.text) u in
          elim stops [
            | false ↦ owned_find alloc dir callback n item u' p
            | true ↦ owned_find alloc dir callback n (record item { flag = stop_flag }) u' p
          ]
    ]

    find_on-Released :
        (n size : ℕ) (u : U) (step : OwnedStep)
        → Releases n
        → Result live dirs size step
        → size < suc n
        → Released (find_on n u step)
    find_on-Released n size u step later (ended text p blocks streams) fuel =
        (u, p, refl, blocks, streams)
    find_on-Released n size u step later (given node text p owns shorter) fuel =
        let reads : State live dirs alloc dt_dir proc_dir dir (length node.entries) _ p =
          reading node text p owns (omega arith) in
        let room : length node.entries < n = omega (arith, shorter, fuel) in
        elim (Bool-cases (is_proc_path text)) [
          | inr other ↦ rw (find_on, other) (later (length node.entries) _ p u reads room)
          | inl process ↦ elim (Bool-cases (callback (path_of text) u).1) [
            | inr goes ↦
                rw (find_on, process, goes)
                  (later (length node.entries) _ p (callback (path_of text) u).0 reads room)
            | inl stops ↦
                rw (find_on, process, stops)
                  (later (length node.entries) _ p (callback (path_of text) u).0
                    (stopping node text p owns) room)
          ]
        ]

    owned_find-Released : (n : ℕ) → Releases n
    unfolding owned_find
    owned_find-Released zero size item p u state fuel = absurd (omega (arith, fuel))
    owned_find-Released (suc n) size item p u state fuel =
        find_on-Released n size u (owned_entry alloc proc_dir dir dt_dir item p)
          (owned_find-Released n) (owned_entry-Result live dirs alloc dt_dir proc_dir dir state)
          fuel

module _ {ℓ} {U : Type ℓ} (alloc : ℕ → Bool) (dir : Option (List Dirent))
    (callback : List ℕ → U → U × Bool) where
  -- Whatever `malloc` and `opendir` answer and wherever the callback stops it, general_find_proc_pid
  -- ends, after at most one call of the iterator more than /proc has entries; it frees no block and
  -- closes no stream that it does not own, and afterwards exactly those blocks are live and those
  -- streams open that were before.
  pub owned_find_released :
      (n : ℕ) (u : U) (p : Pool)
      → size_of dir ≤ n
      → (u' : U) × (p' : Pool) × (owned_find alloc dir callback (suc n) clear_item u p
          ≡ some (u', p'))
        × (p'.live ≡ p.live)
        × (p'.dirs ≡ p.dirs)
  owned_find_released n u p enough =
      owned_find-Released p.live p.dirs alloc dir callback (suc n) n clear_item p u
        (idle none p refl refl enough) (omega arith)
