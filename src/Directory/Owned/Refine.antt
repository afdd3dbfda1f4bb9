-- ===== src/Directory/Owned/Refine.antt =====
-- The iterator with what it owns gives the answers of the iterator without.
use commlib.Base.{
  ℕ, ◌+◌, ◌≡◌, refl, ap, Bool, Option, none, some, List, ◌∷◌, Bool-cases, Option-cases, inl, inr,
}
use commlib.Directory.{
  Dirent, InodeEntry, Item, Memory, Step, ret_ok, ret_err, null_read, start_flag, con_flag,
  read_entry, read_on, start_loop, continue_loop, stop_loop, foreach_inode_entry,
}
use commlib.Directory.Owned.{
  Pool, no_block, with_block, with_stream, new_node, OwnedNode, OwnedItem, OwnedStep, gives, ends,
  fault, owned_read, owned_open, owned_start, owned_continue, owned_stop, owned_entry,
}
use commlib.Directory.Owned.Blocks.{free_first, Owns, release_all-ends}
use commlib.Directory.Owned.Laws.{State, idle, reading, stopping, Result, owned_entry-Result}

abbrev pub erase_path : Option (ℕ × List ℕ) → Option (List ℕ)
erase_path none = none
erase_path (some (block, path)) = some path

abbrev pub erase_node : OwnedNode → InodeEntry
erase_node node = record {
  fullpath = erase_path node.fullpath;
  dirpath = node.dirpath;
  entries = node.entries;
}

abbrev pub erase_this : Option OwnedNode → Option InodeEntry
erase_this none = none
erase_this (some node) = some (erase_node node)

abbrev pub erase_item : OwnedItem → Item
erase_item item = record { flag = item.flag; this = erase_this item.this; text = item.text }

abbrev pub erase_step : OwnedStep → Step
erase_step (gives item p) = ret_ok (erase_item item)
erase_step (ends item p) = ret_err (erase_item item)
erase_step fault = null_read

-- The answers of `malloc` that a call of the iterator gets.
abbrev pub answers : (ℕ → Bool) → OwnedItem → Pool → Memory
answers alloc item p = record {
  node_ok = alloc p.mallocs;
  dirpath_ok = alloc (p.mallocs + 1);
  fullpath_ok = elim item.this [ none ↦ alloc (p.mallocs + 1 + 1) | some node ↦ alloc p.mallocs ];
}

module _ (live dirs : List ℕ) (alloc : ℕ → Bool) (type : ℕ) where
  erase_step-owned_read :
      (item : OwnedItem) (node : OwnedNode) (p : Pool)
      → node.fullpath ≡ none
      → Owns live dirs node p
      → erase_step (owned_read alloc type item node p)
        ≡ read_on (alloc p.mallocs) type (erase_item item) (erase_node node)
  unfolding owned_read read_on
  erase_step-owned_read item node p bare owns = elim (Option-cases (read_entry type node.entries)) [
    | inl over ↦ rw (owned_read, read_on, over, release_all-ends live dirs node p owns) refl
    | inr ((ent, rest), read) ↦ elim (Bool-cases (alloc p.mallocs)) [
      | inr full ↦
          rw (owned_read, read_on, read, full, release_all-ends live dirs node (no_block p) owns)
            refl
      | inl room ↦ rw (owned_read, read_on, read, room) refl
    ]
  ]

  owned_start-start_loop :
      (dirpath : List ℕ) (dir : Option (List Dirent)) (text : Option (List ℕ)) (p : Pool)
      → p.live ≡ live
      → p.dirs ≡ dirs
      → let item : OwnedItem = record { flag = start_flag; this = none; text = text } in
        erase_step (owned_start alloc dirpath dir type item p)
        ≡ start_loop (answers alloc item p) dirpath dir type (erase_item item)
  unfolding owned_start owned_open start_loop
  owned_start-start_loop dirpath none text p blocks streams =
      let two = with_block (with_block p) in
      elim (Bool-cases (alloc p.mallocs)) [
        | inr full ↦ rw (owned_start, full) refl
        | inl room ↦ elim (Bool-cases (alloc (p.mallocs + 1))) [
          | inr full ↦
              rw
                (
                  owned_start,
                  room,
                  full,
                  free_first p.mallocs p.live (no_block (with_block p)) refl,
                )
                refl
          | inl more ↦
              rw
                (
                  owned_start,
                  room,
                  more,
                  owned_open,
                  free_first (p.mallocs + 1) (p.mallocs ∷ p.live) two refl,
                  free_first p.mallocs p.live (record two { live = p.mallocs ∷ p.live }) refl,
                )
                refl
        ]
      ]
  owned_start-start_loop dirpath (some entries) text p blocks streams =
      elim (Bool-cases (alloc p.mallocs)) [
        | inr full ↦ rw (owned_start, start_loop, full) refl
        | inl room ↦ elim (Bool-cases (alloc (p.mallocs + 1))) [
          | inr full ↦
              rw
                (
                  owned_start,
                  start_loop,
                  room,
                  full,
                  free_first p.mallocs p.live (no_block (with_block p)) refl,
                )
                refl
          | inl more ↦
              rw (owned_start, start_loop, room, more)
                (erase_step-owned_read
                  (record {
                    flag = con_flag;
                    this = some (new_node dirpath entries p);
                    text = text;
                  })
                  (new_node dirpath entries p) (with_stream (with_block (with_block p))) refl
                  (
                    ap (λ (bs : List ℕ). (p.mallocs + 1) ∷ p.mallocs ∷ bs) blocks,
                    ap (λ (ss : List ℕ). p.opens ∷ ss) streams,
                  ))
        ]
      ]

  module _ (dirpath : List ℕ) (dir : Option (List Dirent)) where
    entry_answers :
        {size : ℕ} {item : OwnedItem} {p : Pool}
        → State live dirs alloc type dirpath dir size item p
        → erase_step (owned_entry alloc dirpath dir type item p)
          ≡ foreach_inode_entry (answers alloc item p) dirpath dir type (erase_item item)
    unfolding owned_entry owned_start owned_open owned_continue owned_stop foreach_inode_entry
        start_loop continue_loop stop_loop
    entry_answers (idle text p blocks streams bound) =
        owned_start-start_loop dirpath dir text p blocks streams
    entry_answers (reading node text p owns bound) = elim (Option-cases node.fullpath) [
      | inl bare ↦
          rw (owned_entry, owned_continue, foreach_inode_entry, continue_loop, bare)
            (erase_step-owned_read (record { flag = con_flag; this = some node; text = text }) node
              p bare owns)
      | inr ((block, path), e) ↦
          let blocks : p.live ≡ block ∷ node.path_block ∷ node.self ∷ live = rw e at owns.0 in
          let node' : OwnedNode = record node { fullpath = none } in
          rw
            (
              owned_entry,
              owned_continue,
              foreach_inode_entry,
              continue_loop,
              e,
              free_first block (node.path_block ∷ node.self ∷ live) p blocks,
            )
            (erase_step-owned_read (record { flag = con_flag; this = some node'; text = none })
              node' (record p { live = node.path_block ∷ node.self ∷ live }) refl (refl, owns.1))
    ]
    entry_answers (stopping node text p owns) = rw (release_all-ends live dirs node p owns) refl

    -- Between any two calls, whatever `malloc` answers: the iterator answers as the model without blocks
    -- does; it frees and closes only what the item owns, and after an answer -1 the item owns nothing.
    pub owned_entry-foreach_inode_entry :
        {size : ℕ} {item : OwnedItem} {p : Pool}
        → State live dirs alloc type dirpath dir size item p
        → (erase_step (owned_entry alloc dirpath dir type item p)
            ≡ foreach_inode_entry (answers alloc item p) dirpath dir type (erase_item item))
          × Result live dirs size (owned_entry alloc dirpath dir type item p)
    owned_entry-foreach_inode_entry state =
        (entry_answers state, owned_entry-Result live dirs alloc type dirpath dir state)
