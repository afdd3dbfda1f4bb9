-- ===== src/Directory/Owned/Laws.antt =====
-- What the directory iterator owns between two calls.
use commlib.Base.{
  ℕ, ◌+◌, ◌<◌, ◌≤◌, ◌≡◌, refl, ap, Bool, Option, none, some, List, ◌∷◌, arith, length, Bool-cases,
  Option-cases, inl, inr,
}
use commlib.Directory.{Dirent, start_flag, con_flag, stop_flag, read_entry, full_path}
use commlib.Directory.Owned.{
  Pool, no_block, with_block, with_stream, new_node, OwnedNode, OwnedItem, OwnedStep, gives, ends,
  release_all, owned_read, owned_open, owned_start, owned_continue, owned_stop, owned_entry,
}
use commlib.Directory.Owned.Blocks.{free_first, read_entry-shorter, Owns, release_all-ends}

-- How many entries the directory has, if it opens.
abbrev pub size_of : Option (List Dirent) → ℕ
size_of none = 0
size_of (some entries) = length entries

module _ (live dirs : List ℕ) where
  -- What a call comes to on an item with at most `size` entries before it: 0 with a node that owns its
  -- blocks, or -1 with nothing owned.
  pub data Result (size : ℕ) : OwnedStep → Type 0 where
    given :
        (node : OwnedNode) (text : Option (List ℕ)) (p : Pool)
        → Owns live dirs node p
        → length node.entries < size
        → Result size (gives (record { flag = con_flag; this = some node; text = text }) p)
    ended :
        (text : Option (List ℕ)) (p : Pool)
        → p.live ≡ live
        → p.dirs ≡ dirs
        → Result size (ends (record { flag = start_flag; this = none; text = text }) p)

  release_all-Result :
      (size : ℕ) (node : OwnedNode) (p : Pool)
      → Owns live dirs node p
      → Result size (release_all node p)
  release_all-Result size node p owns =
      rw (release_all-ends live dirs node p owns)
        (ended none (record p { live = live; dirs = dirs }) refl refl)

  module _ (alloc : ℕ → Bool) (type : ℕ) where
    owned_read-Result :
        (size : ℕ) (this : Option OwnedNode) (text : Option (List ℕ)) (node : OwnedNode) (p : Pool)
        → node.fullpath ≡ none
        → Owns live dirs node p
        → length node.entries ≤ size
        → Result size
            (owned_read alloc type (record { flag = con_flag; this = this; text = text }) node p)
    unfolding owned_read
    owned_read-Result size this text node p bare owns bound =
        elim (Option-cases (read_entry type node.entries)) [
          | inl over ↦ rw (owned_read, over) (release_all-Result size node p owns)
          | inr ((ent, rest), read) ↦
              let shorter = read_entry-shorter type node.entries ent rest read in
              let blocks : p.live ≡ node.path_block ∷ node.self ∷ live = rw bare at owns.0 in
              elim (Bool-cases (alloc p.mallocs)) [
                | inr full ↦
                    rw (owned_read, read, full) (release_all-Result size node (no_block p) owns)
                | inl room ↦
                    rw (owned_read, read, room)
                      (given
                        (record node {
                          fullpath = some (p.mallocs, full_path node.dirpath ent.d_name);
                          entries = rest;
                        })
                        (some (full_path node.dirpath ent.d_name)) (with_block p)
                        (ap (λ (bs : List ℕ). p.mallocs ∷ bs) blocks, owns.1)
                        (omega (arith, shorter, bound)))
              ]
        ]

    owned_open-Result :
        (dirpath : List ℕ) (dir : Option (List Dirent)) (text : Option (List ℕ)) (p : Pool)
        → p.live ≡ live
        → p.dirs ≡ dirs
        → Result (size_of dir) (
            owned_open alloc dirpath dir type
              (record { flag = start_flag; this = none; text = text })
              p)
    unfolding owned_open
    owned_open-Result dirpath none text p blocks streams =
        let two = with_block (with_block p) in
        rw
          (
            owned_open,
            free_first (p.mallocs + 1) (p.mallocs ∷ p.live) two refl,
            free_first p.mallocs p.live (record two { live = p.mallocs ∷ p.live }) refl,
          )
          (ended text (record two { live = p.live }) blocks streams)
    owned_open-Result dirpath (some entries) text p blocks streams =
        owned_read-Result (length entries) (some (new_node dirpath entries p)) text
          (new_node dirpath entries p) (with_stream (with_block (with_block p))) refl
          (
            ap (λ (bs : List ℕ). (p.mallocs + 1) ∷ p.mallocs ∷ bs) blocks,
            ap (λ (ss : List ℕ). p.opens ∷ ss) streams,
          )
          (omega arith)

    owned_start-Result :
        (dirpath : List ℕ) (dir : Option (List Dirent)) (text : Option (List ℕ)) (p : Pool)
        → p.live ≡ live
        → p.dirs ≡ dirs
        → Result (size_of dir) (
            owned_start alloc dirpath dir type
              (record { flag = start_flag; this = none; text = text })
              p)
    unfolding owned_start owned_open
    owned_start-Result dirpath dir text p blocks streams = elim (Bool-cases (alloc p.mallocs)) [
      | inr full ↦ rw (owned_start, full) (ended text (no_block p) blocks streams)
      | inl room ↦ elim (Bool-cases (alloc (p.mallocs + 1))) [
        | inr full ↦
            rw (owned_start, room, full, free_first p.mallocs p.live (no_block (with_block p)) refl)
              (ended text (record p { mallocs = p.mallocs + 1 + 1 }) blocks streams)
        | inl more ↦
            rw (owned_start, room, more) (owned_open-Result dirpath dir text p blocks streams)
      ]
    ]

    owned_continue-Result :
        (size : ℕ) (node : OwnedNode) (text : Option (List ℕ)) (p : Pool)
        → Owns live dirs node p
        → length node.entries ≤ size
        → Result size (
            owned_continue alloc type
              (record { flag = con_flag; this = some node; text = text })
              (some node)
              p)
    unfolding owned_continue
    owned_continue-Result size node text p owns bound = elim (Option-cases node.fullpath) [
      | inl bare ↦
          rw (owned_continue, bare) (owned_read-Result size (some node) text node p bare owns bound)
      | inr ((block, path), e) ↦
          let blocks : p.live ≡ block ∷ node.path_block ∷ node.self ∷ live = rw e at owns.0 in
          let node' : OwnedNode = record node { fullpath = none } in
          rw (owned_continue, e, free_first block (node.path_block ∷ node.self ∷ live) p blocks)
            (owned_read-Result size (some node') none node'
              (record p { live = node.path_block ∷ node.self ∷ live }) refl (refl, owns.1) bound)
    ]

    module _ (dirpath : List ℕ) (dir : Option (List Dirent)) where
      -- The items between two calls, with at most `size` entries before them.
      pub data State (size : ℕ) : OwnedItem → Pool → Type 0 where
        idle :
            (text : Option (List ℕ)) (p : Pool)
            → p.live ≡ live
            → p.dirs ≡ dirs
            → size_of dir ≤ size
            → State size (record { flag = start_flag; this = none; text = text }) p
        reading :
            (node : OwnedNode) (text : Option (List ℕ)) (p : Pool)
            → Owns live dirs node p
            → length node.entries ≤ size
            → State size (record { flag = con_flag; this = some node; text = text }) p
        stopping :
            (node : OwnedNode) (text : Option (List ℕ)) (p : Pool)
            → Owns live dirs node p
            → State size (record { flag = stop_flag; this = some node; text = text }) p

      more_entries :
          {size bound : ℕ} {step : OwnedStep} → size ≤ bound → Result size step → Result bound step
      more_entries le (given node text p owns shorter) =
          given node text p owns (omega (arith, le, shorter))
      more_entries le (ended text p blocks streams) = ended text p blocks streams

      -- No call frees what it does not own, whatever `malloc` and `opendir` answer, and a call that
      -- returns -1 owns nothing any more.
      pub owned_entry-Result :
          {size : ℕ} {item : OwnedItem} {p : Pool}
          → State size item p
          → Result size (owned_entry alloc dirpath dir type item p)
      unfolding owned_entry owned_stop
      owned_entry-Result (idle text p blocks streams bound) =
          more_entries bound (owned_start-Result dirpath dir text p blocks streams)
      owned_entry-Result {size} (reading node text p owns bound) =
          owned_continue-Result size node text p owns bound
      owned_entry-Result {size} (stopping node text p owns) = release_all-Result size node p owns
