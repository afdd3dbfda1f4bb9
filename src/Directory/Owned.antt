-- ===== src/Directory/Owned.antt =====
-- The directory iterator of src/myfcp/general.c with the blocks and the stream that it owns, and
-- general_find_proc_pid on it. A block is named by the number of the call of `malloc` that gave it, a
-- stream by the number of the call of `opendir`.
mod Blocks
mod Laws
mod Find
mod Refine
mod Examples
use commlib.Base.{
  ℕ, zero, suc, ◌+◌, Bool, true, false, Option, none, some, List, [], ◌∷◌, ◌==◌, if◌then◌else◌,
}
use commlib.Directory.{
  Dirent, InodeEntry, Item, Memory, Step, ret_ok, ret_err, null_read, start_flag, con_flag,
  stop_flag, dt_dir, read_entry, full_path, is_proc_path, path_of, proc_dir,
}

-- How often `malloc` and `opendir` were called, the blocks that are not freed, and the streams that are
-- not closed.
pub record Pool : Type 0 where
  pub mallocs : ℕ
  pub opens : ℕ
  pub live : List ℕ
  pub dirs : List ℕ

pub take_out : ℕ → List ℕ → Option (List ℕ)
take_out n [] = none
take_out n (m ∷ ms) =
    if m == n then some ms else elim (take_out n ms) [ none ↦ none | some rest ↦ some (m ∷ rest) ]

-- `none` is a block that is not live.
pub free : ℕ → Pool → Option Pool
unfolding take_out
free block p = elim (take_out block p.live) [
  | none ↦ none
  | some rest ↦ some (record p { live = rest })
]

-- `none` is a stream that is not open.
pub closedir : ℕ → Pool → Option Pool
unfolding take_out
closedir stream p = elim (take_out stream p.dirs) [
  | none ↦ none
  | some rest ↦ some (record p { dirs = rest })
]

-- The pools after a `malloc` that fails and after one that gives the block `p.mallocs`.
abbrev pub no_block : Pool → Pool
no_block p = record p { mallocs = p.mallocs + 1 }

abbrev pub with_block : Pool → Pool
with_block p = record p { mallocs = p.mallocs + 1; live = p.mallocs ∷ p.live }

abbrev pub with_stream : Pool → Pool
with_stream p = record p { opens = p.opens + 1; dirs = p.opens ∷ p.dirs }

-- `struct general_inode_entry`: its own block, that of the copy of the path, the stream, and the block
-- of the full path, with what they hold.
pub record OwnedNode : Type 0 where
  pub self : ℕ
  pub path_block : ℕ
  pub dirpath : List ℕ
  pub stream : ℕ
  pub entries : List Dirent
  pub fullpath : Option (ℕ × List ℕ)

-- The node that the first call makes in the pool before it.
abbrev pub new_node : List ℕ → List Dirent → Pool → OwnedNode
new_node dirpath entries p = record {
  self = p.mallocs;
  path_block = p.mallocs + 1;
  dirpath = dirpath;
  stream = p.opens;
  entries = entries;
  fullpath = none;
}

-- `struct fcp_one_item`; `data` is the block of the full path, and here its text.
pub record OwnedItem : Type 0 where
  pub flag : ℕ
  pub this : Option OwnedNode
  pub text : Option (List ℕ)

abbrev pub clear_item : OwnedItem
clear_item = record { flag = 0; this = none; text = none }

-- A call returns 0 or -1; `fault` is a NULL that is read, a block that is freed and a stream that is
-- closed without being there.
pub data OwnedStep : Type 0 where
  gives : OwnedItem → Pool → OwnedStep
  ends : OwnedItem → Pool → OwnedStep
  fault : OwnedStep

abbrev pub after_free : Option Pool → (Pool → OwnedStep) → OwnedStep
after_free none next = fault
after_free (some p) next = next p

abbrev pub free_fullpath : Option (ℕ × List ℕ) → Pool → Option Pool
free_fullpath none p = some p
free_fullpath (some (block, path)) p = free block p

-- The label `stopread`.
pub release_all : OwnedNode → Pool → OwnedStep
unfolding free closedir
release_all node p = after_free (free_fullpath node.fullpath p) (λ p1.
    after_free (free node.path_block p1) (λ p2.
      after_free (closedir node.stream p2)
        (λ p3. after_free (free node.self p3) (λ p4. ends clear_item p4))))

module _ (alloc : ℕ → Bool) where
  -- What follows the `switch`, where no full path is owned.
  pub owned_read : ℕ → OwnedItem → OwnedNode → Pool → OwnedStep
  unfolding release_all
  owned_read type item node p = elim (read_entry type node.entries) [
    | none ↦ release_all node p
    | some (ent, rest) ↦ elim (alloc p.mallocs) [
      | false ↦ release_all node (no_block p)
      | true ↦
          let path = full_path node.dirpath ent.d_name in
          gives
            (record {
              flag = item.flag;
              this = some (record node { fullpath = some (p.mallocs, path); entries = rest });
              text = some path;
            })
            (with_block p)
    ]
  ]

  -- LOOP_TYPE_START, where the two calls of `malloc` succeed.
  pub owned_open : List ℕ → Option (List Dirent) → ℕ → OwnedItem → Pool → OwnedStep
  unfolding owned_read
  owned_open dirpath none type item p =
      after_free (free (p.mallocs + 1) (with_block (with_block p)))
        (λ p1. after_free (free p.mallocs p1) (λ p2. ends item p2))
  owned_open dirpath (some entries) type item p =
      let node = new_node dirpath entries p in
      owned_read type (record item { flag = con_flag; this = some node }) node
        (with_stream (with_block (with_block p)))

  pub owned_start : List ℕ → Option (List Dirent) → ℕ → OwnedItem → Pool → OwnedStep
  unfolding owned_open
  owned_start dirpath dir type item p = elim (alloc p.mallocs) [
    | false ↦ ends item (no_block p)
    | true ↦ elim (alloc (p.mallocs + 1)) [
      | false ↦ after_free (free p.mallocs (no_block (with_block p))) (λ p1. ends item p1)
      | true ↦ owned_open dirpath dir type item p
    ]
  ]

  -- LOOP_TYPE_CON.
  pub owned_continue : ℕ → OwnedItem → Option OwnedNode → Pool → OwnedStep
  unfolding owned_read
  owned_continue type item none p = fault
  owned_continue type item (some node) p = elim node.fullpath [
    | none ↦ owned_read type item node p
    | some (block, path) ↦
        let node' = record node { fullpath = none } in
        after_free (free block p)
          (λ p1. owned_read type (record item { this = some node'; text = none }) node' p1)
  ]

  -- LOOP_TYPE_STOP.
  pub owned_stop : Option OwnedNode → Pool → OwnedStep
  unfolding release_all
  owned_stop none p = fault
  owned_stop (some node) p = release_all node p

  pub owned_entry : List ℕ → Option (List Dirent) → ℕ → OwnedItem → Pool → OwnedStep
  unfolding owned_start owned_continue owned_stop
  owned_entry dirpath dir type item p =
      if item.flag == start_flag
      then owned_start dirpath dir type item p
      else if item.flag == con_flag
      then owned_continue type item item.this p
      else if item.flag == stop_flag
      then owned_stop item.this p
      else ends item p

  -- general_find_proc_pid; `none` is a fault, or a round more than the fuel.
  module _ {ℓ} {U : Type ℓ} (dir : Option (List Dirent)) (callback : List ℕ → U → U × Bool) where
    pub owned_find : ℕ → OwnedItem → U → Pool → Option (U × Pool)
    unfolding owned_entry
    owned_find zero item u p = none
    owned_find (suc n) item u p = elim (owned_entry proc_dir dir dt_dir item p) [
      | fault ↦ none
      | ends item' p' ↦ some (u, p')
      | gives item' p' ↦ elim (is_proc_path item'.text) [
        | false ↦ owned_find n item' u p'
        | true ↦ elim ((callback (path_of item'.text) u).1) [
          | false ↦ owned_find n item' (callback (path_of item'.text) u).0 p'
          | true ↦
              owned_find n (record item' { flag = stop_flag }) (callback (path_of item'.text) u).0
                p'
        ]
      ]
    ]
