-- ===== src/Directory.antt =====
-- The directory iterator of src/myfcp/general.c and general_find_proc_pid, which runs it on /proc.
-- A directory is a parameter: the entries that `readdir` delivers after `opendir`.
pub mod Laws
pub mod Procs
pub mod Owned
mod Examples
use commlib.Base.{
  ℕ, zero, suc, ◌+◌, ◌-◌, ◌*◌, Bool, true, false, not, Option, none, some, List, [], ◌∷◌, ◌++◌,
  ◌==◌, ◌&&◌, ◌||◌, leb, if◌then◌else◌,
}

-- The fields of `struct dirent` that are read.
pub record Dirent : Type 0 where
  pub d_name : List ℕ
  pub d_type : ℕ

-- `struct general_inode_entry`; `fullpath` is `none` for NULL, and `entries` is what `readdir` will
-- deliver.
pub record InodeEntry : Type 0 where
  pub fullpath : Option (List ℕ)
  pub dirpath : List ℕ
  pub entries : List Dirent

-- `struct fcp_one_item`: `this`, and the text that `data` points to, with `none` for NULL.
pub record Item : Type 0 where
  pub flag : ℕ
  pub this : Option InodeEntry
  pub text : Option (List ℕ)

abbrev pub zero_item : Item
zero_item = record { flag = 0; this = none; text = none }

-- The values LOOP_TYPE_.
abbrev pub start_flag : ℕ
start_flag = 0

abbrev pub con_flag : ℕ
con_flag = 1

abbrev pub stop_flag : ℕ
stop_flag = 2

abbrev pub dt_dir : ℕ
dt_dir = 4

abbrev pub dt_reg : ℕ
dt_reg = 8

-- A call returns 0 or -1 and leaves the item changed; `null_read` follows a NULL in `this`.
pub data Step : Type 0 where
  ret_ok : Item → Step
  ret_err : Item → Step
  null_read : Step

-- What the three calls of `malloc` answer: for the node, for the copy of the path, for the full path.
pub record Memory : Type 0 where
  pub node_ok : Bool
  pub dirpath_ok : Bool
  pub fullpath_ok : Bool

-- The names "." and "..".
abbrev pub is_dots : List ℕ → Bool
is_dots [] = false
is_dots (c ∷ []) = c == 46
is_dots (c ∷ d ∷ []) = c == 46 && d == 46
is_dots (c ∷ d ∷ e ∷ s) = false

-- The condition under which the `do` loop reads once more.
abbrev pub is_passed : ℕ → Dirent → Bool
is_passed type ent = is_dots ent.d_name || not (ent.d_type == type)

pub read_entry : ℕ → List Dirent → Option (Dirent × List Dirent)
read_entry type [] = none
read_entry type (ent ∷ rest) = if is_passed type ent then read_entry type rest else some (ent, rest)

abbrev pub ends_in_slash : List ℕ → Bool
ends_in_slash [] = false
ends_in_slash (c ∷ []) = c == 47
ends_in_slash (c ∷ d ∷ s) = ends_in_slash (d ∷ s)

-- The two forms of `snprintf`; the buffer has room for both texts, the slash and the terminator.
unfoldable pub full_path : List ℕ → List ℕ → List ℕ
full_path dirpath name = if ends_in_slash dirpath then dirpath ++ name else dirpath ++ (47 ∷ name)

-- The label `stopread`: everything is freed, and the item is as zero.
abbrev pub stop_read : Step
stop_read = ret_err (record { flag = 0; this = none; text = none })

-- What follows the `switch`: reading, and the full path.
pub read_on : Bool → ℕ → Item → InodeEntry → Step
unfolding read_entry full_path
read_on fullpath_ok type item node = elim (read_entry type node.entries) [
  | none ↦ stop_read
  | some (ent, rest) ↦ elim fullpath_ok [
    | false ↦ stop_read
    | true ↦
        let path = full_path node.dirpath ent.d_name in
        ret_ok (record {
          flag = item.flag;
          this = some (record { fullpath = some path; dirpath = node.dirpath; entries = rest });
          text = some path;
        })
  ]
]

-- LOOP_TYPE_START.
start_loop : Memory → List ℕ → Option (List Dirent) → ℕ → Item → Step
unfolding read_on
start_loop mem dirpath none type item = ret_err item
start_loop mem dirpath (some entries) type item =
    if mem.node_ok && mem.dirpath_ok
    then (let node : InodeEntry = record {
      fullpath = none;
      dirpath = dirpath;
      entries = entries;
    } in
        read_on mem.fullpath_ok type (record item { flag = con_flag; this = some node }) node)
    else ret_err item

-- LOOP_TYPE_CON: the last full path is freed, and `data` is NULL if there was one.
continue_loop : Memory → ℕ → Item → Option InodeEntry → Step
unfolding read_on
continue_loop mem type item none = null_read
continue_loop mem type item (some node) = elim node.fullpath [
  | none ↦ read_on mem.fullpath_ok type item node
  | some path ↦
      let node' : InodeEntry = record {
        fullpath = none;
        dirpath = node.dirpath;
        entries = node.entries;
      } in
      read_on mem.fullpath_ok type (record item { this = some node'; text = none }) node'
]

-- LOOP_TYPE_STOP.
stop_loop : Option InodeEntry → Step
stop_loop none = null_read
stop_loop (some node) = stop_read

-- general_foreach_inode_entry for an item and a path that are no NULL; `dir` is the answer of
-- `opendir`.
pub foreach_inode_entry : Memory → List ℕ → Option (List Dirent) → ℕ → Item → Step
unfolding start_loop continue_loop stop_loop
foreach_inode_entry mem dirpath dir type item =
    if item.flag == start_flag
    then start_loop mem dirpath dir type item
    else if item.flag == con_flag
    then continue_loop mem type item item.this
    else if item.flag == stop_flag
    then stop_loop item.this
    else ret_err item

pub foreach_dir_entry : Memory → List ℕ → Option (List Dirent) → Item → Step
foreach_dir_entry mem path dir item = foreach_inode_entry mem path dir dt_dir item

pub foreach_regfile_entry : Memory → List ℕ → Option (List Dirent) → Item → Step
foreach_regfile_entry mem path dir item = foreach_inode_entry mem path dir dt_reg item

-- `strrchr(path, '/') + 1`; `none` is NULL.
pub behind_slash : List ℕ → Option (List ℕ)
behind_slash [] = none
behind_slash (c ∷ s) = elim (behind_slash s) [
  | some name ↦ some name
  | none ↦ if c == 47 then some s else none
]

-- `atoi`, without its sign: 0 or not is all that is asked of it.
unfoldable pub digits_value : ℕ → List ℕ → ℕ
digits_value acc [] = acc
digits_value acc (c ∷ s) =
    if leb 48 c && leb c 57 then digits_value (acc * 10 + (c - 48)) s else acc

unfoldable pub unsigned_value : List ℕ → ℕ
unfolding digits_value
unsigned_value [] = 0
unsigned_value (c ∷ s) = if c == 43 || c == 45 then digits_value 0 s else digits_value 0 (c ∷ s)

pub atoi : List ℕ → ℕ
unfolding unsigned_value
atoi [] = 0
atoi (c ∷ s) = if c == 32 || (leb 9 c && leb c 13) then atoi s else unsigned_value (c ∷ s)

abbrev pub proc_dir : List ℕ
proc_dir = 47 ∷ 112 ∷ 114 ∷ 111 ∷ 99 ∷ []

-- The tests on `ent.data` before the callback is called.
pub is_proc_path : Option (List ℕ) → Bool
unfolding behind_slash atoi
is_proc_path none = false
is_proc_path (some path) = elim (behind_slash path) [
  | none ↦ false
  | some name ↦ not (atoi name == 0)
]

abbrev pub path_of : Option (List ℕ) → List ℕ
path_of none = []
path_of (some path) = path

-- The callback changes what `userarg` points to; the flag is whether it returned something else
-- than 0.
module _ {ℓ} {U : Type ℓ} (mem : Memory) (dir : Option (List Dirent))
    (callback : List ℕ → U → U × Bool) where
  -- The loop of general_find_proc_pid; `none` is a NULL read, or a round more than the fuel.
  pub find_loop : ℕ → Item → U → Option U
  find_loop zero item u = none
  find_loop (suc n) item u = elim (foreach_dir_entry mem proc_dir dir item) [
    | null_read ↦ none
    | ret_err item' ↦ some u
    | ret_ok item' ↦ elim (is_proc_path item'.text) [
      | false ↦ find_loop n item' u
      | true ↦ elim ((callback (path_of item'.text) u).1) [
        | false ↦ find_loop n item' (callback (path_of item'.text) u).0
        | true ↦ find_loop n (record item' { flag = stop_flag }) (callback (path_of item'.text) u).0
      ]
    ]
  ]

  -- It returns 0 whatever happens.
  pub find_proc_pid : ℕ → U → Option U
  unfolding find_loop
  find_proc_pid fuel u = find_loop fuel zero_item u
