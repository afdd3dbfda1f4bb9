-- ===== src/Directory/Laws.antt =====
-- The directory iterator of src/myfcp/general.c, called until it returns -1.
use commlib.Base.{
  ℕ, zero, suc, ◌≤◌, ◌≡◌, refl, ap, ◌∙◌, true, Option, none, some, List, [], ◌∷◌, arith, length,
  Bool-cases, inl, inr, if◌then◌else◌, ◌⊎◌, ◌++◌, ◌==◌, ◌&&◌, sym, append_assoc, ==_iff, &&_parts,
  ap₂, false,
}
use commlib.Directory.{
  Dirent, InodeEntry, Item, zero_item, con_flag, Step, ret_ok, ret_err, null_read, Memory,
  is_passed, is_dots, ends_in_slash, read_entry, full_path, read_on, start_loop, continue_loop,
  foreach_inode_entry, foreach_dir_entry, dt_dir, path_of,
}

abbrev pub no_failure : Memory
no_failure = record { node_ok = true; dirpath_ok = true; fullpath_ok = true }

abbrev pub deliver : List ℕ → Option (List (List ℕ) × Item) → Option (List (List ℕ) × Item)
deliver path none = none
deliver path (some (paths, item)) = some (path ∷ paths, item)

abbrev pub round : Step → (Item → Option (List (List ℕ) × Item)) → Option (List (List ℕ) × Item)
round (ret_ok item) next = deliver (path_of item.text) (next item)
round (ret_err item) next = some ([], item)
round null_read next = none

-- `while( !foreach(path, &item) )`: the texts of `data` in the rounds, and the item at the end. `none`
-- is a NULL read, or a round more than the fuel.
abbrev pub walk : ℕ → List ℕ → List Dirent → ℕ → Item → Option (List (List ℕ) × Item)
walk zero path entries type item = none
walk (suc n) path entries type item =
    round (foreach_inode_entry no_failure path (some entries) type item) (walk n path entries type)

-- The full paths of the entries that are not passed.
abbrev pub paths_of : ℕ → List ℕ → List Dirent → List (List ℕ)
paths_of type path [] = []
paths_of type path (ent ∷ rest) =
    if is_passed type ent
    then paths_of type path rest
    else full_path path ent.d_name ∷ paths_of type path rest

-- Whether an entry is passed over: it is of another type, or "." or "..".
pub data Taken (type : ℕ) : Dirent → Type 0 where
  taken :
      {ent : Dirent}
      → ent.d_type ≡ type
      → ¬ (ent.d_name ≡ b'.' ∷ [])
      → ¬ (ent.d_name ≡ b'.' ∷ b'.' ∷ [])
      → Taken type ent

-- The full paths of the entries of a type but "." and "..", in order, each the name behind the
-- prefix.
pub data Listed (type : ℕ) (prefix : List ℕ) : List Dirent → List (List ℕ) → Type 0 where
  no_entry : Listed type prefix [] []
  listed :
      {ent : Dirent} {entries : List Dirent} {paths : List (List ℕ)}
      → Taken type ent
      → Listed type prefix entries paths
      → Listed type prefix (ent ∷ entries) ((prefix ++ ent.d_name) ∷ paths)
  passed_over :
      {ent : Dirent} {entries : List Dirent} {paths : List (List ℕ)}
      → ¬ (Taken type ent)
      → Listed type prefix entries paths
      → Listed type prefix (ent ∷ entries) paths

-- The prefix of a path: a slash is put behind a path that does not end in one.
pub data Prefix : List ℕ → List ℕ → Type 0 where
  with_slash : (front : List ℕ) → Prefix (front ++ b'/' ∷ []) (front ++ b'/' ∷ [])
  without_slash :
      (front : List ℕ) (c : ℕ) → ¬ (c ≡ b'/') → Prefix (front ++ c ∷ []) (front ++ (c ∷ b'/' ∷ []))

ends_in_slash-append : (front : List ℕ) (c : ℕ) → ends_in_slash (front ++ c ∷ []) ≡ (c == 47)
ends_in_slash-append [] c = refl
ends_in_slash-append (d ∷ []) c = refl
ends_in_slash-append (d ∷ e ∷ front) c = ends_in_slash-append (e ∷ front) c

pub full_path-Prefix :
    (path prefix name : List ℕ) → Prefix path prefix → full_path path name ≡ prefix ++ name
unfolding full_path
full_path-Prefix path prefix name (with_slash front) =
    rw (full_path, ends_in_slash-append front b'/') refl
full_path-Prefix path prefix name (without_slash front c other) =
    let e : (c == 47) ≡ false = ground arith in
    rw (full_path, ends_in_slash-append front c, e)
      (append_assoc front (c ∷ []) (47 ∷ name) ∙ sym (append_assoc front (c ∷ 47 ∷ []) name))

dots_cases :
    (s : List ℕ)
    → ((is_dots s ≡ true) × ((s ≡ b'.' ∷ []) ⊎ (s ≡ b'.' ∷ b'.' ∷ [])))
      ⊎ ((is_dots s ≡ false) × ¬ (s ≡ b'.' ∷ []) × ¬ (s ≡ b'.' ∷ b'.' ∷ []))
dots_cases [] = inr (refl, λ e. cc, λ e. cc)
dots_cases (c ∷ []) = elim (Bool-cases (c == 46)) [
  | inl is ↦ inl (is, inl (ap (λ (x : ℕ). x ∷ []) ((==_iff c 46).0 is)))
  | inr other ↦ inr (other, λ e. let d : c ≡ 46 = cc in ground (arith, other, d), λ e. cc)
]
dots_cases (c ∷ d ∷ []) = elim (Bool-cases (c == 46 && d == 46)) [
  | inl is ↦
      let both = &&_parts (c == 46) (d == 46) is in
      inl
        (is, inr (ap₂ (λ (x y : ℕ). x ∷ y ∷ []) ((==_iff c 46).0 both.0) ((==_iff d 46).0 both.1)))
  | inr other ↦ inr (
    other,
    λ e. cc,
    λ e. let p : c ≡ 46 = cc in let q : d ≡ 46 = cc in ground (arith, other, p, q),
  )
]
dots_cases (c ∷ d ∷ x ∷ s) = inr (refl, λ e. cc, λ e. cc)

-- The condition of the loop over the entries.
pub passed_cases :
    (type : ℕ) (ent : Dirent)
    → ((is_passed type ent ≡ false) × Taken type ent)
      ⊎ ((is_passed type ent ≡ true) × ¬ (Taken type ent))
passed_cases type ent = elim (dots_cases ent.d_name) [
  | inl (is, inl e) ↦ inr (rw is refl, λ t. elim t [ taken of one two ↦ one e ])
  | inl (is, inr e) ↦ inr (rw is refl, λ t. elim t [ taken of one two ↦ two e ])
  | inr (not_dots, one, two) ↦ elim (Bool-cases (ent.d_type == type)) [
    | inl of ↦ inl (rw (not_dots, of) refl, taken ((==_iff ent.d_type type).0 of) one two)
    | inr other ↦
        inr
          (rw (not_dots, other) refl, λ t. elim t [ taken of one two ↦ ground (arith, other, of) ])
  ]
]

pub paths_of-Listed :
    (type : ℕ) (path prefix : List ℕ) (entries : List Dirent)
    → Prefix path prefix
    → Listed type prefix entries (paths_of type path entries)
paths_of-Listed type path prefix [] p = no_entry
paths_of-Listed type path prefix (ent ∷ entries) p = elim (passed_cases type ent) [
  | inl (reads, take_it) ↦
      rw (reads, full_path-Prefix path prefix ent.d_name p)
        (listed take_it (paths_of-Listed type path prefix entries p))
  | inr (passes, refused) ↦
      rw passes (passed_over refused (paths_of-Listed type path prefix entries p))
]

abbrev pub opened : List ℕ → List Dirent → InodeEntry
opened path entries = record { fullpath = none; dirpath = path; entries = entries }

-- The item after a call that returned 0.
abbrev pub at_path : List ℕ → List ℕ → List Dirent → Item
at_path path full rest = record {
  flag = con_flag;
  this = some (record { fullpath = some full; dirpath = path; entries = rest });
  text = some full;
}

abbrev pub con_item : Option InodeEntry → Option (List ℕ) → Item
con_item this text = record { flag = con_flag; this = this; text = text }

pub foreach_dir_entry_lem :
    (mem : Memory) (path : List ℕ) (dir : Option (List Dirent)) (item : Item)
    → foreach_dir_entry mem path dir item ≡ foreach_inode_entry mem path dir dt_dir item
unfolding foreach_dir_entry
foreach_dir_entry_lem mem path dir item = refl

module _ (path : List ℕ) (dir : List Dirent) (type : ℕ) where
  pub foreach-at_path :
      (full : List ℕ) (rest : List Dirent)
      → foreach_inode_entry no_failure path (some dir) type (at_path path full rest)
        ≡ read_on true type (con_item (some (opened path rest)) none) (opened path rest)
  unfolding foreach_inode_entry continue_loop
  foreach-at_path full rest = refl

  walk-at_path :
      (n : ℕ) (full : List ℕ) (rest : List Dirent) (r : Option (List (List ℕ) × Item))
      → round
          (read_on true type (con_item (some (opened path rest)) none) (opened path rest))
          (walk n path dir type)
        ≡ r
      → walk (suc n) path dir type (at_path path full rest) ≡ r
  walk-at_path n full rest r e =
      ap (λ (s : Step). round s (walk n path dir type)) (foreach-at_path full rest) ∙ e

  walk-read_on :
      (n : ℕ) (this : Option InodeEntry) (text : Option (List ℕ)) (entries : List Dirent)
      → length entries ≤ n
      → round (read_on true type (con_item this text) (opened path entries)) (walk n path dir type)
        ≡ some (paths_of type path entries, zero_item)
  unfolding read_on read_entry
  walk-read_on n this text [] h = refl
  walk-read_on zero this text (ent ∷ rest) h = absurd (omega arith)
  walk-read_on (suc n) this text (ent ∷ rest) h = elim (Bool-cases (is_passed type ent)) [
    | inl passed ↦
        rw (read_on, read_entry, passed)
          (unfold read_on in walk-read_on (suc n) this text rest (omega arith))
    | inr read ↦
        rw (read_on, read_entry, read)
          (ap (deliver (full_path path ent.d_name)) (
            walk-at_path n (full_path path ent.d_name) rest _
              (walk-read_on n (some (opened path rest)) none rest (omega arith))))
  ]

  pub walk-paths_of :
      (n : ℕ)
      → length dir ≤ n
      → walk (suc n) path dir type zero_item ≡ some (paths_of type path dir, zero_item)
  unfolding foreach_inode_entry start_loop
  walk-paths_of n h = walk-read_on n (some (opened path dir)) none dir h

-- Called on a directory that opens, with a path that is not empty, with a zeroed item, and when no
-- malloc fails, general_foreach_dir_entry and general_foreach_regfile_entry return 0 once for each
-- entry of their type but "." and "..", in the directory's order, with its full path in `data`: the
-- directory's path, a slash if that does not end in one, and the name. Then they return -1 and leave
-- the item zeroed. It takes at most one call more than the directory has entries.
pub foreach_inode_entry-Listed :
    (path prefix : List ℕ) (dir : List Dirent) (type n : ℕ)
    → Prefix path prefix
    → length dir ≤ n
    → (paths : List (List ℕ)) × Listed type prefix dir paths
      × (walk (suc n) path dir type zero_item ≡ some (paths, zero_item))
foreach_inode_entry-Listed path prefix dir type n p h = (
  paths_of type path dir,
  paths_of-Listed type path prefix dir p,
  walk-paths_of path dir type n h,
)
