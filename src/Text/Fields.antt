-- ===== src/Text/Fields.antt =====
-- gen_foreach_field of src/myfcp/genstring.c: an iterator over the fields of a line that keeps
-- its state in a `struct fcp_one_item`.
mod Scan
mod Laws
mod Walk
mod Examples
use commlib.Base.{
  ℕ, Bool, true, false, Option, none, some, List, [], ◌∷◌, ◌==◌, ◌&&◌, ◌||◌, leb, if◌then◌else◌,
}

-- `entry->data`: NULL, a live allocation with its text, or a pointer that was freed and kept.
pub data Slot : Type 0 where
  null : Slot
  live : List ℕ → Slot
  dangling : Slot

-- `struct fcp_one_item`. `node` is `entry->this`, as the text from `node->ptr` on in the copy of
-- the line; `none` is NULL.
pub record Entry : Type 0 where
  pub flag : ℕ
  pub node : Option (List ℕ)
  pub slot : Slot

abbrev pub loop_type_start : ℕ
loop_type_start = 0

abbrev pub loop_type_con : ℕ
loop_type_con = 1

abbrev pub loop_type_max : ℕ
loop_type_max = 3

-- `memset(entry, 0, sizeof(struct fcp_one_item))`.
abbrev pub zero_entry : Entry
zero_entry = record { flag = 0; node = none; slot = null }

-- A call returns 0 or -1 and leaves the entry changed. `fault` is undefined behaviour: a read
-- past the copy of the line, or a second `free` of one pointer.
pub data Outcome : Type 0 where
  ret_ok : Entry → Outcome
  ret_err : Entry → Outcome
  -- The entry is NULL.
  rejected : Outcome
  fault : Outcome

-- What the three calls of `malloc` answer: for the node, for the copy, for the field.
pub record Mallocs : Type 0 where
  pub node_ok : Bool
  pub copy_ok : Bool
  pub field_ok : Bool

abbrev pub gen_isspace : ℕ → Bool
gen_isspace c = c == 32 || c == 9

-- A newline at the very end becomes the terminator.
pub chomp : List ℕ → List ℕ
chomp [] = []
chomp (c ∷ []) = if c == 10 then [] else c ∷ []
chomp (c ∷ d ∷ s) = c ∷ chomp (d ∷ s)

-- `while(gen_isspace(*ptr) || *ptr == keys) ptr++`. With `keys` the terminator the loop leaves
-- the copy, which holds nothing but zeros after its text.
pub skip : ℕ → List ℕ → Option (List ℕ)
skip keys [] = if keys == 0 then none else some []
skip keys (c ∷ s) = if gen_isspace c || c == keys then skip keys s else some (c ∷ s)

-- The text from `ptr` up to `end`, and that from `end` on.
pub span : ℕ → List ℕ → List ℕ × List ℕ
span keys [] = ([], [])
span keys (c ∷ s) = let r = span keys s in if c == keys then ([], c ∷ s) else (c ∷ r.0, r.1)

-- `free(entry->data)` behind the test for NULL; the pointer itself stays as it was.
free_slot : Slot → (Slot → Outcome) → Outcome
free_slot null k = k null
free_slot (live t) k = k dangling
free_slot dangling k = fault

-- The label `done`: the node goes, `this` becomes NULL, and `data` is freed.
done : Entry → Outcome
unfolding free_slot
done e = free_slot e.slot (λ d. ret_err (record e { node = none; slot = d }))

-- A field is copied into a new allocation, once the one before it is given back.
store_field : Bool → Entry → List ℕ → List ℕ → Outcome
unfolding free_slot done
store_field field_ok e [] rest = done e
store_field field_ok e (d ∷ field) rest = free_slot e.slot (λ _.
    if field_ok
    then ret_ok (record e { node = some rest; slot = live (d ∷ field) })
    else done (record e { slot = null }))

-- From the skipping loop, which ends at `s`, to the end of the function.
advance : Bool → ℕ → Entry → Option (List ℕ) → Outcome
unfolding store_field span
advance field_ok keys e none = fault
advance field_ok keys e (some s) = let r = span keys s in store_field field_ok e r.0 r.1

-- LOOP_TYPE_START: the node and the copy of the line are allocated.
start_loop : Mallocs → ℕ → Entry → List ℕ → Outcome
unfolding advance skip chomp
start_loop m keys e buff =
    let s = chomp buff in
    if m.node_ok && m.copy_ok
    then advance m.field_ok keys (record e { flag = loop_type_con; node = some s }) (skip keys s)
    else ret_err e

-- LOOP_TYPE_CON.
pub continue_loop : Bool → ℕ → Entry → Option (List ℕ) → Outcome
unfolding advance skip
continue_loop field_ok keys e none = done e
continue_loop field_ok keys e (some ptr) = advance field_ok keys e (skip keys ptr)

-- The cases of the switch; what is neither of the first two is LOOP_TYPE_STOP.
dispatch : Mallocs → ℕ → Entry → List ℕ → Outcome
unfolding start_loop continue_loop done
dispatch m keys e buff =
    if e.flag == loop_type_start
    then start_loop m keys e buff
    else if e.flag == loop_type_con
    then continue_loop m.field_ok keys e e.node
    else done e

-- `none` is a NULL argument.
pub foreach_field : Mallocs → Option (List ℕ) → ℕ → Option Entry → Outcome
unfolding dispatch
foreach_field m buff keys none = rejected
foreach_field m none keys (some e) = ret_err e
foreach_field m (some []) keys (some e) = ret_err e
foreach_field m (some (c ∷ s)) keys (some e) =
    if leb loop_type_max e.flag then ret_err e else dispatch m keys e (c ∷ s)
