-- ===== src/Text/Fields/Walk.antt =====
-- The macro gen_foreach_line_field of src/myfcp/genstring.h, which runs gen_foreach_field to the
-- end of a line, and the fields that it delivers.
use commlib.Base.{ℕ, zero, suc, ◌≡◌, true, false, Option, none, some, List, [], ◌∷◌, ◌++◌, All}
use commlib.Text.Fields.{
  Slot, null, live, dangling, Entry, Mallocs, Outcome, ret_ok, ret_err, fault, rejected, zero_entry,
  loop_type_con, foreach_field,
}
use commlib.Text.Fields.Scan.{is_sep, IsSep, NotKey, StopsAt}

abbrev pub no_failure : Mallocs
no_failure = record { node_ok = true; copy_ok = true; field_ok = true }

abbrev text_of : Slot → List ℕ
text_of null = []
text_of (live t) = t
text_of dangling = []

abbrev deliver : Slot → Option (List (List ℕ) × Entry) → Option (List (List ℕ) × Entry)
deliver d none = none
deliver d (some (fs, e)) = some (text_of d ∷ fs, e)

-- One test of the loop's condition, and the body and the rounds after it. An entry that is no
-- NULL is never `rejected`.
abbrev round : Outcome → (Entry → Option (List (List ℕ) × Entry)) → Option (List (List ℕ) × Entry)
round (ret_ok e) next = deliver e.slot (next e)
round (ret_err e) next = some ([], e)
round rejected next = none
round fault next = none

-- The texts that the loop's body sees in `entry->data`, and the entry when the loop ends. `none`
-- is a fault, or more rounds than the fuel.
pub walk : ℕ → List ℕ → ℕ → Entry → Option (List (List ℕ) × Entry)
walk zero buff keys e = none
walk (suc n) buff keys e =
    round (foreach_field no_failure (some buff) keys (some e)) (walk n buff keys)

-- `memset` and the loop.
unfoldable pub foreach_line_field : ℕ → List ℕ → ℕ → Option (List (List ℕ) × Entry)
unfolding walk
foreach_line_field fuel buff keys = walk fuel buff keys zero_entry

-- The fields of a line: after any separators a text that starts with none, runs without the key
-- up to a key or the end, and is followed by the fields of what is left.
pub data Fields (keys : ℕ) : List ℕ → List (List ℕ) → Type 0 where
  stop : {s : List ℕ} → All (IsSep keys) s → Fields keys s []
  field :
      {s : List ℕ} {d : ℕ} {fs : List (List ℕ)} (lead field rest : List ℕ)
      → s ≡ lead ++ (d ∷ (field ++ rest))
      → All (IsSep keys) lead
      → is_sep keys d ≡ false
      → All (NotKey keys) field
      → StopsAt keys rest
      → Fields keys rest fs
      → Fields keys s ((d ∷ field) ∷ fs)

abbrev running : List ℕ → Slot → Entry
running ptr d = record { flag = loop_type_con; node = some ptr; slot = d }

abbrev IsFresh : Slot → Type 0
IsFresh null = Unit
IsFresh (live t) = Unit
IsFresh dangling = ⊥

-- What `free(entry->data)` leaves in `entry->data` at the label `done`.
abbrev pub freed : Slot → Slot
freed null = null
freed (live t) = dangling
freed dangling = dangling

-- The loop from an entry whose line is read up to `ptr`.
record Walked (n keys c : ℕ) (s ptr : List ℕ) (d : Slot) : Type 0 where
  fields : List (List ℕ)
  last : Entry
  run : walk n (c ∷ s) keys (running ptr d) ≡ some (fields, last)
  found : Fields keys ptr fields
  closed : last.node ≡ none
