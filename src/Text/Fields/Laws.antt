-- ===== src/Text/Fields/Laws.antt =====
-- One call of gen_foreach_field.
use commlib.Base.{ℕ, ◌≡◌, refl, true, false, none, some, List, [], ◌∷◌, arith, ◌&&◌, Option, ◌≤◌}
use commlib.Text.Fields.{
  live, dangling, Entry, Mallocs, ret_err, fault, loop_type_start, loop_type_con, loop_type_max,
  free_slot, done, store_field, advance, start_loop, continue_loop, dispatch, foreach_field, skip,
  span,
}

-- When the loop ends the freed pointer stays in `entry->data`.
done_live :
    (e : Entry) (t : List ℕ)
    → e.slot ≡ live t
    → done e ≡ ret_err (record e { node = none; slot = dangling })
unfolding done free_slot
done_live e t h = ground arith

store_field_err :
    (e e' : Entry) (t field rest : List ℕ)
    → e.slot ≡ live t
    → store_field true e field rest ≡ ret_err e'
    → e' ≡ record e { node = none; slot = dangling }
unfolding store_field done free_slot
store_field_err e e' t field rest h r = ground arith

continue_err :
    (keys : ℕ) (e e' : Entry) (t : List ℕ) (ptr : Option (List ℕ))
    → e.slot ≡ live t
    → continue_loop true keys e ptr ≡ ret_err e'
    → e' ≡ record e { node = none; slot = dangling }
unfolding continue_loop advance done free_slot
continue_err keys e e' t none h r = ground arith
continue_err keys e e' t (some ptr) h r = advanced (skip keys ptr) r
  where
    advanced :
        (o : Option (List ℕ))
        → advance true keys e o ≡ ret_err e'
        → e' ≡ record e { node = none; slot = dangling }
    advanced none r = cc
    advanced (some s) r = store_field_err e e' t (span keys s).0 (span keys s).1 h r

dispatch_con :
    (m : Mallocs) (keys : ℕ) (e : Entry) (buff : List ℕ)
    → e.flag ≡ loop_type_con
    → dispatch m keys e buff ≡ continue_loop m.field_ok keys e e.node
unfolding dispatch
dispatch_con m keys e buff h = rw h

pub foreach_con :
    (m : Mallocs) (keys : ℕ) (e : Entry) (c : ℕ) (s : List ℕ)
    → e.flag ≡ loop_type_con
    → foreach_field m (some (c ∷ s)) keys (some e) ≡ continue_loop m.field_ok keys e e.node
unfolding foreach_field
foreach_con m keys e c s h = ground (arith, dispatch_con m keys e (c ∷ s) h)

-- Once a running loop over a line has ended with -1 after it had delivered a field, one more call
-- on the same entry, with any line that is not empty, frees the last field a second time. (The
-- allocation of the field is taken to succeed in the call that ends the loop.)
pub foreach_field_double_free :
    (m m' : Mallocs) (keys keys' c c' : ℕ) (s s' t : List ℕ) (e e' : Entry)
    → m.field_ok ≡ true
    → e.flag ≡ loop_type_con
    → e.slot ≡ live t
    → foreach_field m (some (c ∷ s)) keys (some e) ≡ ret_err e'
    → foreach_field m' (some (c' ∷ s')) keys' (some e') ≡ fault
foreach_field_double_free m m' keys keys' c c' s s' t e e' ok con full r =
    rw (left, foreach_con m' keys' (record e { node = none; slot = dangling }) c' s' con) freed
  where
    left : e' ≡ record e { node = none; slot = dangling }
    left = continue_err keys e e' t e.node full (rw (foreach_con m keys e c s con, ok) at r)

    freed : continue_loop m'.field_ok keys' (record e { node = none; slot = dangling }) none ≡ fault
    freed = unfold continue_loop done free_slot in refl

-- Why a call is refused: a NULL or empty line, a flag that is no loop type, or no memory for the
-- node or the copy of the line when the loop starts.
pub data Refused (m : Mallocs) (e : Entry) : Option (List ℕ) → Type 0 where
  null_line : Refused m e none
  empty_line : Refused m e (some [])
  bad_flag : {c : ℕ} {s : List ℕ} → loop_type_max ≤ e.flag → Refused m e (some (c ∷ s))
  no_memory :
      {c : ℕ} {s : List ℕ}
      → e.flag ≡ loop_type_start
      → (m.node_ok && m.copy_ok) ≡ false
      → Refused m e (some (c ∷ s))

-- A call that is refused, for a NULL or empty line, a flag that is no loop type, or for want of
-- memory for the node or the copy at the start, returns -1 and leaves the entry as it was.
pub foreach_field-Refused :
    (m : Mallocs) (keys : ℕ) (e : Entry) {buff : Option (List ℕ)}
    → Refused m e buff
    → foreach_field m buff keys (some e) ≡ ret_err e
unfolding foreach_field dispatch start_loop
foreach_field-Refused m keys e null_line = refl
foreach_field-Refused m keys e empty_line = refl
foreach_field-Refused m keys e (bad_flag big) = ground arith
foreach_field-Refused m keys e (no_memory start failed) = ground arith
