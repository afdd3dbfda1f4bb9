-- ===== src/Text/Fields/Examples.antt =====
-- Tests of the field iterator, and its theorems at concrete lines.
use commlib.Base.{◌≡◌, refl, some, none, List, [], ◌∷◌, ℕ}
use commlib.Text.Fields.{Entry, foreach_field, fault, ret_err, live, dangling, loop_type_con, chomp}
use commlib.Text.Fields.Laws.{foreach_field_double_free}
use commlib.Text.Fields.Walk.{no_failure, foreach_line_field, Fields}

-- ",a, b c\n"
abbrev line : List ℕ
line = 44 ∷ 97 ∷ 44 ∷ 32 ∷ 98 ∷ 32 ∷ 99 ∷ 10 ∷ []

line_fields :
    foreach_line_field 9 line 44
    ≡ some (
      (97 ∷ []) ∷ (98 ∷ 32 ∷ 99 ∷ []) ∷ [],
      record { flag = loop_type_con; node = none; slot = dangling },
    )
unfolding foreach_line_field foreach_field chomp
line_fields = refl

abbrev at_end : Entry
at_end = record { flag = loop_type_con; node = some (32 ∷ []); slot = live (97 ∷ []) }

abbrev ended : Entry
ended = record { flag = loop_type_con; node = none; slot = dangling }

at_end-ended : foreach_field no_failure (some line) 44 (some at_end) ≡ ret_err ended
unfolding foreach_field
at_end-ended = refl

foreach_field_double_free_example : foreach_field no_failure (some line) 44 (some ended) ≡ fault
foreach_field_double_free_example =
    foreach_field_double_free no_failure no_failure 44 44 44 44
      (97 ∷ 44 ∷ 32 ∷ 98 ∷ 32 ∷ 99 ∷ 10 ∷ []) (97 ∷ 44 ∷ 32 ∷ 98 ∷ 32 ∷ 99 ∷ 10 ∷ []) (97 ∷ [])
      at_end ended refl refl refl at_end-ended
