-- ===== src/Log/Examples.antt =====
-- A program that gives a function for errors, and takes it back.
use commlib.Base.{ℕ, ◌≡◌, refl, true, none, some, List, [], ◌∷◌, ◌++◌}
use commlib.Log.{syslog, called, start_table, log_err, log_debug, genlog_print, output, set_cb}
use commlib.Log.Laws.{Action, set, print, run, last_error, last_debug, sent, genlog_print-sent}

abbrev hello : List ℕ
hello = b'h' ∷ b'i' ∷ []

abbrev actions : List Action
actions = set (some 9) (some 8) ∷ print log_err (some hello) true ∷ set (some 5) none ∷ []

genlog_print-sent_example :
    (genlog_print (run actions start_table).0 log_err (some hello) true
      ≡ sent log_err (last_error actions none) hello ∷ [])
    × (genlog_print (run actions start_table).0 log_debug (some hello) true
        ≡ sent log_debug (last_debug actions none) hello ∷ [])
    × (genlog_print (run actions start_table).0 6 (some hello) true ≡ [])
genlog_print-sent_example = genlog_print-sent actions b'h' (b'i' ∷ []) 6 refl refl

what_happened :
    (run
      (actions ++ print log_err (some hello) true ∷ print log_debug (some hello) true ∷ [])
      start_table).1
    ≡ called 9 hello ∷ called 5 hello ∷ syslog log_debug hello ∷ []
unfolding genlog_print output set_cb
what_happened = refl
