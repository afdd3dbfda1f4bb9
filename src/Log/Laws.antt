-- ===== src/Log/Laws.antt =====
-- Where the messages of a program go.
use commlib.Base.{
  ℕ, ◌≡◌, refl, ap, Bool, true, false, Option, none, some, List, [], ◌∷◌, ◌++◌, ◌==◌,
}
use commlib.Log.{
  Table, start_table, Effect, syslog, called, output, set_cb, genlog_print, log_err, log_debug,
}

-- What a program does with the log: it gives functions, or prints a message at a level.
pub data Action : Type 0 where
  set : Option ℕ → Option ℕ → Action
  print : ℕ → Option (List ℕ) → Bool → Action

-- The table after some actions, and what has happened.
abbrev pub run : List Action → Table → Table × List Effect
run [] table = (table, [])
run (set errcb debugcb ∷ actions) table = run actions (set_cb errcb debugcb table)
run (print level msg malloc_ok ∷ actions) table =
    ((run actions table).0, genlog_print table level msg malloc_ok ++ (run actions table).1)

-- Who gets the messages of a level after some actions: the function that the last `set` gave for it, if
-- it gave one.
abbrev pub last_error : List Action → Option ℕ → Option ℕ
last_error [] before = before
last_error (set errcb debugcb ∷ actions) before = last_error actions errcb
last_error (print level msg malloc_ok ∷ actions) before = last_error actions before

abbrev pub last_debug : List Action → Option ℕ → Option ℕ
last_debug [] before = before
last_debug (set errcb debugcb ∷ actions) before = last_debug actions debugcb
last_debug (print level msg malloc_ok ∷ actions) before = last_debug actions before

abbrev pub sent : ℕ → Option ℕ → List ℕ → Effect
sent level none msg = syslog level msg
sent level (some name) msg = called name msg

set_error :
    (errcb debugcb : Option ℕ) (table : Table) (msg : List ℕ)
    → output (set_cb errcb debugcb table).error msg ≡ sent log_err errcb msg
unfolding output set_cb
set_error none debugcb table msg = refl
set_error (some name) debugcb table msg = refl

set_debug :
    (errcb debugcb : Option ℕ) (table : Table) (msg : List ℕ)
    → output (set_cb errcb debugcb table).debug msg ≡ sent log_debug debugcb msg
unfolding output set_cb
set_debug errcb none table msg = refl
set_debug errcb (some name) table msg = refl

run_table :
    (actions : List Action) (table : Table) (errcb debugcb : Option ℕ) (msg : List ℕ)
    → output table.error msg ≡ sent log_err errcb msg
    → output table.debug msg ≡ sent log_debug debugcb msg
    → (output (run actions table).0.error msg ≡ sent log_err (last_error actions errcb) msg)
      × (output (run actions table).0.debug msg ≡ sent log_debug (last_debug actions debugcb) msg)
run_table [] table errcb debugcb msg e d = (e, d)
run_table (set errcb' debugcb' ∷ actions) table errcb debugcb msg e d =
    run_table actions (set_cb errcb' debugcb' table) errcb' debugcb' msg
      (set_error errcb' debugcb' table msg) (set_debug errcb' debugcb' table msg)
run_table (print level text malloc_ok ∷ actions) table errcb debugcb msg e d =
    run_table actions table errcb debugcb msg e d

-- Whatever a program has done with the log since its start, a message that is not empty is given, if
-- there is memory for it, to exactly one output: at the level of errors and at that of debugging the
-- function that the last call of genlog_set_cb gave for the level, or the system's log, at the same
-- level, where there was no such call or it gave NULL. A message of any other level is dropped.
pub genlog_print-sent :
    (actions : List Action) (c : ℕ) (msg : List ℕ) (level : ℕ)
    → (level == log_err) ≡ false
    → (level == log_debug) ≡ false
    → let table = (run actions start_table).0 in
      (genlog_print table log_err (some (c ∷ msg)) true
        ≡ sent log_err (last_error actions none) (c ∷ msg) ∷ [])
      × (genlog_print table log_debug (some (c ∷ msg)) true
          ≡ sent log_debug (last_debug actions none) (c ∷ msg) ∷ [])
      × (genlog_print table level (some (c ∷ msg)) true ≡ [])
unfolding genlog_print
genlog_print-sent actions c msg level not_err not_debug =
    let outputs =
      run_table actions start_table none none (c ∷ msg) (unfold output in refl)
        (unfold output in refl) in
    (
      ap (λ (e : Effect). e ∷ []) outputs.0,
      ap (λ (e : Effect). e ∷ []) outputs.1,
      rw (genlog_print, not_err, not_debug),
    )
