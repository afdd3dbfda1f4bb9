-- ===== src/Log.antt =====
-- src/myfcp/genlog.c: the table of the two output functions, which a program may replace, and the
-- call that formats a message and gives it to one of them. `vsnprintf` is a parameter, what it makes
-- of the format and the arguments; so are `syslog` and the program's own functions, of which the
-- model keeps only who was called with what.
pub mod Laws
mod Examples
use commlib.Base.{
  ℕ, zero, suc, ◌+◌, Bool, true, false, Option, none, some, List, [], ◌∷◌, ◌++◌, ◌==◌,
  if◌then◌else◌, length,
}

-- A function in the table: one of the file's own, which write to the system's log at a level, or one
-- of the program's, by a name.
pub data Output : Type 0 where
  error_output : Output
  debug_output : Output
  own : ℕ → Output

-- `genlog_cb_arr`, which never holds a NULL.
pub record Table : Type 0 where
  pub error : Output
  pub debug : Output

abbrev pub start_table : Table
start_table = record { error = error_output; debug = debug_output }

-- LOG_ERR and LOG_DEBUG of `syslog`.
abbrev pub log_err : ℕ
log_err = 3

abbrev pub log_debug : ℕ
log_debug = 7

-- What happens in a call: a message in the system's log, at a level, or a call of a function of the
-- program.
pub data Effect : Type 0 where
  syslog : ℕ → List ℕ → Effect
  called : ℕ → List ℕ → Effect

pub output : Output → List ℕ → Effect
output error_output msg = syslog log_err msg
output debug_output msg = syslog log_debug msg
output (own name) msg = called name msg

abbrev or_default : Output → Option ℕ → Output
or_default default none = default
or_default default (some name) = own name

-- genlog_set_cb; `none` is NULL.
pub set_cb : Option ℕ → Option ℕ → Table → Table
set_cb errcb debugcb table = record table {
  error = or_default error_output errcb;
  debug = or_default debug_output debugcb;
}

abbrev pub dispatch : Table → ℕ → List ℕ → List Effect
dispatch table loglevel msg =
    if loglevel == log_err
    then output table.error msg ∷ []
    else if loglevel == log_debug
    then output table.debug msg ∷ []
    else []

-- genlog_print: what `vsnprintf` answers twice, `none` for a number below 0, and whether `malloc` has
-- memory for the message.
pub genlog_print : Table → ℕ → Option (List ℕ) → Bool → List Effect
unfolding output
genlog_print table loglevel none malloc_ok = []
genlog_print table loglevel (some []) malloc_ok = []
genlog_print table loglevel (some (c ∷ msg)) malloc_ok =
    if malloc_ok then dispatch table loglevel (c ∷ msg) else []
