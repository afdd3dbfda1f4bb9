-- ===== src/Proc/Examples.antt =====
-- A task that becomes a daemon, a line of /proc/7/stat, and command lines.
use commlib.Base.{
  All, ℕ, ◌+◌, ◌≡◌, ◌≤◌, ◌↔◌, refl, Bool, true, false, Option, none, some, List, [], ◌∷◌, ◌++◌,
  arith, length, take, replicate,
}
use commlib.Libc.{ℤ, text_at, pos, negsuc, atoi, to_u32, strtol, strtoul, fgets}
use commlib.Words.{is_blank}
use commlib.Libc.Lines.{NotNewline}
use commlib.Words.Scan.{Word, IsWord, Inner, NotZero}
use commlib.Words.Laws.{IsLine, line_text}
use commlib.Proc.{current_session, bytes, interrupted, process_max_number}
use commlib.Proc.Stat.{interruptible, stat, zero_stat, task_proc_stat}
use commlib.Proc.Stat.Laws.{Process, Tells, letter_s, task_proc_stat-Tells}
use commlib.Proc.Cmdline.{process_cmdline}
use commlib.Proc.Cmdline.Terminator.{spaced, process_cmdline-text}
use commlib.Proc.Daemon.{Options, dev_null, Task, Answers, child, files, to_daemon, running}
use commlib.Proc.Daemon.Laws.{Ends, to_daemon-Ends}

abbrev shell : Task
shell = record {
  leads = false;
  detached = false;
  fds = λ n. none;
  in_root = false;
  ignores_children = false;
  mask = 18;
}

abbrev good_answers : Answers
good_answers = record {
  first_fork = child;
  new_session = true;
  second_fork = child;
  null_fd = some 3;
  limit = some (files 1024);
  changes_dir = true;
}

abbrev all_off : Options
all_off = record { nochdir = false; nofileclose = false; nostdclose = false; nochildign = false }

to_daemon-Ends_example : Ends all_off good_answers (to_daemon all_off good_answers shell)
to_daemon-Ends_example = to_daemon-Ends all_off good_answers shell

-- When no call fails it returns, with /dev/null as its standard input and the descriptor 9 closed.
returns_as_daemon :
    (t' : Task) × (to_daemon all_off good_answers shell ≡ running t')
    × (t'.fds 0 ≡ some dev_null)
    × (t'.fds 9 ≡ none)
unfolding to_daemon
returns_as_daemon = (_, refl, refl, refl)

-- "sh\0-c\0", into buffers of four and of ten bytes.
abbrev command_line : List ℕ
command_line = b's' ∷ b'h' ∷ 0 ∷ b'-' ∷ b'c' ∷ 0 ∷ []

abbrev has_command_line : List ℕ → Option (List ℕ)
has_command_line path = some command_line

process_cmdline-text_example :
    let r = process_cmdline has_command_line 7 (replicate 4 0) in
    (r.1 ≡ true)
    × (text_at r.0 ≡ spaced (take 3 command_line) ++ b' ' ∷ [])
    × ((length (text_at r.0) ≡ length r.0) ↔ (4 ≤ length command_line + 1))
process_cmdline-text_example =
    process_cmdline-text 3 b's' (b'h' ∷ 0 ∷ b'-' ∷ b'c' ∷ 0 ∷ [])
      (refl, (refl, (refl, (refl, (refl, (refl, tt)))))) has_command_line 7 (replicate 4 0) refl
      refl

-- A session whose read is interrupted once.
session_five : current_session (some 3) (interrupted ∷ bytes (b'5' ∷ []) ∷ []) ≡ pos 5
unfolding current_session strtol strtoul
session_five = refl

pid_max : process_max_number (some (b'9' ∷ b'9' ∷ b'\n' ∷ [])) ≡ pos 99
unfolding process_max_number fgets strtol
pid_max = refl

abbrev word : ℕ → List ℕ → Word
word first rest = record { lead = []; first = first; rest = rest }

-- "7 (sh) S 1 7 7 0 -1 4194304".
abbrev stat_words : List Word
stat_words =
    word b'(' (b's' ∷ b'h' ∷ b')' ∷ [])
    ∷ word b'S' []
    ∷ word b'1' []
    ∷ word b'7' []
    ∷ word b'7' []
    ∷ word b'0' []
    ∷ word b'-' (b'1' ∷ [])
    ∷ word b'4' (b'1' ∷ b'9' ∷ [])
    ∷ []

is_word :
    (first : ℕ) (rest : List ℕ)
    → is_blank first ≡ false
    → NotZero first
    → All (Inner b' ') rest
    → IsWord b' ' (word first rest)
is_word first rest starts nz inner = record {
  blanks = tt;
  starts = starts;
  first_byte = nz;
  inner = inner;
}

one_line : All NotNewline (b'7' ∷ ([] ++ line_text b' ' stat_words))
one_line = ground arith

stat_words-IsLine : IsLine b' ' b'7' [] stat_words
stat_words-IsLine = record {
  some_key = refl;
  no_space = refl;
  first_word = ((refl, refl), tt);
  words = (
    is_word b'(' (b's' ∷ b'h' ∷ b')' ∷ []) refl refl
        ((refl, refl), ((refl, refl), ((refl, refl), tt))),
    (
      is_word b'S' [] refl refl tt,
      (
        is_word b'1' [] refl refl tt,
        (
          is_word b'7' [] refl refl tt,
          (
            is_word b'7' [] refl refl tt,
            (
              is_word b'0' [] refl refl tt,
              (
                is_word b'-' (b'1' ∷ []) refl refl ((refl, refl), tt),
                (is_word b'4' (b'1' ∷ b'9' ∷ []) refl refl ((refl, refl), ((refl, refl), tt)), tt),
              ),
            ),
          ),
        ),
      ),
    ),
  );
}

abbrev stat_file : List ℕ → Option (List ℕ)
stat_file path = some ((b'7' ∷ ([] ++ line_text b' ' stat_words)) ++ (b'\n' ∷ []))

abbrev anywhere : List ℕ → Bool
anywhere path = true

abbrev digit_7 : List ℕ
digit_7 = b'7' ∷ []

abbrev minus_1 : List ℕ
minus_1 = b'-' ∷ b'1' ∷ []

abbrev digits_419 : List ℕ
digits_419 = b'4' ∷ b'1' ∷ b'9' ∷ []

abbrev shell_process : Process
shell_process = record {
  pid = 7;
  name = b's' ∷ b'h' ∷ [];
  state = interruptible;
  ppid = 1;
  pgid = 7;
  session = 7;
  tty_major = 0;
  tty_minor = 0;
  tpgid = negsuc 0;
  flags = 419;
}

abbrev bracketed : List ℕ
bracketed = b'(' ∷ b's' ∷ b'h' ∷ b')' ∷ []

shell_process-Tells :
    Tells shell_process digit_7 bracketed
      (b'S' ∷ [])
      (b'1' ∷ [])
      digit_7
      digit_7
      (b'0' ∷ [])
      minus_1
      digits_419
unfolding atoi
shell_process-Tells = record {
  has_pid = (refl, omega arith);
  has_name = (refl, omega arith);
  has_state = letter_s;
  has_ppid = (refl, omega arith);
  has_pgid = (refl, omega arith);
  has_session = (refl, omega arith);
  has_tty = refl;
  has_tty_major = omega arith;
  has_tty_minor = omega arith;
  has_tpgid = (refl, omega arith);
  has_flags = (refl, omega arith);
}

task_proc_stat-Tells_example :
    (word : ℤ) × (to_u32 word ≡ 419)
    × (task_proc_stat anywhere stat_file 7 zero_stat
        ≡ stat (record {
          pid = 7;
          comm = b's' ∷ b'h' ∷ [];
          state = interruptible;
          ppid = 1;
          pgid = 7;
          session = 7;
          tty_nr_major = 0;
          tty_nr_minor = 0;
          tpgid = negsuc 0;
          flags = word;
        }))
task_proc_stat-Tells_example =
    task_proc_stat-Tells anywhere stat_file 7 zero_stat b'7' [] [] stat_words shell_process digit_7
      bracketed (b'S' ∷ []) (b'1' ∷ []) digit_7 digit_7 (b'0' ∷ []) minus_1 digits_419 []
      stat_words-IsLine one_line (omega arith) refl refl refl shell_process-Tells
