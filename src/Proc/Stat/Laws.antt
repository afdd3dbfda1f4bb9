-- ===== src/Proc/Stat/Laws.antt =====
-- What taskutil_task_proc_stat reads from a line of /proc/<pid>/stat.
use commlib.Base.{
  ℕ, zero, suc, ◌+◌, ◌<◌, ◌≤◌, ◌≡◌, refl, ap, ◌∙◌, Bool, true, Option, some, List, [], ◌∷◌, ◌++◌,
  arith, All, length, take, drop, replicate, append-cons_one, length-append, ◌*◌, ◌-◌, ◌/◌, ◌%◌,
  ◌^◌, leb, false, Bool-cases, inl, inr,
}
use commlib.Libc.{ℤ, pos, negsuc, to_u32, atoi, same}
use commlib.Proc.{to_int}
use commlib.Libc.Lines.{NotNewline, fgets-append}
use commlib.Words.Scan.{Word, spellings}
use commlib.Words.Laws.{IsLine, Stores, line_text, newline-Stores}
use commlib.Proc.Stat.{
  TaskState, running, interruptible, uninterruptible, zombie, stopped, traced, dead, TaskStat,
  major, minor, cut_bracket, comm_of, state_of, read_fields, stat, stat_path, take_fields,
  parse_stat, task_proc_stat,
}

cut_bracket-append : (name : List ℕ) → cut_bracket (name ++ b')' ∷ []) ≡ name
unfolding cut_bracket
cut_bracket-append [] = refl
cut_bracket-append (c ∷ []) = refl
cut_bracket-append (c ∷ d ∷ name) = ap (◌∷◌ c) (cut_bracket-append (d ∷ name))

take-all : (n : ℕ) (xs : List ℕ) → length xs ≤ n → take n xs ≡ xs
take-all zero [] h = refl
take-all zero (x ∷ xs) h = absurd (omega arith)
take-all (suc n) [] h = refl
take-all (suc n) (x ∷ xs) h = ap (◌∷◌ x) (take-all n xs (omega arith))

-- A name in brackets is read without them.
comm_of_name : (name : List ℕ) → length name < 255 → comm_of (b'(' ∷ (name ++ b')' ∷ [])) ≡ name
unfolding comm_of
comm_of_name name h =
    ap cut_bracket
      (take-all 255 (name ++ b')' ∷ []) (omega (arith, length-append name (b')' ∷ []))))
    ∙ cut_bracket-append name

take_fields-Stores :
    (words : List (List ℕ)) (n : ℕ) (s : TaskStat) {out : _}
    → Stores words n out
    → take_fields out s ≡ stat (read_fields (take n words) s)
unfolding take_fields
take_fields-Stores words n s (buff, offsets, e, t) = rw (e, t)

parse_stat_line :
    (c : ℕ) (rest more : List ℕ) (ws : List Word) (s : TaskStat)
    → IsLine b' ' c rest ws
    → All NotNewline (c ∷ (rest ++ line_text b' ' ws))
    → length (rest ++ line_text b' ' ws) + 2 < 2048
    → parse_stat (some ((c ∷ (rest ++ line_text b' ' ws)) ++ (b'\n' ∷ more))) s
      ≡ stat (read_fields (take 9 ((c ∷ rest) ∷ spellings ws)) s)
unfolding parse_stat
parse_stat_line c rest more ws s line one_line fits =
    let whole : List ℕ = c ∷ (rest ++ line_text b' ' ws) in
    let buff : List ℕ = replicate 2048 0 in
    let tail : List ℕ = drop (length (whole ++ b'\n' ∷ []) + 1) buff in
    rw
      (
        parse_stat,
        fgets-append 2048 c (rest ++ line_text b' ' ws) more one_line fits,
        append-cons_one whole (0 ∷ tail) b'\n',
      )
      (take_fields-Stores ((c ∷ rest) ∷ spellings ws) 9 s
        (newline-Stores b' ' c rest ws line 8 tail))

-- The letters of the states.
pub data Letter : List ℕ → TaskState → Type 0 where
  letter_r : Letter (b'R' ∷ []) running
  letter_s : Letter (b'S' ∷ []) interruptible
  letter_d : Letter (b'D' ∷ []) uninterruptible
  letter_z : Letter (b'Z' ∷ []) zombie
  letter_t : Letter (b'T' ∷ []) stopped
  small_t : Letter (b't' ∷ []) traced
  letter_x : Letter (b'X' ∷ []) dead
  small_x : Letter (b'x' ∷ []) dead

state_of-Letter : (text : List ℕ) (s : TaskState) → Letter text s → state_of text ≡ s
unfolding state_of same
state_of-Letter text s letter_r = refl
state_of-Letter text s letter_s = refl
state_of-Letter text s letter_d = refl
state_of-Letter text s letter_z = refl
state_of-Letter text s letter_t = refl
state_of-Letter text s small_t = refl
state_of-Letter text s letter_x = refl
state_of-Letter text s small_x = refl

-- The numbers of an `int`.
abbrev pub IsInt : ℤ → Type 0
IsInt (pos n) = n < 2 ^ 31
IsInt (negsuc n) = n < 2 ^ 31

-- What a line tells of a process.
pub record Process : Type 0 where
  pub pid : ℕ
  pub name : List ℕ
  pub state : TaskState
  pub ppid : ℕ
  pub pgid : ℕ
  pub session : ℕ
  pub tty_major : ℕ
  pub tty_minor : ℕ
  pub tpgid : ℤ
  pub flags : ℕ

-- The columns of a process as the kernel writes them. The number of its terminal has the low eight
-- bits of the minor number, the twelve of the major number, and the rest of the minor number.
pub record Tells (p : Process) (pid name state ppid pgid session tty tpgid flags : List ℕ)
    : Type 0 where
  pub has_pid : (atoi pid ≡ pos p.pid) × (p.pid < 2 ^ 31)
  pub has_name : (name ≡ b'(' ∷ (p.name ++ b')' ∷ [])) × (length p.name < 255)
  pub has_state : Letter state p.state
  pub has_ppid : (atoi ppid ≡ pos p.ppid) × (p.ppid < 2 ^ 31)
  pub has_pgid : (atoi pgid ≡ pos p.pgid) × (p.pgid < 2 ^ 31)
  pub has_session : (atoi session ≡ pos p.session) × (p.session < 2 ^ 31)
  pub has_tty : atoi tty ≡ pos (p.tty_minor % 256 + p.tty_major * 256 + p.tty_minor / 256 * 1048576)
  pub has_tty_major : p.tty_major < 4096
  pub has_tty_minor : p.tty_minor < 524288
  pub has_tpgid : (atoi tpgid ≡ p.tpgid) × IsInt p.tpgid
  pub has_flags : (atoi flags ≡ pos p.flags) × (p.flags < 2 ^ 32)

to_int-IsInt : (z : ℤ) → IsInt z → to_int (to_u32 z) ≡ z
to_int-IsInt (pos n) h =
    let e : n % 2 ^ 32 ≡ n = omega (arith, h) in
    let small : leb (2 ^ 31) n ≡ false = ground (arith, h) in rw (e, small) refl
to_int-IsInt (negsuc n) h =
    let e : n % 2 ^ 32 ≡ n = omega (arith, h) in
    let large : leb (2 ^ 31) ((2 ^ 32 - 1) - n) ≡ true = ground (arith, h) in
    let d : 2 ^ 32 - ((2 ^ 32 - 1) - n) ≡ suc n = omega (arith, h) in rw (e, large, d) refl

to_int-word : (n : ℕ) → n < 2 ^ 32 → to_u32 (to_int (n % 2 ^ 32)) ≡ n
to_int-word n h =
    let e : n % 2 ^ 32 ≡ n = omega (arith, h) in
    elim (Bool-cases (leb (2 ^ 31) n)) [
      | inr small ↦ rw (e, small) e
      | inl large ↦
          let (m, d) : (m : ℕ) × (2 ^ 32 - n ≡ suc m) = (2 ^ 32 - n - 1, omega (arith, h)) in
          let v : (2 ^ 32 - 1) - m % 2 ^ 32 ≡ n = omega (arith, h, d) in rw (e, large, d) v
    ]

low_bits : (n : ℕ) → n < 2 ^ 32 → n % 2 ^ 32 ≡ n
low_bits n h = omega (arith, h)

major-device :
    (m k : ℕ) → m < 4096 → k < 524288 → major (pos (k % 256 + m * 256 + k / 256 * 1048576)) ≡ m
unfolding major
major-device m k h l = omega (arith, h, l)

minor-device :
    (m k : ℕ) → m < 4096 → k < 524288 → minor (pos (k % 256 + m * 256 + k / 256 * 1048576)) ≡ k
unfolding minor
minor-device m k h l = omega (arith, h, l)

tty_small : (m k : ℕ) → m < 4096 → k < 524288 → IsInt (pos (k % 256 + m * 256 + k / 256 * 1048576))
tty_small m k h l = omega (arith, h, l)

read_fields-Tells :
    (pid name state ppid pgid session tty tpgid flags : List ℕ) (others : List (List ℕ))
    (s : TaskStat) (p : Process)
    → Tells p pid name state ppid pgid session tty tpgid flags
    → read_fields
        (take 9 (pid ∷ name ∷ state ∷ ppid ∷ pgid ∷ session ∷ tty ∷ tpgid ∷ flags ∷ others))
        s
      ≡ record {
        pid = p.pid;
        comm = p.name;
        state = p.state;
        ppid = p.ppid;
        pgid = p.pgid;
        session = p.session;
        tty_nr_major = p.tty_major;
        tty_nr_minor = p.tty_minor;
        tpgid = p.tpgid;
        flags = to_int (p.flags % 2 ^ 32);
      }
unfolding read_fields
read_fields-Tells pid name state ppid pgid session tty tpgid flags others s p t =
    rw
      (
        t.has_pid.0,
        low_bits p.pid (omega (arith, t.has_pid.1)),
        t.has_name.0,
        comm_of_name p.name t.has_name.1,
        state_of-Letter state p.state t.has_state,
        t.has_ppid.0,
        low_bits p.ppid (omega (arith, t.has_ppid.1)),
        t.has_pgid.0,
        low_bits p.pgid (omega (arith, t.has_pgid.1)),
        t.has_session.0,
        low_bits p.session (omega (arith, t.has_session.1)),
        t.has_tty,
        to_int-IsInt _ (tty_small p.tty_major p.tty_minor t.has_tty_major t.has_tty_minor),
        major-device p.tty_major p.tty_minor t.has_tty_major t.has_tty_minor,
        minor-device p.tty_major p.tty_minor t.has_tty_major t.has_tty_minor,
        t.has_tpgid.0,
        to_int-IsInt p.tpgid t.has_tpgid.1,
        t.has_flags.0,
      )
      refl

-- When the line of /proc/<pid>/stat is words with blanks between them, which fits the buffer of 2048
-- bytes and whose first nine words are the columns of a process as the kernel writes them, with a
-- name of fewer than 255 bytes in brackets, taskutil_task_proc_stat returns 0 and has stored the
-- process's numbers, its name without the brackets, its state, the major and the minor number of its
-- terminal, and flags of which the 32 bits are the process's.
pub task_proc_stat-Tells :
    (exists : List ℕ → Bool) (files : List ℕ → Option (List ℕ)) (n : ℕ) (s : TaskStat) (c : ℕ)
    (rest more : List ℕ) (ws : List Word) (p : Process)
    (pid name state ppid pgid session tty tpgid flags : List ℕ) (others : List (List ℕ))
    → IsLine b' ' c rest ws
    → All NotNewline (c ∷ (rest ++ line_text b' ' ws))
    → length (rest ++ line_text b' ' ws) + 2 < 2048
    → exists (stat_path n) ≡ true
    → files (stat_path n) ≡ some ((c ∷ (rest ++ line_text b' ' ws)) ++ (b'\n' ∷ more))
    → (c ∷ rest) ∷ spellings ws
      ≡ pid ∷ name ∷ state ∷ ppid ∷ pgid ∷ session ∷ tty ∷ tpgid ∷ flags ∷ others
    → Tells p pid name state ppid pgid session tty tpgid flags
    → (word : ℤ) × (to_u32 word ≡ p.flags)
      × (task_proc_stat exists files n s
          ≡ stat (record {
            pid = p.pid;
            comm = p.name;
            state = p.state;
            ppid = p.ppid;
            pgid = p.pgid;
            session = p.session;
            tty_nr_major = p.tty_major;
            tty_nr_minor = p.tty_minor;
            tpgid = p.tpgid;
            flags = word;
          }))
unfolding task_proc_stat
task_proc_stat-Tells exists files n s c rest more ws p pid name state ppid pgid session tty tpgid
      flags others line one_line fits there opens columns tells =
    (
      to_int (p.flags % 2 ^ 32),
      to_int-word p.flags tells.has_flags.1,
      rw (task_proc_stat, there, opens, parse_stat_line c rest more ws s line one_line fits)
          (ap (λ (words : List (List ℕ)). stat (read_fields (take 9 words) s)) columns
            ∙ ap stat (
                read_fields-Tells pid name state ppid pgid session tty tpgid flags others s p
                  tells)),
    )
