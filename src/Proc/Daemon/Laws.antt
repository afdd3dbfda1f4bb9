-- ===== src/Proc/Daemon/Laws.antt =====
-- The daemon that taskutil_task_to_daemon makes.
use commlib.Base.{
  ℕ, zero, suc, ◌+◌, ◌-◌, ◌≤◌, ◌<◌, ◌≡◌, refl, true, false, Option, none, some, ltb, leb, arith,
  if◌then◌else◌, Bool, Bool-cases, Option-cases, inl, inr, ◌⊎◌, ap, sym, ◌∙◌, subst,
}
use commlib.Proc.Daemon.{
  Target, dev_null, Task, ForkAnswer, parent, child, failed, Outcome, exited, Limit, Answers,
  Options, running, put_fd, dup_loop, redirect, close_loop, file_number, settle, close_files,
  second_child, fork_again, to_daemon,
}

dup_loop-fds :
    (n i : ℕ) (target : Option Target) (fds : ℕ → Option Target) (m : ℕ)
    → dup_loop n i target fds m
      ≡ (if leb i m then (if ltb m (i + n) then target else fds m) else fds m)
unfolding dup_loop
dup_loop-fds zero i target fds m = ground arith
dup_loop-fds (suc n) i target fds m =
    ground (arith, dup_loop-fds n (i + 1) target (put_fd fds i target) m)

close_loop-fds :
    (n i : ℕ) (fds : ℕ → Option Target) (m : ℕ)
    → close_loop n i fds m ≡ (if leb i m then (if ltb m (i + n) then none else fds m) else fds m)
unfolding close_loop
close_loop-fds zero i fds m = ground arith
close_loop-fds (suc n) i fds m = ground (arith, close_loop-fds n (i + 1) (put_fd fds i none) m)

redirect-std :
    (tmpfd : ℕ) (fds : ℕ → Option Target) (n : ℕ)
    → n < 3
    → redirect (some tmpfd) fds n ≡ some dev_null
unfolding redirect
redirect-std tmpfd fds n small =
    ground (arith, dup_loop-fds 3 0 (some dev_null) (put_fd fds tmpfd (some dev_null)) n)

abbrev task_or : Task → Outcome → Task
task_or t (exited ok) = t
task_or t (running t') = t'

running-eq : (t t' : Task) → running t ≡ running t' → t ≡ t'
running-eq t t' e = ap (task_or t) e

not_running {ℓ} : {A : Type ℓ} (ok : Bool) (t : Task) → exited ok ≡ running t → A
not_running ok t e = absurd (let f = e in cc)

-- What the last blocks leave.
record Settled (o : Options) (s t' : Task) : Type 0 where
  pub fds : t'.fds ≡ s.fds
  pub leads : t'.leads ≡ s.leads
  pub detached : t'.detached ≡ s.detached
  pub mask : t'.mask ≡ 0
  pub root : o.nochdir ≡ false → t'.in_root ≡ true
  pub quiet : o.nochildign ≡ false → t'.ignores_children ≡ true

settle-Settled :
    (o : Options) (a : Answers) (s t' : Task) → settle o a s ≡ running t' → Settled o s t'
unfolding settle
settle-Settled o a s t' e = elim (Bool-cases o.nochdir) [
  | inl stays ↦ subst (Settled o s) (running-eq _ t' (rw (settle, stays) at e)) (record {
    fds = refl;
    leads = refl;
    detached = refl;
    mask = refl;
    root = λ h. absurd (let f : true ≡ false = sym stays ∙ h in cc);
    quiet = λ h. rw h refl;
  })
  | inr moves ↦ elim (Bool-cases a.changes_dir) [
    | inl changes ↦
        subst (Settled o s) (running-eq _ t' (rw (settle, moves, changes) at e)) (record {
          fds = refl;
          leads = refl;
          detached = refl;
          mask = refl;
          root = λ h. refl;
          quiet = λ h. rw h refl;
        })
    | inr fails ↦ not_running false t' (rw (settle, moves, fails) at e)
  ]
]

-- What a task is in which the call returns, for any arguments and any answers.
pub record Detached (o : Options) (a : Answers) (t' : Task) : Type 0 where
  pub in_child : (a.first_fork ≡ child) × (a.new_session ≡ true) × (a.second_fork ≡ child)
  pub leads : t'.leads ≡ false
  pub detached : t'.detached ≡ true
  pub mask : t'.mask ≡ 0
  pub root : o.nochdir ≡ false → t'.in_root ≡ true
  pub quiet : o.nochildign ≡ false → t'.ignores_children ≡ true
  pub std :
      (tmpfd n : ℕ)
      → o.nostdclose ≡ false
      → a.null_fd ≡ some tmpfd
      → n < 3
      → t'.fds n ≡ some dev_null
  pub closed :
      o.nofileclose ≡ false
      → (limit : Limit) × (a.limit ≡ some limit)
        × ((n : ℕ) → 3 ≤ n → n < file_number limit → t'.fds n ≡ none)

-- The descriptors behind the two blocks for them.
record Closes (o : Options) (a : Answers) (s t' : Task) : Type 0 where
  pub settled : (fds : ℕ → Option Target) × Settled o (record s { fds = fds }) t'
  pub low : (n : ℕ) → n < 3 → t'.fds n ≡ s.fds n
  pub high :
      o.nofileclose ≡ false
      → (limit : Limit) × (a.limit ≡ some limit)
        × ((n : ℕ) → 3 ≤ n → n < file_number limit → t'.fds n ≡ none)

close_files-Closes :
    (o : Options) (a : Answers) (s t' : Task) → close_files o a s ≡ running t' → Closes o a s t'
unfolding close_files
close_files-Closes o a s t' e = elim (Bool-cases o.nofileclose) [
  | inl keeps ↦
      let settled : Settled o s t' = settle-Settled o a s t' (rw (close_files, keeps) at e) in
      record {
        settled = (s.fds, settled);
        low = λ n h. ap (λ (f : ℕ → Option Target). f n) settled.fds;
        high = λ h. absurd (let f : true ≡ false = sym keeps ∙ h in cc);
      }
  | inr closes ↦ elim (Option-cases a.limit) [
    | inl f ↦ not_running false t' (rw (close_files, closes, f) at e)
    | inr (limit, f) ↦
        let fds = close_loop (file_number limit - 3) 3 s.fds in
        let settled : Settled o (record s { fds = fds }) t' =
          settle-Settled o a (record s { fds = fds }) t' (rw (close_files, closes, f) at e) in
        record {
          settled = (fds, settled);
          low = λ n h.
              ap (λ (g : ℕ → Option Target). g n) settled.fds
              ∙ ground (arith, close_loop-fds (file_number limit - 3) 3 s.fds n, h);
          high = λ h. (
            limit,
            f,
            λ n from to.
                ap (λ (g : ℕ → Option Target). g n) settled.fds
                ∙ ground (arith, close_loop-fds (file_number limit - 3) 3 s.fds n, from, to),
          );
        }
  ]
]

second_child-Detached :
    (o : Options) (a : Answers) (t t' : Task)
    → (a.first_fork ≡ child) × (a.new_session ≡ true) × (a.second_fork ≡ child)
    → t.detached ≡ true
    → second_child o a t ≡ running t'
    → Detached o a t'
unfolding second_child
second_child-Detached o a t t' answers session e =
    let c =
      close_files-Closes o a
        (record t { leads = false; fds = if o.nostdclose then t.fds else redirect a.null_fd t.fds })
        t' e in
    record {
      in_child = answers;
      leads = c.settled.1.leads;
      detached = c.settled.1.detached ∙ session;
      mask = c.settled.1.mask;
      root = c.settled.1.root;
      quiet = c.settled.1.quiet;
      std = λ tmpfd n off null low. c.low n low ∙ rw (off, null) (redirect-std tmpfd t.fds n low);
      closed = c.high;
    }

Fork-cases : (f : ForkAnswer) → (f ≡ parent) ⊎ ((f ≡ child) ⊎ (f ≡ failed))
Fork-cases parent = inl refl
Fork-cases child = inr (inl refl)
Fork-cases failed = inr (inr refl)

-- A call failed that the arguments ask for.
pub data Fails (o : Options) (a : Answers) : Type 0 where
  no_fork : (a.first_fork ≡ failed) ⊎ (a.second_fork ≡ failed) → Fails o a
  no_session : a.new_session ≡ false → Fails o a
  no_limit : o.nofileclose ≡ false → a.limit ≡ none → Fails o a
  no_root : o.nochdir ≡ false → a.changes_dir ≡ false → Fails o a

settle_ends :
    (o : Options) (a : Answers) (s : Task)
    → ((t' : Task) × (settle o a s ≡ running t')) ⊎ ((settle o a s ≡ exited false) × Fails o a)
unfolding settle
settle_ends o a s = elim (Bool-cases o.nochdir) [
  | inl stays ↦
      let t' = record s {
        ignores_children = if o.nochildign then s.ignores_children else true;
        mask = 0;
      } in
      let e : settle o a s ≡ running t' = rw (settle, stays) refl in inl (t', e)
  | inr moves ↦ elim (Bool-cases a.changes_dir) [
    | inl changes ↦
        let t' = record s {
          in_root = true;
          ignores_children = if o.nochildign then s.ignores_children else true;
          mask = 0;
        } in
        let e : settle o a s ≡ running t' = rw (settle, moves, changes) refl in inl (t', e)
    | inr fails ↦
        let e : settle o a s ≡ exited false = rw (settle, moves, fails) refl in
        inr (e, no_root moves fails)
  ]
]

-- How the call ends, passed on to an outcome that is the same.
settled_as :
    (o : Options) (a : Answers) (s : Task) (r : Outcome)
    → r ≡ settle o a s
    → ((t' : Task) × (r ≡ running t')) ⊎ ((r ≡ exited false) × Fails o a)
settled_as o a s r e = elim (settle_ends o a s) [
  | inl (t', q) ↦ inl (t', e ∙ q)
  | inr (q, why) ↦ inr (e ∙ q, why)
]

close_files_ends :
    (o : Options) (a : Answers) (s : Task)
    → ((t' : Task) × (close_files o a s ≡ running t'))
      ⊎ ((close_files o a s ≡ exited false) × Fails o a)
unfolding close_files
close_files_ends o a s = elim (Bool-cases o.nofileclose) [
  | inl keeps ↦
      let e : close_files o a s ≡ settle o a s = rw (close_files, keeps) refl in
      settled_as o a s (close_files o a s) e
  | inr closes ↦ elim (Option-cases a.limit) [
    | inl f ↦
        let e : close_files o a s ≡ exited false = rw (close_files, closes, f) refl in
        inr (e, no_limit closes f)
    | inr (limit, f) ↦
        let s' = record s { fds = close_loop (file_number limit - 3) 3 s.fds } in
        let e : close_files o a s ≡ settle o a s' = rw (close_files, closes, f) refl in
        settled_as o a s' (close_files o a s) e
  ]
]

-- How the call ends: a parent of a fork ends with the status 0, a failure ends the process with
-- another status, or the call returns.
pub data Ends (o : Options) (a : Answers) : Outcome → Type 0 where
  in_parent : (a.first_fork ≡ parent) ⊎ (a.second_fork ≡ parent) → Ends o a (exited true)
  gives_up : Fails o a → Ends o a (exited false)
  returns : {t' : Task} → Detached o a t' → Ends o a (running t')

second_child-Ends :
    (o : Options) (a : Answers) (t : Task)
    → (a.first_fork ≡ child) × (a.new_session ≡ true) × (a.second_fork ≡ child)
    → t.detached ≡ true
    → Ends o a (second_child o a t)
unfolding second_child
second_child-Ends o a t answers session =
    elim (close_files_ends o a (record t {
      leads = false;
      fds = if o.nostdclose then t.fds else redirect a.null_fd t.fds;
    })) [
      | inl (t', e) ↦
          subst (Ends o a) (sym e) (returns (second_child-Detached o a t t' answers session e))
      | inr (e, why) ↦ subst (Ends o a) (sym e) (gives_up why)
    ]

-- For all arguments and all answers of the system, taskutil_task_to_daemon returns only in the child
-- of the second fork, in a process of a new session that it does not lead, with the mask 0; with the
-- root as its directory and SIGCHLD ignored where the arguments for these are 0, with /dev/null on the
-- descriptors 0 to 2 where the argument for these is 0 and /dev/null opens, and with every descriptor
-- from 3 up to the limit closed where the argument for these is 0. In a parent of a fork it ends the
-- process with the status 0, and where a call fails that the arguments ask for, with another one.
pub to_daemon-Ends : (o : Options) (a : Answers) (t : Task) → Ends o a (to_daemon o a t)
unfolding to_daemon fork_again
to_daemon-Ends o a t = elim (Fork-cases a.first_fork) [
  | inl f ↦ ends_as (rw (to_daemon, f) refl) (in_parent (inl f))
  | inr (inr f) ↦ ends_as (rw (to_daemon, f) refl) (gives_up (no_fork (inl f)))
  | inr (inl f) ↦ elim (Bool-cases a.new_session) [
    | inr g ↦ ends_as (rw (to_daemon, f, g) refl) (gives_up (no_session g))
    | inl g ↦ elim (Fork-cases a.second_fork) [
      | inl h ↦ ends_as (rw (to_daemon, f, g, fork_again, h) refl) (in_parent (inr h))
      | inr (inr h) ↦
          ends_as (rw (to_daemon, f, g, fork_again, h) refl) (gives_up (no_fork (inr h)))
      | inr (inl h) ↦
          ends_as (rw (to_daemon, f, g, fork_again, h) refl)
            (second_child-Ends o a (record t { leads = true; detached = true }) (f, g, h) refl)
    ]
  ]
]
  where
    ends_as : {r : Outcome} → to_daemon o a t ≡ r → Ends o a r → Ends o a (to_daemon o a t)
    ends_as e h = subst (Ends o a) (sym e) h
