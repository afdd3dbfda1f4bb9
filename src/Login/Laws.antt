-- ===== src/Login/Laws.antt =====
-- What os_info_logout_tty, os_info_last_shutdow_time and os_info_running_tty do with the records.
use commlib.Base.{
  ℕ, zero, suc, ◌≤◌, ◌≡◌, refl, inl, inr, Bool, true, false, Option, none, some, List, [], ◌∷◌,
  ◌++◌, ◌==◌, arith, length, All, ap₂, ==_iff, &&_parts, Bool-cases, Option-cases, if◌then◌else◌,
}
use commlib.Login.{
  Utmp, LoginInfo, Login, time_of, info_of, user_process, dead_process, Callback, Sweep, closes,
  same_text, closed, find_logout, logout_loop, init_login_list, os_info_logout_tty, first_time,
  last_time, is_boot, is_shutdown, os_info_boot_time, os_info_last_shutdow_time, running_loop,
  os_info_running_tty,
}
use commlib.Login.Spec.{report, running_sessions, OneOf, Later, IsSession}

same_text-eq : (s t : List ℕ) → same_text s t ≡ true → s ≡ t
unfolding same_text
same_text-eq [] [] e = refl
same_text-eq [] (d ∷ t) e = absurd (let f : false ≡ true = e in cc)
same_text-eq (c ∷ s) [] e = absurd (let f : false ≡ true = e in cc)
same_text-eq (c ∷ s) (d ∷ t) e =
    let parts = &&_parts (c == d) (same_text s t) e in
    ap₂ (λ (x : ℕ) (xs : List ℕ). x ∷ xs) ((==_iff c d).0 parts.0) (same_text-eq s t parts.1)

-- What the test of the inner loop asks for.
pub closes_parts :
    (node out : Login)
    → closes node out ≡ true
    → ((out.kind == dead_process) ≡ true)
      × (out.info.tty ≡ node.info.tty)
      × (node.info.logintime ≤ out.info.logintime)
closes_parts node out e =
    let kind = &&_parts (out.kind == dead_process) _ e in
    let rest = &&_parts (same_text out.info.tty node.info.tty) _ kind.1 in
    (kind.0, same_text-eq out.info.tty node.info.tty rest.0, ground (arith, rest.1))

-- The first logout that closes a login, when there is one, and the list without it.
pub record Found (node : Login) (rest : List Login) (out : Login) (others : List Login)
    : Type 0 where
  pub among : OneOf out rest
  pub fits : closes node out ≡ true
  pub kept : (x : Login) → OneOf x others → OneOf x rest
  pub ordered : (x y : Login) → Later x y others → Later x y rest
  pub shorter : suc (length others) ≡ length rest

next_match :
    (node x out : Login) (rest others : List Login)
    → Found node rest out others
    → Found node (x ∷ rest) out (x ∷ others)
next_match node x out rest others f = record {
  among = inr f.among;
  fits = f.fits;
  kept = λ y m. elim m [ inl e ↦ inl e | inr later ↦ inr (f.kept y later) ];
  ordered = λ a b m. elim m [
    | inl here ↦ inl (here.0, f.kept b here.1)
    | inr later ↦ inr (f.ordered a b later)
  ];
  shorter = omega (arith, f.shorter);
}

abbrev pub FoundIn : Login → List Login → Option (Login × List Login) → Type 0
FoundIn node rest none = Unit
FoundIn node rest (some (out, others)) = Found node rest out others

found_later :
    (node x : Login) (rest : List Login) (o : Option (Login × List Login))
    → FoundIn node rest o
    → FoundIn node (x ∷ rest) (elim o [ none ↦ none | some (o, others) ↦ some (o, x ∷ others) ])
found_later node x rest none f = tt
found_later node x rest (some (out, others)) f = next_match node x out rest others f

pub find_logout-FoundIn :
    (node : Login) (rest : List Login) → FoundIn node rest (find_logout node rest)
unfolding find_logout
find_logout-FoundIn node [] = tt
find_logout-FoundIn node (x ∷ rest) = elim (Bool-cases (closes node x)) [
  | inl here ↦ rw here (record {
    among = inl refl;
    fits = here;
    kept = λ y m. inr m;
    ordered = λ a b m. inr m;
    shorter = refl;
  })
  | inr there ↦
      rw there (found_later node x rest (find_logout node rest) (find_logout-FoundIn node rest))
]

module _ {ℓ κ} {U : Type ℓ} (callback : Callback U) (P : U → Type κ) where
  -- The user's state keeps the predicate with every session of the list.
  abbrev Keeps : List Login → Type (ℓ ⊔ κ)
  Keeps nodes = (info : LoginInfo) (u : U) → IsSession nodes info → P u → P (callback info u).0

  abbrev Swept : Option (Sweep U) → Type (ℓ ⊔ κ)
  Swept o = (s : Sweep U) × (o ≡ some s) × P s.user

  fewer_sessions :
      (nodes fewer : List Login)
      → ((a b : Login) → Later a b fewer → Later a b nodes)
      → Keeps nodes
      → Keeps fewer
  fewer_sessions nodes fewer sub keeps info u s p =
      keeps info u
        (record {
          node = s.node;
          out = s.out;
          order = sub s.node s.out s.order;
          is_login = s.is_login;
          is_logout = s.is_logout;
          terminal = s.terminal;
          in_time = s.in_time;
          tells = s.tells;
        })
        p

  logout_loop-Swept :
      (n : ℕ) (u : U) (freed nodes : List Login)
      → length nodes ≤ n
      → Keeps nodes
      → P u
      → Swept (logout_loop callback n u freed nodes)
  unfolding logout_loop
  logout_loop-Swept zero u freed [] h keeps p = (_, refl, p)
  logout_loop-Swept (suc n) u freed [] h keeps p = (_, refl, p)
  logout_loop-Swept zero u freed (node ∷ rest) h keeps p = absurd (omega arith)
  logout_loop-Swept (suc n) u freed (node ∷ rest) h keeps p =
      elim (Bool-cases (node.kind == user_process)) [
        | inr other ↦
            rw (logout_loop, other)
              (logout_loop-Swept n u (node ∷ freed) rest (omega arith) keeps_rest p)
        | inl login ↦ elim (Option-cases (find_logout node rest)) [
          | inl nowhere ↦
              rw (logout_loop, login, nowhere)
                (logout_loop-Swept n u freed rest (omega arith) keeps_rest p)
          | inr (pair, there) ↦
              let f : Found node rest pair.0 pair.1 = rw there at (find_logout-FoundIn node rest) in
              let p' = keeps (closed node pair.0) u (session pair.0 login f.among f.fits) p in
              elim (Bool-cases ((callback (closed node pair.0) u).1)) [
                | inl stops ↦ rw (logout_loop, login, there, stops) (_, refl, p')
                | inr goes ↦
                    rw (logout_loop, login, there, goes)
                      (logout_loop-Swept n _ (pair.0 ∷ node ∷ freed) pair.1
                        (omega (arith, f.shorter)) (fewer_sessions rest pair.1 f.ordered keeps_rest)
                        p')
              ]
        ]
      ]
    where
      keeps_rest : Keeps rest
      keeps_rest = fewer_sessions (node ∷ rest) rest (λ a b m. inr m) keeps

      session :
          (out : Login)
          → (node.kind == user_process) ≡ true
          → OneOf out rest
          → closes node out ≡ true
          → IsSession (node ∷ rest) (closed node out)
      session out login among fits = record {
        node = node;
        out = out;
        order = inl (refl, among);
        is_login = login;
        is_logout = (closes_parts node out fits).0;
        terminal = (closes_parts node out fits).1;
        in_time = (closes_parts node out fits).2;
        tells = refl;
      }

  -- For every predicate on the user's state that the callback keeps when it is given a session of the
  -- nodes made from wtmp, a login with a logout behind it on the same terminal that is not earlier,
  -- and that holds at the start: os_info_logout_tty ends, returns 0, and the predicate holds of the
  -- state after it.
  pub os_info_logout_tty-IsSession :
      (alloc : ℕ → Bool) (rs : List Utmp) (nodes : List Login) (u : U)
      → init_login_list alloc (some rs) ≡ some nodes
      → Keeps nodes
      → P u
      → (s : Sweep U) × (os_info_logout_tty callback alloc (some rs) u ≡ some (s, true)) × P s.user
  unfolding os_info_logout_tty
  os_info_logout_tty-IsSession alloc rs nodes u made keeps p =
      let r = logout_loop-Swept (length nodes) u [] nodes (omega arith) keeps p in
      (r.0, rw (os_info_logout_tty, made, r.1), r.2)

module _ {ℓ} {U : Type ℓ} (callback : Callback U) where
  abbrev IsLogin : Login → Type 0
  IsLogin node = (node.kind == user_process) ≡ true

  find_logout-logins :
      (node : Login) (rest : List Login) → All IsLogin rest → find_logout node rest ≡ none
  unfolding find_logout
  find_logout-logins node [] h = refl
  find_logout-logins node (out ∷ rest) h =
      let alive : (out.kind == dead_process) ≡ false = ground (arith, h.0) in
      rw (alive, find_logout-logins node rest h.1)

  -- When every node of the list is a login, the loop of os_info_logout_tty takes them all from the
  -- list, calls nobody, and frees none of them.
  logout_loop_leak :
      (n : ℕ) (u : U) (freed nodes : List Login)
      → length nodes ≤ n
      → All IsLogin nodes
      → logout_loop callback n u freed nodes ≡ some (record { user = u; freed = freed })
  unfolding logout_loop
  logout_loop_leak zero u freed [] h logins = refl
  logout_loop_leak (suc n) u freed [] h logins = refl
  logout_loop_leak zero u freed (node ∷ rest) h logins = absurd (omega arith)
  logout_loop_leak (suc n) u freed (node ∷ rest) h logins =
      rw (logout_loop, logins.0, find_logout-logins node rest logins.1)
        (logout_loop_leak n u freed rest (omega arith) logins.1)

module _ (test : Utmp → Bool) where
  abbrev Fails : Utmp → Type 0
  Fails r = test r ≡ false

  first_time-append :
      (xs ys : List Utmp) (r : Utmp)
      → All Fails xs
      → test r ≡ true
      → first_time test (xs ++ r ∷ ys) ≡ some (time_of r)
  unfolding first_time
  first_time-append [] ys r h e = rw e
  first_time-append (x ∷ xs) ys r h e = rw h.0 (first_time-append xs ys r h.1 e)

  last_time-none : (old : Option ℕ) (ys : List Utmp) → All Fails ys → last_time test old ys ≡ old
  unfolding last_time
  last_time-none old [] h = refl
  last_time-none old (y ∷ ys) h = rw h.0 (last_time-none old ys h.1)

  last_time-append :
      (xs ys : List Utmp) (r : Utmp) (old : Option ℕ)
      → All Fails ys
      → test r ≡ true
      → last_time test old (xs ++ r ∷ ys) ≡ some (time_of r)
  unfolding last_time
  last_time-append [] ys r old h e = rw (last_time, e) (last_time-none (some (time_of r)) ys h)
  last_time-append (x ∷ xs) ys r old h e =
      last_time-append xs ys r (if test x then some (time_of x) else old) h e

-- os_info_boot_time returns the time of the first boot record of its file, and
-- os_info_last_shutdow_time that of the last shutdown record of its file.
pub boot_and_shutdown_times :
    (xs ys : List Utmp) (boot : Utmp) (xs' ys' : List Utmp) (shutdown : Utmp)
    → All (Fails is_boot) xs
    → is_boot boot ≡ true
    → All (Fails is_shutdown) ys'
    → is_shutdown shutdown ≡ true
    → (os_info_boot_time (some (xs ++ boot ∷ ys)) ≡ some (time_of boot))
      × (os_info_last_shutdow_time (some (xs' ++ shutdown ∷ ys')) ≡ some (time_of shutdown))
unfolding os_info_boot_time os_info_last_shutdow_time
boot_and_shutdown_times xs ys boot xs' ys' shutdown first is_b last is_s = (
  first_time-append is_boot xs ys boot first is_b,
  last_time-append is_shutdown xs' ys' shutdown none last is_s,
)

module _ {ℓ} {U : Type ℓ} (callback : Callback U) where
  running_loop-report :
      (u : U) (rs : List Utmp)
      → ((info : LoginInfo) (v : U) → (callback info v).1 ≡ false)
      → running_loop callback u rs ≡ report callback u (running_sessions rs)
  unfolding running_loop
  running_loop-report u [] goes = refl
  running_loop-report u (r ∷ rs) goes = elim (Bool-cases (r.ut_type == user_process)) [
    | inl runs ↦
        rw (running_loop, runs, goes (info_of r) u)
          (running_loop-report (callback (info_of r) u).0 rs goes)
    | inr other ↦ rw (running_loop, other) (running_loop-report u rs goes)
  ]

  -- With a callback that never returns a negative number, os_info_running_tty returns 0 and has given
  -- the callback the records of utmp that are of the type USER_PROCESS, each once and in their order.
  pub os_info_running_tty-report :
      (u : U) (rs : List Utmp)
      → ((info : LoginInfo) (v : U) → (callback info v).1 ≡ false)
      → os_info_running_tty callback (some rs) u ≡ (report callback u (running_sessions rs), true)
  unfolding os_info_running_tty
  os_info_running_tty-report u rs goes = rw (running_loop-report u rs goes)
