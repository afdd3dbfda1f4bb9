-- ===== src/Login.antt =====
-- The login records of src/myfcp/fcp_os.c. The files utmp and wtmp are parameters: the list of the
-- records that `fread` delivers, with `none` for a file that does not open. The ring of list.h that
-- holds the nodes is the list of its nodes in order.
pub mod Spec
pub mod Nodes
mod Laws
mod Leak
mod Examples
use commlib.Base.{
  ℕ, zero, suc, ◌+◌, ◌/◌, Bool, true, false, not, Option, none, some, List, [], ◌∷◌, ◌==◌, ◌&&◌,
  ◌||◌, leb, if◌then◌else◌, length, take,
}

-- The values of <utmp.h>.
abbrev pub run_lvl : ℕ
run_lvl = 1

abbrev pub boot_time : ℕ
boot_time = 2

abbrev pub user_process : ℕ
user_process = 7

abbrev pub dead_process : ℕ
dead_process = 8

-- The fields of `struct utmp` that are read. A text ends before its first zero, and within its
-- field; the time is not negative.
pub record Utmp : Type 0 where
  pub ut_type : ℕ
  pub ut_pid : ℕ
  pub ut_user : List ℕ
  pub ut_host : List ℕ
  pub ut_line : List ℕ
  pub tv_sec : ℕ
  pub tv_usec : ℕ

-- `struct login_info`; `none` is the time -1.
pub record LoginInfo : Type 0 where
  pub pid : ℕ
  pub username : List ℕ
  pub hostname : List ℕ
  pub tty : List ℕ
  pub logintime : ℕ
  pub logouttime : Option ℕ

-- `struct login_list`.
pub record Login : Type 0 where
  pub kind : ℕ
  pub info : LoginInfo

-- `record.ut_tv.tv_sec+(record.ut_tv.tv_usec/1000000)`.
abbrev pub time_of : Utmp → ℕ
time_of r = r.tv_sec + r.tv_usec / 1000000

-- `!strcmp(s, t)`.
pub same_text : List ℕ → List ℕ → Bool
same_text [] [] = true
same_text [] (d ∷ t) = false
same_text (c ∷ s) [] = false
same_text (c ∷ s) (d ∷ t) = c == d && same_text s t

-- `snprintf` with MAX_USER_NAME, MAX_HOST_NAME and MAX_TTY_LEN leaves room for the terminator.
abbrev pub info_of : Utmp → LoginInfo
info_of r = record {
  pid = r.ut_pid;
  username = take 127 r.ut_user;
  hostname = take 255 r.ut_host;
  tty = take 127 r.ut_line;
  logintime = time_of r;
  logouttime = none;
}

-- A node of init_login_list is zero where nothing is stored: in the pid, and in the names of a
-- DEAD_PROCESS.
abbrev pub node_of : Utmp → Login
node_of r = record {
  kind = r.ut_type;
  info = record (info_of r) {
    pid = 0;
    username = if r.ut_type == user_process then take 127 r.ut_user else [];
    hostname = if r.ut_type == user_process then take 255 r.ut_host else [];
  };
}

-- `alloc i` is whether the call of `malloc` number i succeeds; without a node the record is left.
pub login_nodes : (ℕ → Bool) → ℕ → List Utmp → List Login
login_nodes alloc i [] = []
login_nodes alloc i (r ∷ rs) =
    if not (r.ut_type == user_process) && not (r.ut_type == dead_process)
    then login_nodes alloc i rs
    else if alloc i
    then node_of r ∷ login_nodes alloc (i + 1) rs
    else login_nodes alloc (i + 1) rs

-- `none` is -1.
pub init_login_list : (ℕ → Bool) → Option (List Utmp) → Option (List Login)
unfolding login_nodes
init_login_list alloc none = none
init_login_list alloc (some rs) = some (login_nodes alloc 0 rs)

-- The nodes that were freed, after those that are still in the list are.
pub exit_login_list : List Login → List Login → List Login
exit_login_list freed [] = freed
exit_login_list freed (node ∷ rest) = exit_login_list (node ∷ freed) rest

-- The first record that passes the test.
first_time : (Utmp → Bool) → List Utmp → Option ℕ
first_time test [] = none
first_time test (r ∷ rs) = if test r then some (time_of r) else first_time test rs

-- "reboot" and "shutdown".
abbrev pub reboot_text : List ℕ
reboot_text = 114 ∷ 101 ∷ 98 ∷ 111 ∷ 111 ∷ 116 ∷ []

abbrev pub shutdown_text : List ℕ
shutdown_text = 115 ∷ 104 ∷ 117 ∷ 116 ∷ 100 ∷ 111 ∷ 119 ∷ 110 ∷ []

abbrev pub is_boot : Utmp → Bool
is_boot r = same_text r.ut_user reboot_text && boot_time == r.ut_type

abbrev pub is_shutdown : Utmp → Bool
is_shutdown r = same_text r.ut_user shutdown_text && run_lvl == r.ut_type

pub os_info_boot_time : Option (List Utmp) → Option ℕ
unfolding first_time
os_info_boot_time none = none
os_info_boot_time (some rs) = first_time is_boot rs

-- The loop of os_info_last_shutdow_time with `oldtime`.
last_time : (Utmp → Bool) → Option ℕ → List Utmp → Option ℕ
last_time test oldtime [] = oldtime
last_time test oldtime (r ∷ rs) = last_time test (if test r then some (time_of r) else oldtime) rs

pub os_info_last_shutdow_time : Option (List Utmp) → Option ℕ
unfolding last_time
os_info_last_shutdow_time none = none
os_info_last_shutdow_time (some rs) = last_time is_shutdown none rs

-- The user's callback changes what `userarg` points to, and stops the loop where it returns a
-- negative number.
abbrev pub Callback {ℓ} : Type ℓ → Type ℓ
Callback U = LoginInfo → U → U × Bool

module _ {ℓ} {U : Type ℓ} (callback : Callback U) where
  pub running_loop : U → List Utmp → U
  running_loop u [] = u
  running_loop u (r ∷ rs) = elim (r.ut_type == user_process) [
    | false ↦ running_loop u rs
    | true ↦ elim ((callback (info_of r) u).1) [
      | true ↦ (callback (info_of r) u).0
      | false ↦ running_loop (callback (info_of r) u).0 rs
    ]
  ]

  -- The state after the call, and whether it returned 0.
  pub os_info_running_tty : Option (List Utmp) → U → U × Bool
  unfolding running_loop
  os_info_running_tty none u = (u, false)
  os_info_running_tty (some rs) u = (running_loop u rs, true)

-- The test of the inner loop.
abbrev pub closes : Login → Login → Bool
closes node out =
    out.kind == dead_process
    && (same_text out.info.tty node.info.tty && leb node.info.logintime out.info.logintime)

-- The first node that passes it, and the list without it.
pub find_logout : Login → List Login → Option (Login × List Login)
find_logout node [] = none
find_logout node (out ∷ rest) =
    if closes node out
    then some (out, rest)
    else elim (find_logout node rest) [ none ↦ none | some (o, others) ↦ some (o, out ∷ others) ]

abbrev pub closed : Login → Login → LoginInfo
closed node out = record node.info { logouttime = some out.info.logintime }

-- What a call leaves: the user's state, and the nodes that were given to `free`.
pub record Sweep {ℓ} (U : Type ℓ) : Type ℓ where
  pub user : U
  pub freed : List Login

module _ {ℓ} {U : Type ℓ} (callback : Callback U) where
  -- `while( (tmppos = list_pop_front(&tmphead)) )`; `none` is a round more than the fuel.
  pub logout_loop : ℕ → U → List Login → List Login → Option (Sweep U)
  logout_loop zero u freed [] = some (record { user = u; freed = freed })
  logout_loop (suc n) u freed [] = some (record { user = u; freed = freed })
  logout_loop zero u freed (node ∷ rest) = none
  logout_loop (suc n) u freed (node ∷ rest) = elim (node.kind == user_process) [
    | false ↦ logout_loop n u (node ∷ freed) rest
    | true ↦ elim (find_logout node rest) [
      | none ↦ logout_loop n u freed rest
      | some (out, others) ↦ elim ((callback (closed node out) u).1) [
        | true ↦
            some (record {
              user = (callback (closed node out) u).0;
              freed = exit_login_list freed rest;
            })
        | false ↦ logout_loop n (callback (closed node out) u).0 (out ∷ node ∷ freed) others
      ]
    ]
  ]

  -- As many rounds as there are nodes are enough. The flag is whether the call returned 0.
  pub os_info_logout_tty : (ℕ → Bool) → Option (List Utmp) → U → Option (Sweep U × Bool)
  unfolding logout_loop
  os_info_logout_tty alloc file u = elim (init_login_list alloc file) [
    | none ↦ some (record { user = u; freed = [] }, false)
    | some nodes ↦ elim (logout_loop (length nodes) u [] nodes) [
      | none ↦ none
      | some s ↦ some (s, true)
    ]
  ]
