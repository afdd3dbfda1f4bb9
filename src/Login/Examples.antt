-- ===== src/Login/Examples.antt =====
-- A wtmp with a session, a login that is never closed, and the times that it tells.
use commlib.Base.{All, ◌+◌, ℕ, ◌≡◌, refl, Bool, true, false, some, List, [], ◌∷◌}
use commlib.Login.{
  find_logout, same_text, Utmp, LoginInfo, Login, node_of, user_process, dead_process, boot_time,
  run_lvl, reboot_text, shutdown_text, Callback, Sweep, os_info_logout_tty, init_login_list, closed,
}
use commlib.Login.Spec.{IsSession}
use commlib.Login.Leak.{count, IsUserProcess, IsSettled, os_info_logout_tty_leak}
use commlib.Login.Laws.{os_info_logout_tty-IsSession}

abbrev record_of : ℕ → List ℕ → ℕ → Utmp
record_of kind line time = record {
  ut_type = kind;
  ut_pid = 7;
  ut_user = 97 ∷ [];
  ut_host = [];
  ut_line = line;
  tv_sec = time;
  tv_usec = 2000000;
}

abbrev login : Utmp
login = record_of user_process (49 ∷ []) 10

abbrev logout : Utmp
logout = record_of dead_process (49 ∷ []) 20

abbrev other_login : Utmp
other_login = record_of user_process (50 ∷ []) 15

abbrev pub collect : Callback (List LoginInfo)
collect info seen = (info ∷ seen, false)

abbrev always : ℕ → Bool
always i = true

abbrev pub wtmp : List Utmp
wtmp = login ∷ other_login ∷ logout ∷ []

abbrev nodes : List Login
nodes = node_of login ∷ node_of other_login ∷ node_of logout ∷ []

-- Everything that was collected is a session.
abbrev Sessions : List LoginInfo → Type 0
Sessions [] = Unit
Sessions (info ∷ seen) = IsSession nodes info × Sessions seen

init_login_list-wtmp : init_login_list always (some wtmp) ≡ some nodes
unfolding init_login_list
init_login_list-wtmp = refl

os_info_logout_tty-IsSession_example :
    (s : Sweep (List LoginInfo)) × (os_info_logout_tty collect always (some wtmp) []
      ≡ some (s, true))
    × Sessions s.user
os_info_logout_tty-IsSession_example =
    os_info_logout_tty-IsSession collect Sessions always wtmp nodes [] init_login_list-wtmp
      (λ info seen s p. (s, p)) tt

os_info_logout_tty_leak_example :
    (s : Sweep (List LoginInfo)) × (left : List Login) × (os_info_logout_tty collect always
        (some wtmp)
        []
      ≡ some (s, true))
    × All IsUserProcess left
    × All (IsSettled nodes) s.freed
    × ((test : Login → Bool) → count test s.freed + count test left ≡ count test nodes)
os_info_logout_tty_leak_example =
    os_info_logout_tty_leak collect (λ info u. refl) always (some wtmp) nodes []
      init_login_list-wtmp

-- One session is collected, and the node of the login without a logout is not freed.
wtmp_sweep :
    os_info_logout_tty collect always (some wtmp) []
    ≡ some (
      record {
        user = closed (node_of login) (node_of logout) ∷ [];
        freed = node_of logout ∷ node_of login ∷ [];
      },
      true,
    )
unfolding os_info_logout_tty init_login_list find_logout same_text
wtmp_sweep = refl

abbrev boot : Utmp
boot = record (record_of boot_time [] 5) { ut_user = reboot_text }

abbrev shutdown : Utmp
shutdown = record (record_of run_lvl [] 30) { ut_user = shutdown_text }
