-- ===== src/Login/Spec.antt =====
-- What the functions of src/myfcp/fcp_os.c report: sessions of a list of login nodes.
use commlib.Base.{if◌then◌else◌, ◌≡◌, ◌⊎◌, ◌≤◌, some, true, List, [], ◌∷◌, ◌==◌}
use commlib.Login.{Utmp, info_of, Callback, Login, LoginInfo, user_process, dead_process}

abbrev pub OneOf : Login → List Login → Type 0
OneOf out [] = ⊥
OneOf out (x ∷ xs) = (x ≡ out) ⊎ OneOf out xs

-- `node` stands in the list, and `out` behind it.
abbrev pub Later : Login → Login → List Login → Type 0
Later node out [] = ⊥
Later node out (x ∷ xs) = ((x ≡ node) × OneOf out xs) ⊎ Later node out xs

-- A login and a logout behind it that closes it, and the record that tells of both.
pub record IsSession (nodes : List Login) (info : LoginInfo) : Type 0 where
  pub node : Login
  pub out : Login
  pub order : Later node out nodes
  pub is_login : (node.kind == user_process) ≡ true
  pub is_logout : (out.kind == dead_process) ≡ true
  pub terminal : out.info.tty ≡ node.info.tty
  pub in_time : node.info.logintime ≤ out.info.logintime
  pub tells : info ≡ record node.info { logouttime = some out.info.logintime }

-- What utmp tells of the sessions that run, in order.
abbrev pub running_sessions : List Utmp → List LoginInfo
running_sessions [] = []
running_sessions (r ∷ rs) =
    if r.ut_type == user_process then info_of r ∷ running_sessions rs else running_sessions rs

-- The user's state after the callback was given each of them.
abbrev pub report {ℓ} : {U : Type ℓ} → Callback U → U → List LoginInfo → U
report callback u [] = u
report callback u (info ∷ rest) = report callback (callback info u).0 rest
