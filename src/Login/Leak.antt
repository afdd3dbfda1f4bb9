-- ===== src/Login/Leak.antt =====
-- Which nodes os_info_logout_tty of src/myfcp/fcp_os.c gives to `free`, and which it does not.
use commlib.Base.{
  ℕ, zero, suc, ◌+◌, ◌≤◌, ◌≡◌, ◌∙◌, ◌⊎◌, refl, inl, inr, Bool, true, false, Option, none, some,
  List, [], ◌∷◌, ◌==◌, arith, length, All, Bool-cases, Option-cases, if◌then◌else◌,
}
use commlib.Login.{
  Utmp, Login, LoginInfo, init_login_list, os_info_logout_tty, user_process, Callback, Sweep,
  closes, closed, find_logout, logout_loop,
}
use commlib.Login.Spec.{OneOf}
use commlib.Login.Laws.{Found, find_logout-FoundIn}

-- How many nodes pass a test.
abbrev pub count : (Login → Bool) → List Login → ℕ
count test [] = 0
count test (x ∷ xs) = (if test x then 1 else 0) + count test xs

abbrev pub IsUserProcess : Login → Type 0
IsUserProcess x = (x.kind == user_process) ≡ true

-- A node that is no login, or a login with a logout in the list.
abbrev pub IsSettled : List Login → Login → Type 0
IsSettled nodes x =
    ((x.kind == user_process) ≡ false) ⊎ ((out : Login) × OneOf out nodes × (closes x out ≡ true))

abbrev Counted : (Login → Bool) → List Login → Option (Login × List Login) → Type 0
Counted test rest none = Unit
Counted test rest (some (out, others)) = count test rest ≡ count test (out ∷ others)

Counted-later :
    (test : Login → Bool) (x : Login) (rest : List Login) (o : Option (Login × List Login))
    → Counted test rest o
    → Counted test (x ∷ rest) (elim o [ none ↦ none | some (out, others) ↦ some (out, x ∷ others) ])
Counted-later test x rest none c = tt
Counted-later test x rest (some (out, others)) c = omega (arith, c)

find_logout-Counted :
    (test : Login → Bool) (node : Login) (rest : List Login)
    → Counted test rest (find_logout node rest)
unfolding find_logout
find_logout-Counted test node [] = tt
find_logout-Counted test node (x ∷ rest) = elim (Bool-cases (closes node x)) [
  | inl here ↦ rw here refl
  | inr there ↦
      rw there
        (Counted-later test x rest (find_logout node rest) (find_logout-Counted test node rest))
]

module _ {ℓ} {U : Type ℓ} (callback : Callback U)
    (goes_on : (info : LoginInfo) (u : U) → (callback info u).1 ≡ false) where
  -- What the loop comes to from nodes of the list `whole`, when the nodes `freed` were freed before.
  record Accounts (whole freed nodes : List Login) (result : Option (Sweep U)) : Type ℓ where
    pub sweep : Sweep U
    pub leaked : List Login
    pub ends : result ≡ some sweep
    pub logins : All IsUserProcess leaked
    pub settled : All (IsSettled whole) sweep.freed
    pub balance :
        (test : Login → Bool)
        → count test sweep.freed + count test leaked ≡ count test freed + count test nodes

  -- The node `x` is freed, or leaked, in front of what the loop does with the rest.
  also_freed :
      (whole freed : List Login) (xs rest nodes : List Login) (result : Option (Sweep U))
      → ((test : Login → Bool)
          → count test xs + count test rest ≡ count test freed + count test nodes)
      → Accounts whole xs rest result
      → Accounts whole freed nodes result
  also_freed whole freed xs rest nodes result same a = record {
    sweep = a.sweep;
    leaked = a.leaked;
    ends = a.ends;
    logins = a.logins;
    settled = a.settled;
    balance = λ test. a.balance test ∙ same test;
  }

  also_leaked :
      (whole freed : List Login) (x : Login) (rest : List Login) (result : Option (Sweep U))
      → IsUserProcess x
      → Accounts whole freed rest result
      → Accounts whole freed (x ∷ rest) result
  also_leaked whole freed x rest result login a = record {
    sweep = a.sweep;
    leaked = x ∷ a.leaked;
    ends = a.ends;
    logins = (login, a.logins);
    settled = a.settled;
    balance = λ test. omega (arith, a.balance test);
  }

  logout_loop-Accounts :
      (n : ℕ) (u : U) (whole freed nodes : List Login)
      → length nodes ≤ n
      → ((x : Login) → OneOf x nodes → OneOf x whole)
      → All (IsSettled whole) freed
      → Accounts whole freed nodes (logout_loop callback n u freed nodes)
  unfolding logout_loop
  logout_loop-Accounts zero u whole freed [] h within settled = record {
    sweep = _;
    leaked = [];
    ends = refl;
    logins = tt;
    settled = settled;
    balance = λ test. refl;
  }
  logout_loop-Accounts (suc n) u whole freed [] h within settled = record {
    sweep = _;
    leaked = [];
    ends = refl;
    logins = tt;
    settled = settled;
    balance = λ test. refl;
  }
  logout_loop-Accounts zero u whole freed (node ∷ rest) h within settled = absurd (omega (arith, h))
  logout_loop-Accounts (suc n) u whole freed (node ∷ rest) h within settled =
      elim (Bool-cases (node.kind == user_process)) [
        | inr other ↦
            rw (logout_loop, other)
              (also_freed whole freed (node ∷ freed) rest (node ∷ rest) _ (λ test. omega arith)
                (logout_loop-Accounts n u whole (node ∷ freed) rest (omega (arith, h))
                  (λ x among. within x (inr among)) (inl other, settled)))
        | inl login ↦ elim (Option-cases (find_logout node rest)) [
          | inl nowhere ↦
              rw (logout_loop, login, nowhere)
                (also_leaked whole freed node rest _ login (
                  logout_loop-Accounts n u whole freed rest (omega (arith, h))
                    (λ x among. within x (inr among)) settled))
          | inr ((out, others), there) ↦
              let f : Found node rest out others = rw there at (find_logout-FoundIn node rest) in
              let counted : (test : Login → Bool) → count test rest ≡ count test (out ∷ others) =
                λ test. rw there at (find_logout-Counted test node rest) in
              let paired : IsSettled whole node = inr (out, within out (inr f.among), f.fits) in
              let logout : IsSettled whole out = inl (ground (arith, f.fits)) in
              rw (logout_loop, login, there, goes_on (closed node out) u)
                (also_freed whole freed (out ∷ node ∷ freed) others (node ∷ rest) _
                  (λ test. omega (arith, counted test))
                  (logout_loop-Accounts n (callback (closed node out) u).0 whole
                    (out ∷ node ∷ freed) others (omega (arith, h, f.shorter))
                    (λ x among. within x (inr (f.kept x among))) (logout, (paired, settled))))
        ]
      ]

  -- With a callback that never stops the loop, os_info_logout_tty ends and returns 0. The nodes made
  -- from wtmp are, by the count of any test, those that were freed and those that are left without being
  -- freed. Each that is left is a login, and each login that was freed has a logout in wtmp, on its
  -- terminal and not earlier: so every logout is freed, and no login without a logout is.
  pub os_info_logout_tty_leak :
      (alloc : ℕ → Bool) (file : Option (List Utmp)) (nodes : List Login) (u : U)
      → init_login_list alloc file ≡ some nodes
      → (s : Sweep U) × (left : List Login) × (os_info_logout_tty callback alloc file u
          ≡ some (s, true))
        × All IsUserProcess left
        × All (IsSettled nodes) s.freed
        × ((test : Login → Bool) → count test s.freed + count test left ≡ count test nodes)
  unfolding os_info_logout_tty
  os_info_logout_tty_leak alloc file nodes u made =
      let a = logout_loop-Accounts (length nodes) u nodes [] nodes (omega arith) (λ x m. m) tt in
      (
        a.sweep,
        a.leaked,
        rw (os_info_logout_tty, made, a.ends) refl,
        a.logins,
        a.settled,
        λ test. omega (arith, a.balance test),
      )
