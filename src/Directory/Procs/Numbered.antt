-- ===== src/Directory/Procs/Numbered.antt =====
-- Which directories of /proc general_find_proc_pid of src/myfcp/general.c calls the callback for.
use commlib.Base.{
  ℕ, suc, ◌+◌, ◌-◌, ◌*◌, ◌≤◌, ◌<◌, ◌≡◌, refl, Bool, true, false, none, some, List, [], ◌∷◌, ◌++◌,
  ◌==◌, ◌&&◌, ◌||◌, leb, arith, All, length, Bool-cases, inl, inr, ◌⊎◌,
}
use commlib.Directory.{
  Dirent, dt_dir, proc_dir, behind_slash, digits_value, unsigned_value, atoi, is_proc_path,
  find_proc_pid, full_path,
}
use commlib.Directory.Laws.{
  no_failure, paths_of, taken, passed_cases, full_path-Prefix, without_slash,
}
use commlib.Directory.Procs.{visit, find_proc_pid-visit}

-- The digits in front are a number other than 0: zeros, and a digit from 1 to 9.
pub data Numbered : List ℕ → Type 0 where
  zero_then : {s : List ℕ} → Numbered s → Numbered (b'0' ∷ s)
  digit : {c : ℕ} {s : List ℕ} → b'1' ≤ c → c ≤ b'9' → Numbered (c ∷ s)

abbrev pub NotSlash : ℕ → Type 0
NotSlash c = (c == b'/') ≡ false

-- The name has no white space and no sign in front.
abbrev pub StartsPlain : List ℕ → Type 0
StartsPlain [] = Unit
StartsPlain (c ∷ s) = (32 < c) × ((c == b'+') ≡ false) × ((c == b'-') ≡ false)

-- A name in /proc: it has no slash.
abbrev pub IsName : Dirent → Type 0
IsName ent = All NotSlash ent.d_name × StartsPlain ent.d_name

-- The directory of a process.
pub record IsProcess (ent : Dirent) : Type 0 where
  pub of_type : ent.d_type ≡ 4
  pub number : Numbered ent.d_name

-- "/proc/" and a name.
abbrev pub proc_path : List ℕ → List ℕ
proc_path name = b'/' ∷ b'p' ∷ b'r' ∷ b'o' ∷ b'c' ∷ b'/' ∷ name

behind_slash-none : (s : List ℕ) → All NotSlash s → behind_slash s ≡ none
unfolding behind_slash
behind_slash-none [] h = refl
behind_slash-none (c ∷ s) h = rw (behind_slash, behind_slash-none s h.1, h.0) refl

behind_slash-proc_path :
    (name : List ℕ) → All NotSlash name → behind_slash (proc_path name) ≡ some name
unfolding behind_slash
behind_slash-proc_path name h = rw (behind_slash, behind_slash-none name h) refl

digits_value-grows : (s : List ℕ) (acc : ℕ) → acc ≤ digits_value acc s
unfolding digits_value
digits_value-grows [] acc = omega arith
digits_value-grows (c ∷ s) acc = elim (Bool-cases (leb 48 c && leb c 57)) [
  | inl is ↦
      rw (digits_value, is) (let e = digits_value-grows s (acc * 10 + (c - 48)) in omega (arith, e))
  | inr other ↦ rw (digits_value, other) (omega arith)
]

not_numbered : (c : ℕ) (s : List ℕ) → (leb 48 c && leb c 57) ≡ false → ¬ (Numbered (c ∷ s))
not_numbered c s other (zero_then n) = let f : true ≡ false = other in cc
not_numbered c s other (digit from to) = ground (arith, other, from, to)

behind_zero : (s : List ℕ) → Numbered (b'0' ∷ s) → Numbered s
behind_zero s (zero_then n) = n
behind_zero s (digit from to) = absurd (omega (arith, from))

digits_value_cases :
    (s : List ℕ) → ((0 < digits_value 0 s) × Numbered s) ⊎ ((digits_value 0 s ≡ 0) × ¬ (Numbered s))
unfolding digits_value
digits_value_cases [] = inr (refl, λ n. elim n [ ])
digits_value_cases (c ∷ s) = elim (Bool-cases (leb 48 c && leb c 57)) [
  | inr other ↦ inr (rw (digits_value, other) refl, not_numbered c s other)
  | inl is ↦ elim (Bool-cases (c == 48)) [
    | inr positive ↦
        let e = digits_value-grows s (0 * 10 + (c - 48)) in
        let big : 0 < c - 48 = ground (arith, is, positive) in
        inl (
          rw (digits_value, is) (omega (arith, e, big)),
          digit (ground (arith, is, positive)) (ground (arith, is, positive)),
        )
    | inl nought ↦
        let e : c ≡ 48 = ground (arith, nought) in
        rw e (elim (digits_value_cases s) [
          | inl (above, n) ↦ inl (above, zero_then n)
          | inr (none_of, lacks) ↦ inr (none_of, λ n. lacks (behind_zero s n))
        ])
  ]
]

atoi-plain : (s : List ℕ) → StartsPlain s → atoi s ≡ digits_value 0 s
unfolding atoi unsigned_value digits_value
atoi-plain [] h = refl
atoi-plain (c ∷ s) h =
    let no_space : (c == 32 || (leb 9 c && leb c 13)) ≡ false = ground (arith, h.0) in
    let no_sign : (c == 43 || c == 45) ≡ false = ground (arith, h.1, h.2) in
    rw (atoi, no_space, unsigned_value, no_sign) refl

is_proc_path_cases :
    (name : List ℕ)
    → All NotSlash name
    → StartsPlain name
    → ((is_proc_path (some (proc_path name)) ≡ true) × Numbered name)
      ⊎ ((is_proc_path (some (proc_path name)) ≡ false) × ¬ (Numbered name))
unfolding is_proc_path
is_proc_path_cases name h plain = elim (digits_value_cases name) [
  | inl (above, n) ↦
      let e : (digits_value 0 name == 0) ≡ false = ground (arith, above) in
      inl (rw (is_proc_path, behind_slash-proc_path name h, atoi-plain name plain, e) refl, n)
  | inr (nothing, lacks) ↦
      inr (
        rw (is_proc_path, behind_slash-proc_path name h, atoi-plain name plain, nothing) refl,
        lacks,
      )
]

pub full_path-proc_path : (name : List ℕ) → full_path proc_dir name ≡ proc_path name
full_path-proc_path name =
    full_path-Prefix proc_dir (proc_dir ++ b'/' ∷ []) name
      (without_slash (b'/' ∷ b'p' ∷ b'r' ∷ b'o' ∷ []) b'c' (λ e. omega (arith, e)))

-- What the loop over the entries of /proc does at one of them.
pub visit_cases {ℓ} :
    {U : Type ℓ} (callback : List ℕ → U → U × Bool) (u : U) (ent : Dirent) (entries : List Dirent)
    → IsName ent
    → (IsProcess ent
        × (visit callback u (paths_of dt_dir proc_dir (ent ∷ entries))
            ≡ elim ((callback (proc_path ent.d_name) u).1) [
              | false ↦
                  visit callback
                    (callback (proc_path ent.d_name) u).0
                    (paths_of dt_dir proc_dir entries)
              | true ↦ (callback (proc_path ent.d_name) u).0
            ]))
      ⊎ (¬ (IsProcess ent)
          × (visit callback u (paths_of dt_dir proc_dir (ent ∷ entries))
              ≡ visit callback u (paths_of dt_dir proc_dir entries)))
unfolding full_path
visit_cases callback u ent entries (h, plain) = elim (passed_cases dt_dir ent) [
  | inr (passes, refused) ↦ inr (
    λ p. refused (taken p.of_type (not_dot ent p.number) (not_dots ent p.number)),
    rw passes refl,
  )
  | inl (reads, taken of one two) ↦ elim (is_proc_path_cases ent.d_name h plain) [
    | inl (is, n) ↦ inl (
      record { of_type = of; number = n },
      rw (reads, full_path-proc_path ent.d_name, visit, is) refl,
    )
    | inr (other, lacks) ↦
        inr (λ p. lacks p.number, rw (reads, full_path-proc_path ent.d_name, visit, other) refl)
  ]
]
  where
    no_dot : (s : List ℕ) → ¬ (Numbered (b'.' ∷ s))
    no_dot s (digit from to) = omega (arith, from)

    not_dot : (ent : Dirent) → Numbered ent.d_name → ¬ (ent.d_name ≡ b'.' ∷ [])
    not_dot ent n e = no_dot [] (rw e at n)

    not_dots : (ent : Dirent) → Numbered ent.d_name → ¬ (ent.d_name ≡ b'.' ∷ b'.' ∷ [])
    not_dots ent n e = no_dot (b'.' ∷ []) (rw e at n)

-- What the callbacks leave: it is called with the path of each process, in order, up to and with the
-- first for which it does not return 0.
pub data Visits {ℓ} {U : Type ℓ} (callback : List ℕ → U → U × Bool)
    : List Dirent → U → U → Type ℓ where
  over : {u : U} → Visits callback [] u u
  no_process :
      {ent : Dirent} {entries : List Dirent} {u u' : U}
      → ¬ (IsProcess ent)
      → Visits callback entries u u'
      → Visits callback (ent ∷ entries) u u'
  goes :
      {ent : Dirent} {entries : List Dirent} {u u' : U}
      → IsProcess ent
      → (callback (proc_path ent.d_name) u).1 ≡ false
      → Visits callback entries (callback (proc_path ent.d_name) u).0 u'
      → Visits callback (ent ∷ entries) u u'
  stops :
      {ent : Dirent} {entries : List Dirent} {u : U}
      → IsProcess ent
      → (callback (proc_path ent.d_name) u).1 ≡ true
      → Visits callback (ent ∷ entries) u (callback (proc_path ent.d_name) u).0

visit-Visits {ℓ} :
    {U : Type ℓ} (callback : List ℕ → U → U × Bool) (u : U) (entries : List Dirent)
    → All IsName entries
    → Visits callback entries u (visit callback u (paths_of dt_dir proc_dir entries))
visit-Visits callback u [] h = over
visit-Visits callback u (ent ∷ entries) h = elim (visit_cases callback u ent entries h.0) [
  | inr (other, e) ↦ rw e (no_process other (visit-Visits callback u entries h.1))
  | inl (process, e) ↦ elim (Bool-cases ((callback (proc_path ent.d_name) u).1)) [
    | inl stop ↦ rw (e, stop) (stops process stop)
    | inr go ↦
        rw (e, go)
          (goes process go
            (visit-Visits callback (callback (proc_path ent.d_name) u).0 entries h.1))
  ]
]

-- On a /proc that opens, whose names have no slash and neither white space nor a sign in front, and
-- when no malloc fails, general_find_proc_pid ends after at most one round more than /proc has
-- entries. It has called the callback with "/proc/" and the name of each directory whose name starts
-- with a decimal number other than 0 (12abc is one), in their order, up to and with the first for
-- which it did not return 0.
pub find_proc_pid-Visits {ℓ} :
    {U : Type ℓ} (dir : List Dirent) (callback : List ℕ → U → U × Bool) (n : ℕ) (u : U)
    → All IsName dir
    → length dir ≤ n
    → (u' : U) × (find_proc_pid no_failure (some dir) callback (suc n) u ≡ some u')
      × Visits callback dir u u'
find_proc_pid-Visits dir callback n u names h = (
  visit callback u (paths_of dt_dir proc_dir dir),
  find_proc_pid-visit dir callback n u h,
  visit-Visits callback u dir names,
)
