-- ===== src/Text/PathName/Laws.antt =====
-- Which part of a path gen_path_last_component returns.
use commlib.Base.{
  ℕ, ◌≡◌, refl, ap, ◌∙◌, ◌⊎◌, inl, inr, Bool, true, false, none, some, List, [], ◌∷◌, ◌++◌, arith,
  All, All-append, Bool-cases, ◌==◌, append_assoc, append-nil, append-cons_one,
}
use commlib.Text.PathName.{slash, skip_slashes, scan, path_last_component}

abbrev pub IsSlash : ℕ → Type 0
IsSlash c = (c == slash) ≡ true

abbrev pub NotSlash : ℕ → Type 0
NotSlash c = (c == slash) ≡ false

-- `base` is the last component of `s` with the slashes that follow it.
pub record LastComponent (s base : List ℕ) : Type 0 where
  pub before : List ℕ
  pub first : ℕ
  pub name : List ℕ
  pub slashes : List ℕ
  pub parts : s ≡ before ++ (first ∷ (name ++ slashes))
  pub result : base ≡ first ∷ (name ++ slashes)
  pub boundary : (before ≡ []) ⊎ ((l : List ℕ) × (before ≡ l ++ slash ∷ []))
  pub name_solid : All NotSlash (first ∷ name)
  pub slashes_only : All IsSlash slashes

-- What `next_slash` says of the slashes read since the name.
abbrev Gap : Bool → List ℕ → Type 0
Gap false gap = gap ≡ []
Gap true gap = (l : List ℕ) × (gap ≡ l ++ slash ∷ []) × All IsSlash gap

abbrev Boundary : List ℕ → Type 0
Boundary before = (before ≡ []) ⊎ ((l : List ℕ) × (before ≡ l ++ slash ∷ []))

slash_eq : (c : ℕ) → IsSlash c → c ≡ slash
slash_eq c h = ground arith

Gap-slashes : (ns : Bool) (gap : List ℕ) → Gap ns gap → All IsSlash gap
Gap-slashes false gap h = rw h tt
Gap-slashes true gap h = h.2

Gap-snoc : (ns : Bool) (gap : List ℕ) (c : ℕ) → IsSlash c → Gap ns gap → Gap true (gap ++ c ∷ [])
Gap-snoc ns gap c h g =
    (gap, rw (slash_eq c h), All-append IsSlash gap (c ∷ []) (Gap-slashes ns gap g) (h, tt))

regroup :
    (before name gap p : List ℕ) → before ++ (name ++ (gap ++ p)) ≡ (before ++ (name ++ gap)) ++ p
regroup before name gap p = simp append_assoc

snoc_in : (name gap p : List ℕ) (c : ℕ) → name ++ ((gap ++ c ∷ []) ++ p) ≡ name ++ (gap ++ c ∷ p)
snoc_in name gap p c = rw (append-cons_one gap p c)

ends_in_slash :
    (before : List ℕ) (first : ℕ) (name gap : List ℕ)
    → Gap true gap
    → Boundary (before ++ (first ∷ (name ++ gap)))
ends_in_slash before first name gap (l, e, _) =
    inr (before ++ (first ∷ (name ++ l)), rw e (simp append_assoc))

scan-LastComponent :
    (before : List ℕ) (first : ℕ) (name gap : List ℕ) (ns : Bool) (p : List ℕ)
    → Boundary before
    → All NotSlash (first ∷ name)
    → Gap ns gap
    → LastComponent
        (before ++ (first ∷ (name ++ (gap ++ p))))
        (scan (first ∷ (name ++ (gap ++ p))) ns p)
unfolding scan
scan-LastComponent before first name gap ns [] b n g = record {
  before = before;
  first = first;
  name = name;
  slashes = gap;
  parts = rw (append-nil gap);
  result = rw (append-nil gap);
  boundary = b;
  name_solid = n;
  slashes_only = Gap-slashes ns gap g;
}
scan-LastComponent before first name gap true (c ∷ p) b n g = elim (Bool-cases (c == slash)) [
  | inl h ↦
      rw (h, scan)
        (rw (append-cons_one gap p c) at (
          scan-LastComponent before first name (gap ++ c ∷ []) true p b n
            (Gap-snoc true gap c h g)))
  | inr h ↦
      rw (h, scan, regroup before (first ∷ name) gap (c ∷ p))
        (scan-LastComponent (before ++ (first ∷ (name ++ gap))) c [] [] false p
          (ends_in_slash before first name gap g) (h, tt) refl)
]
scan-LastComponent before first name gap false (c ∷ p) b n g = elim (Bool-cases (c == slash)) [
  | inl h ↦
      rw (h, scan)
        (rw (append-cons_one gap p c) at (
          scan-LastComponent before first name (gap ++ c ∷ []) true p b n
            (Gap-snoc false gap c h g)))
  | inr h ↦
      rw (h, scan, g)
        (rw (append-cons_one name p c) at (
          scan-LastComponent before first (name ++ c ∷ []) [] false p b
            (n.0, All-append NotSlash name (c ∷ []) n.1 (h, tt)) refl))
]

All-slashes : (s : List ℕ) → All IsSlash s → skip_slashes s ≡ []
unfolding skip_slashes
All-slashes [] h = refl
All-slashes (c ∷ s) h = rw h.0 (All-slashes s h.1)

record Skipped (s : List ℕ) : Type 0 where
  run : List ℕ
  first : ℕ
  rest : List ℕ
  split : s ≡ run ++ (first ∷ rest)
  skipped : skip_slashes s ≡ first ∷ rest
  solid : NotSlash first
  boundary : Boundary run

-- A run of slashes is a boundary, as it stands.
Boundary-cons : (run : List ℕ) → Boundary run → Boundary (slash ∷ run)
Boundary-cons run (inl e) = inr ([], rw e)
Boundary-cons run (inr (l, e)) = inr (slash ∷ l, rw e)

-- The text has a character that is no slash.
abbrev pub HasName : List ℕ → Type 0
HasName [] = ⊥
HasName (c ∷ s) = NotSlash c ⊎ HasName s

skip_slashes-Skipped : (s : List ℕ) → HasName s → Skipped s
unfolding skip_slashes
skip_slashes-Skipped [] h = absurd h
skip_slashes-Skipped (c ∷ s) h = elim (Bool-cases (c == slash)) [
  | inr solid ↦ record {
    run = [];
    first = c;
    rest = s;
    split = refl;
    skipped = rw solid;
    solid = solid;
    boundary = inl refl;
  }
  | inl e ↦
      let more = skip_slashes-Skipped s (later c s e h) in
      record {
        run = slash ∷ more.run;
        first = more.first;
        rest = more.rest;
        split = rw (slash_eq c e) (ap (◌∷◌ slash) more.split);
        skipped = rw e more.skipped;
        solid = more.solid;
        boundary = Boundary-cons more.run more.boundary;
      }
]
  where
    later : (c : ℕ) (s : List ℕ) → IsSlash c → HasName (c ∷ s) → HasName s
    later c s e (inl n) = cc
    later c s e (inr n) = n

path_last_component-eq :
    (s : List ℕ)
    → HasName s
    → path_last_component (some s) ≡ some (scan (skip_slashes s) false (skip_slashes s))
unfolding path_last_component
path_last_component-eq [] h = absurd h
path_last_component-eq (c ∷ s) h = refl

-- For a path with a character that is no slash, gen_path_last_component returns the last
-- component with the slashes that end the path: a nonempty name without slashes, which stands at
-- the start of the path or after a slash, and after which only slashes come.
pub path_last_component-LastComponent :
    (s : List ℕ)
    → HasName s
    → (base : List ℕ) × (path_last_component (some s) ≡ some base) × LastComponent s base
path_last_component-LastComponent s h =
    let k = skip_slashes-Skipped s h in
    (
      scan (k.first ∷ k.rest) false (k.first ∷ k.rest),
      path_last_component-eq s h ∙ ap (λ b. some (scan b false b)) k.skipped,
      rw k.split (first_step k.run k.first k.rest k.solid k.boundary),
    )
  where
    first_step :
        (run : List ℕ) (first : ℕ) (rest : List ℕ)
        → NotSlash first
        → Boundary run
        → LastComponent (run ++ (first ∷ rest)) (scan (first ∷ rest) false (first ∷ rest))
    first_step run first rest solid b =
        unfold scan in
        rw (solid, scan) (scan-LastComponent run first [] [] false rest b (solid, tt) refl)

-- For a nonempty path of slashes alone gen_path_last_component returns the empty string, and not
-- NULL; it returns NULL for NULL and for the empty string.
pub path_last_component-slashes :
    (c : ℕ) (s : List ℕ)
    → All IsSlash (c ∷ s)
    → (path_last_component (some (c ∷ s)) ≡ some [])
      × (path_last_component (some []) ≡ none)
      × (path_last_component none ≡ none)
unfolding path_last_component
path_last_component-slashes c s h =
    (ap (λ b. some (scan b false b)) (All-slashes (c ∷ s) h), refl, refl)
