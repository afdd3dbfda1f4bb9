-- ===== src/Text/Fields/Scan.antt =====
-- What the two loops of gen_foreach_field do to a line: the separators that are skipped, and the
-- field that follows them.
use commlib.Base.{
  ℕ, ◌+◌, ◌≡◌, ◌≤◌, refl, ap, inl, inr, Bool, true, false, some, List, [], ◌∷◌, ◌++◌, arith, ◌==◌,
  ◌||◌, All, Bool-cases, length,
}
use commlib.Text.Fields.{gen_isspace, skip, span}

-- A separator: a space, a tab or the key.
abbrev pub is_sep : ℕ → ℕ → Bool
is_sep keys c = gen_isspace c || c == keys

abbrev pub IsSep : ℕ → ℕ → Type 0
IsSep keys c = is_sep keys c ≡ true

abbrev pub NotKey : ℕ → ℕ → Type 0
NotKey keys c = (c == keys) ≡ false

-- A field ends where the line does, or at a key.
abbrev pub StopsAt : ℕ → List ℕ → Type 0
StopsAt keys [] = Unit
StopsAt keys (c ∷ s) = (c == keys) ≡ true

pub record Skipped (keys : ℕ) (s t : List ℕ) : Type 0 where
  pub lead : List ℕ
  pub split : s ≡ lead ++ t
  pub seps : All (IsSep keys) lead
  pub shorter : length t ≤ length s

abbrev pub StartsField : ℕ → List ℕ → Type 0
StartsField keys [] = Unit
StartsField keys (c ∷ s) = is_sep keys c ≡ false

module _ (keys : ℕ) (key : (keys == 0) ≡ false) where
  pub skip-Skipped :
      (s : List ℕ) → (t : List ℕ) × (skip keys s ≡ some t) × Skipped keys s t × StartsField keys t
  unfolding skip
  skip-Skipped [] =
      ([], rw key, record { lead = []; split = refl; seps = tt; shorter = omega arith }, tt)
  skip-Skipped (c ∷ s) = elim (Bool-cases (is_sep keys c)) [
    | inr solid ↦ (
      c ∷ s,
      rw solid,
      record { lead = []; split = refl; seps = tt; shorter = omega arith },
      solid,
    )
    | inl sep ↦
        let (t, e, k, start) = skip-Skipped s in
        (
          t,
          rw sep e,
          record {
            lead = c ∷ k.lead;
            split = ap (◌∷◌ c) k.split;
            seps = (sep, k.seps);
            shorter = omega (arith, k.shorter);
          },
          start,
        )
  ]

pub record Spanned (keys : ℕ) (s field rest : List ℕ) : Type 0 where
  pub split : s ≡ field ++ rest
  pub solid : All (NotKey keys) field
  pub stops : StopsAt keys rest
  pub sizes : length s ≡ length field + length rest

pub span-Spanned : (keys : ℕ) (s : List ℕ) → Spanned keys s (span keys s).0 (span keys s).1
unfolding span
span-Spanned keys [] = record { split = refl; solid = tt; stops = tt; sizes = refl }
span-Spanned keys (c ∷ s) = elim (Bool-cases (c == keys)) [
  | inl stop ↦ rw stop (record { split = refl; solid = tt; stops = stop; sizes = omega arith })
  | inr more ↦
      let r = span-Spanned keys s in
      rw more (record {
        split = ap (◌∷◌ c) r.split;
        solid = (more, r.solid);
        stops = r.stops;
        sizes = omega (arith, r.sizes);
      })
]
