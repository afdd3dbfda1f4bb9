-- ===== src/Net/Local/Laws.antt =====
-- Which texts com_is_local_ipv4 takes for a local address.
use commlib.Base.{
  ℕ, ◌≡◌, ◌∙◌, ◌↔◌, ◌⊎◌, inl, inr, refl, sym, Bool, true, false, none, some, List, [], ◌∷◌, ◌++◌,
  ◌==◌, arith, All, Bool-cases, ==_iff, &&_parts,
}
use commlib.Libc.{inet_ntop, starts_with}
use commlib.Net.Local.{Interface, af_inet, is_local_loop, is_local_ipv4}

starts_with-append : (s t : List ℕ) → starts_with (s ++ t) s ≡ true
unfolding starts_with
starts_with-append [] [] = refl
starts_with-append [] (d ∷ t) = refl
starts_with-append (c ∷ s) t = ground (arith, starts_with-append s t)

starts_with_parts : (s t : List ℕ) → starts_with s t ≡ true → (rest : List ℕ) × (s ≡ t ++ rest)
unfolding starts_with
starts_with_parts s [] e = (s, refl)
starts_with_parts [] (d ∷ t) e = cc
starts_with_parts (c ∷ s) (d ∷ t) e =
    let p = &&_parts (c == d) (starts_with s t) e in
    let r = starts_with_parts s t p.1 in (r.0, ground (arith, (==_iff c d).0 p.0, r.1))

-- Some interface has an IPv4 address with which the text starts.
abbrev pub StartsLocal : List Interface → List ℕ → Type 0
StartsLocal [] text = ⊥
StartsLocal (none ∷ list) text = StartsLocal list text
StartsLocal (some a ∷ list) text =
    (((a.family == af_inet) ≡ true) × (rest : List ℕ) × (text ≡ inet_ntop a.address ++ rest))
    ⊎ StartsLocal list text

abbrev pub HasAddress : Interface → Type 0
HasAddress none = ⊥
HasAddress (some a) = Unit

not_both : {b : Bool} → b ≡ false → b ≡ true → ⊥
not_both f t = cc

is_local_loop_iff :
    (list : List Interface) (text : List ℕ)
    → All HasAddress list
    → (is_local_loop list text ≡ some true) ↔ StartsLocal list text
unfolding is_local_loop
is_local_loop_iff [] text h = (λ e. cc, λ e. absurd e)
is_local_loop_iff (none ∷ list) text h = absurd h.0
is_local_loop_iff (some a ∷ list) text h =
    let later = is_local_loop_iff list text h.1 in
    elim (Bool-cases (a.family == af_inet)) [
      | inr family ↦
          let e : is_local_loop (some a ∷ list) text ≡ is_local_loop list text =
            rw (is_local_loop, family) in
          (
            λ is. inr (later.0 (sym e ∙ is)),
            λ starts. elim starts [
              | inl here ↦ absurd (not_both family here.0)
              | inr there ↦ e ∙ later.1 there
            ],
          )
      | inl family ↦ elim (Bool-cases (starts_with text (inet_ntop a.address))) [
        | inl same ↦
            let e : is_local_loop (some a ∷ list) text ≡ some true =
              rw (is_local_loop, family, same) in
            (
              λ is.
                  (let parts = starts_with_parts text (inet_ntop a.address) same in
                    inl (family, parts.0, parts.1)),
              λ starts. e,
            )
        | inr differs ↦
            let e : is_local_loop (some a ∷ list) text ≡ is_local_loop list text =
              rw (is_local_loop, family, differs) in
            (
              λ is. inr (later.0 (sym e ∙ is)),
              λ starts. elim starts [
                | inl here ↦
                    absurd (
                      not_both differs
                        (rw here.2 (starts_with-append (inet_ntop a.address) here.1)))
                | inr there ↦ e ∙ later.1 there
              ],
            )
      ]
    ]

-- On interfaces that all have an address, com_is_local_ipv4 answers 1 for a text that is not empty
-- exactly when the text is the IPv4 address of an interface with anything behind it, a further digit
-- included.
pub is_local_ipv4-StartsLocal :
    (list : List Interface) (c : ℕ) (text : List ℕ)
    → All HasAddress list
    → (is_local_ipv4 (some list) (some (c ∷ text)) ≡ some true) ↔ StartsLocal list (c ∷ text)
unfolding is_local_ipv4
is_local_ipv4-StartsLocal list c text h = is_local_loop_iff list (c ∷ text) h
