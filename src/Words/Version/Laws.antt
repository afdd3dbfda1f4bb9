-- ===== src/Words/Version/Laws.antt =====
-- The release that a line names.
use commlib.Base.{
  ℕ, zero, suc, ◌+◌, ◌<◌, ◌≤◌, ◌≡◌, ◌∙◌, refl, ap, false, Option, some, List, [], ◌∷◌, ◌++◌, ◌==◌,
  arith, All, length, take, drop, replicate, append-cons_one, append_assoc, suc-ne-zero, sym, subst,
  true, leb, ap₂, &&_parts, ==_iff, Bool-cases, inl, inr, ◌⊎◌,
}
use commlib.Libc.{ℤ, pos, negsuc, same, atoi, strchr, text_at}
use commlib.Libc.Lines.{NotNewline, fgets-append}
use commlib.Words.{general_get_field}
use commlib.Words.Scan.{Word, spellings}
use commlib.Words.Laws.{IsLine, Stores, line_text, newline-Stores}
use commlib.Words.Version.{
  written, is_zero, join_version, version_word, os_version_con, lower, lower_all, cut_dot,
  known_version, version_number, general_os_version, ubuntu18, centos,
}

abbrev pub NotDot : ℕ → Type 0
NotDot c = (c == b'.') ≡ false

lower-NotDot : (c : ℕ) → NotDot c → NotDot (lower c)
lower-NotDot c h = ground arith

lower_all-append : (s t : List ℕ) → lower_all (s ++ t) ≡ lower_all s ++ lower_all t
lower_all-append [] t = refl
lower_all-append (c ∷ s) t = ap (λ (r : List ℕ). lower c ∷ r) (lower_all-append s t)

strchr-lower_all :
    (s t : List ℕ) → All NotDot s → strchr b'.' (lower_all s ++ (b'.' ∷ t)) ≡ some (lower_all s, t)
unfolding strchr
strchr-lower_all [] t h = refl
strchr-lower_all (c ∷ s) t h = rw (strchr, lower-NotDot c h.0, strchr-lower_all s t h.1)

cut_dot-lower_all :
    (s t : List ℕ) → All NotDot s → cut_dot (lower_all (s ++ (b'.' ∷ t))) ≡ lower_all s
cut_dot-lower_all s t h =
    rw (lower_all-append s (b'.' ∷ t), cut_dot, strchr-lower_all s (lower_all t) h)

take-all : (n : ℕ) (xs : List ℕ) → length xs ≤ n → take n xs ≡ xs
take-all zero [] h = refl
take-all zero (x ∷ xs) h = absurd (omega (arith, h))
take-all (suc n) [] h = refl
take-all (suc n) (x ∷ xs) h = ap (◌∷◌ x) (take-all n xs (omega (arith, h)))

join_Stores :
    (name second third last : List ℕ) (others : List (List ℕ)) {out : _}
    → Stores (name ∷ second ∷ third ∷ last ∷ others) 4 out
    → join_version 256 4 out
      ≡ written (take 255 (name ++ version_word 4 (name ∷ second ∷ third ∷ last ∷ [])))
unfolding join_version
join_Stores name second third last others (buff, offsets, e, t) = rw (e, t)

not_empty : (c : ℕ) (b : List ℕ) → (c == 0) ≡ false → (length (text_at (c ∷ b)) == 0) ≡ false
unfolding text_at
not_empty c b h = rw (text_at, h) (suc-ne-zero (length (text_at b)))

os_version_con_line :
    (c : ℕ) (rest more name second third last : List ℕ) (ws : List Word) (others : List (List ℕ))
    → IsLine b' ' c rest ws
    → All NotNewline (c ∷ (rest ++ line_text b' ' ws))
    → length (rest ++ line_text b' ' ws) + 2 < 255
    → (c ∷ rest) ∷ spellings ws ≡ name ∷ second ∷ third ∷ last ∷ others
    → os_version_con (some ((c ∷ (rest ++ line_text b' ' ws)) ++ (b'\n' ∷ more))) 4 256
      ≡ written (take 255 (name ++ version_word 4 (name ∷ second ∷ third ∷ last ∷ [])))
unfolding os_version_con
os_version_con_line c rest more name second third last ws others line one_line fits columns =
    let whole : List ℕ = c ∷ (rest ++ line_text b' ' ws) in
    let tail : List ℕ = drop (length (whole ++ b'\n' ∷ []) + 1) (replicate 256 0) in
    let stores : Stores (name ∷ second ∷ third ∷ last ∷ others) 4 _ =
      subst (λ words. Stores words 4 (general_get_field (whole ++ (b'\n' ∷ 0 ∷ tail)) b' ' 4))
        columns (newline-Stores b' ' c rest ws line 3 tail) in
    rw
      (
        os_version_con,
        fgets-append 255 c (rest ++ line_text b' ' ws) more one_line fits,
        append-cons_one whole (0 ∷ tail) b'\n',
        not_empty c ((rest ++ line_text b' ' ws) ++ (b'\n' ∷ 0 ∷ tail)) line.first_word.0.0,
      )
      (join_Stores name second third last others stores)

-- The text with its capital letters made small.
pub data Lowered : List ℕ → List ℕ → Type 0 where
  no_text : Lowered [] []
  capital :
      {c : ℕ} {s t : List ℕ} → b'A' ≤ c → c ≤ b'Z' → Lowered s t → Lowered (c ∷ s) ((c + 32) ∷ t)
  no_capital :
      {c : ℕ} {s t : List ℕ} → (c < b'A') ⊎ (b'Z' < c) → Lowered s t → Lowered (c ∷ s) (c ∷ t)

-- The number of a release: OS_VERSION_UBUNTU18, OS_VERSION_CENTOS7, OS_VERSION_CENTOS6, or -1.
pub data Release : List ℕ → ℤ → Type 0 where
  ubuntu_18 : Release (b'u' ∷ b'b' ∷ b'u' ∷ b'n' ∷ b't' ∷ b'u' ∷ b'1' ∷ b'8' ∷ []) (pos 0)
  centos_7 : Release (b'c' ∷ b'e' ∷ b'n' ∷ b't' ∷ b'o' ∷ b's' ∷ b'7' ∷ []) (pos 1)
  centos_6 : Release (b'c' ∷ b'e' ∷ b'n' ∷ b't' ∷ b'o' ∷ b's' ∷ b'6' ∷ []) (pos 2)
  no_release :
      {text : List ℕ}
      → ¬ (text ≡ b'u' ∷ b'b' ∷ b'u' ∷ b'n' ∷ b't' ∷ b'u' ∷ b'1' ∷ b'8' ∷ [])
      → ¬ (text ≡ b'c' ∷ b'e' ∷ b'n' ∷ b't' ∷ b'o' ∷ b's' ∷ b'7' ∷ [])
      → ¬ (text ≡ b'c' ∷ b'e' ∷ b'n' ∷ b't' ∷ b'o' ∷ b's' ∷ b'6' ∷ [])
      → Release text (negsuc 0)

lower_cases :
    (c : ℕ)
    → ((b'A' ≤ c) × (c ≤ b'Z') × (lower c ≡ c + 32)) ⊎ (((c < b'A') ⊎ (b'Z' < c)) × (lower c ≡ c))
lower_cases c = elim (Bool-cases (leb b'A' c)) [
  | inr below ↦ inr (inl (ground arith), rw below refl)
  | inl above ↦ elim (Bool-cases (leb c b'Z')) [
    | inl capital_letter ↦ inl (ground arith, ground arith, rw (above, capital_letter) refl)
    | inr behind ↦ inr (inr (ground arith), rw (above, behind) refl)
  ]
]

lower_all-Lowered : (s : List ℕ) → Lowered s (lower_all s)
lower_all-Lowered [] = no_text
lower_all-Lowered (c ∷ s) = elim (lower_cases c) [
  | inl (from, to, e) ↦ rw e (capital from to (lower_all-Lowered s))
  | inr (outside, e) ↦ rw e (no_capital outside (lower_all-Lowered s))
]

same-eq : (s t : List ℕ) → same s t ≡ true → s ≡ t
unfolding same
same-eq [] [] e = refl
same-eq [] (d ∷ t) e = absurd (let f : false ≡ true = e in cc)
same-eq (c ∷ s) [] e = absurd (let f : false ≡ true = e in cc)
same-eq (c ∷ s) (d ∷ t) e =
    let parts = &&_parts (c == d) (same s t) e in
    ap₂ (λ (x : ℕ) (xs : List ℕ). x ∷ xs) ((==_iff c d).0 parts.0) (same-eq s t parts.1)

same_self : (s : List ℕ) → same s s ≡ true
unfolding same
same_self [] = refl
same_self (c ∷ s) = let e : (c == c) ≡ true = (==_iff c c).1 refl in rw (same, e) (same_self s)

not_same : (s t : List ℕ) → same s t ≡ false → ¬ (t ≡ s)
not_same s t e f =
    let g : same s t ≡ true = rw f (same_self s) in let h : false ≡ true = sym e ∙ g in cc

known_version-Release : (text : List ℕ) → Release text (known_version text)
unfolding known_version
known_version-Release text = elim (Bool-cases (same ubuntu18 text)) [
  | inl u ↦ rw u (subst (λ t. Release t (pos 0)) (same-eq ubuntu18 text u) ubuntu_18)
  | inr not_u ↦ elim (Bool-cases (same (centos b'7') text)) [
    | inl c ↦ rw (not_u, c) (subst (λ t. Release t (pos 1)) (same-eq (centos b'7') text c) centos_7)
    | inr not_7 ↦ elim (Bool-cases (same (centos b'6') text)) [
      | inl c ↦
          rw (not_u, not_7, c)
            (subst (λ t. Release t (pos 2)) (same-eq (centos b'6') text c) centos_6)
      | inr not_6 ↦
          rw (not_u, not_7, not_6)
            (no_release (not_same ubuntu18 text not_u) (not_same (centos b'7') text not_7)
              (not_same (centos b'6') text not_6))
    ]
  ]
]

-- When the line of /etc/redhat-release is words with blanks between them, at least four, and fits the
-- buffer, and the fourth is a number other than 0 up to a dot, as in "CentOS Linux release 7.6.1810",
-- general_os_version takes the first word with what stands before the dot behind it, in small letters,
-- and returns 0 for "ubuntu18", 1 for "centos7", 2 for "centos6" and -1 for any other text, whatever
-- /etc/issue says.
pub general_os_version-Release :
    (c : ℕ) (rest more name second third before behind : List ℕ) (ws : List Word)
    (others : List (List ℕ)) (issue : Option (Option (List ℕ)))
    → IsLine b' ' c rest ws
    → All NotNewline (c ∷ (rest ++ line_text b' ' ws))
    → length (rest ++ line_text b' ' ws) + 2 < 255
    → (c ∷ rest) ∷ spellings ws ≡ name ∷ second ∷ third ∷ (before ++ (b'.' ∷ behind)) ∷ others
    → All NotDot (name ++ before)
    → is_zero (atoi (before ++ (b'.' ∷ behind))) ≡ false
    → length (name ++ (before ++ (b'.' ∷ behind))) < 256
    → (text : List ℕ) × (release : ℤ) × Lowered (name ++ before) text
      × Release text release
      × (general_os_version
            (some (some ((c ∷ (rest ++ line_text b' ' ws)) ++ (b'\n' ∷ more))))
            issue
          ≡ some release)
unfolding general_os_version version_number
general_os_version-Release c rest more name second third before behind ws others issue line one_line
      fits columns dots number short =
    (
      lower_all (name ++ before),
      known_version (lower_all (name ++ before)),
      lower_all-Lowered (name ++ before),
      known_version-Release (lower_all (name ++ before)),
      rw
          (
            os_version_con_line c rest more name second third (before ++ (b'.' ∷ behind)) ws others
                line one_line fits columns,
            number,
            take-all 255 (name ++ (before ++ (b'.' ∷ behind))) (omega (arith, short)),
          )
          (ap (λ (text : List ℕ). some (known_version text))
            (ap (λ (text : List ℕ). cut_dot (lower_all text))
                (sym (append_assoc name before (b'.' ∷ behind)))
              ∙ cut_dot-lower_all (name ++ before) behind dots)),
    )
