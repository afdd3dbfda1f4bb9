-- ===== src/Net/Holder/Link.antt =====
-- Which links of a process deal_proc_pid_info of src/myfcp/fcp_net.c takes for a socket.
use commlib.Base.{
  ℕ, ◌≡◌, ◌∙◌, refl, sym, ap, ap₂, true, false, Option, none, some, List, [], ◌∷◌, ◌++◌, ◌==◌,
  arith, inl, inr, ◌⊎◌, Bool-cases, Option-cases, &&_parts, ==_iff, subst,
}
use commlib.Libc.{atoi, to_u32, strchr, starts_with, contains}
use commlib.Net.Holder.{socket_word, is_socket}

-- The text has "socket:" in it.
pub data HasWord : List ℕ → Type 0 where
  word_here : (rest : List ℕ) → HasWord (b's' ∷ b'o' ∷ b'c' ∷ b'k' ∷ b'e' ∷ b't' ∷ b':' ∷ rest)
  word_later : (c : ℕ) (s : List ℕ) → HasWord s → HasWord (c ∷ s)

-- What stands behind the first bracket.
pub data Behind : List ℕ → List ℕ → Type 0 where
  bracket : (s : List ℕ) → Behind (b'[' ∷ s) s
  before : (c : ℕ) (s t : List ℕ) → ¬ (c ≡ b'[') → Behind s t → Behind (c ∷ s) t

-- A link such as "socket:[1234]" for the inode 1234.
pub record IsSocketText (inode : ℕ) (text : List ℕ) : Type 0 where
  pub has_word : HasWord text
  pub number : List ℕ
  pub behind : Behind text number
  pub value : to_u32 (atoi number) ≡ inode

starts_with-parts : (s t : List ℕ) → starts_with s t ≡ true → (rest : List ℕ) × (s ≡ t ++ rest)
unfolding starts_with
starts_with-parts s [] e = (s, refl)
starts_with-parts [] (d ∷ t) e = absurd (let f : false ≡ true = e in cc)
starts_with-parts (c ∷ s) (d ∷ t) e =
    let parts = &&_parts (c == d) (starts_with s t) e in
    let later = starts_with-parts s t parts.1 in
    (later.0, ap₂ (λ (x : ℕ) (xs : List ℕ). x ∷ xs) ((==_iff c d).0 parts.0) later.1)

contains-HasWord : (s : List ℕ) → contains s socket_word ≡ true → HasWord s
unfolding contains starts_with
contains-HasWord [] e = absurd (let f : false ≡ true = e in cc)
contains-HasWord (c ∷ s) e = elim (Bool-cases (starts_with (c ∷ s) socket_word)) [
  | inl starts ↦
      let parts = starts_with-parts (c ∷ s) socket_word starts in
      subst HasWord (sym parts.1) (word_here parts.0)
  | inr not_here ↦
      let later : contains s socket_word ≡ true = rw (contains, not_here) at e in
      word_later c s (contains-HasWord s later)
]

HasWord-contains : (s : List ℕ) → HasWord s → contains s socket_word ≡ true
unfolding contains starts_with
HasWord-contains s (word_here rest) = refl
HasWord-contains s (word_later c t h) = elim (Bool-cases (starts_with (c ∷ t) socket_word)) [
  | inl starts ↦ rw (contains, starts) refl
  | inr not_here ↦ rw (contains, not_here) (HasWord-contains t h)
]

abbrev BehindIn : List ℕ → Option (List ℕ × List ℕ) → Type 0
BehindIn s none = (t : List ℕ) → ¬ (Behind s t)
BehindIn s (some (front, number)) = Behind s number × ((t : List ℕ) → Behind s t → t ≡ number)

behind_parts :
    (c : ℕ) (s t : List ℕ) → Behind (c ∷ s) t → ((c ≡ b'[') × (t ≡ s)) ⊎ (¬ (c ≡ b'[') × Behind s t)
behind_parts c s t (bracket r) = inl (refl, refl)
behind_parts c s t (before d r u differs later) = inr (differs, later)

behind_later :
    (c : ℕ) (s : List ℕ) (o : Option (List ℕ × List ℕ))
    → ¬ (c ≡ b'[')
    → BehindIn s o
    → BehindIn (c ∷ s) (elim o [ none ↦ none | some (front, number) ↦ some (c ∷ front, number) ])
behind_later c s none other h =
    λ t b. elim (behind_parts c s t b) [ inl (is, e) ↦ other is | inr (differs, later) ↦ h t later ]
behind_later c s (some (front, number)) other (h, only) = (
  before c s number other h,
  λ t b. elim (behind_parts c s t b) [
    | inl (is, e) ↦ absurd (other is)
    | inr (differs, later) ↦ only t later
  ],
)

strchr-BehindIn : (s : List ℕ) → BehindIn s (strchr b'[' s)
unfolding strchr
strchr-BehindIn [] = λ t b. elim b [ ]
strchr-BehindIn (c ∷ s) = elim (Bool-cases (c == b'[')) [
  | inl is ↦
      let e : c ≡ b'[' = (==_iff c b'[').0 is in
      rw (strchr, is)
        (
          subst (λ d. Behind (d ∷ s) s) (sym e) (bracket s),
          λ t b. elim (behind_parts c s t b) [
            | inl (starts, r) ↦ r
            | inr (differs, later) ↦ absurd (differs e)
          ],
        )
  | inr other ↦
      rw (strchr, other)
        (behind_later c s (strchr b'[' s) (λ e. ground (arith, other, e)) (strchr-BehindIn s))
]

-- The tests of the loop ask for exactly that.
pub is_socket_cases :
    (inode : ℕ) (text : List ℕ)
    → ((is_socket inode text ≡ true) × IsSocketText inode text)
      ⊎ ((is_socket inode text ≡ false) × ¬ (IsSocketText inode text))
unfolding is_socket
is_socket_cases inode text = elim (Bool-cases (contains text socket_word)) [
  | inr lacks ↦ inr (
    rw (is_socket, lacks) refl,
    λ h. let e = HasWord-contains text h.has_word in let f : true ≡ false = sym e ∙ lacks in cc,
  )
  | inl has ↦ elim (Option-cases (strchr b'[' text)) [
    | inl e ↦
        let no_bracket : BehindIn text none = subst (BehindIn text) e (strchr-BehindIn text) in
        inr (rw (is_socket, has, e) refl, λ h. no_bracket h.number h.behind)
    | inr ((front, number), e) ↦
        let (found, only) : BehindIn text (some (front, number)) =
          subst (BehindIn text) e (strchr-BehindIn text) in
        elim (Bool-cases (to_u32 (atoi number) == inode)) [
          | inl is ↦ inl (
            rw (is_socket, has, e, is) refl,
            record {
              has_word = contains-HasWord text has;
              number = number;
              behind = found;
              value = (==_iff (to_u32 (atoi number)) inode).0 is;
            },
          )
          | inr other ↦ inr (
            rw (is_socket, has, e, other) refl,
            λ h.
                let v : to_u32 (atoi number) ≡ inode =
                  ap (λ (t : List ℕ). to_u32 (atoi t)) (sym (only h.number h.behind)) ∙ h.value in
                let t = (==_iff (to_u32 (atoi number)) inode).1 v in
                let f : true ≡ false = sym t ∙ other in cc,
          )
        ]
  ]
]
