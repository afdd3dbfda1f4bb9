-- ===== src/Text/Trim/Laws.antt =====
-- What trimming leaves of a string.
use mathlib.Core.List.{List}
use commlib.Base.{
  ℕ, zero, suc, ◌≡◌, refl, sym, ap, ◌∙◌, ◌≤◌, true, false, [], ◌∷◌, ◌++◌, inl, inr, arith, All,
  All-append, Bool-cases, length, get_or, take, take-suc, take-length, append-nil, append_assoc,
  suc-ne-zero,
}
use commlib.Text.Trim.{isspace, left_strim, right_end, right_strim, strim}

abbrev pub IsSpace : ℕ → Type 0
IsSpace c = isspace c ≡ true

abbrev pub StartsSolid : List ℕ → Type 0
StartsSolid [] = Unit
StartsSolid (c ∷ s) = isspace c ≡ false

abbrev pub EndsSolid : List ℕ → Type 0
EndsSolid [] = Unit
EndsSolid (c ∷ []) = isspace c ≡ false
EndsSolid (c ∷ d ∷ s) = EndsSolid (d ∷ s)

-- `t` is `s` less white space at its two ends, and has none left there.
pub record Trimmed (s t : List ℕ) : Type 0 where
  pub before : List ℕ
  pub after : List ℕ
  pub parts : s ≡ before ++ (t ++ after)
  pub before_space : All IsSpace before
  pub after_space : All IsSpace after
  pub starts : StartsSolid t
  pub ends : EndsSolid t

EndsSolid-snoc : (s : List ℕ) (c : ℕ) → isspace c ≡ false → EndsSolid (s ++ c ∷ [])
EndsSolid-snoc [] c h = h
EndsSolid-snoc (d ∷ []) c h = h
EndsSolid-snoc (d ∷ e ∷ s) c h = EndsSolid-snoc (e ∷ s) c h

EndsSolid-right : (xs ys : List ℕ) → EndsSolid (xs ++ ys) → EndsSolid ys
EndsSolid-right [] ys h = h
EndsSolid-right (x ∷ []) [] h = tt
EndsSolid-right (x ∷ []) (y ∷ ys) h = h
EndsSolid-right (x ∷ x' ∷ xs) ys h = EndsSolid-right (x' ∷ xs) ys h

record Ended (s t : List ℕ) : Type 0 where
  tail : List ℕ
  split : s ≡ t ++ tail
  spaces : All IsSpace tail
  solid : EndsSolid t

Ended-self : {s t : List ℕ} → s ≡ t → EndsSolid t → Ended s t
Ended-self {t} e h = record { tail = []; split = e ∙ sym (append-nil t); spaces = tt; solid = h }

Ended-snoc : {s t : List ℕ} (c : ℕ) → IsSpace c → Ended s t → Ended (s ++ c ∷ []) t
Ended-snoc {t} c h e = record {
  tail = e.tail ++ c ∷ [];
  split = ap (λ l. l ++ c ∷ []) e.split ∙ append_assoc t e.tail (c ∷ []);
  spaces = All-append IsSpace e.tail (c ∷ []) e.spaces (h, tt);
  solid = e.solid;
}

right_end-Ended : (s : List ℕ) (n : ℕ) → n ≤ length s → Ended (take n s) (take (right_end s n) s)
unfolding right_end
right_end-Ended s zero h = Ended-self refl tt
right_end-Ended s (suc n) h = elim (Bool-cases (isspace (get_or s n 0))) [
  | inl space ↦
      rw (space, take-suc n s 0 (omega arith))
        (Ended-snoc (get_or s n 0) space (right_end-Ended s n (omega arith)))
  | inr solid ↦ rw solid (
      Ended-self refl
        (rw (take-suc n s 0 (omega arith)) (EndsSolid-snoc (take n s) (get_or s n 0) solid)))
]

right_strim-Ended : (s : List ℕ) → Ended s (right_strim s)
unfolding right_strim
right_strim-Ended [] = Ended-self refl tt
right_strim-Ended (c ∷ s) =
    rw (suc-ne-zero (length s))
      (rw take-length at (right_end-Ended (c ∷ s) (length (c ∷ s)) (omega arith)))

record Started (s t : List ℕ) : Type 0 where
  head : List ℕ
  split : s ≡ head ++ t
  spaces : All IsSpace head
  solid : StartsSolid t

left_strim-Started : (s : List ℕ) → Started s (left_strim s)
unfolding left_strim
left_strim-Started [] = record { head = []; split = refl; spaces = tt; solid = tt }
left_strim-Started (c ∷ s) = elim (Bool-cases (isspace c)) [
  | inl space ↦
      let rest = left_strim-Started s in
      rw space (record {
        head = c ∷ rest.head;
        split = ap (◌∷◌ c) rest.split;
        spaces = (space, rest.spaces);
        solid = rest.solid;
      })
  | inr solid ↦ rw solid (record { head = []; split = refl; spaces = tt; solid = solid })
]

-- gen_strim removes white space from both ends of a string and nothing else: the string is the
-- result between two runs of white space, and the result neither starts nor ends with white space.
pub strim-Trimmed : (s : List ℕ) → Trimmed s (strim s)
unfolding strim
strim-Trimmed s =
    let right = right_strim-Ended s in
    let left = left_strim-Started (right_strim s) in
    record {
      before = left.head;
      after = right.tail;
      parts =
          right.split
          ∙ ap (λ l. l ++ right.tail) left.split
          ∙ append_assoc left.head (left_strim (right_strim s)) right.tail;
      before_space = left.spaces;
      after_space = right.spaces;
      starts = left.solid;
      ends = EndsSolid-right left.head (left_strim (right_strim s)) (rw left.split at right.solid);
    }
