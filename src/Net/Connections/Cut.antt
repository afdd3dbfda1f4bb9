-- ===== src/Net/Connections/Cut.antt =====
-- The cuts at a colon in the buffer of parse_net_field of src/myfcp/fcp_net.c, and the fields that
-- they leave as they are.
use commlib.Base.{
  ℕ, zero, suc, ◌+◌, ◌<◌, ◌≤◌, ◌≡◌, ◌∙◌, refl, sym, ap, true, false, Option, none, some, List, [],
  ◌∷◌, ◌==◌, arith, All, length, get_elem?, get_or, set, drop, Bool-cases, Option-cases, inl, inr,
  ◌⊎◌, ==_iff, subst,
}
use commlib.Libc.{text_at, strchr}
use commlib.Words.{texts}
use commlib.Net.Connections.{Array, cut_field, field_at, store_offsets}

abbrev pub NoColon : ℕ → Type 0
NoColon c = (c == b':') ≡ false

abbrev ColonAt : List ℕ → Option (List ℕ × List ℕ) → Type 0
ColonAt s none = Unit
ColonAt s (some (before, behind)) = get_elem? s (length before) ≡ some b':'

colon_later :
    (c : ℕ) (s : List ℕ) (o : Option (List ℕ × List ℕ))
    → ColonAt s o
    → ColonAt (c ∷ s) (elim o [ none ↦ none | some (before, behind) ↦ some (c ∷ before, behind) ])
colon_later c s none h = tt
colon_later c s (some (before, behind)) h = h

colon_at : (s : List ℕ) → ColonAt s (strchr b':' (text_at s))
unfolding text_at strchr
colon_at [] = tt
colon_at (c ∷ s) = elim (Bool-cases (c == 0)) [
  | inl zero_byte ↦ rw (text_at, zero_byte) tt
  | inr not_zero ↦ elim (Bool-cases (c == b':')) [
    | inl colon ↦ rw (text_at, not_zero, strchr, colon) (ap some ((==_iff c b':').0 colon))
    | inr other ↦ rw (text_at, not_zero, strchr, other) (colon_later c s _ (colon_at s))
  ]
]

-- A zero over a colon that is not in the text.
set-text_at :
    (s : List ℕ) (k : ℕ)
    → get_elem? s k ≡ some b':'
    → All NoColon (text_at s)
    → text_at (set s k 0) ≡ text_at s
unfolding text_at
set-text_at [] k e h = refl
set-text_at (c ∷ s) zero e h =
    let colon : c ≡ b':' = cc in
    let all : All NoColon (text_at (b':' ∷ s)) =
      subst (λ d. All NoColon (text_at (d ∷ s))) colon h in
    absurd (let f : true ≡ false = all.0 in cc)
set-text_at (c ∷ s) (suc k) e h = elim (Bool-cases (c == 0)) [
  | inl zero_byte ↦ rw (text_at, zero_byte) refl
  | inr not_zero ↦
      let all : All NoColon (c ∷ text_at s) = rw (text_at, not_zero) at h in
      rw (text_at, not_zero) (ap (λ (t : List ℕ). c ∷ t) (set-text_at s k e all.1))
]

drop_set :
    (o p : ℕ) (s : List ℕ)
    → (drop o (set s p 0) ≡ drop o s)
      ⊎ ((k : ℕ) × (drop o (set s p 0) ≡ set (drop o s) k 0)
          × (get_elem? (drop o s) k ≡ get_elem? s p))
drop_set zero p s = inr (p, refl, refl)
drop_set (suc o) p [] = inl refl
drop_set (suc o) zero (c ∷ s) = inl refl
drop_set (suc o) (suc p) (c ∷ s) = drop_set o p s

get_elem?-drop : (o k : ℕ) (s : List ℕ) → get_elem? (drop o s) k ≡ get_elem? s (o + k)
get_elem?-drop zero k s = let e : k ≡ 0 + k = omega arith in ap (get_elem? s) e
get_elem?-drop (suc o) k [] = refl
get_elem?-drop (suc o) k (c ∷ s) =
    let e : suc (o + k) ≡ suc o + k = omega arith in get_elem?-drop o k s ∙ ap (get_elem? (c ∷ s)) e

set_keeps :
    (o p : ℕ) (s : List ℕ)
    → get_elem? s p ≡ some b':'
    → All NoColon (text_at (drop o s))
    → text_at (drop o (set s p 0)) ≡ text_at (drop o s)
set_keeps o p s e h = elim (drop_set o p s) [
  | inl same ↦ ap text_at same
  | inr (k, moved, at_k) ↦ ap text_at moved ∙ set-text_at (drop o s) k (at_k ∙ e) h
]

-- A cut leaves a field without a colon as it is.
pub cut_field-keeps :
    (array : Array) (n o : ℕ) (buff : List ℕ)
    → All NoColon (text_at (drop o buff))
    → text_at (drop o (cut_field array n buff)) ≡ text_at (drop o buff)
unfolding cut_field
cut_field-keeps array n o buff h = elim (Option-cases (get_or array n none)) [
  | inl e ↦ rw (cut_field, e) refl
  | inr (offset, e) ↦ elim (Option-cases (strchr b':' (text_at (drop offset buff)))) [
    | inl f ↦ rw (cut_field, e, f) refl
    | inr ((before, behind), f) ↦
        let colon : ColonAt (drop offset buff) (some (before, behind)) =
          subst (ColonAt (drop offset buff)) f (colon_at (drop offset buff)) in
        rw (cut_field, e, f)
          (set_keeps o (offset + length before) buff
            (sym (get_elem?-drop offset (length before) buff) ∙ colon) h)
  ]
]

-- Where the array leads to after the texts of a line are stored.
unfoldable pub Stored : Array → List ℕ → ℕ → List ℕ → Type 0
Stored array buff i text = (o : ℕ) × (get_or array i none ≡ some o) × (text_at (drop o buff) ≡ text)

pub store_offsets-Stored :
    (offsets : List ℕ) (array : Array) (buff : List ℕ) (words : List (List ℕ)) (i : ℕ)
    → texts buff offsets ≡ words
    → i < length words
    → length words ≤ length array
    → Stored (store_offsets offsets array) buff i (get_or words i [])
unfolding store_offsets Stored
store_offsets-Stored [] array buff words i e h room =
    absurd (let f : 0 ≡ length words = ap length e in omega (arith, f, h))
store_offsets-Stored (o ∷ offsets) [] buff words i e h room = absurd (omega (arith, h, room))
store_offsets-Stored (o ∷ offsets) (old ∷ array) buff [] i e h room = absurd (omega (arith, h))
store_offsets-Stored (o ∷ offsets) (old ∷ array) buff (w ∷ words) zero e h room =
    (o, refl, ap (λ (ws : List (List ℕ)). get_or ws 0 []) e)
store_offsets-Stored (o ∷ offsets) (old ∷ array) buff (w ∷ words) (suc i) e h room =
    store_offsets-Stored offsets array buff words i (ap (drop 1) e) (omega (arith, h))
      (omega (arith, room))

pub length-store_offsets :
    (offsets : List ℕ) (array : Array) → length (store_offsets offsets array) ≡ length array
unfolding store_offsets
length-store_offsets [] array = refl
length-store_offsets (o ∷ offsets) [] = refl
length-store_offsets (o ∷ offsets) (old ∷ array) = ap suc (length-store_offsets offsets array)

pub field_at-Stored :
    (array : Array) (buff : List ℕ) (i : ℕ) (text : List ℕ)
    → Stored array buff i text
    → field_at array i buff ≡ some text
unfolding Stored
field_at-Stored array buff i text (o, e, t) = rw (field_at, e) (ap some t)

-- The three cuts of a line.
pub cut-Stored :
    (array : Array) (n : ℕ) (buff : List ℕ) (i : ℕ) (text : List ℕ)
    → All NoColon text
    → Stored array buff i text
    → Stored array (cut_field array n buff) i text
unfolding Stored
cut-Stored array n buff i text h (o, e, t) =
    (o, e, cut_field-keeps array n o buff (subst (All NoColon) (sym t) h) ∙ t)
