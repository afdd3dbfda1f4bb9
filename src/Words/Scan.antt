-- ===== src/Words/Scan.antt =====
-- The loop of general_get_field on a line of words.
use commlib.Base.{
  ℕ, zero, suc, ◌+◌, ◌≡◌, refl, sym, ap, ap₂, ◌∙◌, true, false, Option, some, List, [], ◌∷◌, ◌++◌,
  ◌==◌, arith, All, length, take, drop, append-cons_one, length-append,
}
use commlib.Libc.{text_at}
use commlib.Words.{Mode, keep_byte, store_offset, is_blank, split_from, texts}

abbrev pub NotZero : ℕ → Type 0
NotZero c = (c == 0) ≡ false

-- A byte inside a field.
abbrev pub Inner : ℕ → ℕ → Type 0
Inner key c = ((c == 0) ≡ false) × ((c == key) ≡ false)

-- A word starts with no blank, and has neither the terminator in it nor, behind its first byte, the
-- key.
pub record Word : Type 0 where
  pub lead : List ℕ
  pub first : ℕ
  pub rest : List ℕ

abbrev pub spelled : Word → List ℕ
spelled w = w.first ∷ w.rest

-- What stands behind the first word: a key, the blanks of `lead`, and a word, again and again.
abbrev pub behind : ℕ → List Word → List ℕ → List ℕ
behind key [] tail = 0 ∷ tail
behind key (w ∷ ws) tail = key ∷ (w.lead ++ (w.first ∷ (w.rest ++ behind key ws tail)))

abbrev pub IsBlank : ℕ → Type 0
IsBlank c = is_blank c ≡ true

pub record IsWord (key : ℕ) (w : Word) : Type 0 where
  pub blanks : All IsBlank w.lead
  pub starts : is_blank w.first ≡ false
  pub first_byte : NotZero w.first
  pub inner : All (Inner key) w.rest

abbrev pub spellings : List Word → List (List ℕ)
spellings [] = []
spellings (w ∷ ws) = spelled w ∷ spellings ws

pub drop-append : (xs ys : List ℕ) → drop (length xs) (xs ++ ys) ≡ ys
drop-append [] ys = refl
drop-append (x ∷ xs) ys = drop-append xs ys

pub text_at-append : (xs ys : List ℕ) → All NotZero xs → text_at (xs ++ (0 ∷ ys)) ≡ xs
unfolding text_at
text_at-append [] ys h = refl
text_at-append (x ∷ xs) ys h = rw h.0 (ap (◌∷◌ x) (text_at-append xs ys h.1))

text_at-zero : (b : List ℕ) → text_at (0 ∷ b) ≡ []
unfolding text_at
text_at-zero b = refl

take-nil : (n : ℕ) → take {A = List ℕ} n [] ≡ []
take-nil zero = refl
take-nil (suc n) = refl

-- What the loop leaves when it starts at `pos` with the rest `now` of a field: that field ends at a
-- terminator, and the offsets lead to the next words.
pub record Splits (now : List ℕ) (found : List (List ℕ)) (pos : ℕ) (out : Option (List ℕ × List ℕ))
    : Type 0 where
  pub buff : List ℕ
  pub offsets : List ℕ
  pub runs : out ≡ some (buff, offsets)
  pub this : text_at buff ≡ now
  pub next : (before : List ℕ) → length before ≡ pos → texts (before ++ buff) offsets ≡ found

length-snoc :
    (before : List ℕ) (c pos : ℕ) → length before ≡ pos → length (before ++ c ∷ []) ≡ pos + 1
length-snoc before c pos e = omega (arith, length-append before (c ∷ []))

-- A byte that the loop steps over; the text that the buffer then starts with does not matter.
step-Splits :
    {now : List ℕ} {found : List (List ℕ)} (c pos : ℕ) {out : Option (List ℕ × List ℕ)}
    → Splits now found (pos + 1) out
    → (now' : List ℕ) × Splits now' found pos (keep_byte c out)
step-Splits c pos s = (
  text_at (c ∷ s.buff),
  record {
    buff = c ∷ s.buff;
    offsets = s.offsets;
    runs = ap (keep_byte c) s.runs;
    this = refl;
    next = λ before e.
        ap (λ (b : List ℕ). texts b s.offsets) (sym (append-cons_one before s.buff c))
        ∙ s.next (before ++ c ∷ []) (length-snoc before c pos e);
  },
)

-- A byte of the field.
keep-Splits :
    {now : List ℕ} {found : List (List ℕ)} (c pos : ℕ) {out : Option (List ℕ × List ℕ)}
    → NotZero c
    → Splits now found (pos + 1) out
    → Splits (c ∷ now) found pos (keep_byte c out)
unfolding text_at
keep-Splits c pos nz s = record {
  buff = c ∷ s.buff;
  offsets = s.offsets;
  runs = ap (keep_byte c) s.runs;
  this = rw nz (ap (◌∷◌ c) s.this);
  next = λ before e.
      ap (λ (b : List ℕ). texts b s.offsets) (sym (append-cons_one before s.buff c))
      ∙ s.next (before ++ c ∷ []) (length-snoc before c pos e);
}

-- The first byte of a field behind a key.
first-Splits :
    {now : List ℕ} {found : List (List ℕ)} (c pos : ℕ) {out : Option (List ℕ × List ℕ)}
    → NotZero c
    → Splits now found (pos + 1) out
    → (now' : List ℕ) × Splits now' ((c ∷ now) ∷ found) pos (store_offset pos (keep_byte c out))
first-Splits c pos nz s =
    let k = keep-Splits c pos nz s in
    (
      text_at k.buff,
      record {
        buff = k.buff;
        offsets = pos ∷ k.offsets;
        runs = ap (store_offset pos) k.runs;
        this = refl;
        next = λ before e.
            ap₂ (λ (w : List ℕ) (ws : List (List ℕ)). w ∷ ws)
              (ap text_at (rw (← e) (drop-append before k.buff)) ∙ k.this) (k.next before e);
      },
    )

module _ (key left : ℕ) where
  blanks-Splits :
      (bs : List ℕ) (c : ℕ) (r : List ℕ) {now : List ℕ} {found : List (List ℕ)} (pos : ℕ)
      → All IsBlank bs
      → is_blank c ≡ false
      → NotZero c
      → ((p : ℕ) → Splits now found p (split_from key left Mode.field p r))
      → (now' : List ℕ) × Splits now'
          ((c ∷ now) ∷ found)
          pos
          (split_from key left Mode.blanks pos (bs ++ (c ∷ r)))
  unfolding split_from
  blanks-Splits [] c r pos blanks starts nz later =
      rw (split_from, starts) (first-Splits c pos nz (later (pos + 1)))
  blanks-Splits (b ∷ bs) c r pos blanks starts nz later =
      rw (split_from, blanks.0)
        (step-Splits b pos (blanks-Splits bs c r (pos + 1) blanks.1 starts nz later).1)

module _ (key : ℕ) (some_key : NotZero key) (tail : List ℕ) where
  same_key : (key == key) ≡ true
  same_key = ground arith

  -- The terminator in place of a key.
  ended :
      {found : List (List ℕ)} {pos : ℕ} {out : Option (List ℕ × List ℕ)}
      → ((now : List ℕ) × Splits now found (pos + 1) out)
      → Splits [] found pos (keep_byte 0 out)
  unfolding text_at
  ended {pos = pos} (now, s) = record {
    buff = 0 ∷ s.buff;
    offsets = s.offsets;
    runs = ap (keep_byte 0) s.runs;
    this = refl;
    next = λ before e.
        ap (λ (b : List ℕ). texts b s.offsets) (sym (append-cons_one before s.buff 0))
        ∙ s.next (before ++ 0 ∷ []) (length-snoc before 0 pos e);
  }

  pub field-Splits :
      (ws : List Word) (now : List ℕ) (left pos : ℕ)
      → All (IsWord key) ws
      → All (Inner key) now
      → Splits now
          (take left (spellings ws))
          pos
          (split_from key left Mode.field pos (now ++ behind key ws tail))
  unfolding split_from
  field-Splits ws (c ∷ now) left pos words inner =
      rw (split_from, inner.0.0, inner.0.1)
        (keep-Splits c pos inner.0.0 (field-Splits ws now left (pos + 1) words inner.1))
  field-Splits [] [] left pos words inner = record {
    buff = 0 ∷ tail;
    offsets = [];
    runs = refl;
    this = text_at-zero tail;
    next = λ before e. sym (take-nil left);
  }
  field-Splits (w ∷ ws) [] zero pos words inner =
      rw (split_from, some_key, same_key)
        (record {
          buff = 0 ∷ (w.lead ++ (w.first ∷ (w.rest ++ behind key ws tail)));
          offsets = [];
          runs = refl;
          this = text_at-zero _;
          next = λ before e. refl;
        })
  field-Splits (w ∷ ws) [] (suc left) pos words inner =
      rw (split_from, some_key, same_key)
        (ended (
          blanks-Splits key left w.lead w.first (w.rest ++ behind key ws tail) (pos + 1)
            words.0.blanks words.0.starts words.0.first_byte
            (λ p. field-Splits ws w.rest left p words.1 words.0.inner)))
