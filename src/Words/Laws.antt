-- ===== src/Words/Laws.antt =====
-- general_get_field on a line of words: which fields it stores.
use commlib.Base.{
  ℕ, zero, suc, ◌+◌, ◌-◌, ◌≤◌, ◌≡◌, refl, sym, ap, ap₂, ◌∙◌, true, false, some, List, [], ◌∷◌, ◌++◌,
  ◌==◌, arith, suc-ne-zero, All, All-append, length, take, drop, set, get_elem?, replicate,
  length-append, length-replicate, append_assoc, append-cons_one, if◌then◌else◌,
}
use commlib.Libc.{text_at}
use commlib.Words.{
  Mode, Fields, fields, is_blank, spaces, split_from, split_line, cut_newline, general_get_field,
  texts,
}
use commlib.Words.Scan.{
  NotZero, Inner, Word, IsWord, IsBlank, behind, spellings, drop-append, text_at-append,
  field-Splits,
}

-- The bytes of `behind` before the terminator.
abbrev pub line_text : ℕ → List Word → List ℕ
line_text key [] = []
line_text key (w ∷ ws) = key ∷ (w.lead ++ (w.first ∷ (w.rest ++ line_text key ws)))

behind-line_text :
    (key : ℕ) (ws : List Word) (tail : List ℕ) → behind key ws tail ≡ line_text key ws ++ (0 ∷ tail)
behind-line_text key [] tail = refl
behind-line_text key (w ∷ ws) tail = simp (behind-line_text key ws tail, append_assoc)

NotZero-blank : (c : ℕ) → is_blank c ≡ true → NotZero c
NotZero-blank c h = ground arith

NotZero-blanks : (bs : List ℕ) → All IsBlank bs → All NotZero bs
NotZero-blanks [] h = tt
NotZero-blanks (b ∷ bs) h = (NotZero-blank b h.0, NotZero-blanks bs h.1)

NotZero-Inner : (key : ℕ) (s : List ℕ) → All (Inner key) s → All NotZero s
NotZero-Inner key [] h = tt
NotZero-Inner key (c ∷ s) h = (h.0.0, NotZero-Inner key s h.1)

NotZero-line_text :
    (key : ℕ) (ws : List Word) → NotZero key → All (IsWord key) ws → All NotZero (line_text key ws)
NotZero-line_text key [] nz h = tt
NotZero-line_text key (w ∷ ws) nz h = (
  nz,
  All-append NotZero w.lead _ (NotZero-blanks w.lead h.0.blanks) (
    h.0.first_byte,
    All-append NotZero w.rest _ (NotZero-Inner key w.rest h.0.inner)
        (NotZero-line_text key ws nz h.1),
  ),
)

-- The call stores the first `n` of the words.
abbrev pub Stores : List (List ℕ) → ℕ → Fields → Type 0
Stores words n out =
    (buff : List ℕ) × (offsets : List ℕ) × (out ≡ fields buff offsets)
    × (texts buff offsets ≡ take n words)

set-append : (xs ys : List ℕ) (y v : ℕ) → set (xs ++ y ∷ ys) (length xs) v ≡ xs ++ v ∷ ys
set-append [] ys y v = refl
set-append (x ∷ xs) ys y v = ap (◌∷◌ x) (set-append xs ys y v)

get_elem?-append : (xs ys : List ℕ) (i : ℕ) → get_elem? (xs ++ ys) (length xs + i) ≡ get_elem? ys i
get_elem?-append [] ys i = let e : 0 + i ≡ i = omega arith in ap (get_elem? ys) e
get_elem?-append (x ∷ xs) ys i =
    let e : suc (length xs) + i ≡ suc (length xs + i) = omega arith in
    ap (get_elem? (x ∷ (xs ++ ys))) e ∙ get_elem?-append xs ys i

get_elem?-replicate : (n v i : ℕ) → suc i ≤ n → get_elem? (replicate n v) i ≡ some v
get_elem?-replicate zero v i h = absurd (omega arith)
get_elem?-replicate (suc n) v zero h = refl
get_elem?-replicate (suc n) v (suc i) h = get_elem?-replicate n v i (omega arith)

take-append : (xs ys : List ℕ) → take (length xs) (xs ++ ys) ≡ xs
take-append [] ys = refl
take-append (x ∷ xs) ys = ap (◌∷◌ x) (take-append xs ys)

split_line_step :
    (key fieldnum lead : ℕ) (buff rest offsets : List ℕ)
    → (length (text_at (drop lead buff)) == 0) ≡ false
    → split_from key (fieldnum - 1) Mode.field lead (drop lead buff) ≡ some (rest, offsets)
    → split_line key fieldnum lead buff ≡ fields (take lead buff ++ rest) (lead ∷ offsets)
unfolding split_line
split_line_step key fieldnum lead buff rest offsets some_text e = rw (split_line, some_text, e)

cut_newline_step :
    (key fieldnum lead last c : ℕ) (buff : List ℕ)
    → get_elem? buff last ≡ some c
    → cut_newline key fieldnum lead last buff
      ≡ split_line key fieldnum lead (if c == b'\n' then set buff last 0 else buff)
unfolding cut_newline
cut_newline_step key fieldnum lead last c buff e = rw (cut_newline, e)

get_field_step :
    (buff : List ℕ) (key n lead m last : ℕ)
    → spaces buff ≡ lead
    → length (text_at buff) ≡ suc m
    → (suc m == length buff) ≡ false
    → lead + m ≡ last
    → general_get_field buff key (suc n) ≡ cut_newline key (suc n) lead last buff
unfolding general_get_field
get_field_step buff key n lead m last at len ends e =
    let last : (lead + suc m) - 1 ≡ last = omega arith in
    rw (general_get_field, at, len, suc-ne-zero m, suc-ne-zero n, ends, last)

spaces-replicate :
    (lead c : ℕ) (buff : List ℕ)
    → (c == b' ') ≡ false
    → spaces (replicate lead b' ' ++ (c ∷ buff)) ≡ lead
unfolding spaces
spaces-replicate zero c buff h = rw h
spaces-replicate (suc lead) c buff h = ap suc (spaces-replicate lead c buff h)

NotZero-replicate : (lead : ℕ) → All NotZero (replicate lead b' ')
NotZero-replicate zero = tt
NotZero-replicate (suc lead) = (refl, NotZero-replicate lead)

-- A line: a first byte that is no space, the rest of the first word, and the other words.
pub record IsLine (key c : ℕ) (rest : List ℕ) (ws : List Word) : Type 0 where
  pub some_key : NotZero key
  pub no_space : (c == b' ') ≡ false
  pub first_word : All (Inner key) (c ∷ rest)
  pub words : All (IsWord key) ws

module _ (key c : ℕ) (rest : List ℕ) (ws : List Word) (line : IsLine key c rest ws) where
  abbrev whole : List ℕ
  whole = c ∷ (rest ++ line_text key ws)

  NotZero-whole : All NotZero whole
  NotZero-whole = (
    line.first_word.0.0,
    All-append NotZero rest _ (NotZero-Inner key rest line.first_word.1)
        (NotZero-line_text key ws line.some_key line.words),
  )

  whole-behind : (tail : List ℕ) → whole ++ (0 ∷ tail) ≡ c ∷ (rest ++ behind key ws tail)
  whole-behind tail = simp (behind-line_text key ws tail, append_assoc)

  text_at-whole : (tail : List ℕ) → (length (text_at (whole ++ (0 ∷ tail))) == 0) ≡ false
  text_at-whole tail = rw (text_at-append whole tail NotZero-whole) (ground arith)

  split_line-Stores :
      (n : ℕ) (before tail : List ℕ)
      → Stores
          ((c ∷ rest) ∷ spellings ws)
          (suc n)
          (split_line key (suc n) (length before) (before ++ (whole ++ (0 ∷ tail))))
  split_line-Stores n before tail =
      let s =
        field-Splits key line.some_key tail ws (c ∷ rest) n (length before) line.words
          line.first_word in
      let buff = whole ++ (0 ∷ tail) in
      let fewer : suc n - 1 ≡ n = omega arith in
      (
        before ++ s.buff,
        length before ∷ s.offsets,
        split_line_step key (suc n) (length before) (before ++ buff) s.buff s.offsets
              (rw (drop-append before buff) (text_at-whole tail))
              (rw (drop-append before buff, fewer, whole-behind tail) s.runs)
            ∙ ap (λ (b : List ℕ). fields (b ++ s.buff) (length before ∷ s.offsets))
                (take-append before buff),
        ap₂ (λ (w : List ℕ) (rest : List (List ℕ)). w ∷ rest)
            (ap text_at (drop-append before s.buff) ∙ s.this) (s.next before refl),
      )

  -- The line with its newline, at the start of the buffer.
  pub newline-Stores :
      (n : ℕ) (tail : List ℕ)
      → Stores
          ((c ∷ rest) ∷ spellings ws)
          (suc n)
          (general_get_field (whole ++ (b'\n' ∷ 0 ∷ tail)) key (suc n))
  newline-Stores n tail =
      let buff : List ℕ = whole ++ (b'\n' ∷ 0 ∷ tail) in
      let text : text_at buff ≡ whole ++ b'\n' ∷ [] =
        ap text_at (sym (append-cons_one whole (0 ∷ tail) b'\n'))
        ∙ text_at-append (whole ++ b'\n' ∷ []) tail
            (All-append NotZero whole _ NotZero-whole (refl, tt)) in
      let here : length whole ≡ length whole + 0 = omega arith in
      let e : general_get_field (whole ++ (b'\n' ∷ 0 ∷ tail)) key (suc n)
          ≡ split_line key (suc n) 0 (whole ++ (0 ∷ 0 ∷ tail)) =
        get_field_step buff key n 0 (length whole) (length whole)
          (spaces-replicate 0 c _ line.no_space)
          (ap length text ∙ omega (arith, length-append whole (b'\n' ∷ [])))
          (let l = length-append whole (b'\n' ∷ 0 ∷ tail) in ground arith) (omega arith)
        ∙ cut_newline_step key (suc n) 0 (length whole) b'\n' buff
            (ap (get_elem? buff) here ∙ get_elem?-append whole (b'\n' ∷ 0 ∷ tail) 0)
        ∙ ap (split_line key (suc n) 0) (set-append whole (0 ∷ tail) b'\n' 0) in
      rw e (split_line-Stores n [] (0 ∷ tail))

  -- The line behind spaces, in a buffer of zeros.
  spaces-Stores :
      (n lead zeros : ℕ)
      → lead ≤ zeros
      → Stores ((c ∷ rest) ∷ spellings ws) (suc n) (
          general_get_field
            (replicate (suc lead) b' ' ++ (whole ++ (0 ∷ replicate zeros 0)))
            key
            (suc n))
  spaces-Stores n lead zeros room =
      let before : List ℕ = replicate (suc lead) b' ' in
      let buff : List ℕ = before ++ (whole ++ (0 ∷ replicate zeros 0)) in
      let joined : (before ++ whole) ++ (0 ∷ replicate zeros 0) ≡ buff =
        append_assoc before whole (0 ∷ replicate zeros 0) in
      let text : text_at buff ≡ before ++ whole =
        ap text_at (sym joined)
        ∙ text_at-append (before ++ whole) (replicate zeros 0)
            (All-append NotZero before _ (NotZero-replicate (suc lead)) NotZero-whole) in
      let place : suc lead + (lead + length whole) ≡ length (before ++ whole) + lead =
        omega (arith, length-append before whole, length-replicate {A = ℕ} (suc lead) b' ') in
      let found : get_elem? buff (suc lead + (lead + length whole)) ≡ some 0 =
        ap₂ get_elem? (sym joined) place
        ∙ get_elem?-append (before ++ whole) (0 ∷ replicate zeros 0) lead
        ∙ get_elem?-replicate (suc zeros) 0 lead (omega arith) in
      let e : general_get_field (before ++ (whole ++ (0 ∷ replicate zeros 0))) key (suc n)
          ≡ split_line key (suc n) (length before) (before ++ (whole ++ (0 ∷ replicate zeros 0))) =
        get_field_step buff key n (suc lead) (lead + length whole)
          (suc lead + (lead + length whole)) (spaces-replicate (suc lead) c _ line.no_space)
          (ap length text
            ∙ omega (arith, length-append before whole, length-replicate {A = ℕ} (suc lead) b' '))
          (let l = length-append (before ++ whole) (0 ∷ replicate zeros 0) in
            let r = length-append before whole in
            let q = length-replicate {A = ℕ} (suc lead) b' ' in
            let w = ap length (append_assoc before whole (0 ∷ replicate zeros 0)) in ground arith)
          refl
        ∙ cut_newline_step key (suc n) (suc lead) (suc lead + (lead + length whole)) 0 buff found
        ∙ ap (λ (l : ℕ). split_line key (suc n) l buff)
            (sym (length-replicate {A = ℕ} (suc lead) b' ')) in
      rw e (split_line-Stores n before (replicate zeros 0))

-- A line is words with the key and blanks between them. Without spaces in front, general_get_field
-- drops the newline at its end and stores the words, up to the number of fields that is asked for.
-- Behind spaces, in a buffer that holds as many zeros behind the line, it stores the words in the
-- same way and looks for the newline in the wrong place, so a newline stays in the last word.
pub general_get_field-Stores :
    (key c : ℕ) (rest : List ℕ) (ws : List Word) (n lead zeros : ℕ) (tail : List ℕ)
    → IsLine key c rest ws
    → lead ≤ zeros
    → let words = (c ∷ rest) ∷ spellings ws in
      let line = c ∷ (rest ++ line_text key ws) in
      Stores words (suc n) (general_get_field (line ++ (b'\n' ∷ 0 ∷ tail)) key (suc n))
      × Stores words (suc n) (
          general_get_field
            (replicate (suc lead) b' ' ++ (line ++ (0 ∷ replicate zeros 0)))
            key
            (suc n))
general_get_field-Stores key c rest ws n lead zeros tail line room =
    (newline-Stores key c rest ws line n tail, spaces-Stores key c rest ws line n lead zeros room)
