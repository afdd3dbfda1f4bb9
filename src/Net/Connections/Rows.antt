-- ===== src/Net/Connections/Rows.antt =====
-- The lines of a table of sockets in the kernel's form, as general_get_field cuts them.
use commlib.Base.{
  ℕ, zero, suc, ◌+◌, ◌-◌, ◌<◌, ◌≤◌, ◌≡◌, ◌∙◌, sym, ap, List, [], ◌∷◌, ◌++◌, arith, All, length,
  drop, replicate, append_assoc, length-append,
}
use commlib.Libc.{put_line}
use commlib.Libc.Lines.{NotNewline}
use commlib.Words.{general_get_field}
use commlib.Words.Scan.{Word, spellings}
use commlib.Words.Laws.{IsLine, Stores, line_text, general_get_field-Stores}

-- One line of the table: its words with the newline in the last of them, behind spaces; and its
-- bytes before the newline.
pub record Row : Type 0 where
  pub lead : ℕ
  pub first : ℕ
  pub rest : List ℕ
  pub words : List Word
  pub body : List ℕ

abbrev pub row_words : Row → List (List ℕ)
row_words r = (r.first ∷ r.rest) ∷ spellings r.words

abbrev pub row_line : Row → List ℕ
row_line r = r.first ∷ (r.rest ++ line_text b' ' r.words)

pub record IsRow (r : Row) : Type 0 where
  pub line : IsLine b' ' r.first r.rest r.words
  pub text : replicate (suc r.lead) b' ' ++ row_line r ≡ r.body ++ b'\n' ∷ []
  pub one_line : All NotNewline r.body
  pub not_empty : 0 < length r.body
  pub room : (r.lead + length r.body) + 2 < 1024

drop-replicate : (k n c : ℕ) → drop k (replicate n c) ≡ replicate (n - k) c
drop-replicate zero n c = let e : n ≡ n - 0 = omega arith in ap (λ (m : ℕ). replicate m c) e
drop-replicate (suc k) zero c =
    let e : 0 ≡ 0 - suc k = omega arith in ap (λ (m : ℕ). replicate m c) e
drop-replicate (suc k) (suc n) c =
    let e : n - k ≡ suc n - suc k = omega arith in
    drop-replicate k n c ∙ ap (λ (m : ℕ). replicate m c) e

-- The buffer with a row.
row_buffer :
    (r : Row)
    → IsRow r
    → put_line (r.body ++ b'\n' ∷ []) (replicate 1024 0)
      ≡ replicate (suc r.lead) b' ' ++ (row_line r ++ (0 ∷ replicate (1022 - length r.body) 0))
row_buffer r h =
    let tail : List ℕ = drop (length (r.body ++ b'\n' ∷ []) + 1) (replicate 1024 0) in
    let left : 1024 - (length (r.body ++ b'\n' ∷ []) + 1) ≡ 1022 - length r.body =
      omega (arith, length-append r.body (b'\n' ∷ [])) in
    let zeros : tail ≡ replicate (1022 - length r.body) 0 =
      drop-replicate (length (r.body ++ b'\n' ∷ []) + 1) 1024 0
      ∙ ap (λ (m : ℕ). replicate m 0) left in
    ap (λ (s : List ℕ). s ++ (0 ∷ tail)) (sym h.text)
    ∙ append_assoc (replicate (suc r.lead) b' ') (row_line r) (0 ∷ tail)
    ∙ ap (λ (s : List ℕ). replicate (suc r.lead) b' ' ++ (row_line r ++ (0 ∷ s))) zeros

pub row_fields :
    (r : Row)
    → IsRow r
    → Stores
        (row_words r)
        12
        (general_get_field (put_line (r.body ++ b'\n' ∷ []) (replicate 1024 0)) b' ' 12)
row_fields r h =
    rw (row_buffer r h)
      (general_get_field-Stores b' ' r.first r.rest r.words 11 r.lead (1022 - length r.body) []
        h.line (omega (arith, h.room))).1

abbrev pub rows_text : List Row → List ℕ
rows_text [] = []
rows_text (r ∷ rows) = r.body ++ (b'\n' ∷ rows_text rows)

pub length-rows_text : (rows : List Row) → length rows ≤ length (rows_text rows)
length-rows_text [] = omega arith
length-rows_text (r ∷ rows) =
    let e = length-append r.body (b'\n' ∷ rows_text rows) in omega (arith, e, length-rows_text rows)
