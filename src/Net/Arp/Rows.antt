-- ===== src/Net/Arp/Rows.antt =====
-- The lines of /proc/net/arp, and what the scan of src/myfcp/fcp_net.c takes from each.
use commlib.Base.{
  ℕ, zero, suc, ◌<◌, ◌≡◌, ◌∙◌, refl, ap, true, false, some, List, [], ◌∷◌, ◌++◌, arith, ◌==◌, All,
  length, length-append, All-append, append_assoc, replicate,
}
use commlib.Libc.{is_space, fgets}
use commlib.Libc.Lines.{NotNewline, fgets_line}
use commlib.Net.Arp.Hex.{HexWord}
use commlib.Net.Arp.{word_at, next_word, scan_words, words_fit}

abbrev pub NotSpace : ℕ → Type 0
NotSpace c = is_space c ≡ false

abbrev pub IsWord : List ℕ → Type 0
IsWord w = (0 < length w) × All NotSpace w

-- A word behind one blank and more.
pub record Cell : Type 0 where
  pub blanks : ℕ
  pub word : List ℕ

abbrev pub cells_text : List Cell → List ℕ → List ℕ
cells_text [] tail = tail
cells_text (c ∷ cells) tail = b' ' ∷ (replicate c.blanks b' ' ++ (c.word ++ cells_text cells tail))

word_at-append :
    (w : List ℕ) (d : ℕ) (rest : List ℕ)
    → All NotSpace w
    → is_space d ≡ true
    → word_at (w ++ (d ∷ rest)) ≡ (w, d ∷ rest)
unfolding word_at
word_at-append [] d rest h stops = rw (word_at, stops)
word_at-append (c ∷ w) d rest h stops =
    rw (word_at, h.0)
      (ap (λ (p : List ℕ × List ℕ). (c ∷ p.0, p.1)) (word_at-append w d rest h.1 stops))

next_word-append :
    (w : List ℕ) (d : ℕ) (rest : List ℕ)
    → IsWord w
    → is_space d ≡ true
    → next_word (w ++ (d ∷ rest)) ≡ (w, d ∷ rest)
unfolding next_word
next_word-append [] d rest h stops = absurd (omega (arith, h.0))
next_word-append (c ∷ w) d rest h stops =
    rw (next_word, h.1.0) (word_at-append (c ∷ w) d rest h.1 stops)

next_word_blanks : (n : ℕ) (s : List ℕ) → next_word (replicate n b' ' ++ s) ≡ next_word s
unfolding next_word
next_word_blanks zero s = refl
next_word_blanks (suc n) s = next_word_blanks n s

-- What stands behind a word of a line: a blank, or the line's end.
cells_end :
    (cells : List Cell)
    → (d : ℕ) × (rest : List ℕ) × (is_space d ≡ true) × (cells_text cells (b'\n' ∷ []) ≡ d ∷ rest)
cells_end [] = (b'\n', [], refl, refl)
cells_end (c ∷ cells) =
    (b' ', replicate c.blanks b' ' ++ (c.word ++ cells_text cells (b'\n' ∷ [])), refl, refl)

next_word_cells :
    (w : List ℕ) (cells : List Cell)
    → IsWord w
    → next_word (w ++ cells_text cells (b'\n' ∷ [])) ≡ (w, cells_text cells (b'\n' ∷ []))
next_word_cells w cells h =
    let end = cells_end cells in rw (end.3) (next_word-append w end.0 end.1 h end.2)

abbrev pub HasWord : Cell → Type 0
HasWord c = IsWord c.word

abbrev pub words_of : List Cell → List (List ℕ)
words_of [] = []
words_of (c ∷ cells) = c.word ∷ words_of cells

not_empty : (w : List ℕ) → 0 < length w → (length w == 0) ≡ false
not_empty w h = ground arith

scan_word :
    (n : ℕ) (s w rest : List ℕ)
    → next_word s ≡ (w, rest)
    → 0 < length w
    → scan_words (suc n) s ≡ w ∷ scan_words n rest
unfolding scan_words
scan_word n s w rest e h = rw (scan_words, e, not_empty w h, e)

scan_cells :
    (cells : List Cell)
    → All HasWord cells
    → scan_words (length cells) (cells_text cells (b'\n' ∷ [])) ≡ words_of cells
unfolding scan_words
scan_cells [] h = refl
scan_cells (c ∷ cells) h =
    let after = next_word_blanks c.blanks (c.word ++ cells_text cells (b'\n' ∷ [])) in
    scan_word (length cells) (cells_text (c ∷ cells) (b'\n' ∷ [])) c.word
      (cells_text cells (b'\n' ∷ [])) (after ∙ next_word_cells c.word cells h.0) h.0.0
    ∙ ap (λ (ws : List (List ℕ)). c.word ∷ ws) (scan_cells cells h.1)

-- One line of the table, with the numbers of its second and third word.
pub record Row : Type 0 where
  pub ipv4 : List ℕ
  pub hwtype : Cell
  pub flag : Cell
  pub hwaddr : Cell
  pub mask : Cell
  pub devname : Cell
  pub type_number : ℕ
  pub flag_number : ℕ

abbrev pub cells_of : Row → List Cell
cells_of r = r.hwtype ∷ r.flag ∷ r.hwaddr ∷ r.mask ∷ r.devname ∷ []

-- A line without its newline.
abbrev pub row_line : Row → List ℕ
row_line r = r.ipv4 ++ cells_text (cells_of r) []

abbrev pub row_words : Row → List (List ℕ)
row_words r = r.ipv4 ∷ words_of (cells_of r)

-- The six words of a line that the kernel writes: the second and the third are hexadecimal numbers
-- that an `int` holds; none is empty or has white space, each fits
-- its array, and the line fits the buffer.
pub record IsRow (r : Row) : Type 0 where
  pub ipv4 : IsWord r.ipv4
  pub cells : All HasWord (cells_of r)
  pub fit : words_fit (row_words r) ≡ true
  pub line : length (row_line r) < 1022
  pub type_hex : HexWord r.hwtype.word r.type_number
  pub flag_hex : HexWord r.flag.word r.flag_number

abbrev pub rows_text : List Row → List ℕ
rows_text [] = []
rows_text (r ∷ rows) = row_line r ++ (b'\n' ∷ rows_text rows)

cells_text-append :
    (cells : List Cell) (tail : List ℕ) → cells_text cells [] ++ tail ≡ cells_text cells tail
cells_text-append [] tail = refl
cells_text-append (c ∷ cells) tail =
    ap (λ (s : List ℕ). b' ' ∷ s)
      (append_assoc (replicate c.blanks b' ') (c.word ++ cells_text cells []) tail
        ∙ ap (λ (s : List ℕ). replicate c.blanks b' ' ++ s)
            (append_assoc c.word (cells_text cells []) tail
              ∙ ap (λ (s : List ℕ). c.word ++ s) (cells_text-append cells tail)))

pub scan_row : (r : Row) → IsRow r → scan_words 6 (row_line r ++ b'\n' ∷ []) ≡ row_words r
scan_row r h =
    rw
      (
        append_assoc r.ipv4 (cells_text (cells_of r) []) (b'\n' ∷ []),
        cells_text-append (cells_of r) (b'\n' ∷ []),
      )
      (scan_word 5 (r.ipv4 ++ cells_text (cells_of r) (b'\n' ∷ [])) r.ipv4
          (cells_text (cells_of r) (b'\n' ∷ [])) (next_word_cells r.ipv4 (cells_of r) h.ipv4)
          h.ipv4.0
        ∙ ap (λ (ws : List (List ℕ)). r.ipv4 ∷ ws) (scan_cells (cells_of r) h.cells))

not_newline : (c : ℕ) → NotSpace c → NotNewline c
not_newline c h = ground arith

All-replicate : (n : ℕ) (c : ℕ) → NotNewline c → All NotNewline (replicate n c)
All-replicate zero c h = tt
All-replicate (suc n) c h = (h, All-replicate n c h)

All-word : (w : List ℕ) → All NotSpace w → All NotNewline w
All-word [] h = tt
All-word (c ∷ w) h = (not_newline c h.0, All-word w h.1)

All-cells : (cells : List Cell) → All HasWord cells → All NotNewline (cells_text cells [])
All-cells [] h = tt
All-cells (c ∷ cells) h = (
  refl,
  All-append NotNewline (replicate c.blanks b' ') (c.word ++ cells_text cells [])
      (All-replicate c.blanks b' ' refl)
      (All-append NotNewline c.word (cells_text cells []) (All-word c.word h.0.1)
        (All-cells cells h.1)),
)

row_not_empty : (r : Row) → IsRow r → 0 < length (row_line r)
row_not_empty r h =
    let e = length-append r.ipv4 (cells_text (cells_of r) []) in omega (arith, e, h.ipv4.0)

pub fgets_row :
    (r : Row) (rest : List ℕ)
    → IsRow r
    → fgets 1024 (row_line r ++ (b'\n' ∷ rest)) ≡ some (row_line r ++ b'\n' ∷ [], rest)
fgets_row r rest h =
    fgets_line 1024 (row_line r) rest (row_not_empty r h)
      (All-append NotNewline r.ipv4 (cells_text (cells_of r) []) (All-word r.ipv4 h.ipv4.1)
        (All-cells (cells_of r) h.cells))
      (omega (arith, h.line))
