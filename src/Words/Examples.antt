-- ===== src/Words/Examples.antt =====
-- Lines with words, and a line whose key is at its end.
use commlib.Base.{◌≡◌, refl, List, [], ◌∷◌, ◌++◌, replicate, arith}
use commlib.Libc.{text_at}
use commlib.Words.{fields, fault, general_get_field, split_from}
use commlib.Words.Scan.{Word, spellings}
use commlib.Words.Laws.{Stores, IsLine, line_text, general_get_field-Stores}

-- "ab", two spaces and "c", a space and "d".
abbrev two_words : List Word
two_words =
    record { lead = b' ' ∷ []; first = b'c'; rest = [] }
    ∷ record { lead = []; first = b'd'; rest = [] }
    ∷ []

two_words-IsLine : IsLine b' ' b'a' (b'b' ∷ []) two_words
two_words-IsLine = record {
  some_key = refl;
  no_space = refl;
  first_word = ((refl, refl), ((refl, refl), tt));
  words = (
    record { blanks = (refl, tt); starts = refl; first_byte = refl; inner = tt },
    (record { blanks = tt; starts = refl; first_byte = refl; inner = tt }, tt),
  );
}

general_get_field-Stores_example :
    let words = (b'a' ∷ b'b' ∷ []) ∷ spellings two_words in
    let line = b'a' ∷ ((b'b' ∷ []) ++ line_text b' ' two_words) in
    Stores words 2 (general_get_field (line ++ (b'\n' ∷ 0 ∷ 7 ∷ [])) b' ' 2)
    × Stores words 2 (general_get_field (replicate 2 b' ' ++ (line ++ (0 ∷ replicate 3 0))) b' ' 2)
general_get_field-Stores_example =
    general_get_field-Stores b' ' b'a' (b'b' ∷ []) two_words 1 1 3 (7 ∷ []) two_words-IsLine
      (omega arith)

-- Behind a key at the end of the line the loop steps over the terminator and out of the buffer.
key_at_end : general_get_field (b'a' ∷ b':' ∷ 0 ∷ []) b':' 2 ≡ fault
unfolding general_get_field split_from text_at
key_at_end = refl

-- The newline of a line with two spaces in front is not found.
spaced_line :
    general_get_field (b' ' ∷ b' ' ∷ b'a' ∷ b'\n' ∷ 0 ∷ 0 ∷ 0 ∷ []) b' ' 2
    ≡ fields (b' ' ∷ b' ' ∷ b'a' ∷ b'\n' ∷ 0 ∷ 0 ∷ 0 ∷ []) (2 ∷ [])
unfolding general_get_field split_from text_at
spaced_line = refl
