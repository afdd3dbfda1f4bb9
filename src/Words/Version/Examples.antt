-- ===== src/Words/Version/Examples.antt =====
-- The lines of three releases.
use commlib.Base.{ℕ, ◌≡◌, refl, false, none, some, List, [], ◌∷◌, ◌++◌, arith}
use commlib.Libc.{ℤ, pos, negsuc, text_at, strtol, atoi, strchr, same, fgets}
use commlib.Words.{general_get_field, split_from}
use commlib.Words.Scan.{Word}
use commlib.Words.Laws.{IsLine, line_text}
use commlib.Words.Version.{
  is_zero, os_version_con, version_number, join_version, known_version, lower_all,
  general_os_version,
}
use commlib.Words.Version.Laws.{Lowered, Release, general_os_version-Release}

abbrev word : ℕ → List ℕ → Word
word first rest = record { lead = []; first = first; rest = rest }

-- "CentOS", "Linux", "release", "7.6" and "(Core)".
abbrev entos : List ℕ
entos = b'e' ∷ b'n' ∷ b't' ∷ b'O' ∷ b'S' ∷ []

abbrev centos_words : List Word
centos_words =
    word b'L' (b'i' ∷ b'n' ∷ b'u' ∷ b'x' ∷ [])
    ∷ word b'r' (b'e' ∷ b'l' ∷ b'e' ∷ b'a' ∷ b's' ∷ b'e' ∷ [])
    ∷ word b'7' (b'.' ∷ b'6' ∷ [])
    ∷ word b'(' (b'C' ∷ b'o' ∷ b'r' ∷ b'e' ∷ b')' ∷ [])
    ∷ []

centos_words-IsLine : IsLine b' ' b'C' entos centos_words
centos_words-IsLine = record {
  some_key = refl;
  no_space = refl;
  first_word = ground arith;
  words = (
    record { blanks = tt; starts = refl; first_byte = refl; inner = ground arith },
    (
      record { blanks = tt; starts = refl; first_byte = refl; inner = ground arith },
      (
        record { blanks = tt; starts = refl; first_byte = refl; inner = ground arith },
        (record { blanks = tt; starts = refl; first_byte = refl; inner = ground arith }, tt),
      ),
    ),
  );
}

not_zero : is_zero (atoi (b'7' ∷ b'.' ∷ b'6' ∷ [])) ≡ false
unfolding atoi strtol
not_zero = refl

general_os_version-Release_example :
    (text : List ℕ) × (release : ℤ) × Lowered ((b'C' ∷ entos) ++ b'7' ∷ []) text
    × Release text release
    × (general_os_version
          (some (some ((b'C' ∷ (entos ++ line_text b' ' centos_words)) ++ b'\n' ∷ [])))
          none
        ≡ some release)
general_os_version-Release_example =
    general_os_version-Release b'C' entos [] (b'C' ∷ entos) (b'L' ∷ b'i' ∷ b'n' ∷ b'u' ∷ b'x' ∷ [])
      (b'r' ∷ b'e' ∷ b'l' ∷ b'e' ∷ b'a' ∷ b's' ∷ b'e' ∷ []) (b'7' ∷ []) (b'6' ∷ []) centos_words
      ((b'(' ∷ b'C' ∷ b'o' ∷ b'r' ∷ b'e' ∷ b')' ∷ []) ∷ []) none centos_words-IsLine (ground arith)
      (omega arith) refl (ground arith) not_zero (omega arith)

centos_7 : known_version (lower_all ((b'C' ∷ entos) ++ b'7' ∷ [])) ≡ pos 1
unfolding known_version same
centos_7 = refl

-- "Ubuntu 18.04 LTS".
ubuntu_18 :
    general_os_version none (
      some (
        some (
          b'U' ∷ b'b' ∷ b'u' ∷ b'n' ∷ b't' ∷ b'u' ∷ b' ' ∷ b'1' ∷ b'8' ∷ b'.' ∷ b'0' ∷ b'4' ∷ b' '
          ∷ b'L' ∷ b'\n' ∷ [])))
    ≡ some (pos 0)
unfolding general_os_version known_version same text_at strtol atoi strchr fgets general_get_field
    split_from os_version_con version_number join_version
ubuntu_18 = refl

-- "CentOS release 6.5 (Final)", where the fourth word is no number.
centos_6 :
    general_os_version
      (some (
        some (
          (b'C' ∷ entos)
          ++ b' ' ∷ b'r' ∷ b' ' ∷ b'6' ∷ b'.' ∷ b'5' ∷ b' ' ∷ b'(' ∷ b'F' ∷ b')' ∷ b'\n' ∷ [])))
      none
    ≡ some (pos 2)
unfolding general_os_version known_version same text_at strtol atoi strchr fgets general_get_field
    split_from os_version_con version_number join_version
centos_6 = refl

nothing_known : general_os_version none none ≡ some (negsuc 0)
unfolding general_os_version
nothing_known = refl
