-- ===== src/Words/Version.antt =====
-- general_os_version and general_os_version_con of src/myfcp/general.c. The files are a parameter:
-- whether `stat` knows a path, and the bytes of a file that opens.
pub mod Laws
mod Examples
use commlib.Base.{
  ℕ, zero, suc, ◌+◌, ◌-◌, Bool, true, false, Option, none, some, List, [], ◌∷◌, ◌++◌, ◌==◌, ◌&&◌,
  if◌then◌else◌, length, get_or, ltb, leb, take, replicate,
}
use commlib.Libc.{ℤ, pos, negsuc, atoi, text_at, strchr, same, fgets, put_line}
use commlib.Words.{Fields, fields, ret_err, fault, general_get_field, texts}

-- 0 with the text in `verbuff`; or -1; or an access outside of a buffer.
pub data VersionText : Type 0 where
  written : List ℕ → VersionText
  failed : VersionText
  broken : VersionText

abbrev pub is_zero : ℤ → Bool
is_zero (pos n) = n == 0
is_zero (negsuc n) = false

-- The field that is joined to the first: the last one, or, of more than two, the one before it where
-- the last is no number.
abbrev pub version_word : ℕ → List (List ℕ) → List ℕ
version_word fieldnum words =
    if is_zero (atoi (get_or words (fieldnum - 1) [])) && ltb 2 fieldnum
    then get_or words (fieldnum - 2) []
    else get_or words (fieldnum - 1) []

-- `fieldptr[fieldnum - 1]` is NULL where there are fewer fields. `snprintf` keeps a terminator.
pub join_version : ℕ → ℕ → Fields → VersionText
join_version bufsize fieldnum fault = broken
join_version bufsize fieldnum ret_err = failed
join_version bufsize fieldnum (fields buff offsets) =
    let words = texts buff offsets in
    if ltb (length words) fieldnum
    then failed
    else written (take (bufsize - 1) (get_or words 0 [] ++ version_word fieldnum words))

-- For paths and buffers that are no NULL, with memory for the array.
pub os_version_con : Option (List ℕ) → ℕ → ℕ → VersionText
unfolding join_version
os_version_con file zero bufsize = failed
os_version_con none (suc n) bufsize = failed
os_version_con (some file) (suc n) bufsize = elim (fgets 255 file) [
  | none ↦ failed
  | some (line, rest) ↦
      let buff = put_line line (replicate 256 0) in
      if length (text_at buff) == 0
      then failed
      else join_version bufsize (suc n) (general_get_field buff b' ' (suc n))
]

abbrev pub lower : ℕ → ℕ
lower c = if leb b'A' c && leb c b'Z' then c + (b'a' - b'A') else c

abbrev pub lower_all : List ℕ → List ℕ
lower_all [] = []
lower_all (c ∷ s) = lower c ∷ lower_all s

abbrev pub cut_dot : List ℕ → List ℕ
cut_dot text = elim (strchr b'.' text) [ none ↦ text | some (before, behind) ↦ before ]

abbrev pub ubuntu18 : List ℕ
ubuntu18 = b'u' ∷ b'b' ∷ b'u' ∷ b'n' ∷ b't' ∷ b'u' ∷ b'1' ∷ b'8' ∷ []

abbrev pub centos : ℕ → List ℕ
centos digit = b'c' ∷ b'e' ∷ b'n' ∷ b't' ∷ b'o' ∷ b's' ∷ digit ∷ []

-- OS_VERSION_UBUNTU18, OS_VERSION_CENTOS7, OS_VERSION_CENTOS6, or -1.
pub known_version : List ℕ → ℤ
known_version text =
    if same ubuntu18 text
    then pos 0
    else if same (centos b'7') text
    then pos 1
    else if same (centos b'6') text
    then pos 2
    else negsuc 0

pub version_number : VersionText → Option ℤ
unfolding known_version
version_number broken = none
version_number failed = some (negsuc 0)
version_number (written text) = some (known_version (cut_dot (lower_all text)))

-- "/etc/redhat-release" and "/etc/issue"; `none` is a file that `stat` does not know, `some none` one
-- that does not open. The answer `none` is an access outside of a buffer.
pub general_os_version : Option (Option (List ℕ)) → Option (Option (List ℕ)) → Option ℤ
unfolding os_version_con version_number
general_os_version (some redhat) issue = version_number (os_version_con redhat 4 256)
general_os_version none (some issue) = version_number (os_version_con issue 2 256)
general_os_version none none = some (negsuc 0)
