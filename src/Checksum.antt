-- ===== src/Checksum.antt =====
-- gen_string_md5 and gen_file_md5 of src/myfcp/genstring.c.
mod Laws
mod Examples
use commlib.Base.{
  ℕ, ◌+◌, ◌/◌, ◌%◌, Option, none, some, List, [], ◌∷◌, ◌++◌, ◌==◌, ◌||◌, ltb, leb, if◌then◌else◌,
  length,
}
use commlib.Md5.{Md5Ctx, md5_init, md5_update, md5_final}

-- A digit of `%02x`.
abbrev hex_digit : ℕ → ℕ
hex_digit n = if ltb n 10 then 48 + n else 87 + n

-- The loop of `snprintf(md5_str + i*2, 2+1, "%02x", md5_value[i])`: each call writes two digits over
-- the terminator of the one before it.
pub hex_string : List ℕ → List ℕ
hex_string [] = []
hex_string (b ∷ bytes) = hex_digit (b / 16) ∷ hex_digit (b % 16) ∷ hex_string bytes

-- The string is written to `md5_str`; 0 is returned always. `buffer` is what the memory of the
-- context held.
pub gen_string_md5 : (buffer str : List ℕ) → List ℕ
unfolding hex_string
gen_string_md5 buffer str = hex_string (md5_final (md5_update (md5_init buffer) str))

-- What gen_file_md5 comes to: the string with the result 0, the result -1, or a `read` that has no
-- answer yet.
pub data FileMd5 : Type 0 where
  hashed : List ℕ → FileMd5
  failed : FileMd5
  waiting : FileMd5

-- The loop over the answers of `read(fd, data, 256)`; `none` is -1.
pub read_loop : Md5Ctx → List (Option (List ℕ)) → FileMd5
unfolding hex_string
read_loop ctx [] = waiting
read_loop ctx (none ∷ answers) = failed
read_loop ctx (some bytes ∷ answers) =
    let ctx' = md5_update ctx bytes in
    let more = read_loop ctx' answers in
    if length bytes == 0 || ltb (length bytes) 256
    then hashed (hex_string (md5_final ctx'))
    else more

-- `fd` is the answer of `open`, with `none` for -1; the descriptor 0 is taken for a failure.
pub gen_file_md5 : (buffer : List ℕ) → Option ℕ → List (Option (List ℕ)) → FileMd5
unfolding read_loop
gen_file_md5 buffer none answers = failed
gen_file_md5 buffer (some fd) answers =
    if leb fd 0 then failed else read_loop (md5_init buffer) answers
