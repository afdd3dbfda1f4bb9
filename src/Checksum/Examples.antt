-- ===== src/Checksum/Examples.antt =====
-- The theorems on digests at concrete strings.
use commlib.Base.{◌≡◌, ◌++◌, refl, arith, some, List, [], ◌∷◌, ℕ, replicate}
use commlib.Md5.Spec.{digest}
use commlib.Md5.Final.{join}
use commlib.Checksum.{hex_string, gen_string_md5, hashed, gen_file_md5}
use commlib.Checksum.Laws.{answers_of, gen_string_md5-digest, gen_file_md5-gen_string_md5}

abbrev memory : List ℕ
memory = replicate 64 7

abbrev piece : List ℕ
piece = replicate 256 65

hex_two : hex_string (0 ∷ 0xaf ∷ []) ≡ 48 ∷ 48 ∷ 97 ∷ 102 ∷ []
unfolding hex_string
hex_two = refl

gen_string_md5-digest_example :
    gen_string_md5 memory (97 ∷ 98 ∷ []) ≡ hex_string (digest (97 ∷ 98 ∷ []))
gen_string_md5-digest_example = gen_string_md5-digest memory (97 ∷ 98 ∷ []) refl (omega arith)

gen_file_md5-gen_string_md5_example :
    gen_file_md5 memory (some 3) (answers_of (piece ∷ []) (66 ∷ []) [])
    ≡ hashed (gen_string_md5 memory (join (piece ∷ []) ++ 66 ∷ []))
gen_file_md5-gen_string_md5_example =
    gen_file_md5-gen_string_md5 memory memory 3 (piece ∷ []) (66 ∷ []) [] refl refl (omega arith)
      (refl, tt) (omega arith) (omega arith)
