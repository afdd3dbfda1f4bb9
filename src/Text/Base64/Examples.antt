-- ===== src/Text/Base64/Examples.antt =====
-- Tests of the Base64 functions, and their theorems at concrete strings.
use commlib.Base.{
  ◌≡◌, ◌≢◌, ◌↔◌, ◌≤◌, ◌+◌, ◌*◌, ◌/◌, ◌%◌, refl, arith, some, List, [], ◌∷◌, ℕ, length, All,
}
use commlib.Text.Base64.{encode, encode_group, decode, base64_table, table, Decoded, c_string}
use commlib.Text.Base64.RoundTrip.{IsAscii, decode-encode, decode_overflow_iff}

-- "Man" is "TWFu", and "M" is "TQ==".
encode_man : encode 0 (77 ∷ 97 ∷ 110 ∷ []) ≡ some (84 ∷ 87 ∷ 70 ∷ 117 ∷ [])
unfolding encode encode_group base64_table
encode_man = refl

decode_m : decode (84 ∷ 81 ∷ 61 ∷ 61 ∷ []) ≡ some (record { size = 2; stored = 77 ∷ 0 ∷ 0 ∷ [] })
unfolding decode table
decode_m = refl

abbrev text : List ℕ
text = 77 ∷ 97 ∷ 110 ∷ 33 ∷ []

text-IsAscii : All IsAscii text
text-IsAscii = omega arith

decode-encode_example :
    (code : List ℕ) × (d : Decoded) × (encode 0 text ≡ some code)
    × (length code ≡ (length text + 2) / 3 * 4)
    × (decode code ≡ some d)
    × (c_string d.stored ≡ text)
decode-encode_example = decode-encode 0 (omega arith) text text-IsAscii

decode_overflow_iff_example :
    (code : List ℕ) × (d : Decoded) × (encode 0 text ≡ some code)
    × (decode code ≡ some d)
    × ((length text % 3 ≡ 1) ↔ (length d.stored ≡ d.size + 1))
    × ((length text % 3 ≢ 1) ↔ (length d.stored ≤ d.size))
decode_overflow_iff_example = decode_overflow_iff 0 (omega arith) text text-IsAscii
