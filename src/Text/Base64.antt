-- ===== src/Text/Base64.antt =====
-- gen_base64_encode and gen_base64_decode of src/myfcp/genstring.c.
mod Sextets
mod RoundTrip
mod Examples
use commlib.Base.{
  ℕ, zero, suc, ◌+◌, ◌-◌, ◌*◌, ◌/◌, ◌%◌, ◌^◌, Bool, true, false, Option, none, some, List, [], ◌∷◌,
  ◌++◌, ◌==◌, ◌&&◌, ◌||◌, ltb, if◌then◌else◌, length, get_elem?, bit_or, bit_and, ◌<<<◌, ◌>>>◌,
}

-- `base64_table`: A-Z, a-z, 0-9, + and /.
abbrev pub upper : List ℕ
upper =
    65 ∷ 66 ∷ 67 ∷ 68 ∷ 69 ∷ 70 ∷ 71 ∷ 72 ∷ 73 ∷ 74 ∷ 75 ∷ 76 ∷ 77 ∷ 78 ∷ 79 ∷ 80 ∷ 81 ∷ 82 ∷ 83
    ∷ 84 ∷ 85 ∷ 86 ∷ 87 ∷ 88 ∷ 89 ∷ 90 ∷ []

abbrev pub lower : List ℕ
lower =
    97 ∷ 98 ∷ 99 ∷ 100 ∷ 101 ∷ 102 ∷ 103 ∷ 104 ∷ 105 ∷ 106 ∷ 107 ∷ 108 ∷ 109 ∷ 110 ∷ 111 ∷ 112 ∷ 113
    ∷ 114 ∷ 115 ∷ 116 ∷ 117 ∷ 118 ∷ 119 ∷ 120 ∷ 121 ∷ 122 ∷ []

unfoldable pub base64_table : List ℕ
base64_table = upper ++ (lower ++ (48 ∷ 49 ∷ 50 ∷ 51 ∷ 52 ∷ 53 ∷ 54 ∷ 55 ∷ 56 ∷ 57 ∷ 43 ∷ 47 ∷ []))

-- `table` of the decoder, indexed by a character.
unfoldable pub table : List ℕ
table =
    0 ∷ 0 ∷ 0 ∷ 0 ∷ 0 ∷ 0 ∷ 0 ∷ 0 ∷ 0 ∷ 0 ∷ 0 ∷ 0 ∷ 0 ∷ 0 ∷ 0 ∷ 0 ∷ 0 ∷ 0 ∷ 0 ∷ 0 ∷ 0 ∷ 0 ∷ 0 ∷ 0
    ∷ 0 ∷ 0 ∷ 0 ∷ 0 ∷ 0 ∷ 0 ∷ 0 ∷ 0 ∷ 0 ∷ 0 ∷ 0 ∷ 0 ∷ 0 ∷ 0 ∷ 0 ∷ 0 ∷ 0 ∷ 0 ∷ 0 ∷ 62 ∷ 0 ∷ 0 ∷ 0
    ∷ 63 ∷ 52 ∷ 53 ∷ 54 ∷ 55 ∷ 56 ∷ 57 ∷ 58 ∷ 59 ∷ 60 ∷ 61 ∷ 0 ∷ 0 ∷ 0 ∷ 0 ∷ 0 ∷ 0 ∷ 0 ∷ 0 ∷ 1 ∷ 2
    ∷ 3 ∷ 4 ∷ 5 ∷ 6 ∷ 7 ∷ 8 ∷ 9 ∷ 10 ∷ 11 ∷ 12 ∷ 13 ∷ 14 ∷ 15 ∷ 16 ∷ 17 ∷ 18 ∷ 19 ∷ 20 ∷ 21 ∷ 22
    ∷ 23 ∷ 24 ∷ 25 ∷ 0 ∷ 0 ∷ 0 ∷ 0 ∷ 0 ∷ 0 ∷ 26 ∷ 27 ∷ 28 ∷ 29 ∷ 30 ∷ 31 ∷ 32 ∷ 33 ∷ 34 ∷ 35 ∷ 36
    ∷ 37 ∷ 38 ∷ 39 ∷ 40 ∷ 41 ∷ 42 ∷ 43 ∷ 44 ∷ 45 ∷ 46 ∷ 47 ∷ 48 ∷ 49 ∷ 50 ∷ 51 ∷ []

abbrev pub pad : ℕ
pad = 61

infixl 5 ◌>>=◌
abbrev pub ◌>>=◌ {ℓ κ} : {A : Type ℓ} {B : Type κ} → Option A → (A → Option B) → Option B
none >>= k = none
some a >>= k = k a

-- The first bytes of one round's `res[i]` to `res[i+3]`, from `str[j]` to `str[j+2]`. A `char` is
-- signed: from 128 on it is negative, and so is the index that it is shifted to, which `none` is.
-- Parentheses as in the source: `(a & 0x3) << 4 | (b >> 4)`.
pub encode_group : ℕ → ℕ → ℕ → Option (List ℕ)
encode_group a b c =
    if ltb a 128 && ltb b 128 && ltb c 128
    then (do
      w ← get_elem? base64_table (a >>> 2)
      x ← get_elem? base64_table (bit_or (bit_and a 0x3 <<< 4) (b >>> 4))
      y ← get_elem? base64_table (bit_or (bit_and b 0xf <<< 2) (c >>> 6))
      z ← get_elem? base64_table (bit_and c 0x3f)
      some (w ∷ x ∷ y ∷ z ∷ []))
    else none

-- The loop, with the switch that writes the padding over the end of the last round. The last
-- round may read the terminator, and `beyond`, the byte that lies behind it.
pub encode : ℕ → List ℕ → Option (List ℕ)
encode beyond [] = some []
encode beyond (a ∷ []) = do
  g ← encode_group a 0 beyond
  w ← get_elem? g 0
  x ← get_elem? g 1
  some (w ∷ x ∷ pad ∷ pad ∷ [])
encode beyond (a ∷ b ∷ []) = do
  g ← encode_group a b 0
  w ← get_elem? g 0
  x ← get_elem? g 1
  y ← get_elem? g 2
  some (w ∷ x ∷ y ∷ pad ∷ [])
encode beyond (a ∷ b ∷ c ∷ s) = do g ← encode_group a b c; rest ← encode beyond s; some (g ++ rest)

-- `strstr(code, "=")` and `strstr(code, "==")`.
pub has_pad : List ℕ → Bool
has_pad [] = false
has_pad (c ∷ s) = c == pad || has_pad s

pub has_two_pads : List ℕ → Bool
has_two_pads [] = false
has_two_pads (c ∷ []) = false
has_two_pads (c ∷ d ∷ s) = c == pad && d == pad || has_two_pads (d ∷ s)

-- A number stored in an `unsigned char`.
abbrev pub u8 : ℕ → ℕ
u8 n = n % 2 ^ 8

-- One round's `res[j]` to `res[j+2]` from the table's values; a value fits an `unsigned char`.
pub decode_group : ℕ → ℕ → ℕ → ℕ → List ℕ
decode_group w x y z =
    u8 (bit_or (w <<< 2) (x >>> 4)) ∷ u8 (bit_or (x <<< 4) (y >>> 2)) ∷ u8 (bit_or (y <<< 6) z) ∷ []

-- What the loop writes from `res[0]` on: it runs while `i < len - 2`, and may read the terminator
-- of the code. `none` is an index outside the table.
pub decode_loop : List ℕ → Option (List ℕ)
unfolding decode_group
decode_loop (a ∷ b ∷ c ∷ d ∷ s) = do
  w ← get_elem? table a
  x ← get_elem? table b
  y ← get_elem? table c
  z ← get_elem? table d
  rest ← decode_loop s
  some (decode_group w x y z ++ rest)
decode_loop (a ∷ b ∷ c ∷ []) = do
  w ← get_elem? table a
  x ← get_elem? table b
  y ← get_elem? table c
  z ← get_elem? table 0
  some (decode_group w x y z)
decode_loop _ = some []

-- The allocation's size, and the bytes that are stored from its start on. Those past its end are
-- the overflow; the others stay zero from the `memset`.
pub record Decoded : Type 0 where
  pub size : ℕ
  pub stored : List ℕ

-- `str_len + 1`. The subtraction is done in `long`: for a code below four characters with padding
-- it is not above 0, where this is 0.
pub decoded_size : List ℕ → ℕ
unfolding has_pad has_two_pads
decoded_size code =
    let full = length code / 4 * 3 in
    if has_two_pads code then full + 1 - 2 else if has_pad code then full + 1 - 1 else full + 1

pub decode : List ℕ → Option Decoded
unfolding decoded_size decode_loop
decode code = do
  stored ← decode_loop code
  some (record { size = decoded_size code; stored = stored })

-- The string that stands in memory: the bytes before the first zero.
pub c_string : List ℕ → List ℕ
c_string [] = []
c_string (c ∷ s) = let rest = c_string s in if c == 0 then [] else c ∷ rest
