-- ===== src/Text/Base64/Sextets.antt =====
-- The two tables are inverse on the 64 digits, and a group of three characters is had back from
-- its four digits.
use commlib.Base.{
  ℕ, ◌+◌, ◌*◌, ◌/◌, ◌%◌, ◌^◌, ◌<◌, ◌≡◌, refl, ap, Bool, true, false, not, ◌&&◌, Option, none, some,
  [], ◌∷◌, arith, ◌==◌, ==_iff, get_elem?, holds_upto, holds_upto_use, bit_or, bit_and,
  bit_or_fields, bit_and_mask, &&_parts, not-true, lt→ltb,
}
use commlib.Text.Base64.{base64_table, table, pad, encode_group, decode_group}

-- A digit's character, which the decoder's table takes back, and which is not the padding.
pub record Digit (s : ℕ) : Type 0 where
  pub char : ℕ
  pub encodes : get_elem? base64_table s ≡ some char
  pub decodes : get_elem? table char ≡ some s
  pub not_pad : (char == pad) ≡ false

decodes_to : ℕ → Option ℕ → Bool
decodes_to s none = false
decodes_to s (some v) = v == s

is_digit : ℕ → Option ℕ → Bool
unfolding decodes_to
is_digit s none = false
is_digit s (some c) = decodes_to s (get_elem? table c) && not (c == pad)

digit_table : holds_upto (λ s. is_digit s (get_elem? base64_table s)) 64 ≡ true
unfolding holds_upto is_digit base64_table table
digit_table = refl

decodes_to_eq : (s : ℕ) (o : Option ℕ) → decodes_to s o ≡ true → o ≡ some s
unfolding decodes_to
decodes_to_eq s none h = cc
decodes_to_eq s (some v) h = ap some ((==_iff v s).0 h)

is_digit-Digit :
    (s : ℕ) (o : Option ℕ) → get_elem? base64_table s ≡ o → is_digit s o ≡ true → Digit s
unfolding is_digit
is_digit-Digit s none e h = cc
is_digit-Digit s (some c) e h =
    let parts = &&_parts (decodes_to s (get_elem? table c)) (not (c == pad)) h in
    record {
      char = c;
      encodes = e;
      decodes = decodes_to_eq s (get_elem? table c) parts.0;
      not_pad = not-true (c == pad) parts.1;
    }

pub digit : (s : ℕ) → s < 64 → Digit s
digit s h =
    is_digit-Digit s (get_elem? base64_table s) refl
      (holds_upto_use (λ n. is_digit n (get_elem? base64_table n)) 64 s h digit_table)

-- The four digits of three characters.
pub record Group (a b c : ℕ) : Type 0 where
  pub first : Digit (a / 4)
  pub second : Digit (a % 4 * 16 + b / 16)
  pub third : Digit (b % 16 * 4 + c / 64)
  pub fourth : Digit (c % 64)

module _ (a b c : ℕ) (ha : a < 128) (hb : b < 128) (hc : c < 128) where
  pub group : Group a b c
  group = record {
    first = digit (a / 4) (omega arith);
    second = digit (a % 4 * 16 + b / 16) (omega arith);
    third = digit (b % 16 * 4 + c / 64) (omega arith);
    fourth = digit (c % 64) (omega arith);
  }

  second_digit : bit_or (bit_and a 0x3 * 2 ^ 4) (b / 2 ^ 4) ≡ a % 4 * 16 + b / 16
  second_digit = rw (bit_and_mask 2 a) (bit_or_fields 4 (a % 4) (b / 16) (omega arith))

  third_digit : bit_or (bit_and b 0xf * 2 ^ 2) (c / 2 ^ 6) ≡ b % 16 * 4 + c / 64
  third_digit = rw (bit_and_mask 4 b) (bit_or_fields 2 (b % 16) (c / 64) (omega arith))

  pub encode_group-Group :
      encode_group a b c
      ≡ some (group.first.char ∷ group.second.char ∷ group.third.char ∷ group.fourth.char ∷ [])
  unfolding encode_group
  encode_group-Group = rw (
    lt→ltb a 128 ha,
    lt→ltb b 128 hb,
    lt→ltb c 128 hc,
    second_digit,
    third_digit,
    bit_and_mask 6 c,
    group.first.encodes,
    group.second.encodes,
    group.third.encodes,
    group.fourth.encodes,
  )

  first_byte : bit_or (a / 4 * 2 ^ 2) ((a % 4 * 16 + b / 16) / 2 ^ 4) % 2 ^ 8 ≡ a
  first_byte =
      rw (bit_or_fields 2 (a / 4) ((a % 4 * 16 + b / 16) / 2 ^ 4) (omega arith)) (omega arith)

  second_byte : bit_or ((a % 4 * 16 + b / 16) * 2 ^ 4) ((b % 16 * 4 + c / 64) / 2 ^ 2) % 2 ^ 8 ≡ b
  second_byte =
      rw (bit_or_fields 4 (a % 4 * 16 + b / 16) ((b % 16 * 4 + c / 64) / 2 ^ 2) (omega arith))
        (omega arith)

  third_byte : bit_or ((b % 16 * 4 + c / 64) * 2 ^ 6) (c % 64) % 2 ^ 8 ≡ c
  third_byte = rw (bit_or_fields 6 (b % 16 * 4 + c / 64) (c % 64) (omega arith)) (omega arith)

  -- The digits give the characters back.
  pub decode_group_lem :
      decode_group (a / 4) (a % 4 * 16 + b / 16) (b % 16 * 4 + c / 64) (c % 64) ≡ a ∷ b ∷ c ∷ []
  unfolding decode_group
  decode_group_lem = rw (first_byte, second_byte, third_byte)
