-- ===== src/Libc/Numbers.antt =====
-- atoi, strtoul and inet_ntop.
use commlib.Base.{
  ℕ, zero, suc, ◌+◌, ◌-◌, ◌*◌, ◌/◌, ◌%◌, ◌^◌, Bool, true, false, List, [], ◌∷◌, ◌++◌, ◌==◌, ◌&&◌,
  ◌||◌, leb, ltb, if◌then◌else◌,
}

-- A signed number; `negsuc n` is -(n + 1).
pub data ℤ : Type 0 where
  pos : ℕ → ℤ
  negsuc : ℕ → ℤ

abbrev pub negate : ℕ → ℤ
negate zero = pos 0
negate (suc n) = negsuc n

abbrev pub is_space : ℕ → Bool
is_space c = c == b' ' || (leb 9 c && leb c 13)

-- The value of a digit, or what is no digit of a base up to 16.
abbrev pub digit : ℕ → ℕ
digit c =
    if leb b'0' c && leb c b'9'
    then c - b'0'
    else if leb b'a' c && leb c b'f'
    then c - 87
    else if leb b'A' c && leb c b'F'
    then c - 55
    else 16

-- The digits in front, behind a number read so far.
unfoldable pub digits_from : ℕ → ℕ → List ℕ → ℕ
digits_from base n [] = n
digits_from base n (c ∷ s) = elim (ltb (digit c) base) [
  | true ↦ digits_from base (n * base + digit c) s
  | false ↦ n
]

-- In base 16 the digits may have 0x in front.
unfoldable pub without_0x : ℕ → List ℕ → List ℕ
without_0x base (z ∷ x ∷ d ∷ s) =
    if base == 16 && z == b'0' && (x == b'x' || x == b'X') && ltb (digit d) 16
    then d ∷ s
    else z ∷ x ∷ d ∷ s
without_0x base s = s

-- A sign, and the digits.
unfoldable pub signed_digits : ℕ → List ℕ → Bool × ℕ
unfolding digits_from without_0x
signed_digits base [] = (false, 0)
signed_digits base (c ∷ s) =
    if c == b'-'
    then (true, digits_from base 0 (without_0x base s))
    else if c == b'+'
    then (false, digits_from base 0 (without_0x base s))
    else (false, digits_from base 0 (without_0x base (c ∷ s)))

-- The number behind white space, and whether it has a minus.
unfoldable pub strtol : ℕ → List ℕ → Bool × ℕ
unfolding signed_digits
strtol base [] = (false, 0)
strtol base (c ∷ s) = if is_space c then strtol base s else signed_digits base (c ∷ s)

-- Numbers that do not fit are not cut off.
unfoldable pub atoi : List ℕ → ℤ
unfolding strtol
atoi s = let (minus, n) = strtol 10 s in if minus then negate n else pos n

-- `unsigned long`; a number that does not fit is the greatest one, and a minus is taken by 2 ^ 64.
unfoldable pub strtoul : ℕ → List ℕ → ℕ
unfolding strtol
strtoul base s =
    let (minus, n) = strtol base s in
    if leb (2 ^ 64) n then 2 ^ 64 - 1 else if minus then (2 ^ 64 - n) % 2 ^ 64 else n

-- The conversion of an `int` to `unsigned int`.
abbrev pub to_u32 : ℤ → ℕ
to_u32 (pos n) = n % 2 ^ 32
to_u32 (negsuc n) = (2 ^ 32 - 1) - n % 2 ^ 32

-- The decimal text of a byte.
unfoldable pub byte_text : ℕ → List ℕ
byte_text n =
    if ltb n 10
    then (b'0' + n) ∷ []
    else if ltb n 100
    then (b'0' + n / 10) ∷ (b'0' + n % 10) ∷ []
    else (b'0' + n / 100) ∷ (b'0' + n / 10 % 10) ∷ (b'0' + n % 10) ∷ []

-- `inet_ntop(AF_INET, &value, ...)`: the four bytes of the lowest half, the lowest first.
unfoldable pub inet_ntop : ℕ → List ℕ
unfolding byte_text
inet_ntop v =
    byte_text (v % 256)
    ++ (b'.'
        ∷ (byte_text (v / 256 % 256)
            ++ (b'.' ∷ (byte_text (v / 65536 % 256) ++ (b'.' ∷ byte_text (v / 16777216 % 256))))))

-- `%u`: the decimal digits of a number below `10 ^ fuel`, in front of a text.
unfoldable pub decimal_before : ℕ → ℕ → List ℕ → List ℕ
decimal_before zero n s = s
decimal_before (suc fuel) n s = elim (ltb n 10) [
  | true ↦ (b'0' + n) ∷ s
  | false ↦ decimal_before fuel (n / 10) ((b'0' + n % 10) ∷ s)
]

-- An `unsigned int` has ten digits at most.
unfoldable pub decimal : ℕ → List ℕ
unfolding decimal_before
decimal n = decimal_before 10 n []
