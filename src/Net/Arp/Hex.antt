-- ===== src/Net/Arp/Hex.antt =====
-- The hexadecimal numbers of /proc/net/arp, as strtol and the conversions of src/myfcp/fcp_net.c read
-- them.
use commlib.Base.{
  ℕ, ◌+◌, ◌*◌, ◌%◌, ◌^◌, ◌<◌, ◌≡◌, ◌∙◌, refl, true, false, List, [], ◌∷◌, ◌++◌, ltb, leb, arith,
  All, All-append, if◌then◌else◌, not, ◌==◌, bit_and, ap, subst,
}
use commlib.Libc.{pos, digit, digits_from, without_0x, signed_digits, strtol}
use commlib.Net.Arp.{int_of, has_bit}

abbrev pub hex_letter : ℕ → ℕ
hex_letter d = if ltb d 10 then b'0' + d else 87 + d

-- Hexadecimal digits and their number.
pub data Digits : List ℕ → ℕ → Type 0 where
  first_digit : (d : ℕ) → d < 16 → Digits (hex_letter d ∷ []) d
  next_digit :
      (s : List ℕ) (n d : ℕ) → Digits s n → d < 16 → Digits (s ++ hex_letter d ∷ []) (n * 16 + d)

-- "0x" and the digits of a number that an `int` holds.
pub record HexWord (word : List ℕ) (n : ℕ) : Type 0 where
  pub digits : List ℕ
  pub spelled : word ≡ b'0' ∷ b'x' ∷ digits
  pub value : Digits digits n
  pub small : n < 2 ^ 31

digit-hex_letter : (d : ℕ) → d < 16 → digit (hex_letter d) ≡ d
digit-hex_letter d h = ground (arith, h)

abbrev IsHex : ℕ → Type 0
IsHex c = ltb (digit c) 16 ≡ true

hex_letter-IsHex : (d : ℕ) → d < 16 → IsHex (hex_letter d)
hex_letter-IsHex d h = rw (digit-hex_letter d h) (ground (arith, h))

Digits-IsHex : (s : List ℕ) (n : ℕ) → Digits s n → All IsHex s
Digits-IsHex s n (first_digit d h) = (hex_letter-IsHex d h, tt)
Digits-IsHex s n (next_digit front m d v h) =
    All-append IsHex front (hex_letter d ∷ []) (Digits-IsHex front m v) (hex_letter-IsHex d h, tt)

digits_from-append :
    (s : List ℕ) (acc c : ℕ)
    → All IsHex s
    → IsHex c
    → digits_from 16 acc (s ++ c ∷ []) ≡ digits_from 16 acc s * 16 + digit c
unfolding digits_from
digits_from-append [] acc c h k = rw (digits_from, k) refl
digits_from-append (b ∷ s) acc c h k =
    rw (digits_from, h.0) (digits_from-append s (acc * 16 + digit b) c h.1 k)

digits_from-Digits : (s : List ℕ) (n : ℕ) → Digits s n → digits_from 16 0 s ≡ n
unfolding digits_from
digits_from-Digits s n (first_digit d h) =
    rw (digits_from, hex_letter-IsHex d h, digit-hex_letter d h) (omega arith)
digits_from-Digits s n (next_digit front m d v h) =
    rw
      (
        digits_from-append front 0 (hex_letter d) (Digits-IsHex front m v) (hex_letter-IsHex d h),
        digits_from-Digits front m v,
        digit-hex_letter d h,
      )
      refl

Digits-some : (s : List ℕ) (n : ℕ) → Digits s n → (c : ℕ) × (rest : List ℕ) × (s ≡ c ∷ rest)
Digits-some s n (first_digit d h) = (_, _, refl)
Digits-some s n (next_digit [] m d v h) = (_, _, refl)
Digits-some s n (next_digit (c ∷ front) m d v h) = (_, _, refl)

without_0x-hex : (c : ℕ) (s : List ℕ) → IsHex c → without_0x 16 (b'0' ∷ b'x' ∷ c ∷ s) ≡ c ∷ s
unfolding without_0x
without_0x-hex c s h = rw (without_0x, h) refl

without_0x-IsHex : (s : List ℕ) (n : ℕ) → Digits s n → without_0x 16 (b'0' ∷ b'x' ∷ s) ≡ s
without_0x-IsHex s n v =
    let (c, rest, e) = Digits-some s n v in
    let all : All IsHex (c ∷ rest) = subst (All IsHex) e (Digits-IsHex s n v) in
    rw e (without_0x-hex c rest all.0)

strtol-HexWord : (word : List ℕ) (n : ℕ) → HexWord word n → strtol 16 word ≡ (false, n)
unfolding strtol signed_digits
strtol-HexWord word n h =
    rw (h.spelled, strtol, signed_digits, without_0x-IsHex h.digits n h.value)
      (ap (λ (m : ℕ). (false, m)) (digits_from-Digits h.digits n h.value))

pub int_of-HexWord : (word : List ℕ) (n : ℕ) → HexWord word n → int_of word ≡ pos n
int_of-HexWord word n h =
    let short : leb (2 ^ 63) n ≡ false = ground (arith, h.small) in
    let low : n % 2 ^ 32 ≡ n = omega (arith, h.small) in
    let small : leb (2 ^ 31) n ≡ false = ground (arith, h.small) in
    rw (strtol-HexWord word n h, short, low, small) refl

pub has_bit-HexWord :
    (arpflag : ℕ) (word : List ℕ) (n : ℕ)
    → HexWord word n
    → has_bit arpflag (int_of word) ≡ not (bit_and n arpflag == 0)
has_bit-HexWord arpflag word n h =
    let low : n % 2 ^ 32 ≡ n = omega (arith, h.small) in
    ap (has_bit arpflag) (int_of-HexWord word n h) ∙ rw low refl
