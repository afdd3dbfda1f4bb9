-- ===== src/Net/Connections/Hex.antt =====
-- The hexadecimal texts that the kernel writes for addresses and ports, as strtoul, strchr and
-- inet_ntop read them.
use commlib.Base.{
  ℕ, ◌+◌, ◌*◌, ◌/◌, ◌%◌, ◌^◌, ◌<◌, ◌≡◌, ◌∙◌, refl, ap, true, false, some, List, [], ◌∷◌, ◌++◌, ◌==◌,
  arith, All, All-append, Bool-cases, inl, inr, ltb, leb, if◌then◌else◌,
}
use commlib.Libc.{
  digit, digits_from, without_0x, signed_digits, strtol, strtoul, inet_ntop, byte_text, strchr,
  is_space,
}

-- `%02X`.
abbrev pub hex_digit : ℕ → ℕ
hex_digit d = if ltb d 10 then b'0' + d else 55 + d

abbrev pub hex_byte : ℕ → List ℕ
hex_byte b = hex_digit (b / 16) ∷ hex_digit (b % 16) ∷ []

digit_hex : (d : ℕ) → d < 16 → digit (hex_digit d) ≡ d
digit_hex d h = ground arith

digits_from-hex :
    (d n : ℕ) (s : List ℕ)
    → d < 16
    → digits_from 16 n (hex_digit d ∷ s) ≡ digits_from 16 (n * 16 + d) s
unfolding digits_from
digits_from-hex d n s h =
    let less : ltb d 16 ≡ true = ground arith in
    rw (digits_from, digit_hex d h, less, digit_hex d h)

digits_from-byte :
    (b n : ℕ) (s : List ℕ)
    → b < 256
    → digits_from 16 n (hex_byte b ++ s) ≡ digits_from 16 (n * 256 + b) s
digits_from-byte b n s h =
    digits_from-hex (b / 16) n (hex_digit (b % 16) ∷ s) (omega arith)
    ∙ digits_from-hex (b % 16) (n * 16 + b / 16) s (omega arith)
    ∙ ap (λ (m : ℕ). digits_from 16 m s) (omega arith)

abbrev Plain : ℕ → Type 0
Plain c =
    ((is_space c ≡ false)
      × ((c == b'-') ≡ false)
      × ((c == b'+') ≡ false)
      × ((c == b'x') ≡ false)
      × ((c == b'X') ≡ false)
      × ((c == b':') ≡ false))

hex_digit-Plain : (d : ℕ) → d < 16 → Plain (hex_digit d)
hex_digit-Plain d h =
    (ground arith, ground arith, ground arith, ground arith, ground arith, ground arith)

without_0x-Plain :
    (c d e : ℕ) (s : List ℕ) → Plain d → without_0x 16 (c ∷ d ∷ e ∷ s) ≡ c ∷ d ∷ e ∷ s
unfolding without_0x
without_0x-Plain c d e s q = elim (Bool-cases (c == b'0')) [
  | inl z ↦ rw (without_0x, z, q.3, q.4)
  | inr z ↦ rw (without_0x, z)
]

strtol-Plain :
    (c d e : ℕ) (s : List ℕ)
    → Plain c
    → Plain d
    → strtol 16 (c ∷ d ∷ e ∷ s) ≡ (false, digits_from 16 0 (c ∷ d ∷ e ∷ s))
unfolding strtol signed_digits
strtol-Plain c d e s p q = rw (strtol, p.0, signed_digits, p.1, p.2, without_0x-Plain c d e s q)

abbrev NotColon : ℕ → Type 0
NotColon c = (c == b':') ≡ false

strchr-append : (s t : List ℕ) → All NotColon s → strchr b':' (s ++ (b':' ∷ t)) ≡ some (s, t)
unfolding strchr
strchr-append [] t h = refl
strchr-append (c ∷ s) t h = rw (strchr, h.0, strchr-append s t h.1)

-- An address and a port as the kernel writes them: the bytes of the address from the last to the
-- first, and the port's higher byte first.
abbrev pub address_text : ℕ → ℕ → ℕ → ℕ → List ℕ
address_text a b c d = hex_byte d ++ (hex_byte c ++ (hex_byte b ++ hex_byte a))

abbrev pub port_text : ℕ → List ℕ
port_text port = hex_byte (port / 256) ++ hex_byte (port % 256)

strtoul-digits : (s : List ℕ) (n : ℕ) → strtol 16 s ≡ (false, n) → n < 2 ^ 32 → strtoul 16 s ≡ n
unfolding strtoul
strtoul-digits s n e h = let small : leb (2 ^ 64) n ≡ false = ground arith in rw (strtoul, e, small)

strtol-byte :
    (b e : ℕ) (s : List ℕ)
    → b < 256
    → strtol 16 (hex_byte b ++ (e ∷ s)) ≡ (false, digits_from 16 b (e ∷ s))
strtol-byte b e s h =
    strtol-Plain (hex_digit (b / 16)) (hex_digit (b % 16)) e s
      (hex_digit-Plain (b / 16) (omega arith)) (hex_digit-Plain (b % 16) (omega arith))
    ∙ ap (λ (n : ℕ). (false, n))
        (digits_from-byte b 0 (e ∷ s) h ∙ ap (λ (m : ℕ). digits_from 16 m (e ∷ s)) (omega arith))

pub strtoul-port : (port : ℕ) → port < 65536 → strtoul 16 (port_text port) ≡ port
unfolding digits_from
strtoul-port port h =
    strtoul-digits (port_text port) port
      (strtol-byte (port / 256) _ _ (omega arith)
        ∙ ap (λ (n : ℕ). (false, n))
            (digits_from-byte (port % 256) (port / 256) [] (omega arith) ∙ omega arith))
      (omega arith)

pub strtoul-address :
    (a b c d : ℕ)
    → a < 256
    → b < 256
    → c < 256
    → d < 256
    → strtoul 16 (address_text a b c d) ≡ ((d * 256 + c) * 256 + b) * 256 + a
unfolding digits_from
strtoul-address a b c d ha hb hc hd =
    strtoul-digits (address_text a b c d) (((d * 256 + c) * 256 + b) * 256 + a)
      (strtol-byte d _ _ hd
        ∙ ap (λ (n : ℕ). (false, n))
            (digits_from-byte c d (hex_byte b ++ hex_byte a) hc
              ∙ digits_from-byte b (d * 256 + c) (hex_byte a) hb
              ∙ digits_from-byte a ((d * 256 + c) * 256 + b) [] ha))
      (omega arith)

not_colons : (b : ℕ) → b < 256 → All NotColon (hex_byte b)
not_colons b h =
    ((hex_digit-Plain (b / 16) (omega arith)).5, ((hex_digit-Plain (b % 16) (omega arith)).5, tt))

pub strchr-address :
    (a b c d : ℕ) (text : List ℕ)
    → a < 256
    → b < 256
    → c < 256
    → d < 256
    → strchr b':' (address_text a b c d ++ (b':' ∷ text)) ≡ some (address_text a b c d, text)
strchr-address a b c d text ha hb hc hd = strchr-append (address_text a b c d) text (
    All-append NotColon (hex_byte d) (hex_byte c ++ (hex_byte b ++ hex_byte a)) (not_colons d hd) (
      All-append NotColon (hex_byte c) (hex_byte b ++ hex_byte a) (not_colons c hc)
        (All-append NotColon (hex_byte b) (hex_byte a) (not_colons b hb) (not_colons a ha))))

abbrev pub dotted : ℕ → ℕ → ℕ → ℕ → List ℕ
dotted a b c d =
    byte_text a ++ (b'.' ∷ (byte_text b ++ (b'.' ∷ (byte_text c ++ (b'.' ∷ byte_text d)))))

pub inet_ntop-address :
    (a b c d : ℕ)
    → a < 256
    → b < 256
    → c < 256
    → d < 256
    → inet_ntop (((d * 256 + c) * 256 + b) * 256 + a) ≡ dotted a b c d
unfolding inet_ntop
inet_ntop-address a b c d ha hb hc hd =
    let v = ((d * 256 + c) * 256 + b) * 256 + a in
    let first : v % 256 ≡ a = omega arith in
    let second : v / 256 % 256 ≡ b = omega arith in
    let third : v / 65536 % 256 ≡ c = omega arith in
    let fourth : v / 16777216 % 256 ≡ d = omega arith in
    rw (inet_ntop, first, second, third, fourth)
