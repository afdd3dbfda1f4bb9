-- ===== src/Base/Bits.antt =====
-- Shifts, and what `|` of disjoint fields, `&` with a low mask and a flag of one bit come to.
-- Everything is shown of `digits`, the recursion on binary digits that the operations mean, with any
-- count of digits that is large enough.
use Prim.Native.Nat.{
  ℕ, zero, suc, ◌+◌, ◌-◌, ◌*◌, ◌/◌, ◌%◌, ◌^◌, ◌≤◌, ◌<◌, min, max, bit_and, bit_or, digits,
  bit_and-bitwise, bit_or-bitwise,
}
use mathlib.Core.Path.{◌≡◌, refl, ap, ◌∙◌}
use native.Mathlib.Nat.{le_refl, pow-suc, one-le-pow}
use native.Mathlib.Omega.{arith}

infixl 75 ◌<<<◌ ◌>>>◌
abbrev pub ◌<<<◌ : ℕ → ℕ → ℕ
x <<< k = x * 2 ^ k

abbrev pub ◌>>>◌ : ℕ → ℕ → ℕ
x >>> k = x / 2 ^ k

-- The two operations, with `n` digits to go.
abbrev or_digits : ℕ → ℕ → ℕ → ℕ
or_digits = digits (λ y. y) max

abbrev and_digits : ℕ → ℕ → ℕ → ℕ
and_digits = digits (λ y. 0) min

or_lowest :
    (n x y : ℕ) → or_digits (suc n) x y ≡ or_digits n (x / 2) (y / 2) * 2 + max (x % 2) (y % 2)
or_lowest zero zero y = omega arith
or_lowest (suc n) zero y = omega arith
or_lowest n (suc x) y = refl

and_lowest :
    (n x y : ℕ) → and_digits (suc n) x y ≡ and_digits n (x / 2) (y / 2) * 2 + min (x % 2) (y % 2)
and_lowest zero zero y = omega arith
and_lowest (suc n) zero y = omega arith
and_lowest n (suc x) y = refl

or_none : (n x : ℕ) → x ≤ n → or_digits n x 0 ≡ x
or_none zero x bound = omega arith
or_none (suc n) x bound = omega (arith, or_lowest n x 0, or_none n (x / 2) (omega arith))

and_none : (n x : ℕ) → and_digits n x 0 ≡ 0
and_none zero x = refl
and_none (suc n) x = omega (arith, and_lowest n x 0, and_none n (x / 2))

pub bit_and-zero : (x : ℕ) → bit_and x 0 ≡ 0
bit_and-zero x = bit_and-bitwise x 0 ∙ and_none x x

-- One more digit of width doubles what stands above.
shifted : (high width : ℕ) → high * 2 ^ suc width ≡ high * 2 ^ width * 2
shifted high width =
    let doubled : high * 2 ^ suc width ≡ high * (2 ^ width * 2) =
      ap (λ (p : ℕ). high * p) (omega (arith, pow-suc 2 width)) in
    grind arith

or_high_low :
    (width n high low : ℕ)
    → high * 2 ^ width ≤ n
    → low < 2 ^ width
    → or_digits n (high * 2 ^ width) low ≡ high * 2 ^ width + low
or_high_low zero n high low bound fits = ground (arith, or_none n high (omega arith))
or_high_low (suc width) zero high low bound fits = omega arith
or_high_low (suc width) (suc n) high low bound fits = ground (
  arith,
  or_lowest n (high * 2 ^ suc width) low,
  shifted high width,
  pow-suc 2 width,
  or_high_low width n high (low / 2) (omega (arith, shifted high width))
      (omega (arith, pow-suc 2 width)),
)

or_zero_low : (n y : ℕ) → or_digits n 0 y ≡ y
or_zero_low zero y = refl
or_zero_low (suc n) y = refl

or_low_high :
    (width n high low : ℕ)
    → low ≤ n
    → low < 2 ^ width
    → or_digits n low (high * 2 ^ width) ≡ low + high * 2 ^ width
or_low_high zero n high low bound fits = ground (arith, or_zero_low n (high * 1))
or_low_high (suc width) zero high low bound fits = omega arith
or_low_high (suc width) (suc n) high low bound fits = ground (
  arith,
  or_lowest n low (high * 2 ^ suc width),
  shifted high width,
  pow-suc 2 width,
  or_low_high width n high (low / 2) (omega arith) (omega (arith, pow-suc 2 width)),
)

and_low :
    (width n high low : ℕ)
    → high * 2 ^ width + low ≤ n
    → low < 2 ^ width
    → and_digits n (high * 2 ^ width + low) (2 ^ width - 1) ≡ low
and_low zero n high low bound fits = ground (arith, and_none n (high * 1 + low))
and_low (suc width) zero high low bound fits = omega arith
and_low (suc width) (suc n) high low bound fits = ground (
  arith,
  and_lowest n (high * 2 ^ suc width + low) (2 ^ suc width - 1),
  shifted high width,
  pow-suc 2 width,
  one-le-pow width 2,
  and_low width n high (low / 2) (omega (arith, shifted high width))
      (omega (arith, pow-suc 2 width)),
)

or_odd : (n x : ℕ) → x ≤ n → or_digits n x 1 % 2 ≡ 1
or_odd zero x h = refl
or_odd (suc n) x h = omega (arith, or_lowest n x 1)

halved_flag :
    (width n x : ℕ)
    → or_digits (suc n) x (2 ^ suc width) ≡ or_digits n (x / 2) (2 ^ width) * 2 + x % 2
halved_flag width n x = ground (arith, or_lowest n x (2 ^ suc width), pow-suc 2 width)

and_flag :
    (width n m x : ℕ)
    → x ≤ n
    → or_digits n x (2 ^ width) ≤ m
    → and_digits m (or_digits n x (2 ^ width)) (2 ^ width) ≡ 2 ^ width
and_flag zero n zero x h k = absurd (omega (arith, or_odd n x h))
and_flag zero n (suc m) x h k =
    ground (arith, or_odd n x h, and_lowest m (or_digits n x 1) 1, and_none m (or_digits n x 1 / 2))
and_flag (suc width) zero zero x h k = absurd (omega (arith, one-le-pow (suc width) 2))
and_flag (suc width) zero (suc m) x h k = ground (
  arith,
  pow-suc 2 width,
  and_lowest m (2 ^ suc width) (2 ^ suc width),
  and_flag width zero m 0 (omega arith) (omega (arith, pow-suc 2 width)),
)
and_flag (suc width) (suc n) zero x h k = absurd (
    let below : or_digits n (x / 2) (2 ^ width) ≤ 0 = omega (arith, halved_flag width n x) in
    omega (arith, one-le-pow width 2, and_flag width n zero (x / 2) (omega arith) below))
and_flag (suc width) (suc n) (suc m) x h k = ground (
  arith,
  pow-suc 2 width,
  halved_flag width n x,
  and_lowest m (or_digits (suc n) x (2 ^ suc width)) (2 ^ suc width),
  and_flag width n m (x / 2) (omega arith) (omega (arith, halved_flag width n x)),
)

-- `(high << width) | low` is a sum when `low` fits in `width` bits.
pub bit_or_fields :
    (width high low : ℕ) → low < 2 ^ width → bit_or (high <<< width) low ≡ high * 2 ^ width + low
bit_or_fields width high low fits =
    bit_or-bitwise (high <<< width) low ∙ or_high_low width _ high low (le_refl _) fits

-- The fields the other way round.
pub bit_or_fields_swap :
    (width high low : ℕ) → low < 2 ^ width → bit_or low (high <<< width) ≡ low + high * 2 ^ width
bit_or_fields_swap width high low fits =
    bit_or-bitwise low (high <<< width) ∙ or_low_high width low high low (le_refl _) fits

-- The low `width` bits are the remainder by `2 ^ width`.
pub bit_and_mask : (width x : ℕ) → bit_and x (2 ^ width - 1) ≡ x % 2 ^ width
bit_and_mask width x =
    let cut : x / 2 ^ width * 2 ^ width + x % 2 ^ width ≡ x = ground (arith, one-le-pow width 2) in
    let kept =
      and_low width x (x / 2 ^ width) (x % 2 ^ width) (omega (arith, cut))
        (ground (arith, one-le-pow width 2)) in
    bit_and-bitwise x (2 ^ width - 1) ∙ rw cut at kept

-- After `x | f` the flag `f` of one bit is set.
pub bit_and-bit_or : (width x : ℕ) → bit_and (bit_or x (2 ^ width)) (2 ^ width) ≡ 2 ^ width
bit_and-bit_or width x =
    bit_and-bitwise (bit_or x (2 ^ width)) (2 ^ width)
    ∙ rw (bit_or-bitwise x (2 ^ width)) (and_flag width x _ x (le_refl _) (le_refl _))
