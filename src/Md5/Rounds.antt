-- ===== src/Md5/Rounds.antt =====
-- The words of genmd5.c: 32-bit arithmetic, the four round functions and the 64 steps of
-- md5_transform.
use commlib.Base.{
  ℕ, ◌+◌, ◌-◌, ◌%◌, ◌^◌, List, [], ◌∷◌, ◌++◌, bit_and, bit_or, bit_xor, get_or, ◌<<<◌, ◌>>>◌,
}

abbrev pub u32 : ℕ → ℕ
u32 n = n % 2 ^ 32

-- `~x` of an `unsigned int`.
abbrev complement : ℕ → ℕ
complement x = 2 ^ 32 - 1 - x

-- The macros F, G, H and I.
pub round_f : ℕ → ℕ → ℕ → ℕ
round_f x y z = bit_or (bit_and x y) (bit_and (complement x) z)

pub round_g : ℕ → ℕ → ℕ → ℕ
round_g x y z = bit_or (bit_and x z) (bit_and y (complement z))

pub round_h : ℕ → ℕ → ℕ → ℕ
round_h x y z = bit_xor (bit_xor x y) z

pub round_i : ℕ → ℕ → ℕ → ℕ
round_i x y z = bit_xor y (bit_or x (complement z))

-- ROTATE_LEFT.
pub rotate_left : ℕ → ℕ → ℕ
rotate_left x n = bit_or (u32 (x <<< n)) (x >>> (32 - n))

-- Which of the macros FF, GG, HH and II a step is.
pub data Macro : Type 0 where
  ff gg hh ii : Macro

abbrev round_of : Macro → ℕ → ℕ → ℕ → ℕ
round_of ff = round_f
round_of gg = round_g
round_of hh = round_h
round_of ii = round_i

-- A step's macro, the index of its word in `x`, its shift and its constant.
pub record Step : Type 0 where
  pub fn : Macro
  pub word : ℕ
  pub shift : ℕ
  pub add : ℕ

abbrev step : Macro → ℕ → ℕ → ℕ → Step
step m k s c = record { fn = m; word = k; shift = s; add = c }

-- Four words, in the order in which a step names them: the first is the one that it changes.
pub record Words : Type 0 where
  pub a : ℕ
  pub b : ℕ
  pub c : ℕ
  pub d : ℕ

abbrev pub words : ℕ → ℕ → ℕ → ℕ → Words
words a b c d = record { a = a; b = b; c = c; d = d }

-- `a += fn(b, c, d) + x[k] + ac; a = ROTATE_LEFT(a, s); a += b`. The next step of the source names
-- the same four variables one place on, (d, a, b, c), so that order is returned.
pub run_step : List ℕ → Words → Step → Words
unfolding round_f round_g round_h round_i rotate_left
run_step x w s =
    let sum = u32 (w.a + round_of s.fn w.b w.c w.d + get_or x s.word 0 + s.add) in
    let turned = u32 (rotate_left sum s.shift + w.b) in words w.d turned w.b w.c

unfoldable pub run_steps : List ℕ → List Step → Words → Words
unfolding run_step
run_steps x [] w = w
run_steps x (s ∷ r) w = run_steps x r (run_step x w s)

-- Round 1.
abbrev steps_one : List Step
steps_one =
    step ff 0 7 0xd76aa478
    ∷ step ff 1 12 0xe8c7b756
    ∷ step ff 2 17 0x242070db
    ∷ step ff 3 22 0xc1bdceee
    ∷ step ff 4 7 0xf57c0faf
    ∷ step ff 5 12 0x4787c62a
    ∷ step ff 6 17 0xa8304613
    ∷ step ff 7 22 0xfd469501
    ∷ step ff 8 7 0x698098d8
    ∷ step ff 9 12 0x8b44f7af
    ∷ step ff 10 17 0xffff5bb1
    ∷ step ff 11 22 0x895cd7be
    ∷ step ff 12 7 0x6b901122
    ∷ step ff 13 12 0xfd987193
    ∷ step ff 14 17 0xa679438e
    ∷ step ff 15 22 0x49b40821
    ∷ []

-- Round 2.
abbrev steps_two : List Step
steps_two =
    step gg 1 5 0xf61e2562
    ∷ step gg 6 9 0xc040b340
    ∷ step gg 11 14 0x265e5a51
    ∷ step gg 0 20 0xe9b6c7aa
    ∷ step gg 5 5 0xd62f105d
    ∷ step gg 10 9 0x2441453
    ∷ step gg 15 14 0xd8a1e681
    ∷ step gg 4 20 0xe7d3fbc8
    ∷ step gg 9 5 0x21e1cde6
    ∷ step gg 14 9 0xc33707d6
    ∷ step gg 3 14 0xf4d50d87
    ∷ step gg 8 20 0x455a14ed
    ∷ step gg 13 5 0xa9e3e905
    ∷ step gg 2 9 0xfcefa3f8
    ∷ step gg 7 14 0x676f02d9
    ∷ step gg 12 20 0x8d2a4c8a
    ∷ []

-- Round 3.
abbrev steps_three : List Step
steps_three =
    step hh 5 4 0xfffa3942
    ∷ step hh 8 11 0x8771f681
    ∷ step hh 11 16 0x6d9d6122
    ∷ step hh 14 23 0xfde5380c
    ∷ step hh 1 4 0xa4beea44
    ∷ step hh 4 11 0x4bdecfa9
    ∷ step hh 7 16 0xf6bb4b60
    ∷ step hh 10 23 0xbebfbc70
    ∷ step hh 13 4 0x289b7ec6
    ∷ step hh 0 11 0xeaa127fa
    ∷ step hh 3 16 0xd4ef3085
    ∷ step hh 6 23 0x4881d05
    ∷ step hh 9 4 0xd9d4d039
    ∷ step hh 12 11 0xe6db99e5
    ∷ step hh 15 16 0x1fa27cf8
    ∷ step hh 2 23 0xc4ac5665
    ∷ []

-- Round 4.
abbrev steps_four : List Step
steps_four =
    step ii 0 6 0xf4292244
    ∷ step ii 7 10 0x432aff97
    ∷ step ii 14 15 0xab9423a7
    ∷ step ii 5 21 0xfc93a039
    ∷ step ii 12 6 0x655b59c3
    ∷ step ii 3 10 0x8f0ccc92
    ∷ step ii 10 15 0xffeff47d
    ∷ step ii 1 21 0x85845dd1
    ∷ step ii 8 6 0x6fa87e4f
    ∷ step ii 15 10 0xfe2ce6e0
    ∷ step ii 6 15 0xa3014314
    ∷ step ii 13 21 0x4e0811a1
    ∷ step ii 4 6 0xf7537e82
    ∷ step ii 11 10 0xbd3af235
    ∷ step ii 2 15 0x2ad7d2bb
    ∷ step ii 9 21 0xeb86d391
    ∷ []

unfoldable pub steps : List Step
steps = steps_one ++ (steps_two ++ (steps_three ++ steps_four))
