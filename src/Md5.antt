-- ===== src/Md5.antt =====
-- MD5 of src/myfcp/genmd5.c, with the context that a caller feeds piece by piece.
pub mod Rounds
pub mod Codec
pub mod CodecLaws
pub mod Spec
mod Blocks
pub mod Update
pub mod Final
mod Examples
use commlib.Base.{
  ℕ, zero, suc, ◌+◌, ◌-◌, ◌*◌, ◌/◌, ◌%◌, ◌^◌, List, [], ◌∷◌, ◌++◌, ltb, leb, if◌then◌else◌, length,
  take, drop, replicate, bit_and, bit_or, ◌<<<◌, ◌>>>◌,
}
use Rounds.{Words, words, steps, run_steps, u32}
use Codec.{md5_encode, md5_decode}

-- `struct md5_ctx`.
pub record Md5Ctx : Type 0 where
  pub count0 : ℕ
  pub count1 : ℕ
  pub state : Words
  pub buffer : List ℕ

-- `memcpy(&dst[i], src, length src)`.
abbrev pub memcpy : List ℕ → ℕ → List ℕ → List ℕ
memcpy dst i src = take i dst ++ (src ++ drop (i + length src) dst)

-- The 64 steps, after which the four words stand in their own order again.
unfoldable pub md5_transform : Words → List ℕ → Words
unfolding steps run_steps
md5_transform st block =
    let w = run_steps (md5_decode block) steps st in
    words (u32 (st.a + w.a)) (u32 (st.b + w.b)) (u32 (st.c + w.c)) (u32 (st.d + w.d))

-- `buffer` is what the memory of the context held.
unfoldable pub md5_init : List ℕ → Md5Ctx
md5_init buffer = record {
  count0 = 0;
  count1 = 0;
  state = words 0x67452301 0xefcdab89 0x98badcfe 0x10325476;
  buffer = buffer;
}

-- `for(i = partlen; i+64 <= inputlen; i+=64)`, from `&input[i]` on; the words and the input that is
-- left. The fuel is the number of bytes left at most.
pub absorb : ℕ → Words → List ℕ → Words × List ℕ
absorb zero st rest = (st, rest)
absorb (suc n) st rest =
    let more = absorb n (md5_transform st (take 64 rest)) (drop 64 rest) in
    if leb 64 (length rest) then more else (st, rest)

-- The count of bits, in two words.
pub add_count : Md5Ctx → ℕ → Md5Ctx
add_count ctx inputlen =
    let low = u32 (ctx.count0 + u32 (inputlen <<< 3)) in
    let carry = if ltb low (u32 (inputlen <<< 3)) then u32 (ctx.count1 + 1) else ctx.count1 in
    record ctx { count0 = low; count1 = u32 (carry + inputlen >>> 29) }

-- `index` of md5_update and md5_final.
abbrev pub index_of : Md5Ctx → ℕ
index_of ctx = bit_and (ctx.count0 >>> 3) 0x3f

-- `input` is the first `inputlen` bytes that the pointer leads to. In `i + 64` nothing is cut off
-- while `inputlen + 64` is at most 2 ^ 32.
unfoldable pub md5_update : Md5Ctx → List ℕ → Md5Ctx
unfolding absorb add_count
md5_update ctx input =
    let index = index_of ctx in
    let partlen = 64 - index in
    let ctx' = add_count ctx (length input) in
    if leb partlen (length input)
    then (let filled = memcpy ctx.buffer index (take partlen input) in
        let rest = drop partlen input in
        let done = absorb (length rest) (md5_transform ctx.state filled) rest in
        record ctx' { state = done.0; buffer = memcpy filled 0 done.1 })
    else record ctx' { buffer = memcpy ctx.buffer index input }

-- PADDING.
abbrev pub padding : List ℕ
padding = 0x80 ∷ replicate 63 0

unfoldable pub md5_final : Md5Ctx → List ℕ
md5_final ctx =
    let index = index_of ctx in
    let padlen = if ltb index 56 then 56 - index else 120 - index in
    let bits = md5_encode (ctx.count0 ∷ ctx.count1 ∷ []) in
    let padded = md5_update ctx (take padlen padding) in
    let w = (md5_update padded bits).state in md5_encode (w.a ∷ w.b ∷ w.c ∷ w.d ∷ [])
