-- ===== src/Md5/CodecLaws.antt =====
-- The byte order of md5_encode and md5_decode.
use commlib.Base.{
  ℕ, zero, suc, ◌+◌, ◌*◌, ◌/◌, ◌%◌, ◌^◌, ◌<◌, ◌≡◌, refl, ap, ◌∙◌, List, [], ◌∷◌, ◌++◌, arith, All,
  bit_or, bit_and_mask, bit_or_fields_swap,
}
use commlib.Md5.Codec.{md5_encode, md5_decode}

-- The `n` low bytes of a number, the lowest first.
unfoldable pub le_bytes : ℕ → ℕ → List ℕ
le_bytes zero v = []
le_bytes (suc n) v = v % 256 ∷ le_bytes n (v / 256)

encode_word : (w : ℕ) (ws : List ℕ) → md5_encode (w ∷ ws) ≡ le_bytes 4 w ++ md5_encode ws
unfolding md5_encode le_bytes
encode_word w ws =
    rw
      (
        bit_and_mask 8 w,
        bit_and_mask 8 (w / 2 ^ 8),
        bit_and_mask 8 (w / 2 ^ 16),
        bit_and_mask 8 (w / 2 ^ 24),
      )
      (ground arith)

-- Two words are the eight bytes of one number.
pub encode_two :
    (low high : ℕ) → low < 2 ^ 32 → md5_encode (low ∷ high ∷ []) ≡ le_bytes 8 (low + high * 2 ^ 32)
encode_two low high h =
    rw (encode_word low (high ∷ []), encode_word high [])
      (unfold le_bytes md5_encode in ground arith)

decode_word :
    (p q r s : ℕ)
    → p < 256
    → q < 256
    → r < 256
    → bit_or (bit_or (bit_or p (q * 2 ^ 8)) (r * 2 ^ 16)) (s * 2 ^ 24)
      ≡ p + q * 2 ^ 8 + r * 2 ^ 16 + s * 2 ^ 24
decode_word p q r s hp hq hr = rw (
  bit_or_fields_swap 8 q p hp,
  bit_or_fields_swap 16 r (p + q * 2 ^ 8) (omega arith),
  bit_or_fields_swap 24 s (p + q * 2 ^ 8 + r * 2 ^ 16) (omega arith),
)

word_parts :
    (w : ℕ)
    → w < 2 ^ 32
    → w % 256
        + w / 256 % 256 * 2 ^ 8
        + w / 256 / 256 % 256 * 2 ^ 16
        + w / 256 / 256 / 256 % 256 * 2 ^ 24
      ≡ w
word_parts w h = omega arith

decode_first :
    (w : ℕ) (bytes : List ℕ)
    → w < 2 ^ 32
    → md5_decode (le_bytes 4 w ++ bytes) ≡ w ∷ md5_decode bytes
unfolding md5_decode le_bytes
decode_first w bytes h =
    ap (λ v. v ∷ md5_decode bytes)
      (decode_word (w % 256) (w / 256 % 256) (w / 256 / 256 % 256) (w / 256 / 256 / 256 % 256)
          (omega arith) (omega arith) (omega arith)
        ∙ word_parts w h)

-- md5_decode reads back the words that md5_encode wrote.
pub md5_decode-md5_encode :
    (ws : List ℕ) → All (λ w. w < 2 ^ 32) ws → md5_decode (md5_encode ws) ≡ ws
md5_decode-md5_encode [] h = unfold md5_encode md5_decode in refl
md5_decode-md5_encode (w ∷ ws) h =
    rw (encode_word w ws, decode_first w (md5_encode ws) h.0)
      (ap (◌∷◌ w) (md5_decode-md5_encode ws h.1))
