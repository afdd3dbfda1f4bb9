-- ===== src/Md5/Codec.antt =====
-- md5_encode and md5_decode of src/myfcp/genmd5.c, between words and bytes with the low byte
-- first. The lengths that the calls give are those of the lists.
use commlib.Base.{ℕ, List, [], ◌∷◌, bit_and, bit_or, ◌<<<◌, ◌>>>◌}

unfoldable pub md5_encode : List ℕ → List ℕ
md5_encode [] = []
md5_encode (w ∷ ws) =
    bit_and w 0xff
    ∷ bit_and (w >>> 8) 0xff
    ∷ bit_and (w >>> 16) 0xff
    ∷ bit_and (w >>> 24) 0xff
    ∷ md5_encode ws

unfoldable pub md5_decode : List ℕ → List ℕ
md5_decode (p ∷ q ∷ r ∷ s ∷ bytes) =
    bit_or (bit_or (bit_or p (q <<< 8)) (r <<< 16)) (s <<< 24) ∷ md5_decode bytes
md5_decode _ = []
