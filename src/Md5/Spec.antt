-- ===== src/Md5/Spec.antt =====
-- The digest of a whole message as RFC 1321 words it, over the compression function md5_transform:
-- the message is padded to complete blocks, and the blocks are compressed in order.
use commlib.Base.{
  ℕ, zero, suc, ◌-◌, ◌*◌, ◌/◌, ◌%◌, ◌^◌, List, [], ◌∷◌, ◌++◌, length, take, drop, replicate,
}
use commlib.Md5.Rounds.{Words, words}
use commlib.Md5.{md5_transform}
use commlib.Md5.Codec.{md5_encode}
use commlib.Md5.CodecLaws.{le_bytes}

-- The first `n` blocks of a message.
unfoldable pub compress : ℕ → Words → List ℕ → Words
compress zero st m = st
compress (suc n) st m = compress n (md5_transform st (take 64 m)) (drop 64 m)

abbrev pub initial : Words
initial = words 0x67452301 0xefcdab89 0x98badcfe 0x10325476

-- A one bit, zero bits up to 8 bytes below a multiple of the block, and the length in bits.
unfoldable pub pad : List ℕ → List ℕ
pad m =
    m ++ (0x80 ∷ (replicate ((119 - length m % 64) % 64) 0 ++ le_bytes 8 (8 * length m % 2 ^ 64)))

unfoldable pub digest : List ℕ → List ℕ
digest m =
    let w = compress (length (pad m) / 64) initial (pad m) in
    md5_encode (w.a ∷ w.b ∷ w.c ∷ w.d ∷ [])
