-- ===== src/Md5/Final.antt =====
-- md5_final, and the digest of a message that was fed in pieces.
use commlib.Base.{
  ℕ, zero, suc, ◌+◌, ◌-◌, ◌*◌, ◌/◌, ◌%◌, ◌^◌, ◌≤◌, ◌<◌, ◌≡◌, refl, ap, ◌∙◌, List, [], ◌∷◌, ◌++◌,
  arith, ltb, length, take, replicate, length-replicate, append_assoc, append-nil, All,
  if◌then◌else◌,
}
use commlib.Md5.{Md5Ctx, md5_init, md5_update, md5_final, padding}
use commlib.Md5.Rounds.{Words}
use commlib.Md5.Codec.{md5_encode}
use commlib.Md5.CodecLaws.{le_bytes, encode_two}
use commlib.Md5.Spec.{pad, digest}
use commlib.Md5.Update.{Absorbed, index_lem, md5_update-Absorbed, md5_init-Absorbed}

abbrev zeros : List ℕ → ℕ
zeros m = (119 - length m % 64) % 64

take-replicate : (n k : ℕ) → n ≤ k → take {A = ℕ} n (replicate k 0) ≡ replicate n 0
take-replicate zero k h = refl
take-replicate (suc n) zero h = absurd (omega arith)
take-replicate (suc n) (suc k) h = ap (◌∷◌ 0) (take-replicate n k (omega arith))

length-le_bytes : (n v : ℕ) → length (le_bytes n v) ≡ n
unfolding le_bytes
length-le_bytes zero v = refl
length-le_bytes (suc n) v = ap suc (length-le_bytes n (v / 256))

padlen_lem : (i : ℕ) → i < 64 → (if ltb i 56 then 56 - i else 120 - i) ≡ suc ((119 - i) % 64)
padlen_lem i h = ground arith

-- The words in memory, and the padding up to the length field.
abbrev front : List ℕ → List ℕ
front m = 0x80 ∷ replicate (zeros m) 0

bits_lem :
    {ctx : Md5Ctx} {m : List ℕ}
    → Absorbed ctx m
    → md5_encode (ctx.count0 ∷ ctx.count1 ∷ []) ≡ le_bytes 8 (8 * length m % 2 ^ 64)
bits_lem {ctx} a = encode_two ctx.count0 ctx.count1 a.low ∙ ap (le_bytes 8) a.count

pad_lem : (m : List ℕ) → (m ++ front m) ++ le_bytes 8 (8 * length m % 2 ^ 64) ≡ pad m
unfolding pad
pad_lem m = append_assoc m (front m) (le_bytes 8 (8 * length m % 2 ^ 64))

module _ {ctx : Md5Ctx} {m : List ℕ} (a : Absorbed ctx m) where
  padded_lem : Absorbed (md5_update ctx (front m)) (m ++ front m)
  padded_lem =
      md5_update-Absorbed ctx m (front m) a (omega (arith, length-replicate {A = ℕ} (zeros m) 0))

  whole_lem :
      Absorbed (md5_update (md5_update ctx (front m)) (le_bytes 8 (8 * length m % 2 ^ 64))) (pad m)
  whole_lem = rw pad_lem at (
      md5_update-Absorbed (md5_update ctx (front m)) (m ++ front m)
        (le_bytes 8 (8 * length m % 2 ^ 64)) padded_lem
        (omega (arith, length-le_bytes 8 (8 * length m % 2 ^ 64))))

padding_lem : (n : ℕ) → n ≤ 63 → take (suc n) padding ≡ 0x80 ∷ replicate n 0
padding_lem n h = ap (◌∷◌ 0x80) (take-replicate n 63 h)

encode_words : Words → List ℕ
encode_words w = md5_encode (w.a ∷ w.b ∷ w.c ∷ w.d ∷ [])

-- md5_final, on a context that was fed `m`, returns the digest of `m` that RFC 1321 defines over
-- the compression function md5_transform: the whole message is padded with a one bit, zero bits and
-- its length in bits, and its blocks are compressed in order.
pub md5_final-digest : (ctx : Md5Ctx) (m : List ℕ) → Absorbed ctx m → md5_final ctx ≡ digest m
unfolding md5_final digest encode_words
md5_final-digest ctx m a =
    rw
      (
        index_lem a,
        padlen_lem (length m % 64) (omega arith),
        padding_lem (zeros m) (omega arith),
        bits_lem a,
      )
      (ap encode_words (whole_lem a).state)

-- One md5_update for each piece.
unfoldable pub feed : Md5Ctx → List (List ℕ) → Md5Ctx
feed ctx [] = ctx
feed ctx (x ∷ xs) = feed (md5_update ctx x) xs

abbrev pub join : List (List ℕ) → List ℕ
join [] = []
join (x ∷ xs) = x ++ join xs

pub feed-Absorbed :
    (xs : List (List ℕ)) (ctx : Md5Ctx) (m : List ℕ)
    → Absorbed ctx m
    → All (λ x. length x + 64 < 2 ^ 32) xs
    → Absorbed (feed ctx xs) (m ++ join xs)
unfolding feed
feed-Absorbed [] ctx m a h = rw append-nil a
feed-Absorbed (x ∷ xs) ctx m a h =
    rw append_assoc at
      (feed-Absorbed xs (md5_update ctx x) (m ++ x) (md5_update-Absorbed ctx m x a h.0) h.1)

-- md5_init, one md5_update for each piece of a message, and md5_final give the digest of the
-- whole message, padded and compressed block by block with md5_transform, however it is cut into pieces of fewer than 2 ^ 32 - 64 bytes, and whatever the memory
-- of the context held.
pub md5_pieces :
    (buffer : List ℕ) (xs : List (List ℕ))
    → length buffer ≡ 64
    → All (λ x. length x + 64 < 2 ^ 32) xs
    → md5_final (feed (md5_init buffer) xs) ≡ digest (join xs)
md5_pieces buffer xs room small =
    md5_final-digest (feed (md5_init buffer) xs) (join xs)
      (feed-Absorbed xs (md5_init buffer) [] (md5_init-Absorbed buffer room) small)
