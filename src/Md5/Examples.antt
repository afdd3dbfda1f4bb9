-- ===== src/Md5/Examples.antt =====
-- Tests of MD5, and its theorems at concrete messages.
use commlib.Base.{◌≡◌, refl, arith, replicate, List, ℕ, [], ◌∷◌}
use commlib.Md5.Spec.{digest}
use commlib.Md5.Final.{feed, join, md5_pieces}
use commlib.Md5.{md5_init, md5_update, md5_final, md5_transform}
use commlib.Md5.Codec.{md5_decode, md5_encode}

-- The digest of "abc".
md5_abc :
    md5_final (md5_update (md5_init (replicate 64 0)) (97 ∷ 98 ∷ 99 ∷ []))
    ≡ 0x90 ∷ 0x01 ∷ 0x50 ∷ 0x98 ∷ 0x3c ∷ 0xd2 ∷ 0x4f ∷ 0xb0 ∷ 0xd6 ∷ 0x96 ∷ 0x3f ∷ 0x7d ∷ 0x28
      ∷ 0xe1 ∷ 0x7f ∷ 0x72 ∷ []
unfolding md5_init md5_final md5_update md5_encode md5_transform md5_decode
md5_abc = refl

abbrev memory : List ℕ
memory = replicate 64 9

abbrev pieces : List (List ℕ)
pieces = (97 ∷ 98 ∷ []) ∷ [] ∷ (99 ∷ []) ∷ []

md5_pieces_example : md5_final (feed (md5_init memory) pieces) ≡ digest (join pieces)
md5_pieces_example = md5_pieces memory pieces refl (omega arith, (omega arith, (omega arith, tt)))
