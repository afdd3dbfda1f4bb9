-- ===== src/Checksum/Laws.antt =====
-- Which digest the two functions print.
use commlib.Base.{
  ℕ, ◌+◌, ◌^◌, ◌<◌, ◌≡◌, ap, ◌∙◌, sym, Option, some, List, [], ◌∷◌, ◌++◌, arith, All, length,
  append_assoc, ◌==◌, ◌||◌, ltb, leb, true, false,
}
use commlib.Md5.{Md5Ctx, md5_init, md5_update}
use commlib.Md5.Spec.{digest}
use commlib.Md5.Update.{Absorbed, md5_update-Absorbed, md5_init-Absorbed}
use commlib.Md5.Final.{join, md5_final-digest}
use commlib.Checksum.{hex_string, gen_string_md5, hashed, read_loop, gen_file_md5}

-- gen_string_md5 prints, in hexadecimal digits, the digest of a string of fewer than 2 ^ 32 - 64
-- bytes.
pub gen_string_md5-digest :
    (buffer str : List ℕ)
    → length buffer ≡ 64
    → length str + 64 < 2 ^ 32
    → gen_string_md5 buffer str ≡ hex_string (digest str)
unfolding gen_string_md5
gen_string_md5-digest buffer str room small = ap hex_string (
    md5_final-digest (md5_update (md5_init buffer) str) str
      (md5_update-Absorbed (md5_init buffer) [] str (md5_init-Absorbed buffer room) small))

-- The answers to a reader of a file: complete pieces, and then a short one.
abbrev pub answers_of : List (List ℕ) → List ℕ → List (Option (List ℕ)) → List (Option (List ℕ))
answers_of [] last later = some last ∷ later
answers_of (x ∷ xs) last later = some x ∷ answers_of xs last later

read_loop-digest :
    (xs : List (List ℕ)) (last : List ℕ) (later : List (Option (List ℕ))) (ctx : Md5Ctx)
    (m : List ℕ)
    → Absorbed ctx m
    → All (λ x. length x ≡ 256) xs
    → length last < 256
    → read_loop ctx (answers_of xs last later)
      ≡ hashed (hex_string (digest (m ++ (join xs ++ last))))
unfolding read_loop
read_loop-digest [] last later ctx m a full short =
    let done : (length last == 0 || ltb (length last) 256) ≡ true = ground arith in
    rw done (
      ap (λ d. hashed (hex_string d))
        (md5_final-digest (md5_update ctx last) (m ++ last)
          (md5_update-Absorbed ctx m last a (omega arith))))
read_loop-digest (x ∷ xs) last later ctx m a full short =
    let more : (length x == 0 || ltb (length x) 256) ≡ false = ground (arith, full.0) in
    rw more (
      read_loop-digest xs last later (md5_update ctx x) (m ++ x)
        (md5_update-Absorbed ctx m x a (omega (arith, full.0))) full.1 short
      ∙ ap (λ l. hashed (hex_string (digest l)))
          (append_assoc m x (join xs ++ last)
            ∙ ap (λ l. m ++ l) (sym (append_assoc x (join xs) last))))

-- On an open file whose content `read` answers in pieces of 256 bytes and then with a shorter one,
-- empty perhaps, gen_file_md5 prints what gen_string_md5 prints for the content, if that has fewer
-- than 2 ^ 32 - 64 bytes: the two agree.
pub gen_file_md5-gen_string_md5 :
    (buffer buffer' : List ℕ) (fd : ℕ) (xs : List (List ℕ)) (last : List ℕ)
    (later : List (Option (List ℕ)))
    → length buffer ≡ 64
    → length buffer' ≡ 64
    → 0 < fd
    → All (λ x. length x ≡ 256) xs
    → length last < 256
    → length (join xs ++ last) + 64 < 2 ^ 32
    → gen_file_md5 buffer (some fd) (answers_of xs last later)
      ≡ hashed (gen_string_md5 buffer' (join xs ++ last))
unfolding gen_file_md5
gen_file_md5-gen_string_md5 buffer buffer' fd xs last later room room' opened full short small =
    let open' : leb fd 0 ≡ false = ground arith in
    rw open' (
      read_loop-digest xs last later (md5_init buffer) [] (md5_init-Absorbed buffer room) full short
      ∙ ap hashed (sym (gen_string_md5-digest buffer' (join xs ++ last) room' small)))
