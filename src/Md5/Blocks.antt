-- ===== src/Md5/Blocks.antt =====
-- Blocks of a message, and the loop of md5_update over its input.
use commlib.Base.{
  ℕ, zero, suc, ◌+◌, ◌*◌, ◌/◌, ◌≤◌, ◌≡◌, refl, ap, ◌∙◌, true, false, List, [], ◌∷◌, ◌++◌, arith,
  leb, length, take, drop, length-drop,
}
use commlib.Md5.Rounds.{Words}
use commlib.Md5.{md5_transform, absorb}
use commlib.Md5.Spec.{compress}

module _ {ℓ} {A : Type ℓ} where
  pub take-append : (n : ℕ) (xs ys : List A) → n ≤ length xs → take n (xs ++ ys) ≡ take n xs
  take-append zero xs ys h = refl
  take-append (suc n) [] ys h = absurd (omega arith)
  take-append (suc n) (x ∷ xs) ys h = ap (◌∷◌ x) (take-append n xs ys (omega arith))

  pub drop-append : (n : ℕ) (xs ys : List A) → n ≤ length xs → drop n (xs ++ ys) ≡ drop n xs ++ ys
  drop-append zero xs ys h = refl
  drop-append (suc n) [] ys h = absurd (omega arith)
  drop-append (suc n) (x ∷ xs) ys h = drop-append n xs ys (omega arith)

  -- Past the first list.
  pub take-append_past :
      (n k : ℕ) (xs ys : List A) → n ≡ length xs + k → take n (xs ++ ys) ≡ xs ++ take k ys
  take-append_past n k [] ys h = let e : n ≡ k = omega arith in ap (λ i. take i ys) e
  take-append_past zero k (x ∷ xs) ys h = absurd (omega arith)
  take-append_past (suc n) k (x ∷ xs) ys h = ap (◌∷◌ x) (take-append_past n k xs ys (omega arith))

  pub drop-append_past :
      (n k : ℕ) (xs ys : List A) → n ≡ length xs + k → drop n (xs ++ ys) ≡ drop k ys
  drop-append_past n k [] ys h = let e : n ≡ k = omega arith in ap (λ i. drop i ys) e
  drop-append_past zero k (x ∷ xs) ys h = absurd (omega arith)
  drop-append_past (suc n) k (x ∷ xs) ys h = drop-append_past n k xs ys (omega arith)

  pub drop-drop : (m n k : ℕ) (xs : List A) → k ≡ m + n → drop n (drop m xs) ≡ drop k xs
  drop-drop zero n k xs h = let e : n ≡ k = omega arith in ap (λ i. drop i xs) e
  drop-drop (suc m) n zero xs h = absurd (omega arith)
  drop-drop (suc m) zero (suc k) [] h = refl
  drop-drop (suc m) (suc n) (suc k) [] h = refl
  drop-drop (suc m) n (suc k) (x ∷ xs) h = drop-drop m n k xs (omega arith)

  pub drop-length : (n : ℕ) (xs : List A) → length xs ≤ n → drop n xs ≡ []
  drop-length zero [] h = refl
  drop-length zero (x ∷ xs) h = absurd (omega arith)
  drop-length (suc n) [] h = refl
  drop-length (suc n) (x ∷ xs) h = drop-length n xs (omega arith)

-- The blocks after the first `n`.
pub compress-add :
    (n k l : ℕ) (st : Words) (m : List ℕ)
    → l ≡ n + k
    → compress l st m ≡ compress k (compress n st m) (drop (64 * n) m)
unfolding compress
compress-add zero k l st m h = let e : l ≡ k = omega arith in ap (λ i. compress i st m) e
compress-add (suc n) k zero st m h = absurd (omega arith)
compress-add (suc n) k (suc l) st m h =
    compress-add n k l (md5_transform st (take 64 m)) (drop 64 m) (omega arith)
    ∙ ap (compress k (compress n (md5_transform st (take 64 m)) (drop 64 m)))
        (drop-drop 64 (64 * n) (64 * suc n) m (omega arith))

-- Blocks are not touched by what stands behind them.
pub compress-append :
    (n : ℕ) (st : Words) (m x : List ℕ)
    → 64 * n ≤ length m
    → compress n st (m ++ x) ≡ compress n st m
unfolding compress
compress-append zero st m x h = refl
compress-append (suc n) st m x h =
    rw (take-append 64 m x (omega arith), drop-append 64 m x (omega arith))
      (compress-append n (md5_transform st (take 64 m)) (drop 64 m) x
        (omega (arith, length-drop 64 m)))

-- The loop compresses the complete blocks of its input and leaves the rest.
pub absorb_lem :
    (n k : ℕ) (st : Words) (rest : List ℕ)
    → length rest ≤ n
    → k ≡ length rest / 64
    → absorb n st rest ≡ (compress k st rest, drop (64 * k) rest)
unfolding absorb compress
absorb_lem zero k st [] h e = let e' : k ≡ 0 = omega arith in rw e'
absorb_lem zero k st (x ∷ rest) h e = absurd (omega arith)
absorb_lem (suc n) zero st rest h e =
    let short : leb 64 (length rest) ≡ false = ground arith in rw short
absorb_lem (suc n) (suc k) st rest h e =
    let long : leb 64 (length rest) ≡ true = ground arith in
    rw long (
      absorb_lem n k (md5_transform st (take 64 rest)) (drop 64 rest)
        (omega (arith, length-drop 64 rest)) (omega (arith, length-drop 64 rest))
      ∙ ap (λ l. (compress k (md5_transform st (take 64 rest)) (drop 64 rest), l))
          (drop-drop 64 (64 * k) (64 * suc k) rest (omega arith)))
