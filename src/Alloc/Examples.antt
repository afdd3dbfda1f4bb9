-- ===== src/Alloc/Examples.antt =====
-- An allocator that gives three bytes more than it is asked for, filled with rubbish.
use commlib.Base.{
  ℕ, zero, suc, ◌≤◌, ◌≡◌, ◌⊎◌, refl, ap, subst, true, false, none, some, List, [], ◌∷◌, arith,
  length, take,
}
use commlib.Alloc.{
  Block, bytes_of, Allocator, Realloc, given, freed, at, dangling, mm_realloc, mm_recalloc,
}
use commlib.Alloc.Laws.{Cleared, mm_recalloc-Cleared}

-- The old bytes as far as the size goes, and rubbish.
abbrev resized : List ℕ → ℕ → List ℕ
resized b zero = 7 ∷ 7 ∷ 7 ∷ []
resized [] (suc size) = 7 ∷ resized [] size
resized (x ∷ b) (suc size) = x ∷ resized b size

size-resized : (b : List ℕ) (size : ℕ) → size ≤ length (resized b size)
size-resized b zero = omega arith
size-resized [] (suc size) = omega (arith, size-resized [] size)
size-resized (x ∷ b) (suc size) = omega (arith, size-resized b size)

take-resized :
    (b : List ℕ) (size n : ℕ) → n ≤ size → n ≤ length b → take n (resized b size) ≡ take n b
take-resized b size zero h k = refl
take-resized b zero (suc n) h k = absurd (omega arith)
take-resized [] (suc size) (suc n) h k = absurd (omega arith)
take-resized (x ∷ b) (suc size) (suc n) h k =
    ap (◌∷◌ x) (take-resized b size n (omega arith) (omega arith))

given_is : (r b : List ℕ) → given r ≡ given b → r ≡ b
given_is r b e = cc

-- A block is freed for the size 0.
abbrev answer : Block → ℕ → Realloc
answer none size = given (resized [] size)
answer (some b) zero = freed
answer (some b) (suc size) = given (resized b (suc size))

answer_size : (p : Block) (b : List ℕ) (size : ℕ) → answer p size ≡ given b → size ≤ length b
answer_size none b size e =
    subst (λ (r : List ℕ). size ≤ length r) (given_is _ b e) (size-resized [] size)
answer_size (some old) b zero e = omega arith
answer_size (some old) b (suc size) e =
    subst (λ (r : List ℕ). suc size ≤ length r) (given_is _ b e) (size-resized old (suc size))

answer_keeps :
    (p : Block) (b : List ℕ) (size n : ℕ)
    → answer p size ≡ given b
    → n ≤ size
    → n ≤ length (bytes_of p)
    → take n b ≡ take n (bytes_of p)
answer_keeps none b size n e h k =
    subst (λ (r : List ℕ). take n r ≡ take n []) (given_is _ b e) (take-resized [] size n h k)
answer_keeps (some old) b zero n e h k = cc
answer_keeps (some old) b (suc size) n e h k =
    subst (λ (r : List ℕ). take n r ≡ take n old) (given_is _ b e)
      (take-resized old (suc size) n h k)

answer_freed : (p : Block) (size : ℕ) → answer p size ≡ freed → size ≡ 0
answer_freed none size e = cc
answer_freed (some b) zero e = refl
answer_freed (some b) (suc size) e = cc

abbrev generous : Allocator
generous = record {
  realloc = answer;
  realloc_size = answer_size;
  realloc_keeps = answer_keeps;
  realloc_zero = λ b. refl;
  realloc_freed = answer_freed;
}

abbrev two_bytes : Block
two_bytes = some (1 ∷ 2 ∷ [])

mm_recalloc-Cleared_example :
    ((new : List ℕ) × (mm_recalloc generous two_bytes 2 4 ≡ (at (some new), true))
      × Cleared generous two_bytes 2 4 new)
    ⊎ (((mm_recalloc generous two_bytes 2 4 ≡ (at two_bytes, false))
          × (mm_realloc generous two_bytes 4 ≡ (at two_bytes, false)))
        ⊎ ((mm_recalloc generous two_bytes 2 4 ≡ (dangling, false))
            × (mm_realloc generous two_bytes 4 ≡ (dangling, false))
            × (◌≡◌ {A = ℕ} 4 0)))
mm_recalloc-Cleared_example = mm_recalloc-Cleared generous two_bytes 2 4 (omega arith) (omega arith)

recalloc_two_bytes :
    mm_recalloc generous two_bytes 2 4 ≡ (at (some (1 ∷ 2 ∷ 0 ∷ 0 ∷ 0 ∷ 0 ∷ 0 ∷ [])), true)
unfolding mm_recalloc
recalloc_two_bytes = refl
