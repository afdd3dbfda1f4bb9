-- ===== src/Alloc/Laws.antt =====
-- What gen_mm_recalloc leaves in the block, and what both functions do when memory runs out.
use commlib.Base.{
  ℕ, ◌-◌, ◌≤◌, ◌≡◌, ◌∙◌, ◌⊎◌, sym, length-append, length-take, length-replicate, refl, true, false,
  some, List, arith, length, take, drop, replicate, ltb, inl, inr, Bool-cases, ◌++◌, zero, suc, [],
  ◌∷◌, ap, if◌then◌else◌,
}
use commlib.Alloc.{
  Block, bytes_of, Allocator, Realloc, given, kept, freed, at, dangling, mm_realloc, mm_recalloc,
  clear_from,
}

take-take_append : (n : ℕ) (b ys : List ℕ) → n ≤ length b → take n (take n b ++ ys) ≡ take n b
take-take_append zero b ys h = refl
take-take_append (suc n) [] ys h = absurd (omega arith)
take-take_append (suc n) (x ∷ b) ys h = ap (◌∷◌ x) (take-take_append n b ys (omega arith))

drop-take_append : (n : ℕ) (b ys : List ℕ) → n ≤ length b → drop n (take n b ++ ys) ≡ ys
drop-take_append zero b ys h = refl
drop-take_append (suc n) [] ys h = absurd (omega arith)
drop-take_append (suc n) (x ∷ b) ys h = drop-take_append n b ys (omega arith)

drop-all : (n : ℕ) (b : List ℕ) → length b ≤ n → drop n b ≡ []
drop-all zero [] h = refl
drop-all zero (x ∷ b) h = absurd (omega arith)
drop-all (suc n) [] h = refl
drop-all (suc n) (x ∷ b) h = drop-all n b (omega arith)

module _ (a : Allocator) where
  open a use {realloc, realloc_size, realloc_keeps, realloc_freed, realloc_zero}

  -- The bytes of the old block up to `oldsize` are kept, and all behind them are zero.
  pub record Cleared (old : Block) (oldsize size : ℕ) (new : List ℕ) : Type 0 where
    begins : take oldsize new ≡ take oldsize (bytes_of old)
    room : size ≤ length new
    zeroed : drop oldsize new ≡ replicate (length new - oldsize) 0

  usable_size :
      (size usable : ℕ) → size ≤ usable → (if ltb usable size then size else usable) ≡ usable
  usable_size size usable h = ground arith

  clear_from-Cleared :
      (old : Block) (b : List ℕ) (oldsize size : ℕ)
      → realloc old size ≡ given b
      → oldsize ≤ size
      → oldsize ≤ length (bytes_of old)
      → Cleared old oldsize size (clear_from a oldsize (length b) b)
  unfolding clear_from
  clear_from-Cleared old b oldsize size made fits within =
      elim (Bool-cases (ltb oldsize (length b))) [
        | inl more ↦ rw more (record {
          begins = take-take_append oldsize b _ (omega (arith, room)) ∙ same;
          room = omega (arith, room, filled_lem);
          zeroed =
              drop-take_append oldsize b _ (omega (arith, room))
              ∙ ap (λ (n : ℕ). replicate (n - oldsize) 0) (sym filled_lem);
        })
        | inr full ↦
            let no_more : length b ≤ oldsize = ground arith in
            rw full (record {
              begins = same;
              room = room;
              zeroed =
                  drop-all oldsize b no_more ∙ ap (λ (n : ℕ). replicate n 0) (nothing_left no_more);
            })
      ]
    where
      nothing_left : length b ≤ oldsize → 0 ≡ length b - oldsize
      nothing_left h = omega arith

      room : size ≤ length b
      room = realloc_size old b size made

      same : take oldsize b ≡ take oldsize (bytes_of old)
      same = realloc_keeps old b size oldsize made fits within

      filled_lem : length (take oldsize b ++ replicate (length b - oldsize) 0) ≡ length b
      filled_lem = omega (
        arith,
        room,
        length-append (take oldsize b) (replicate (length b - oldsize) 0),
        length-take oldsize b,
        length-replicate {A = ℕ} (length b - oldsize) 0,
      )

  Realloc-cases : (r : Realloc) → ((b : List ℕ) × (r ≡ given b)) ⊎ ((r ≡ kept) ⊎ (r ≡ freed))
  Realloc-cases (given b) = inl (b, refl)
  Realloc-cases kept = inr (inl refl)
  Realloc-cases freed = inr (inr refl)

  -- When gen_mm_recalloc is asked for a size not below `oldsize`, and the old block has that many
  -- bytes, one of three things happens. It returns 0 with a block of at least the size that has the
  -- old bytes up to `oldsize` and zeros from there to its usable end. Or memory has run out: it
  -- returns -1 with the old block in place, as does gen_mm_realloc. Or the size is 0 and realloc has
  -- freed the block: both functions return -1 and leave its address in `*ptr`.
  pub mm_recalloc-Cleared :
      (old : Block) (oldsize size : ℕ)
      → oldsize ≤ size
      → oldsize ≤ length (bytes_of old)
      → ((new : List ℕ) × (mm_recalloc a old oldsize size ≡ (at (some new), true))
          × Cleared old oldsize size new)
        ⊎ (((mm_recalloc a old oldsize size ≡ (at old, false))
              × (mm_realloc a old size ≡ (at old, false)))
            ⊎ ((mm_recalloc a old oldsize size ≡ (dangling, false))
                × (mm_realloc a old size ≡ (dangling, false))
                × (size ≡ 0)))
  unfolding mm_recalloc mm_realloc
  mm_recalloc-Cleared old oldsize size fits within = elim (Realloc-cases (realloc old size)) [
    | inr (inl failed) ↦ inr (inl (rw (mm_recalloc, failed) refl, rw (mm_realloc, failed) refl))
    | inr (inr zeroed) ↦ inr (
        inr (
          rw (mm_recalloc, zeroed) refl,
          rw (mm_realloc, zeroed) refl,
          realloc_freed old size zeroed,
        ))
    | inl (b, made) ↦ inl (
      clear_from a oldsize (length b) b,
      rw (mm_recalloc, made, usable_size size (length b) (realloc_size old b size made)) refl,
      clear_from-Cleared old b oldsize size made fits within,
    )
  ]

  -- With an old block and the size 0 both functions leave the address of a freed block behind.
  dangling_zero :
      (b : List ℕ)
      → (mm_realloc a (some b) 0 ≡ (dangling, false))
        × (mm_recalloc a (some b) 0 0 ≡ (dangling, false))
  unfolding mm_recalloc mm_realloc
  dangling_zero b = (rw (mm_realloc, realloc_zero b) refl, rw (mm_recalloc, realloc_zero b) refl)
