-- ===== src/Alloc.antt =====
-- gen_mm_realloc and gen_mm_recalloc of src/myfcp/genmm.c, over an allocator that is a parameter.
mod Laws
mod Examples
use commlib.Base.{
  ℕ, ◌-◌, ◌≤◌, ◌≡◌, Bool, true, false, Option, none, some, List, [], ◌++◌, ltb, if◌then◌else◌,
  length, take, replicate,
}

-- A block is its bytes, as many as `malloc_usable_size` tells; `none` is the NULL pointer.
abbrev pub Block : Type 0
Block = Option (List ℕ)

abbrev pub bytes_of : Block → List ℕ
bytes_of none = []
bytes_of (some b) = b

-- What `realloc` answers: a block, in place of the old one; or NULL, where the old block stays; or
-- NULL, where the old block has been freed.
pub data Realloc : Type 0 where
  given : List ℕ → Realloc
  kept : Realloc
  freed : Realloc

-- realloc(3): a block of at least the size that is asked for, with the bytes of the old one as far
-- as both go. A block is freed where the size is 0, and only there.
pub record Allocator : Type 0 where
  pub realloc : Block → ℕ → Realloc
  pub realloc_size :
      (p : Block) (b : List ℕ) (size : ℕ) → realloc p size ≡ given b → size ≤ length b
  pub realloc_keeps :
      (p : Block) (b : List ℕ) (size n : ℕ)
      → realloc p size ≡ given b
      → n ≤ size
      → n ≤ length (bytes_of p)
      → take n b ≡ take n (bytes_of p)
  pub realloc_zero : (b : List ℕ) → realloc (some b) 0 ≡ freed
  pub realloc_freed : (p : Block) (size : ℕ) → realloc p size ≡ freed → size ≡ 0

-- What `*ptr` is: NULL or a block, or the address of a block that has been freed.
pub data Pointer : Type 0 where
  at : Block → Pointer
  dangling : Pointer

module _ (a : Allocator) where
  open a use {realloc}

  -- What `*ptr` is after the call, and whether it returned 0.
  pub mm_realloc : Block → ℕ → Pointer × Bool
  mm_realloc ptr size = elim (realloc ptr size) [
    | kept ↦ (at ptr, false)
    | freed ↦ (dangling, false)
    | given newptr ↦ (at (some newptr), true)
  ]

  -- `memset` from `oldsize` on.
  clear_from : ℕ → ℕ → List ℕ → List ℕ
  clear_from oldsize newsize b =
      if ltb oldsize newsize then take oldsize b ++ replicate (newsize - oldsize) 0 else b

  pub mm_recalloc : Block → ℕ → ℕ → Pointer × Bool
  unfolding clear_from
  mm_recalloc ptr oldsize size = elim (realloc ptr size) [
    | kept ↦ (at ptr, false)
    | freed ↦ (dangling, false)
    | given newptr ↦
        let usable = length newptr in
        let newsize = if ltb usable size then size else usable in
        (at (some (clear_from oldsize newsize newptr)), true)
  ]
