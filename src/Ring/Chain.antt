-- ===== src/Ring/Chain.antt =====
-- Runs of nodes that are linked in both directions, and what keeps them.
use commlib.Base.{◌≡◌, refl, Bool, true, false, List, [], ◌∷◌, ◌++◌, ◌||◌, ◌==◌, arith}
use commlib.Ring.{Ptr, Memory}

abbrev pub Linked : Memory → Ptr → Ptr → Type 0
Linked h a b = ((h a).next ≡ b) × ((h b).prev ≡ a)

-- From `a` through `xs` to `b`.
abbrev pub Chain : Memory → Ptr → List Ptr → Ptr → Type 0
Chain h a [] b = Linked h a b
Chain h a (x ∷ xs) b = Linked h a x × Chain h x xs b

abbrev pub has : Ptr → List Ptr → Bool
has a [] = false
has a (x ∷ xs) = a == x || has a xs

abbrev pub Distinct : List Ptr → Type 0
Distinct [] = Unit
Distinct (x ∷ xs) = (has x xs ≡ false) × Distinct xs

-- The nodes `xs` in order, each once and none of them the head.
pub record IsRing (h : Memory) (head : Ptr) (xs : List Ptr) : Type 0 where
  pub chain : Chain h head xs head
  pub distinct : Distinct (head ∷ xs)

pub has-append : (a : Ptr) (xs ys : List Ptr) → has a (xs ++ ys) ≡ (has a xs || has a ys)
has-append a [] ys = refl
has-append a (x ∷ xs) ys = ground (arith, has-append a xs ys)

pub apart : (a b : Ptr) (xs : List Ptr) → has a xs ≡ true → has b xs ≡ false → (a == b) ≡ false
apart a b [] i o = cc
apart a b (x ∷ xs) i o = ground (arith, apart a b xs)

pub Chain-append :
    (h : Memory) (a y b : Ptr) (xs ys : List Ptr)
    → Chain h a xs y
    → Chain h y ys b
    → Chain h a (xs ++ (y ∷ ys)) b
Chain-append h a y b [] ys c d = (c, d)
Chain-append h a y b (x ∷ xs) ys c d = (c.0, Chain-append h x y b xs ys c.1 d)

pub Chain-split :
    (h : Memory) (a y b : Ptr) (xs ys : List Ptr)
    → Chain h a (xs ++ (y ∷ ys)) b
    → Chain h a xs y × Chain h y ys b
Chain-split h a y b [] ys c = c
Chain-split h a y b (x ∷ xs) ys c = let r = Chain-split h x y b xs ys c.1 in ((c.0, r.0), r.1)

-- A chain lives on its nodes' `next` but the end's, and on their `prev` but the start's.
pub Chain-frame :
    (h g : Memory) (a b : Ptr) (xs : List Ptr)
    → Chain h a xs b
    → ((q : Ptr) → has q (a ∷ xs) ≡ true → (g q).next ≡ (h q).next)
    → ((q : Ptr) → has q (xs ++ (b ∷ [])) ≡ true → (g q).prev ≡ (h q).prev)
    → Chain g a xs b
Chain-frame h g a b [] c n p = ground (arith, n a, p b)
Chain-frame h g a b (x ∷ xs) c n p = (
  ground (arith, n a, p x),
  Chain-frame h g x b xs c.1 (λ q i. n q (ground arith)) (λ q i. p q (ground arith)),
)

pub last_in :
    (h : Memory) (a p : Ptr) (xs : List Ptr) → Chain h a xs p → has (h p).prev (a ∷ xs) ≡ true
last_in h a p [] c = ground arith
last_in h a p (x ∷ xs) c = ground (arith, last_in h x p xs c.1)

-- A chain to `p` is led to `b`: the node before `p` and `b` are linked anew, and nothing else of it
-- is changed.
pub relink_end :
    (h g : Memory) (a p b : Ptr) (xs : List Ptr)
    → Chain h a xs p
    → Distinct (a ∷ xs)
    → (g (h p).prev).next ≡ b
    → (g b).prev ≡ (h p).prev
    → ((q : Ptr) → has q (a ∷ xs) ≡ true → (q == (h p).prev) ≡ false → (g q).next ≡ (h q).next)
    → ((q : Ptr) → has q xs ≡ true → (g q).prev ≡ (h q).prev)
    → Chain g a xs b
relink_end h g a p b [] c d e f n k = ground arith
relink_end h g a p b (x ∷ xs) c d e f n k =
    let other : (a == (h p).prev) ≡ false =
      ground (arith, apart (h p).prev a (x ∷ xs), last_in h x p xs c.1) in
    (
      ground (arith, n a, k x),
      relink_end h g x p b xs c.1 d.1 e f (λ q i o. n q (ground arith) o)
          (λ q i. k q (ground arith)),
    )

-- A chain from `p` is begun at `a`.
pub relink_start :
    (h g : Memory) (p a b : Ptr) (ys : List Ptr)
    → Chain h p ys b
    → Distinct ys
    → has b ys ≡ false
    → (g a).next ≡ (h p).next
    → (g (h p).next).prev ≡ a
    → ((q : Ptr) → has q ys ≡ true → (g q).next ≡ (h q).next)
    → ((q : Ptr)
        → has q (ys ++ (b ∷ [])) ≡ true
        → (q == (h p).next) ≡ false
        → (g q).prev ≡ (h q).prev)
    → Chain g a ys b
relink_start h g p a b [] c d o e f n k = ground arith
relink_start h g p a b (y ∷ ys) c d o e f n k = (
  ground arith,
  Chain-frame h g y b ys c.1 n (λ q i.
      k q (ground arith) (ground (arith, apart q y (ys ++ (b ∷ [])), has-append y ys (b ∷ [])))),
)

pub first_in :
    (h : Memory) (p b : Ptr) (ys : List Ptr)
    → Chain h p ys b
    → has (h p).next (ys ++ (b ∷ [])) ≡ true
first_in h p b [] c = ground arith
first_in h p b (y ∷ ys) c = ground arith
