-- ===== src/Ring/Walk.antt =====
-- What the loops of list.h see of a ring.
use mathlib.Core.List.{reverse, reverse_aux}
use commlib.Base.{
  ℕ, zero, suc, ◌+◌, ◌<◌, ◌≡◌, refl, ap, ◌∙◌, Bool, true, false, Option, none, some, List, [], ◌∷◌,
  arith, length,
}
use commlib.Ring.{
  Ptr, Memory, list_empty, list_front, visit_next, visit_prev, list_for_each, list_for_each_prev,
  size_loop, list_size,
}
use commlib.Ring.Chain.{Chain, has, IsRing}

visit_next-Chain :
    (n : ℕ) (h : Memory) (a head : Ptr) (xs : List Ptr)
    → Chain h a xs head
    → has head xs ≡ false
    → length xs < n
    → visit_next n head (h a).next h ≡ some xs
unfolding visit_next
visit_next-Chain zero h a head xs c out fuel = absurd (omega arith)
visit_next-Chain (suc n) h a head [] c out fuel = ground arith
visit_next-Chain (suc n) h a head (x ∷ xs) c out fuel =
    ground (arith, visit_next-Chain n h x head xs c.1)

size_loop-Chain :
    (n : ℕ) (h : Memory) (a head : Ptr) (sum : ℕ) (xs : List Ptr)
    → Chain h a xs head
    → has head xs ≡ false
    → length xs < n
    → size_loop n head (h a).next (h (h a).next).next sum h ≡ some (sum + length xs)
unfolding size_loop
size_loop-Chain zero h a head sum xs c out fuel = absurd (omega arith)
size_loop-Chain (suc n) h a head sum [] c out fuel = ground arith
size_loop-Chain (suc n) h a head sum (x ∷ xs) c out fuel =
    ground (arith, size_loop-Chain n h x head (sum + 1) xs c.1)

-- Memory with the two directions exchanged.
abbrev mirror : Memory → Memory
mirror h a = record { prev = (h a).next; next = (h a).prev }

visit_prev-mirror :
    (n : ℕ) (h : Memory) (head pos : Ptr)
    → visit_prev n head pos h ≡ visit_next n head pos (mirror h)
unfolding visit_prev visit_next
visit_prev-mirror zero h head pos = refl
visit_prev-mirror (suc n) h head pos = ground (arith, visit_prev-mirror n h head (h pos).prev)

Chain-mirror :
    (h : Memory) (a b e : Ptr) (xs ys : List Ptr)
    → Chain h a xs b
    → Chain (mirror h) a ys e
    → Chain (mirror h) b (reverse_aux xs (a ∷ ys)) e
Chain-mirror h a b e [] ys c d = ((c.1, c.0), d)
Chain-mirror h a b e (x ∷ xs) ys c d = Chain-mirror h x b e xs (a ∷ ys) c.1 ((c.0.1, c.0.0), d)

ring-mirror :
    (h : Memory) (head : Ptr) (xs : List Ptr)
    → Chain h head xs head
    → Chain (mirror h) head (reverse xs) head
ring-mirror h head [] c = (c.1, c.0)
ring-mirror h head (x ∷ xs) c = Chain-mirror h x head head xs [] c.1 (c.0.1, c.0.0)

has-reverse_aux :
    (a : Ptr) (xs ys : List Ptr)
    → has a xs ≡ false
    → has a ys ≡ false
    → has a (reverse_aux xs ys) ≡ false
has-reverse_aux a [] ys i j = j
has-reverse_aux a (x ∷ xs) ys i j = has-reverse_aux a xs (x ∷ ys) (ground arith) (ground arith)

length-reverse_aux : (xs ys : List Ptr) → length (reverse_aux xs ys) ≡ length xs + length ys
length-reverse_aux [] ys = omega arith
length-reverse_aux (x ∷ xs) ys = omega (arith, length-reverse_aux xs (x ∷ ys))

-- The head's two tests against the abstract list.
abbrev pub is_nil : List Ptr → Bool
is_nil [] = true
is_nil (x ∷ xs) = false

abbrev pub first_of_list : List Ptr → Option Ptr
first_of_list [] = none
first_of_list (x ∷ xs) = some x

-- On the ring of `xs`, and with more rounds allowed than it has nodes: list_for_each visits `xs` in
-- order, list_for_each_prev visits `xs` backwards, list_size counts `xs`, list_empty tells whether
-- `xs` is empty, and list_front returns its first node or NULL.
pub loops-IsRing :
    (fuel : ℕ) (h : Memory) (head : Ptr) (xs : List Ptr)
    → IsRing h head xs
    → length xs < fuel
    → (list_for_each fuel head h ≡ some xs)
      × (list_for_each_prev fuel head h ≡ some (reverse xs))
      × (list_size fuel head h ≡ some (length xs))
      × (list_empty head h ≡ is_nil xs)
      × (list_front head h ≡ first_of_list xs)
unfolding list_for_each list_for_each_prev list_size
loops-IsRing fuel h head xs r more = (
  visit_next-Chain fuel h head head xs r.chain r.distinct.0 more,
  visit_prev-mirror fuel h head (h head).prev
      ∙ visit_next-Chain fuel (mirror h) head head (reverse xs) (ring-mirror h head xs r.chain)
          (has-reverse_aux head xs [] r.distinct.0 refl) (omega (arith, length-reverse_aux xs [])),
  size_loop-Chain fuel h head head 0 xs r.chain r.distinct.0 more ∙ ap some (omega arith),
  empty_lem xs r,
  front_lem xs r,
)
  where
    empty_lem : (xs : List Ptr) → IsRing h head xs → list_empty head h ≡ is_nil xs
    empty_lem [] r = unfold list_empty in ground (arith, r.chain)
    empty_lem (x ∷ xs) r = unfold list_empty in ground (arith, r.chain.0.0, r.distinct.0)

    front_lem : (xs : List Ptr) → IsRing h head xs → list_front head h ≡ first_of_list xs
    front_lem [] r = unfold list_front in rw (empty_lem [] r)
    front_lem (x ∷ xs) r = unfold list_front in rw (empty_lem (x ∷ xs) r) (ap some r.chain.0.0)
