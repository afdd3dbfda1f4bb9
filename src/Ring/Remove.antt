-- ===== src/Ring/Remove.antt =====
-- What list_del, list_replace and list_pop_front do to a ring.
use commlib.Base.{
  ◌≡◌, ap, false, Option, none, some, List, [], ◌∷◌, ◌++◌, ◌==◌, arith, append-nil, if◌then◌else◌,
}
use commlib.Ring.{Ptr, Memory, list_del, list_replace, list_empty, list_pop_front}
use commlib.Ring.Fields.{list_del-next, list_del-prev, list_replace-next, list_replace-prev}
use commlib.Ring.Insert.{Distinct-middle}
use commlib.Ring.Chain.{
  Chain, has, IsRing, has-append, apart, Chain-append, Chain-frame, relink_end, relink_start,
}
use commlib.Ring.Around.{Distinct-drop, Around, IsRing-Around}

module _ (h : Memory) (head p : Ptr) (xs : List Ptr) where
  del_front : (ys : List Ptr) → Around h head p xs ys → Chain (list_del p h) head xs (h p).next
  del_front ys a =
      relink_end h (list_del p h) head p (h p).next xs a.before a.front
        (ground (arith, list_del-next p h (h p).prev))
        (ground (arith, list_del-prev p h (h p).next))
        (λ q i o. ground (arith, list_del-next p h q))
        (λ q i. ground (
          arith,
          list_del-prev p h q,
          a.split q (ground arith),
          a.next_in,
          apart q (h p).next ys,
          apart (h p).next q ys,
          a.front.0,
          apart q head xs,
        ))

  del-Chain : (ys : List Ptr) → Around h head p xs ys → Chain (list_del p h) head (xs ++ ys) head
  del-Chain [] a = rw append-nil (rw a.after.0 at (del_front [] a))
  del-Chain (y ∷ ys) a =
      Chain-append (list_del p h) head y head xs ys (rw a.after.0.0 at (del_front (y ∷ ys) a)) (
        Chain-frame h (list_del p h) y head ys a.after.1
          (λ q i. ground (arith, list_del-next p h q, a.split (h p).prev a.prev_in, i))
          (λ q i. ground (
            arith,
            list_del-prev p h q,
            a.after.0.0,
            has-append q ys (head ∷ []),
            apart q y ys,
            a.back.0,
            a.head_out,
            i,
          )))

-- list_del takes a node out of the list and leaves the others in their order.
pub list_del-drop :
    (h : Memory) (head p : Ptr) (xs ys : List Ptr)
    → IsRing h head (xs ++ (p ∷ ys))
    → IsRing (list_del p h) head (xs ++ ys)
list_del-drop h head p xs ys r = record {
  chain = del-Chain h head p xs ys (IsRing-Around h head p xs ys r);
  distinct = (Distinct-drop p (head ∷ xs) ys r.distinct).0;
}

module _ (h : Memory) (head old new_node : Ptr) (xs ys : List Ptr) (a : Around h head old xs ys)
    (out_front : has new_node (head ∷ xs) ≡ false)
    (out_back : has new_node (old ∷ ys) ≡ false) where
  new_other : (new_node == (h old).next) ≡ false
  new_other = ground (arith, a.next_in, apart (h old).next new_node ys)

  old_other : (old == (h old).next) ≡ false
  old_other =
      ground (arith, a.next_in, apart (h old).next old ys, a.self_out, a.split head (ground arith))

  old_new : (old == new_node) ≡ false
  old_new = ground arith

  replace_next :
      (q : Ptr)
      → (list_replace old new_node h q).next ≡ (
          if q == (h old).prev
          then new_node
          else if q == new_node
          then (h old).next
          else (h q).next)
  replace_next = list_replace-next old new_node h old_new old_other new_other

  replace_prev :
      (q : Ptr)
      → (list_replace old new_node h q).prev ≡ (
          if q == new_node
          then (h old).prev
          else if q == (h old).next
          then new_node
          else (h q).prev)
  replace_prev = list_replace-prev old new_node h old_new old_other new_other

  prev_other : (new_node == (h old).prev) ≡ false
  prev_other = ground (arith, apart (h old).prev new_node (head ∷ xs) a.prev_in out_front)

  replace_front : Chain (list_replace old new_node h) head xs new_node
  replace_front =
      relink_end h (list_replace old new_node h) head old new_node xs a.before a.front
        (ground (arith, replace_next (h old).prev)) (ground (arith, replace_prev new_node))
        (λ q i o. ground (arith, replace_next q, apart q new_node (head ∷ xs) i out_front, o))
        (λ q i. ground (
          arith,
          replace_prev q,
          apart q new_node (head ∷ xs) (ground arith) out_front,
          a.split q (ground arith),
          a.next_in,
          apart (h old).next q ys,
          a.front.0,
          apart q head xs,
        ))

  replace_back : Chain (list_replace old new_node h) new_node ys head
  replace_back =
      relink_start h (list_replace old new_node h) old new_node head ys a.after a.back a.head_out
        (ground (arith, replace_next new_node, prev_other))
        (ground (arith, replace_prev (h old).next, new_other))
        (λ q i. ground (
          arith,
          replace_next q,
          apart q new_node (old ∷ ys) (ground arith) out_back,
          a.split (h old).prev a.prev_in,
          i,
        ))
        (λ q i o.
          ground (arith, replace_prev q, has-append q ys (head ∷ []), apart q new_node ys, o))

-- list_replace puts a node that is not in the list in the place of one that is.
pub list_replace-swap :
    (h : Memory) (head old new_node : Ptr) (xs ys : List Ptr)
    → IsRing h head (xs ++ (old ∷ ys))
    → has new_node (head ∷ (xs ++ (old ∷ ys))) ≡ false
    → IsRing (list_replace old new_node h) head (xs ++ (new_node ∷ ys))
list_replace-swap h head old new_node xs ys r new =
    let a = IsRing-Around h head old xs ys r in
    let out_front : has new_node (head ∷ xs) ≡ false =
      ground (arith, has-append new_node xs (old ∷ ys)) in
    let out_back : has new_node (old ∷ ys) ≡ false =
      ground (arith, has-append new_node xs (old ∷ ys)) in
    let rest = Distinct-drop old (head ∷ xs) ys r.distinct in
    record {
      chain =
          Chain-append (list_replace old new_node h) head new_node head xs ys
            (replace_front h head old new_node xs ys a out_front out_back)
            (replace_back h head old new_node xs ys a out_front out_back);
      distinct =
          Distinct-middle new_node (head ∷ xs) ys rest.0
            (ground (arith, has-append new_node xs ys, out_front, out_back));
    }

-- What list_pop_front gives for a list.
abbrev pub Popped : Memory → Ptr → List Ptr → Option Ptr × Memory → Type 0
Popped h head [] result = result ≡ (none, h)
Popped h head (p ∷ xs) result = (result.0 ≡ some p) × IsRing result.1 head xs

-- list_pop_front returns NULL for an empty list and leaves memory alone; for any other it returns
-- the first node and leaves the list of the others.
pub list_pop_front-Popped :
    (h : Memory) (head : Ptr) (xs : List Ptr)
    → IsRing h head xs
    → Popped h head xs (list_pop_front head h)
unfolding list_pop_front list_empty
list_pop_front-Popped h head [] r = ground (arith, r.chain)
list_pop_front-Popped h head (p ∷ xs) r =
    let full : ((h head).next == head) ≡ false = ground (arith, r.chain.0.0, r.distinct.0) in
    rw full (ap some r.chain.0.0, rw r.chain.0.0 (list_del-drop h head p [] xs r))
