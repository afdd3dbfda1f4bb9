-- ===== src/Ring/Insert.antt =====
-- What INIT_LIST_HEAD_PTR, list_add and list_add_tail do to a ring.
use commlib.Base.{◌≡◌, refl, false, List, [], ◌∷◌, ◌++◌, arith, append-nil}
use commlib.Ring.{Ptr, Memory, init_list_head, list_insert, list_add, list_add_tail}
use commlib.Ring.Fields.{list_insert-next, list_insert-prev}
use commlib.Ring.Chain.{
  has, Distinct, IsRing, has-append, apart, Chain-append, first_in, last_in, relink_end,
  relink_start,
}

-- INIT_LIST_HEAD_PTR makes an empty list.
pub init_list_head-IsRing : (head : Ptr) (h : Memory) → IsRing (init_list_head head h) head []
unfolding init_list_head
init_list_head-IsRing head h = record { chain = ground arith; distinct = (refl, tt) }

pub Distinct-middle :
    (x : Ptr) (xs ys : List Ptr)
    → Distinct (xs ++ ys)
    → has x (xs ++ ys) ≡ false
    → Distinct (xs ++ (x ∷ ys))
Distinct-middle x [] ys d o = (o, d)
Distinct-middle x (y ∷ xs) ys d o = (
  ground (arith, has-append y xs (x ∷ ys), has-append y xs ys),
  Distinct-middle x xs ys d.1 (ground arith),
)

-- list_add puts a node that is not in the list at its front.
pub list_add-front :
    (h : Memory) (head new_node : Ptr) (xs : List Ptr)
    → IsRing h head xs
    → has new_node (head ∷ xs) ≡ false
    → IsRing (list_add new_node head h) head (new_node ∷ xs)
unfolding list_add
list_add-front h head new_node xs r new =
    let g = list_insert new_node head (h head).next h in
    let at_next = list_insert-next new_node head (h head).next h in
    let at_prev = list_insert-prev new_node head (h head).next h in
    record {
      chain = (
        ground (arith, at_next head, at_prev new_node),
        relink_start h g head new_node head xs r.chain r.distinct.1 r.distinct.0
            (ground (arith, at_next new_node))
            (ground (
              arith,
              at_prev (h head).next,
              first_in h head head xs r.chain,
              has-append new_node xs (head ∷ []),
            ))
            (λ q i. ground (arith, at_next q, apart q new_node xs, apart q head xs))
            (λ q i o. ground (
              arith,
              at_prev q,
              apart q new_node (xs ++ (head ∷ [])),
              has-append new_node xs (head ∷ []),
            )),
      );
      distinct = ground (arith, r.distinct);
    }

-- list_add_tail puts a node that is not in the list at its end.
pub list_add_tail-end :
    (h : Memory) (head new_node : Ptr) (xs : List Ptr)
    → IsRing h head xs
    → has new_node (head ∷ xs) ≡ false
    → IsRing (list_add_tail new_node head h) head (xs ++ new_node ∷ [])
unfolding list_add_tail
list_add_tail-end h head new_node xs r new =
    let g = list_insert new_node (h head).prev head h in
    let at_next = list_insert-next new_node (h head).prev head h in
    let at_prev = list_insert-prev new_node (h head).prev head h in
    let apart_last =
      apart (h head).prev new_node (head ∷ xs) (last_in h head head xs r.chain) new in
    record {
      chain =
          Chain-append g head new_node head xs []
            (relink_end h g head head new_node xs r.chain r.distinct
              (ground (arith, at_next (h head).prev)) (ground (arith, at_prev new_node))
              (λ q i o. ground (arith, at_next q, apart q new_node (head ∷ xs)))
              (λ q i. ground (arith, at_prev q, apart q new_node xs, apart q head xs)))
            (ground (arith, at_next new_node, at_prev head));
      distinct = (
        ground (arith, has-append head xs (new_node ∷ [])),
        Distinct-middle new_node xs [] (rw append-nil r.distinct.1) (rw append-nil (ground arith)),
      );
    }
