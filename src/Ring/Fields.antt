-- ===== src/Ring/Fields.antt =====
-- The two fields of any node after an operation of list.h.
use commlib.Base.{◌≡◌, false, ◌==◌, arith, if◌then◌else◌}
use commlib.Ring.{Ptr, Memory, list_insert, list_del, list_replace}

pub list_insert-next :
    (new_node prev next : Ptr) (h : Memory) (q : Ptr)
    → (list_insert new_node prev next h q).next
      ≡ (if q == prev then new_node else if q == new_node then next else (h q).next)
unfolding list_insert
list_insert-next new_node prev next h q = ground arith

pub list_insert-prev :
    (new_node prev next : Ptr) (h : Memory) (q : Ptr)
    → (list_insert new_node prev next h q).prev
      ≡ (if q == new_node then prev else if q == next then new_node else (h q).prev)
unfolding list_insert
list_insert-prev new_node prev next h q = ground arith

pub list_del-next :
    (p : Ptr) (h : Memory) (q : Ptr)
    → (list_del p h q).next ≡ (if q == (h p).prev then (h p).next else (h q).next)
unfolding list_del
list_del-next p h q = ground arith

pub list_del-prev :
    (p : Ptr) (h : Memory) (q : Ptr)
    → (list_del p h q).prev ≡ (if q == (h p).next then (h p).prev else (h q).prev)
unfolding list_del
list_del-prev p h q = ground arith

-- For a node that is not its own neighbour, and a new one that is neither of the neighbours.
module _ (old new_node : Ptr) (h : Memory) (ne : (old == new_node) ≡ false)
    (alone : (old == (h old).next) ≡ false) (ne_next : (new_node == (h old).next) ≡ false) where
  pub list_replace-next :
      (q : Ptr)
      → (list_replace old new_node h q).next ≡ (
          if q == (h old).prev
          then new_node
          else if q == new_node
          then (h old).next
          else (h q).next)
  unfolding list_replace
  list_replace-next q = ground arith

  pub list_replace-prev :
      (q : Ptr)
      → (list_replace old new_node h q).prev ≡ (
          if q == new_node
          then (h old).prev
          else if q == (h old).next
          then new_node
          else (h q).prev)
  unfolding list_replace
  list_replace-prev q = ground arith
