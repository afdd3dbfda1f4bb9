-- ===== src/Ring.antt =====
-- The doubly linked lists of src/myfcp/list.h, over memory in which every `struct list_head` has an
-- address. A list is a ring through its head.
pub mod Chain
mod Fields
pub mod Insert
pub mod Around
pub mod Remove
pub mod Walk
mod Sequence
mod Examples
use commlib.Base.{
  ℕ, zero, suc, ◌+◌, Bool, true, false, Option, none, some, List, [], ◌∷◌, ◌==◌, if◌then◌else◌,
}

abbrev pub Ptr : Type 0
Ptr = ℕ

-- `struct list_head`.
pub record ListHead : Type 0 where
  pub prev : Ptr
  pub next : Ptr

abbrev pub Memory : Type 0
Memory = Ptr → ListHead

-- `p->next = q` and `p->prev = q`.
abbrev pub set_next : Ptr → Ptr → Memory → Memory
set_next p q h a = if a == p then record { prev = (h a).prev; next = q } else h a

abbrev pub set_prev : Ptr → Ptr → Memory → Memory
set_prev p q h a = if a == p then record { prev = q; next = (h a).next } else h a

-- INIT_LIST_HEAD_PTR.
pub init_list_head : Ptr → Memory → Memory
init_list_head head h = set_prev head head (set_next head head h)

-- `__list_add`, its four writes in order.
pub list_insert : Ptr → Ptr → Ptr → Memory → Memory
list_insert new_node prev next h =
    set_next prev new_node
      (set_prev new_node prev (set_next new_node next (set_prev next new_node h)))

pub list_add_tail : Ptr → Ptr → Memory → Memory
list_add_tail new_node head h = list_insert new_node (h head).prev head h

pub list_add : Ptr → Ptr → Memory → Memory
list_add new_node head h = list_insert new_node head (h head).next h

-- `p->next` is read again for the second write.
pub list_del : Ptr → Memory → Memory
list_del p h = let g = set_next (h p).prev (h p).next h in set_prev (g p).next (g p).prev g

-- Each write reads `new_node` as the writes before it left it.
pub list_replace : Ptr → Ptr → Memory → Memory
list_replace old new_node h =
    let g = set_next new_node (h old).next h in
    let g' = set_prev (g new_node).next new_node g in
    let g'' = set_prev new_node (g' old).prev g' in set_next (g'' new_node).prev new_node g''

pub list_empty : Ptr → Memory → Bool
list_empty head h = (h head).next == head

-- The node, or `none` for NULL, and the memory.
pub list_pop_front : Ptr → Memory → Option Ptr × Memory
list_pop_front head h =
    if list_empty head h then (none, h) else (some (h head).next, list_del (h head).next h)

pub list_front : Ptr → Memory → Option Ptr
list_front head h = if list_empty head h then none else some (h head).next

-- The nodes that `list_for_each` and `list_for_each_prev` visit from `pos` on; `none` means that
-- the fuel ran out.
pub visit_next : ℕ → Ptr → Ptr → Memory → Option (List Ptr)
visit_next zero head pos h = none
visit_next (suc n) head pos h = elim (pos == head) [
  | true ↦ some []
  | false ↦ elim (visit_next n head (h pos).next h) [ none ↦ none | some ps ↦ some (pos ∷ ps) ]
]

pub list_for_each : ℕ → Ptr → Memory → Option (List Ptr)
unfolding visit_next
list_for_each fuel head h = visit_next fuel head (h head).next h

pub visit_prev : ℕ → Ptr → Ptr → Memory → Option (List Ptr)
visit_prev zero head pos h = none
visit_prev (suc n) head pos h = elim (pos == head) [
  | true ↦ some []
  | false ↦ elim (visit_prev n head (h pos).prev h) [ none ↦ none | some ps ↦ some (pos ∷ ps) ]
]

pub list_for_each_prev : ℕ → Ptr → Memory → Option (List Ptr)
unfolding visit_prev
list_for_each_prev fuel head h = visit_prev fuel head (h head).prev h

-- The loop of list_size, which looks one node ahead: `next` is `pos->next`.
pub size_loop : ℕ → Ptr → Ptr → Ptr → ℕ → Memory → Option ℕ
size_loop zero head pos next sum h = none
size_loop (suc n) head pos next sum h = elim (pos == head) [
  | true ↦ some sum
  | false ↦ size_loop n head next (h next).next (sum + 1) h
]

pub list_size : ℕ → Ptr → Memory → Option ℕ
unfolding size_loop
list_size fuel head h = size_loop fuel head (h head).next (h (h head).next).next 0 h
