-- ===== src/Login/Nodes.antt =====
-- os_info_logout_tty, init_login_list and exit_login_list of src/myfcp/fcp_os.c over the rings of
-- list.h: every node has an address, and the head is on the stack of os_info_logout_tty.
pub mod Built
pub mod Found
pub mod Held
pub mod Swept
pub mod Laws
mod Examples
use commlib.Base.{
  ℕ, zero, suc, ◌+◌, Bool, true, false, not, Option, none, some, List, [], ◌∷◌, ◌==◌, ◌&&◌,
  if◌then◌else◌,
}
use commlib.Ring.{Ptr, Memory, ListHead, init_list_head, list_add_tail, list_del, list_pop_front}
use commlib.Login.{
  Utmp, LoginInfo, Login, user_process, dead_process, node_of, Callback, closes, closed,
}

-- The links of the nodes and of the head, what stands in each node beside its links, and the
-- addresses that were given to `free`, the last one first.
pub record Heap : Type 0 where
  pub links : Memory
  pub node : Ptr → Login
  pub freed : List Ptr

-- What init_login_list does with a record for which `malloc` has given a node.
abbrev pub put_node : Ptr → Ptr → Login → Heap → Heap
put_node head p login h = record h {
  links = list_add_tail p head h.links;
  node = λ a. if a == p then login else h.node a;
}

abbrev pub is_passed : Utmp → Bool
is_passed r = not (r.ut_type == user_process) && not (r.ut_type == dead_process)

-- `malloc i` is the answer to call number i, `none` for NULL.
pub build_loop : (ℕ → Option Ptr) → Ptr → ℕ → List Utmp → Heap → Heap
build_loop malloc head i [] h = h
build_loop malloc head i (r ∷ rs) h = elim (is_passed r) [
  | true ↦ build_loop malloc head i rs h
  | false ↦ elim (malloc i) [
    | none ↦ build_loop malloc head (i + 1) rs h
    | some p ↦ build_loop malloc head (i + 1) rs (put_node head p (node_of r) h)
  ]
]

abbrev pub free_node : Ptr → Heap → Heap
free_node p h = record h { freed = p ∷ h.freed }

abbrev pub unlink : Ptr → Heap → Heap
unlink p h = record h { links = list_del p h.links }

-- The loop of exit_login_list from `pos` on, where `next` was read before the node was freed; `none`
-- is a round more than the fuel.
pub exit_loop : ℕ → Ptr → Ptr → Ptr → Heap → Option Heap
exit_loop zero head pos next h = none
exit_loop (suc n) head pos next h = elim (pos == head) [
  | true ↦ some h
  | false ↦ let h' = free_node pos (unlink pos h) in exit_loop n head next (h'.links next).next h'
]

pub exit_nodes : ℕ → Ptr → Heap → Option Heap
unfolding exit_loop
exit_nodes n head h = exit_loop n head (h.links head).next (h.links (h.links head).next).next h

-- The inner loop up to the node at which it breaks or returns: the outer `none` is a round more than
-- the fuel, the inner one the end of the list.
pub match_loop : ℕ → Ptr → Ptr → Ptr → Login → Heap → Option (Option Ptr)
match_loop zero head pos next login h = none
match_loop (suc n) head pos next login h = elim (pos == head) [
  | true ↦ some none
  | false ↦ elim (closes login (h.node pos)) [
    | true ↦ some (some pos)
    | false ↦ match_loop n head next (h.links next).next login h
  ]
]

pub match_node : ℕ → Ptr → Login → Heap → Option (Option Ptr)
unfolding match_loop
match_node n head login h =
    match_loop n head (h.links head).next (h.links (h.links head).next).next login h

-- `pNode->info.logouttime = pNodeout->info.logintime`.
abbrev pub set_logout : Ptr → Ptr → Heap → Heap
set_logout p q h = record h {
  node =
      λ a. if a == p then record (h.node p) { info = closed (h.node p) (h.node q) } else h.node a;
}

-- `list_del(pos)`, `free(pNode)` and `free(pNodeout)`.
abbrev pub drop_pair : Ptr → Ptr → Heap → Heap
drop_pair p q h = free_node q (free_node p (unlink q h))

abbrev pub after_exit {ℓ} : {U : Type ℓ} → U → Option Heap → Option (U × Heap)
after_exit u none = none
after_exit u (some h) = some (u, h)

module _ {ℓ} {U : Type ℓ} (callback : Callback U) (head : Ptr) where
  -- The `while` loop, in which `list_pop_front` unlinks a node, with the two calls of exit_login_list.
  -- The state, and the heap.
  pub pop_loop : ℕ → U → Heap → Option (U × Heap)
  unfolding match_node exit_nodes
  pop_loop zero u h = none
  pop_loop (suc n) u h = elim ((list_pop_front head h.links).0) [
    | none ↦ after_exit u (exit_nodes (suc n) head h)
    | some p ↦
        let h1 = record h { links = (list_pop_front head h.links).1 } in
        elim ((h1.node p).kind == user_process) [
          | false ↦ pop_loop n u (free_node p h1)
          | true ↦ elim (match_node (suc n) head (h1.node p) h1) [
            | none ↦ none
            | some none ↦ pop_loop n u h1
            | some (some q) ↦
                let h2 = set_logout p q h1 in
                elim ((callback (h2.node p).info u).1) [
                  | true ↦ after_exit (callback (h2.node p).info u).0 (exit_nodes (suc n) head h2)
                  | false ↦ pop_loop n (callback (h2.node p).info u).0 (drop_pair p q h2)
                ]
          ]
        ]
  ]

  -- `tmphead` is set to itself; what memory holds elsewhere before the call is `links` and `node`. The
  -- flag is whether the call returned 0.
  pub logout_tty :
      (ℕ → Option Ptr)
      → Memory
      → (Ptr → Login)
      → ℕ
      → Option (List Utmp)
      → U
      → Option ((U × Heap) × Bool)
  unfolding build_loop pop_loop
  logout_tty malloc links node fuel none u =
      some ((u, record { links = init_list_head head links; node = node; freed = [] }), false)
  logout_tty malloc links node fuel (some rs) u =
      let empty : Heap = record { links = init_list_head head links; node = node; freed = [] } in
      elim (pop_loop fuel u (build_loop malloc head 0 rs empty)) [
        | none ↦ none
        | some done ↦ some (done, true)
      ]
