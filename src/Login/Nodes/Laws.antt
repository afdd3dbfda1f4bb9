-- ===== src/Login/Nodes/Laws.antt =====
-- os_info_logout_tty of src/myfcp/fcp_os.c on the ring and on the list of the nodes.
use commlib.Base.{
  ℕ, suc, ◌+◌, ◌<◌, ◌≤◌, ◌≡◌, refl, ap, Bool, true, Option, some, List, [], ◌∷◌, arith, Bool-cases,
  inl, inr, length,
}
use commlib.Ring.{Ptr, Memory, init_list_head}
use commlib.Ring.Chain.{has, Distinct, IsRing}
use commlib.Ring.Insert.{init_list_head-IsRing}
use commlib.Login.{Utmp, Login, Callback, Sweep, init_login_list, login_nodes, os_info_logout_tty}
use commlib.Login.Nodes.{Heap, is_passed, build_loop, logout_tty}
use commlib.Login.Nodes.Built.{nodes_of, IsFresh, succeeds, Built, build_loop-Built}
use commlib.Login.Nodes.Found.{IsSafe}
use commlib.Login.Nodes.Swept.{pop_loop-Refines}

length-nodes_of : (node : Ptr → Login) (ps : List Ptr) → length (nodes_of node ps) ≡ length ps
length-nodes_of node [] = refl
length-nodes_of node (p ∷ ps) = ap suc (length-nodes_of node ps)

length-login_nodes :
    (alloc : ℕ → Bool) (i : ℕ) (rs : List Utmp) → length (login_nodes alloc i rs) ≤ length rs
unfolding login_nodes
length-login_nodes alloc i [] = omega arith
length-login_nodes alloc i (r ∷ rs) = elim (Bool-cases (is_passed r)) [
  | inl passed ↦ rw (login_nodes, passed) (omega (arith, length-login_nodes alloc i rs))
  | inr taken ↦ elim (Bool-cases (alloc i)) [
    | inl given ↦
        rw (login_nodes, taken, given) (omega (arith, length-login_nodes alloc (i + 1) rs))
    | inr full ↦ rw (login_nodes, taken, full) (omega (arith, length-login_nodes alloc (i + 1) rs))
  ]
]

module _ {ℓ} {U : Type ℓ} (callback : Callback U) (malloc : ℕ → Option Ptr) (head : Ptr)
    (links : Memory) (node : Ptr → Login) (rs : List Utmp) where
  abbrev empty : Heap
  empty = record { links = init_list_head head links; node = node; freed = [] }

  abbrev built : Heap
  built = build_loop malloc head 0 rs empty

  from_empty : (fresh : IsFresh malloc head) → Built malloc head fresh 0 rs empty [] built
  from_empty fresh =
      build_loop-Built malloc head fresh rs 0 empty [] (λ q among. ground (arith, among))
        (init_list_head-IsRing head links)

  -- The outcome of the call on the ring, beside that of the call on the list.
  pub record Outcome (fuel : ℕ) (u : U) : Type ℓ where
    pub sweep : Sweep U
    pub heap : Heap
    pub runs :
        logout_tty callback head malloc links node fuel (some rs) u
        ≡ some ((sweep.user, heap), true)
    pub ends : os_info_logout_tty callback (succeeds malloc) (some rs) u ≡ some (sweep, true)
    pub frees : sweep.freed ≡ nodes_of built.node heap.freed
    pub once : Distinct heap.freed
    pub given : (p : Ptr) → has p heap.freed ≡ true → (i : ℕ) × (malloc i ≡ some p)
    pub left : IsRing heap.links head []

  -- Where malloc gives fresh nodes and the fuel is above the number of records, os_info_logout_tty on
  -- the ring ends and returns 0 with the state that the list model gives; it frees the nodes that the
  -- list model frees, in that order, each once and each from malloc, and leaves an empty ring.
  pub logout_tty-os_info_logout_tty :
      (fuel : ℕ) (u : U) → IsFresh malloc head → length rs < fuel → Outcome fuel u
  unfolding logout_tty os_info_logout_tty init_login_list
  logout_tty-os_info_logout_tty fuel u fresh room =
      let b = from_empty fresh in
      let count = length-nodes_of built.node b.nodes in
      let size = length-login_nodes (succeeds malloc) 0 rs in
      let logins : nodes_of built.node b.nodes ≡ login_nodes (succeeds malloc) 0 rs = b.logins in
      let none_freed : built.freed ≡ [] = b.freed in
      let safe : IsSafe b.nodes head b.nodes built = record {
        ring = b.ring;
        listed = λ q among. among;
        given = λ q freed. ground (arith, rw none_freed at freed);
        once = rw none_freed tt;
        apart = λ q among. rw none_freed refl;
      } in
      let same =
        pop_loop-Refines callback b.nodes head built.node
          (length (login_nodes (succeeds malloc) 0 rs)) fuel u b.nodes built safe (λ q among. refl)
          (omega (arith, count, ap length logins))
          (omega (arith, room, count, size, ap length logins)) in
      let from_start = rw (none_freed, logins) at same.ends in
      record {
        sweep = same.sweep;
        heap = same.heap;
        runs = rw (logout_tty, same.runs) refl;
        ends = rw (os_info_logout_tty, init_login_list, from_start) refl;
        frees = same.frees;
        once = same.safe.once;
        given = λ p freed. b.given p (same.safe.given p freed);
        left = same.safe.ring;
      }
