-- ===== src/Login/Nodes/Swept.antt =====
-- os_info_logout_tty over its ring is os_info_logout_tty over the list of the nodes.
use commlib.Base.{
  ℕ, zero, suc, ◌<◌, ◌≤◌, ◌≡◌, refl, sym, ap, true, false, Option, none, some, List, [], ◌∷◌, ◌++◌,
  ◌==◌, arith, Bool-cases, inl, inr, length, length-append,
}
use commlib.Ring.{Ptr, list_pop_front}
use commlib.Ring.Chain.{has, has-append}
use commlib.Ring.Remove.{list_pop_front-Popped}
use commlib.Login.{
  Login, Callback, Sweep, user_process, closed, find_logout, logout_loop, exit_login_list,
}
use commlib.Login.Nodes.{
  Heap, free_node, set_logout, drop_pair, after_exit, exit_nodes, match_node, pop_loop,
}
use commlib.Login.Nodes.Built.{nodes_of}
use commlib.Login.Nodes.Found.{
  Matches, nothing, at_node, match_node-Matches, IsSafe, free_node-IsSafe, exit_nodes-IsSafe,
}
use commlib.Login.Nodes.Held.{
  Holds, Matches-login, pop_head, drop_pair-IsSafe, told_info, drop_pair-Holds,
}

module _ {ℓ} {U : Type ℓ} (callback : Callback U) (all : List Ptr) (head : Ptr)
    (node : Ptr → Login) where
  -- The two give the same state, and have freed the same nodes in the same order.
  pub record Same (abstract : Option (Sweep U)) (detailed : Option (U × Heap)) : Type ℓ where
    pub sweep : Sweep U
    pub heap : Heap
    pub ends : abstract ≡ some sweep
    pub runs : detailed ≡ some (sweep.user, heap)
    pub frees : sweep.freed ≡ nodes_of node heap.freed
    pub safe : IsSafe all head [] heap

  loop_end :
      (m : ℕ) (u : U) (freed : List Login)
      → logout_loop callback m u freed [] ≡ some (record { user = u; freed = freed })
  unfolding logout_loop
  loop_end zero u freed = refl
  loop_end (suc m) u freed = refl

  exits :
      (n : ℕ) (u : U) (ps : List Ptr) (h : Heap) (abstract : Option (Sweep U))
      → IsSafe all head ps h
      → length ps < n
      → abstract
        ≡ some (record {
          user = u;
          freed = exit_login_list (nodes_of node h.freed) (nodes_of node ps);
        })
      → Same abstract (after_exit u (exit_nodes n head h))
  exits n u ps h abstract safe fuel e =
      let (h', ran, done, freed) = exit_nodes-IsSafe node all n head ps h safe fuel in
      record {
        sweep = record { user = u; freed = _ };
        heap = h';
        ends = e;
        runs = rw ran;
        frees = sym freed;
        safe = done;
      }

  abbrev pub Refines : ℕ → ℕ → U → List Ptr → Heap → Type ℓ
  Refines m n u ps h =
      Same (logout_loop callback m u (nodes_of node h.freed) (nodes_of node ps))
        (pop_loop callback head n u h)

  -- What the loop does with the nodes behind a login that has been taken out, from what the search
  -- found. `h` is the heap without the login.
  abbrev with_match : ℕ → Ptr → U → Heap → Option (Option Ptr) → Option (U × Heap)
  with_match n p u h none = none
  with_match n p u h (some none) = pop_loop callback head n u h
  with_match n p u h (some (some q)) = elim ((callback ((set_logout p q h).node p).info u).1) [
    | true ↦
        after_exit (callback ((set_logout p q h).node p).info u).0
          (exit_nodes (suc n) head (set_logout p q h))
    | false ↦
        pop_loop callback head n (callback ((set_logout p q h).node p).info u).0
          (drop_pair p q (set_logout p q h))
  ]

  abbrev with_logout :
      ℕ → Login → U → List Login → List Login → Option (Login × List Login) → Option (Sweep U)
  with_logout m login u freed rest none = logout_loop callback m u freed rest
  with_logout m login u freed rest (some (out, others)) = elim ((callback (closed login out) u).1) [
    | true ↦
        some
          (record { user = (callback (closed login out) u).0; freed = exit_login_list freed rest })
    | false ↦ logout_loop callback m (callback (closed login out) u).0 (out ∷ login ∷ freed) others
  ]

  module _ (m n : ℕ)
      (later : (u : U) (ps : List Ptr) (h : Heap)
        → IsSafe all head ps h
        → Holds node ps h
        → length ps ≤ m
        → length ps < n
        → Refines m n u ps h) where
    match_step :
        (p : Ptr) (u : U) (ps : List Ptr) (h : Heap) (found : Option (Option Ptr))
        (logout : Option (Login × List Login))
        → IsSafe all head ps h
        → Holds node (p ∷ ps) h
        → has p ps ≡ false
        → has p h.freed ≡ false
        → has p all ≡ true
        → length ps ≤ m
        → length ps < n
        → Matches node (node p) ps found logout
        → Same
            (with_logout m (node p) u (nodes_of node h.freed) (nodes_of node ps) logout)
            (with_match n p u h found)
    match_step p u ps h found logout safe holds out new own rounds fuel nothing =
        later u ps h safe (λ q among. holds q (ground (arith, among))) rounds fuel
    match_step p u ps h found logout safe holds out new own rounds fuel
          (at_node before q behind e) =
        let among_q : has q ps ≡ true = rw e (ground (arith, has-append q before (q ∷ behind))) in
        let told : ((set_logout p q h).node p).info ≡ closed (node p) (node q) =
          told_info node p q h (holds p (ground arith)) (holds q (ground (arith, among_q))) in
        let logged_out : IsSafe all head ps (set_logout p q h) = record {
          ring = safe.ring;
          listed = safe.listed;
          given = safe.given;
          once = safe.once;
          apart = safe.apart;
        } in
        elim (Bool-cases (callback (closed (node p) (node q)) u).1) [
          | inl stops ↦
              rw (with_match, told, stops, with_logout, told)
                (exits (suc n) (callback (closed (node p) (node q)) u).0 ps (set_logout p q h) _
                  logged_out (omega (arith, fuel)) refl)
          | inr goes ↦
              let p_out : has p (before ++ (q ∷ behind)) ≡ false = rw e at out in
              let split = length-append before (q ∷ behind) in
              let joined = length-append before behind in
              let size : length ps ≡ length (before ++ (q ∷ behind)) = ap length e in
              rw (with_match, told, goes, with_logout, told)
                (later (callback (closed (node p) (node q)) u).0 (before ++ behind)
                  (drop_pair p q (set_logout p q h))
                  (drop_pair-IsSafe all head p q before behind (set_logout p q h)
                    (rw e at logged_out) p_out new own)
                  (drop_pair-Holds node p q before behind h holds e p_out)
                  (omega (arith, rounds, split, joined, size))
                  (omega (arith, fuel, split, joined, size)))
        ]

  pop_step :
      (n : ℕ) (p : Ptr) (u : U) (h : Heap)
      → (list_pop_front head h.links).0 ≡ some p
      → ((h.node p).kind == user_process) ≡ true
      → let h1 : Heap = record h { links = (list_pop_front head h.links).1 } in
        pop_loop callback head (suc n) u h
        ≡ with_match n p u h1 (match_node (suc n) head (h.node p) h1)
  unfolding pop_loop
  pop_step n p u h taken login = rw (pop_loop, taken, login) refl

  logout_step :
      (m : ℕ) (login : Login) (u : U) (freed rest : List Login)
      → (login.kind == user_process) ≡ true
      → logout_loop callback (suc m) u freed (login ∷ rest)
        ≡ with_logout m login u freed rest (find_logout login rest)
  unfolding logout_loop
  logout_step m login u freed rest is = rw (logout_loop, is) refl

  pub pop_loop-Refines :
      (m n : ℕ) (u : U) (ps : List Ptr) (h : Heap)
      → IsSafe all head ps h
      → Holds node ps h
      → length ps ≤ m
      → length ps < n
      → Refines m n u ps h
  unfolding pop_loop logout_loop
  pop_loop-Refines m zero u ps h safe holds rounds fuel = absurd (omega (arith, fuel))
  pop_loop-Refines m (suc n) u [] h safe holds rounds fuel =
      let none_left : list_pop_front head h.links ≡ (none, h.links) =
        list_pop_front-Popped h.links head [] safe.ring in
      rw (pop_loop, none_left)
        (exits (suc n) u [] h _ safe fuel
          (unfold exit_login_list in loop_end m u (nodes_of node h.freed)))
  pop_loop-Refines zero (suc n) u (p ∷ ps) h safe holds rounds fuel = absurd (omega (arith, rounds))
  pop_loop-Refines (suc m) (suc n) u (p ∷ ps) h safe holds rounds fuel =
      let (taken, popped, out, new, own) = pop_head all head p ps h safe in
      let h1 : Heap = record h { links = (list_pop_front head h.links).1 } in
      let at_p : h.node p ≡ node p = holds p (ground arith) in
      let rest_held : Holds node ps h1 = λ q among. holds q (ground (arith, among)) in
      let fewer : length ps ≤ m = omega (arith, rounds) in
      let room : length ps < n = omega (arith, fuel) in
      elim (Bool-cases ((node p).kind == user_process)) [
        | inr logout ↦
            rw (pop_loop, taken, at_p, logout, logout_loop)
              (pop_loop-Refines m n u ps (free_node p h1)
                (free_node-IsSafe all head p ps h1 popped out new own) rest_held fewer room)
        | inl login ↦
            let found =
              match_node-Matches (suc n) head (h.node p) ps h1 popped.ring (omega (arith, room)) in
            rw
              (
                pop_step n p u h taken (rw at_p login),
                logout_step m (node p) u (nodes_of node h.freed) (nodes_of node ps) login,
              )
              (match_step m n (pop_loop-Refines m n) p u ps h1 _ _ popped holds out new own fewer
                room (Matches-login node p ps h1 at_p rest_held found))
      ]
