-- ===== src/Login/Nodes/Found.antt =====
-- What the inner loop of os_info_logout_tty finds, and what exit_login_list frees.
use commlib.Base.{
  ℕ, zero, suc, ◌<◌, ◌≡◌, ◌∙◌, refl, sym, ap, true, false, Option, none, some, List, [], ◌∷◌, ◌++◌,
  ◌==◌, arith, Bool-cases, inl, inr, length,
}
use commlib.Ring.{Ptr, Memory, list_del}
use commlib.Ring.Chain.{Chain, apart, has, Distinct, IsRing}
use commlib.Ring.Remove.{list_del-drop}
use commlib.Login.{Login, closes, find_logout, exit_login_list}
use commlib.Login.Nodes.{Heap, free_node, unlink, exit_loop, exit_nodes, match_loop, match_node}
use commlib.Login.Nodes.Built.{nodes_of}

-- The inner loop and find_logout on the nodes that are left: both find nothing, or the loop finds the
-- node at which the list is taken apart.
pub data Matches (node : Ptr → Login) (login : Login) (ps : List Ptr)
    : Option (Option Ptr) → Option (Login × List Login) → Type 0 where
  nothing : Matches node login ps (some none) none
  at_node :
      (before : List Ptr) (q : Ptr) (behind : List Ptr)
      → ps ≡ before ++ (q ∷ behind)
      → Matches node login ps (some (some q)) (some (node q, nodes_of node (before ++ behind)))

next_node :
    {node : Ptr → Login} {login : Login} (p : Ptr) {ps : List Ptr} {found : Option (Option Ptr)}
    {logout : Option (Login × List Login)}
    → Matches node login ps found logout
    → Matches node login
        (p ∷ ps)
        found
        (elim logout [ none ↦ none | some (o, others) ↦ some (o, node p ∷ others) ])
next_node p nothing = nothing
next_node p (at_node before q behind e) =
    at_node (p ∷ before) q behind (ap (λ (xs : List Ptr). p ∷ xs) e)

match_loop-Matches :
    (n : ℕ) (a head : Ptr) (login : Login) (ps : List Ptr) (h : Heap)
    → Chain h.links a ps head
    → has head ps ≡ false
    → length ps < n
    → Matches h.node login ps
        (match_loop n head (h.links a).next (h.links (h.links a).next).next login h)
        (find_logout login (nodes_of h.node ps))
unfolding match_loop find_logout
match_loop-Matches zero a head login ps h c out fuel = absurd (omega (arith, fuel))
match_loop-Matches (suc n) a head login [] h c out fuel =
    let home : ((h.links a).next == head) ≡ true = ground (arith, c.0) in
    rw (match_loop, home) nothing
match_loop-Matches (suc n) a head login (p ∷ ps) h c out fuel =
    let here : (h.links a).next ≡ p = c.0.0 in
    let away : (p == head) ≡ false = ground (arith, out) in
    elim (Bool-cases (closes login (h.node p))) [
      | inl fits ↦ rw (match_loop, here, away, here, fits, here, find_logout) (at_node [] p ps refl)
      | inr other ↦
          rw (match_loop, here, away, here, other, here, find_logout)
            (next_node p (
              match_loop-Matches n p head login ps h c.1 (ground (arith, out))
                (omega (arith, fuel))))
    ]

pub match_node-Matches :
    (n : ℕ) (head : Ptr) (login : Login) (ps : List Ptr) (h : Heap)
    → IsRing h.links head ps
    → length ps < n
    → Matches h.node login ps (match_node n head login h) (find_logout login (nodes_of h.node ps))
unfolding match_node
match_node-Matches n head login ps h r fuel =
    match_loop-Matches n head head login ps h r.chain r.distinct.0 fuel

-- The nodes of the list and those that were freed: they are among `all`, none was freed twice, and
-- none is freed that is in the list.
pub record IsSafe (all : List Ptr) (head : Ptr) (ps : List Ptr) (h : Heap) : Type 0 where
  pub ring : IsRing h.links head ps
  pub listed : (q : Ptr) → has q ps ≡ true → has q all ≡ true
  pub given : (q : Ptr) → has q h.freed ≡ true → has q all ≡ true
  pub once : Distinct h.freed
  pub apart : (q : Ptr) → has q ps ≡ true → has q h.freed ≡ false

-- A node that is not in the list any more is freed.
pub free_node-IsSafe :
    (all : List Ptr) (head p : Ptr) (ps : List Ptr) (h : Heap)
    → IsSafe all head ps h
    → has p ps ≡ false
    → has p h.freed ≡ false
    → has p all ≡ true
    → IsSafe all head ps (free_node p h)
free_node-IsSafe all head p ps h safe out new own = record {
  ring = safe.ring;
  listed = safe.listed;
  given = λ q freed. elim (Bool-cases (q == p)) [
    | inl same ↦ ground (arith, own, same)
    | inr other ↦ safe.given q (ground (arith, freed, other))
  ];
  once = (new, safe.once);
  apart = λ q among. ground (arith, safe.apart q among, apart q p ps among out);
}

first_node : Ptr → List Ptr → Ptr
first_node head [] = head
first_node head (p ∷ ps) = p

next-first_node :
    (links : Memory) (a head : Ptr) (ps : List Ptr)
    → Chain links a ps head
    → (links a).next ≡ first_node head ps
unfolding first_node
next-first_node links a head [] c = c.0
next-first_node links a head (p ∷ ps) c = c.0.0

exit_step :
    (n : ℕ) (head p : Ptr) (ps : List Ptr) (h : Heap)
    → IsRing h.links head (p ∷ ps)
    → exit_nodes (suc n) head h ≡ exit_nodes n head (free_node p (unlink p h))
unfolding exit_nodes exit_loop
exit_step n head p ps h r =
    let here : (h.links head).next ≡ p = r.chain.0.0 in
    let away : (p == head) ≡ false = ground (arith, r.distinct.0) in
    let rest = list_del-drop h.links head p [] ps r in
    let next : (h.links p).next ≡ (list_del p h.links head).next =
      next-first_node h.links p head ps r.chain.1
      ∙ sym (next-first_node (list_del p h.links) head head ps rest.chain) in
    rw (exit_nodes, here, exit_loop, away, here, next) refl

pub exit_nodes-IsSafe :
    (node : Ptr → Login) (all : List Ptr) (n : ℕ) (head : Ptr) (ps : List Ptr) (h : Heap)
    → IsSafe all head ps h
    → length ps < n
    → (h' : Heap) × (exit_nodes n head h ≡ some h')
      × IsSafe all head [] h'
      × (nodes_of node h'.freed ≡ exit_login_list (nodes_of node h.freed) (nodes_of node ps))
unfolding exit_login_list exit_nodes exit_loop
exit_nodes-IsSafe node all zero head ps h safe fuel = absurd (omega (arith, fuel))
exit_nodes-IsSafe node all (suc n) head [] h safe fuel =
    let home : ((h.links head).next == head) ≡ true = ground (arith, safe.ring.chain.0) in
    (h, rw (exit_nodes, exit_loop, home), safe, refl)
exit_nodes-IsSafe node all (suc n) head (p ∷ ps) h safe fuel =
    let unlinked : IsSafe all head ps (unlink p h) = record {
      ring = list_del-drop h.links head p [] ps safe.ring;
      listed = λ q among. safe.listed q (ground (arith, among));
      given = safe.given;
      once = safe.once;
      apart = λ q among. safe.apart q (ground (arith, among));
    } in
    let freed =
      free_node-IsSafe all head p ps (unlink p h) unlinked (ground (arith, safe.ring.distinct.1))
        (safe.apart p (ground arith)) (safe.listed p (ground arith)) in
    let later =
      exit_nodes-IsSafe node all n head ps (free_node p (unlink p h)) freed (omega (arith, fuel)) in
    (later.0, exit_step n head p ps h safe.ring ∙ later.1, later.2, later.3)
