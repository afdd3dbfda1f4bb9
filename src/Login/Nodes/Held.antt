-- ===== src/Login/Nodes/Held.antt =====
-- What the nodes of the ring hold while logins and logouts are taken out and freed.
use commlib.Base.{◌≡◌, refl, ap₂, true, false, Option, some, List, [], ◌∷◌, ◌++◌, ◌==◌, arith}
use commlib.Ring.{Ptr, list_pop_front}
use commlib.Ring.Chain.{has, has-append, apart}
use commlib.Ring.Around.{Distinct-drop}
use commlib.Ring.Remove.{list_del-drop, list_pop_front-Popped}
use commlib.Login.{Login, closed, find_logout}
use commlib.Login.Nodes.{Heap, free_node, unlink, set_logout, drop_pair}
use commlib.Login.Nodes.Built.{nodes_of}
use commlib.Login.Nodes.Found.{Matches, nothing, at_node, IsSafe, free_node-IsSafe}

-- The nodes of the list hold what `node` says.
abbrev pub Holds : (Ptr → Login) → List Ptr → Heap → Type 0
Holds node ps h = (q : Ptr) → has q ps ≡ true → h.node q ≡ node q

nodes_of-Holds :
    (node : Ptr → Login) (ps : List Ptr) (h : Heap)
    → Holds node ps h
    → nodes_of h.node ps ≡ nodes_of node ps
nodes_of-Holds node [] h holds = refl
nodes_of-Holds node (p ∷ ps) h holds =
    ap₂ (λ (x : Login) (xs : List Login). x ∷ xs) (holds p (ground arith))
      (nodes_of-Holds node ps h (λ q among. holds q (ground (arith, among))))

Matches-node :
    (node : Ptr → Login) (login : Login) (ps : List Ptr) (h : Heap) {found : Option (Option Ptr)}
    {logout : Option (Login × List Login)}
    → Holds node ps h
    → Matches h.node login ps found logout
    → Matches node login ps found logout
Matches-node node login ps h holds nothing = nothing
Matches-node node login ps h holds (at_node before q behind e) =
    let at_q : h.node q ≡ node q =
      holds q (rw e (ground (arith, has-append q before (q ∷ behind)))) in
    let others : nodes_of h.node (before ++ behind) ≡ nodes_of node (before ++ behind) =
      nodes_of-Holds node (before ++ behind) h (λ r among. holds r (
        rw e
          (ground (arith, among, has-append r before (q ∷ behind), has-append r before behind)))) in
    rw (at_q, others) (at_node before q behind e)

pub Matches-login :
    (node : Ptr → Login) (p : Ptr) (ps : List Ptr) (h : Heap) {found : Option (Option Ptr)}
    → h.node p ≡ node p
    → Holds node ps h
    → Matches h.node (h.node p) ps found (find_logout (h.node p) (nodes_of h.node ps))
    → Matches node (node p) ps found (find_logout (node p) (nodes_of node ps))
Matches-login node p ps h at_p holds m =
    let rest = nodes_of-Holds node ps h holds in
    Matches-node node (node p) ps h holds (rw (at_p, rest) at m)

-- The node that list_pop_front takes.
pub pop_head :
    (all : List Ptr) (head p : Ptr) (ps : List Ptr) (h : Heap)
    → IsSafe all head (p ∷ ps) h
    → ((list_pop_front head h.links).0 ≡ some p)
      × IsSafe all head ps (record h { links = (list_pop_front head h.links).1 })
      × (has p ps ≡ false)
      × (has p h.freed ≡ false)
      × (has p all ≡ true)
pop_head all head p ps h safe =
    let popped = list_pop_front-Popped h.links head (p ∷ ps) safe.ring in
    (
      popped.0,
      record {
        ring = popped.1;
        listed = λ q among. safe.listed q (ground (arith, among));
        given = safe.given;
        once = safe.once;
        apart = λ q among. safe.apart q (ground (arith, among));
      },
      ground (arith, safe.ring.distinct.1),
      safe.apart p (ground arith),
      safe.listed p (ground arith),
    )

-- A login and its logout are taken out and freed.
pub drop_pair-IsSafe :
    (all : List Ptr) (head p q : Ptr) (before behind : List Ptr) (h : Heap)
    → IsSafe all head (before ++ (q ∷ behind)) h
    → has p (before ++ (q ∷ behind)) ≡ false
    → has p h.freed ≡ false
    → has p all ≡ true
    → IsSafe all head (before ++ behind) (drop_pair p q h)
drop_pair-IsSafe all head p q before behind h safe out new own =
    let left = Distinct-drop q before behind safe.ring.distinct.1 in
    let among_q : has q (before ++ (q ∷ behind)) ≡ true =
      ground (arith, has-append q before (q ∷ behind)) in
    let unlinked : IsSafe all head (before ++ behind) (unlink q h) = record {
      ring = list_del-drop h.links head q before behind safe.ring;
      listed = λ r among.
          safe.listed r
            (ground (arith, among, has-append r before (q ∷ behind), has-append r before behind));
      given = safe.given;
      once = safe.once;
      apart = λ r among.
          safe.apart r
            (ground (arith, among, has-append r before (q ∷ behind), has-append r before behind));
    } in
    let p_out : has p (before ++ behind) ≡ false =
      ground (arith, out, has-append p before (q ∷ behind), has-append p before behind) in
    let q_new : has q (p ∷ h.freed) ≡ false =
      ground (arith, apart q p (before ++ (q ∷ behind)) among_q out, safe.apart q among_q) in
    free_node-IsSafe all head q (before ++ behind) (free_node p (unlink q h))
      (free_node-IsSafe all head p (before ++ behind) (unlink q h) unlinked p_out new own) left.1
      q_new (safe.listed q among_q)

module _ (node : Ptr → Login) where
  pub told_info :
      (p q : Ptr) (h : Heap)
      → h.node p ≡ node p
      → h.node q ≡ node q
      → ((set_logout p q h).node p).info ≡ closed (node p) (node q)
  told_info p q h at_p at_q = let same : (p == p) ≡ true = ground arith in rw (same, at_p, at_q)

  pub drop_pair-Holds :
      (p q : Ptr) (before behind : List Ptr) (h : Heap) {ps : List Ptr}
      → Holds node (p ∷ ps) h
      → ps ≡ before ++ (q ∷ behind)
      → has p (before ++ (q ∷ behind)) ≡ false
      → Holds node (before ++ behind) (drop_pair p q (set_logout p q h))
  drop_pair-Holds p q before behind h holds e out r among =
      let here : has r (before ++ (q ∷ behind)) ≡ true =
        ground (arith, among, has-append r before (q ∷ behind), has-append r before behind) in
      let other : (r == p) ≡ false = apart r p (before ++ (q ∷ behind)) here out in
      rw other (holds r (rw e (ground (arith, here))))
