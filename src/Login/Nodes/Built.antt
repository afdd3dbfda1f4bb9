-- ===== src/Login/Nodes/Built.antt =====
-- The ring that init_login_list makes is the list of its nodes.
use commlib.Base.{
  ℕ, ◌+◌, ◌<◌, ◌≡◌, ◌∙◌, refl, sym, ap, ap₂, Bool, true, false, Option, none, some, List, [], ◌∷◌,
  ◌++◌, ◌==◌, arith, Bool-cases, Option-cases, inl, inr, append_assoc, append-nil, if◌then◌else◌,
}
use commlib.Ring.{Ptr}
use commlib.Ring.Chain.{has, IsRing, has-append}
use commlib.Ring.Insert.{list_add_tail-end}
use commlib.Login.{Utmp, Login, node_of, login_nodes}
use commlib.Login.Nodes.{Heap, put_node, is_passed, build_loop}

abbrev pub nodes_of : (Ptr → Login) → List Ptr → List Login
nodes_of node [] = []
nodes_of node (p ∷ ps) = node p ∷ nodes_of node ps

pub nodes_of-append :
    (node : Ptr → Login) (ps qs : List Ptr)
    → nodes_of node (ps ++ qs) ≡ nodes_of node ps ++ nodes_of node qs
nodes_of-append node [] qs = refl
nodes_of-append node (p ∷ ps) qs =
    ap (λ (xs : List Login). node p ∷ xs) (nodes_of-append node ps qs)

-- A node that is not among `ps` may be written.
pub nodes_of_other :
    (node : Ptr → Login) (p : Ptr) (login : Login) (ps : List Ptr)
    → has p ps ≡ false
    → nodes_of (λ a. if a == p then login else node a) ps ≡ nodes_of node ps
nodes_of_other node p login [] h = refl
nodes_of_other node p login (q ∷ ps) h =
    ap₂ (λ (x : Login) (xs : List Login). x ∷ xs) (ground arith)
      (nodes_of_other node p login ps (ground arith))

-- What malloc(3) promises: no two answers are the same node, and none is the head on the stack.
pub record IsFresh (malloc : ℕ → Option Ptr) (head : Ptr) : Type 0 where
  pub once : (i j : ℕ) (p : Ptr) → malloc i ≡ some p → malloc j ≡ some p → i ≡ j
  pub apart : (i : ℕ) (p : Ptr) → malloc i ≡ some p → (p == head) ≡ false

abbrev pub succeeds : (ℕ → Option Ptr) → ℕ → Bool
succeeds malloc i = elim (malloc i) [ none ↦ false | some p ↦ true ]

module _ (malloc : ℕ → Option Ptr) (head : Ptr) (fresh : IsFresh malloc head) where
  -- The nodes are answers of earlier calls.
  abbrev IsEarlier : ℕ → List Ptr → Type 0
  IsEarlier i ps = (q : Ptr) → has q ps ≡ true → (j : ℕ) × (j < i) × (malloc j ≡ some q)

  fresh_node :
      (i : ℕ) (p : Ptr) (ps : List Ptr)
      → IsEarlier i ps
      → malloc i ≡ some p
      → has p (head ∷ ps) ≡ false
  fresh_node i p ps early e = elim (Bool-cases (has p ps)) [
    | inr out ↦ ground (arith, fresh.apart i p e)
    | inl among ↦
        let (j, less, f) = early p among in absurd (omega (arith, less, fresh.once i j p e f))
  ]

  -- The ring after the loop, whose nodes are those before it and one for each record that got one.
  pub record Built (i : ℕ) (rs : List Utmp) (before : Heap) (ps : List Ptr) (h : Heap)
      : Type 0 where
    pub nodes : List Ptr
    pub ring : IsRing h.links head nodes
    pub logins :
        nodes_of h.node nodes ≡ nodes_of before.node ps ++ login_nodes (succeeds malloc) i rs
    pub freed : h.freed ≡ before.freed
    pub given : (q : Ptr) → has q nodes ≡ true → (j : ℕ) × (malloc j ≡ some q)

  other_records :
      {i j : ℕ} {rs ss : List Utmp} {before h : Heap} {ps : List Ptr}
      → login_nodes (succeeds malloc) i rs ≡ login_nodes (succeeds malloc) j ss
      → Built j ss before ps h
      → Built i rs before ps h
  other_records {before = before} {ps = ps} e b = record {
    nodes = b.nodes;
    ring = b.ring;
    logins = b.logins ∙ ap (λ (xs : List Login). nodes_of before.node ps ++ xs) (sym e);
    freed = b.freed;
    given = b.given;
  }

  later_call : (i : ℕ) (ps : List Ptr) → IsEarlier i ps → IsEarlier (i + 1) ps
  later_call i ps early q among = let (j, less, e) = early q among in (j, omega (arith, less), e)

  with_new :
      (i : ℕ) (p : Ptr) (ps : List Ptr)
      → IsEarlier i ps
      → malloc i ≡ some p
      → IsEarlier (i + 1) (ps ++ p ∷ [])
  with_new i p ps early e q among = elim (Bool-cases (has q ps)) [
    | inl old ↦ later_call i ps early q old
    | inr out ↦
        let same : q ≡ p = ground (arith, has-append q ps (p ∷ [])) in
        (i, omega arith, e ∙ ap some (sym same))
  ]

  put_node-nodes :
      (p : Ptr) (login : Login) (h : Heap) (ps : List Ptr)
      → has p ps ≡ false
      → nodes_of (put_node head p login h).node (ps ++ p ∷ []) ≡ nodes_of h.node ps ++ login ∷ []
  put_node-nodes p login h ps out =
      nodes_of-append (put_node head p login h).node ps (p ∷ [])
      ∙ ap₂ (λ (xs : List Login) (x : Login). xs ++ x ∷ []) (nodes_of_other h.node p login ps out)
          (ground arith)

  -- What the nodes of a heap with one more node make of the heap before it.
  from_new :
      (i : ℕ) (r : Utmp) (rs : List Utmp) (p : Ptr) (h after : Heap) (ps : List Ptr)
      → has p ps ≡ false
      → login_nodes (succeeds malloc) i (r ∷ rs)
        ≡ node_of r ∷ login_nodes (succeeds malloc) (i + 1) rs
      → Built (i + 1) rs (put_node head p (node_of r) h) (ps ++ p ∷ []) after
      → Built i (r ∷ rs) h ps after
  from_new i r rs p h after ps out e b = record {
    nodes = b.nodes;
    ring = b.ring;
    logins =
        b.logins
        ∙ ap (λ (xs : List Login). xs ++ login_nodes (succeeds malloc) (i + 1) rs)
            (put_node-nodes p (node_of r) h ps out)
        ∙ append_assoc (nodes_of h.node ps) (node_of r ∷ [])
            (login_nodes (succeeds malloc) (i + 1) rs)
        ∙ ap (λ (xs : List Login). nodes_of h.node ps ++ xs) (sym e);
    freed = b.freed;
    given = b.given;
  }

  pub build_loop-Built :
      (rs : List Utmp) (i : ℕ) (h : Heap) (ps : List Ptr)
      → IsEarlier i ps
      → IsRing h.links head ps
      → Built i rs h ps (build_loop malloc head i rs h)
  unfolding build_loop login_nodes
  build_loop-Built [] i h ps early ring = record {
    nodes = ps;
    ring = ring;
    logins = sym (append-nil (nodes_of h.node ps));
    freed = refl;
    given = λ q among. let (j, less, e) = early q among in (j, e);
  }
  build_loop-Built (r ∷ rs) i h ps early ring = elim (Bool-cases (is_passed r)) [
    | inl passed ↦
        rw (build_loop, passed)
          (other_records (rw (login_nodes, passed)) (build_loop-Built rs i h ps early ring))
    | inr taken ↦ elim (Option-cases (malloc i)) [
      | inl full ↦
          rw (build_loop, taken, full)
            (other_records (rw (login_nodes, taken, succeeds, full))
              (build_loop-Built rs (i + 1) h ps (later_call i ps early) ring))
      | inr (p, e) ↦
          let new = fresh_node i p ps early e in
          rw (build_loop, taken, e)
            (from_new i r rs p h _ ps (ground (arith, new)) (rw (login_nodes, taken, succeeds, e)) (
              build_loop-Built rs (i + 1) (put_node head p (node_of r) h) (ps ++ p ∷ [])
                (with_new i p ps early e) (list_add_tail-end h.links head p ps ring new)))
    ]
  ]
