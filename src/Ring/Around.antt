-- ===== src/Ring/Around.antt =====
-- A ring around one of its nodes.
use commlib.Base.{◌≡◌, true, false, List, [], ◌∷◌, ◌++◌, ◌||◌, ◌==◌, arith}
use commlib.Ring.{Ptr, Memory}
use commlib.Ring.Chain.{Chain, has, Distinct, IsRing, has-append, Chain-split, first_in, last_in}

pub Distinct-drop :
    (x : Ptr) (xs ys : List Ptr)
    → Distinct (xs ++ (x ∷ ys))
    → Distinct (xs ++ ys) × (has x (xs ++ ys) ≡ false)
Distinct-drop x [] ys d = (d.1, d.0)
Distinct-drop x (y ∷ xs) ys d =
    let r = Distinct-drop x xs ys d.1 in
    (
      (ground (arith, has-append y xs (x ∷ ys), has-append y xs ys), r.0),
      ground (arith, has-append y xs (x ∷ ys), r.1),
    )

-- Around a node of the list.
disjoint : (q : Ptr) (xs zs : List Ptr) → Distinct (xs ++ zs) → has q xs ≡ true → has q zs ≡ false
disjoint q [] zs d i = cc
disjoint q (x ∷ xs) zs d i = ground (arith, disjoint q xs zs d.1, has-append x xs zs, d.0)

Distinct-left : (xs zs : List Ptr) → Distinct (xs ++ zs) → Distinct xs
Distinct-left [] zs d = tt
Distinct-left (x ∷ xs) zs d = (ground (arith, has-append x xs zs, d.0), Distinct-left xs zs d.1)

Distinct-right : (xs zs : List Ptr) → Distinct (xs ++ zs) → Distinct zs
Distinct-right [] zs d = d
Distinct-right (x ∷ xs) zs d = Distinct-right xs zs d.1

-- A node `p` of a ring, with what stands before it and behind it.
pub record Around (h : Memory) (head p : Ptr) (xs ys : List Ptr) : Type 0 where
  pub before : Chain h head xs p
  pub after : Chain h p ys head
  pub front : Distinct (head ∷ xs)
  pub back : Distinct ys
  pub head_out : has head ys ≡ false
  pub self_out : has p ys ≡ false
  pub prev_in : has (h p).prev (head ∷ xs) ≡ true
  pub next_in : (has (h p).next ys || ((h p).next == head)) ≡ true
  pub split : (q : Ptr) → has q (head ∷ xs) ≡ true → has q (p ∷ ys) ≡ false

pub IsRing-Around :
    (h : Memory) (head p : Ptr) (xs ys : List Ptr)
    → IsRing h head (xs ++ (p ∷ ys))
    → Around h head p xs ys
IsRing-Around h head p xs ys r =
    let c = Chain-split h head p head xs ys r.chain in
    let d = Distinct-right xs (p ∷ ys) r.distinct.1 in
    record {
      before = c.0;
      after = c.1;
      front = Distinct-left (head ∷ xs) (p ∷ ys) r.distinct;
      back = d.1;
      head_out = ground (arith, has-append head xs (p ∷ ys), r.distinct.0);
      self_out = d.0;
      prev_in = last_in h head p xs c.0;
      next_in = ground (arith, first_in h p head ys c.1, has-append (h p).next ys (head ∷ []));
      split = λ q i. disjoint q (head ∷ xs) (p ∷ ys) r.distinct i;
    }
