-- ===== src/Ring/Sequence.antt =====
-- Calls of src/myfcp/list.h one after the other on one list.
use commlib.Base.{
  ℕ, ◌<◌, ◌≡◌, refl, ap, ap₂, false, Option, none, some, List, [], ◌∷◌, ◌++◌, length,
}
use commlib.Ring.{
  Ptr, Memory, init_list_head, list_add, list_add_tail, list_del, list_replace, list_pop_front,
  list_for_each,
}
use commlib.Ring.Chain.{has, IsRing}
use commlib.Ring.Insert.{init_list_head-IsRing, list_add-front, list_add_tail-end}
use commlib.Ring.Remove.{list_del-drop, list_replace-swap, list_pop_front-Popped}
use commlib.Ring.Walk.{loops-IsRing}

pub data Call : Type 0 where
  add add_tail del : Ptr → Call
  replace : (old new_node : Ptr) → Call
  pop_front : Call

-- The memory after a call, and what list_pop_front returned.
pub run_call : Ptr → Call → Memory → Memory × List (Option Ptr)
run_call head (add p) h = (list_add p head h, [])
run_call head (add_tail p) h = (list_add_tail p head h, [])
run_call head (del p) h = (list_del p h, [])
run_call head (replace old new_node) h = (list_replace old new_node h, [])
run_call head pop_front h = ((list_pop_front head h).1, (list_pop_front head h).0 ∷ [])

pub run_calls : Ptr → List Call → Memory → Memory × List (Option Ptr)
unfolding run_call
run_calls head [] h = (h, [])
run_calls head (c ∷ cs) h =
    let (h', out) = run_call head c h in
    let (h'', outs) = run_calls head cs h' in (h'', out ++ outs)

-- What a call means for the list of the nodes: nodes that are put in are new, and nodes that are
-- taken out are there.
pub data Means (head : Ptr) : Call → List Ptr → List Ptr → List (Option Ptr) → Type 0 where
  adds : (p : Ptr) (xs : List Ptr) → has p (head ∷ xs) ≡ false → Means head (add p) xs (p ∷ xs) []
  adds_tail :
      (p : Ptr) (xs : List Ptr)
      → has p (head ∷ xs) ≡ false
      → Means head (add_tail p) xs (xs ++ p ∷ []) []
  dels : (p : Ptr) (xs ys : List Ptr) → Means head (del p) (xs ++ (p ∷ ys)) (xs ++ ys) []
  replaces :
      (old new_node : Ptr) (xs ys : List Ptr)
      → has new_node (head ∷ (xs ++ (old ∷ ys))) ≡ false
      → Means head (replace old new_node) (xs ++ (old ∷ ys)) (xs ++ (new_node ∷ ys)) []
  pops : (p : Ptr) (xs : List Ptr) → Means head pop_front (p ∷ xs) xs (some p ∷ [])
  pops_none : Means head pop_front [] [] (none ∷ [])

pub data MeanAll (head : Ptr) : List Call → List Ptr → List Ptr → List (Option Ptr) → Type 0 where
  done : (xs : List Ptr) → MeanAll head [] xs xs []
  call :
      {c : Call} {cs : List Call} {xs ys zs : List Ptr} {out outs : List (Option Ptr)}
      → Means head c xs ys out
      → MeanAll head cs ys zs outs
      → MeanAll head (c ∷ cs) xs zs (out ++ outs)

run_call-Means :
    (head : Ptr) (h : Memory) {c : Call} {xs ys : List Ptr} {out : List (Option Ptr)}
    → IsRing h head xs
    → Means head c xs ys out
    → IsRing (run_call head c h).0 head ys × ((run_call head c h).1 ≡ out)
unfolding run_call
run_call-Means head h r (adds p xs new) = (list_add-front h head p xs r new, refl)
run_call-Means head h r (adds_tail p xs new) = (list_add_tail-end h head p xs r new, refl)
run_call-Means head h r (dels p xs ys) = (list_del-drop h head p xs ys r, refl)
run_call-Means head h r (replaces old new_node xs ys new) =
    (list_replace-swap h head old new_node xs ys r new, refl)
run_call-Means head h r (pops p xs) =
    let popped = list_pop_front-Popped h head (p ∷ xs) r in
    (popped.1, ap (λ (o : Option Ptr). o ∷ []) popped.0)
run_call-Means head h r pops_none =
    let popped = list_pop_front-Popped h head [] r in (rw popped r, rw popped refl)

run_calls-MeanAll :
    (head : Ptr) (h : Memory) {cs : List Call} {xs ys : List Ptr} {outs : List (Option Ptr)}
    → IsRing h head xs
    → MeanAll head cs xs ys outs
    → IsRing (run_calls head cs h).0 head ys × ((run_calls head cs h).1 ≡ outs)
unfolding run_calls
run_calls-MeanAll head h r (done xs) = (r, refl)
run_calls-MeanAll head h r (call {c} {cs} {out = out} m rest) =
    let one = run_call-Means head h r m in
    let later = run_calls-MeanAll head (run_call head c h).0 one.0 rest in
    (later.0, ap₂ (λ (o p : List (Option Ptr)). o ++ p) one.1 later.1)

-- On a list that INIT_LIST_HEAD_PTR has made, any sequence of list_add, list_add_tail, list_del,
-- list_replace and list_pop_front, in which nodes that are put in are new to the list and nodes that
-- are taken out are in it, leaves the ring of exactly the nodes that the calls mean; list_pop_front
-- returned the first node each time, or NULL where there was none; and list_for_each on the memory
-- after the calls ends and visits the nodes in order, with more rounds allowed than there are nodes.
pub init_list_head-run_calls :
    (fuel : ℕ) (head : Ptr) (h : Memory) {cs : List Call} {xs : List Ptr} {outs : List (Option Ptr)}
    → MeanAll head cs [] xs outs
    → length xs < fuel
    → let (h', returned) = run_calls head cs (init_list_head head h) in
      IsRing h' head xs × (returned ≡ outs) × (list_for_each fuel head h' ≡ some xs)
init_list_head-run_calls fuel head h {xs = xs} m more =
    let (ring, returned) =
      run_calls-MeanAll head (init_list_head head h) (init_list_head-IsRing head h) m in
    (ring, returned, (loops-IsRing fuel _ head xs ring more).0)
