-- ===== src/Ring/Examples.antt =====
-- Tests of list.h, and its theorems at a list of two nodes.
use mathlib.Core.List.{reverse}
use commlib.Base.{◌≡◌, refl, arith, none, some, List, [], ◌∷◌, length}
use commlib.Ring.{
  Ptr, Memory, init_list_head, list_insert, list_add, list_add_tail, list_del, list_empty,
  list_front, list_for_each, list_for_each_prev, list_size,
}
use commlib.Ring.Chain.{IsRing}
use commlib.Ring.Insert.{init_list_head-IsRing, list_add-front, list_add_tail-end}
use commlib.Ring.Remove.{list_del-drop}
use commlib.Ring.Sequence.{
  Call, add, add_tail, del, replace, pop_front, run_calls, adds, adds_tail, dels, replaces, pops,
  pops_none, MeanAll, done, call, init_list_head-run_calls,
}
use commlib.Ring.Walk.{loops-IsRing, is_nil, first_of_list}

-- The head is at 1; the nodes are at 2 and 3.
abbrev empty_memory : Memory
empty_memory = init_list_head 1 (λ _. record { prev = 0; next = 0 })

abbrev two_nodes : Memory
two_nodes = list_add_tail 3 1 (list_add 2 1 empty_memory)

abbrev nodes : List Ptr
nodes = 2 ∷ 3 ∷ []

walks : list_for_each 5 1 two_nodes ≡ some (2 ∷ 3 ∷ [])
unfolding list_for_each list_add_tail list_add init_list_head list_insert
walks = refl

two_nodes-IsRing : IsRing two_nodes 1 (2 ∷ 3 ∷ [])
two_nodes-IsRing =
    list_add_tail-end (list_add 2 1 empty_memory) 1 3 (2 ∷ [])
      (list_add-front empty_memory 1 2 []
        (init_list_head-IsRing 1 (λ _. record { prev = 0; next = 0 })) refl)
      refl

list_del-drop_example : IsRing (list_del 2 two_nodes) 1 (3 ∷ [])
list_del-drop_example = list_del-drop two_nodes 1 2 [] (3 ∷ []) two_nodes-IsRing

loops-IsRing_example :
    (list_for_each 5 1 two_nodes ≡ some nodes)
    × (list_for_each_prev 5 1 two_nodes ≡ some (reverse nodes))
    × (list_size 5 1 two_nodes ≡ some (length nodes))
    × (list_empty 1 two_nodes ≡ is_nil nodes)
    × (list_front 1 two_nodes ≡ first_of_list nodes)
loops-IsRing_example = loops-IsRing 5 two_nodes 1 nodes two_nodes-IsRing (omega arith)

-- Two nodes are put in at either end, one is exchanged, one taken out, and one popped.
abbrev seven_calls : List Call
seven_calls = add 2 ∷ add_tail 3 ∷ replace 3 4 ∷ del 2 ∷ pop_front ∷ pop_front ∷ add 3 ∷ []

seven_calls-MeanAll : MeanAll 1 seven_calls [] (3 ∷ []) (some 4 ∷ none ∷ [])
seven_calls-MeanAll = call (adds 2 [] refl) (
    call (adds_tail 3 (2 ∷ []) refl) (
      call (replaces 3 4 (2 ∷ []) [] refl) (
        call (dels 2 [] (4 ∷ []))
          (call (pops 4 []) (call pops_none (call (adds 3 [] refl) (done (3 ∷ []))))))))

init_list_head-run_calls_example :
    let (h', returned) = run_calls 1 seven_calls empty_memory in
    IsRing h' 1 (3 ∷ []) × (returned ≡ some 4 ∷ none ∷ []) × (list_for_each 5 1 h' ≡ some (3 ∷ []))
init_list_head-run_calls_example =
    init_list_head-run_calls 5 1 (λ _. record { prev = 0; next = 0 }) seven_calls-MeanAll
      (omega arith)
