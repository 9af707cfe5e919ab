-- ===== src/Heap/Tests.antt =====
-- The theorems on the heap at small heaps of priorities.
use hft_radial_cache.Common.{◌≡◌, refl, false, [], arith}
use hft_radial_cache.Common.Int.{ℤ, pos, negsuc}
use hft_radial_cache.Common.Run.{Returns, value_or, Returns-value_or}
use hft_radial_cache.Heap.{Heap, new, push, pop}
use hft_radial_cache.Heap.Push.{IsValid, Pushed, push_correct, new-IsValid}
use hft_radial_cache.Heap.Pop.{Popped, pop_correct}
use hft_radial_cache.Midpoint.{get_highest_priority_node}
use hft_radial_cache.Midpoint.Sweep.{Swept, get_highest_correct}

abbrev id : ℤ → ℤ
id x = x

abbrev two_slots : Heap ℤ
two_slots = new 2

two_slots-IsValid : IsValid id two_slots
two_slots-IsValid = new-IsValid id 2

two_slots-size : (two_slots.size ≡ 0) × (two_slots.capacity ≡ 2)
unfolding new
two_slots-size = (refl, refl)

abbrev one_node : Heap ℤ
one_node = (value_or (two_slots, false) (push id two_slots (negsuc 3))).0

one_node-Pushed :
    Pushed id two_slots (negsuc 3) (value_or (two_slots, false) (push id two_slots (negsuc 3)))
one_node-Pushed = Returns-value_or _ (
    push_correct id two_slots (negsuc 3) two_slots-IsValid
      (omega (arith, two_slots-size.0, two_slots-size.1)))

one_node-size : (one_node.size ≡ 1) × (one_node.capacity ≡ 2)
one_node-size = (
  omega (arith, one_node-Pushed.size, two_slots-size.0),
  omega (arith, one_node-Pushed.kept, two_slots-size.1),
)

abbrev two_nodes : Heap ℤ
two_nodes = (value_or (one_node, false) (push id one_node (pos 5))).0

two_nodes-Pushed :
    Pushed id one_node (pos 5) (value_or (one_node, false) (push id one_node (pos 5)))
two_nodes-Pushed = Returns-value_or _ (
    push_correct id one_node (pos 5) one_node-Pushed.valid
      (omega (arith, one_node-size.0, one_node-size.1)))

two_nodes-size : two_nodes.size ≡ 2
two_nodes-size = omega (arith, two_nodes-Pushed.size, one_node-size.0)

push_correct_example : Returns (Pushed id one_node (pos 5)) (push id one_node (pos 5))
push_correct_example =
    push_correct id one_node (pos 5) one_node-Pushed.valid
      (omega (arith, one_node-size.0, one_node-size.1))

pop_correct_example : Returns (Popped id two_nodes) (pop id two_nodes)
pop_correct_example =
    pop_correct id two_nodes two_nodes-Pushed.valid (omega (arith, two_nodes-size))

get_highest_correct_example :
    Returns
      (Swept id (λ k x. false) two_nodes [])
      (get_highest_priority_node id (λ k x. false) two_nodes)
get_highest_correct_example = get_highest_correct id (λ k x. false) two_nodes two_nodes-Pushed.valid
