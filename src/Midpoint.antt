-- ===== src/Midpoint.antt =====
-- include/midpoint.hpp: MidpointNode, the heap of one symbol. `expired k x` is what `is_expired`
-- answers of the node `x` at the k-th read of the clock in the call.
pub mod Sweep
use hft_radial_cache.Common.{
  ℕ, zero, suc, ◌+◌, Bool, true, false, Option, none, some, List, [], ◌∷◌, if◌then◌else◌,
}
use hft_radial_cache.Common.Int.{ℤ}
use hft_radial_cache.Common.Run.{Run, ok, fault, stuck, ◌>>=◌}
use hft_radial_cache.Heap
use hft_radial_cache.Heap.{Heap}

-- The heap that is left, the node returned, and the nodes deleted, latest first.
pub record Outcome (A : Type 0) : Type 0 where
  pub rest : Heap A
  pub result : Option A
  pub deleted : List A

unfoldable pub add_node : {A : Type 0} → (A → ℤ) → Heap A → A → Run (Heap A × Bool)
add_node priority h node = Heap.push priority h node

module _ {A : Type 0} (priority : A → ℤ) (expired : ℕ → A → Bool) where
  -- The loop of `get_highest_priority_node`, in its k-th round.
  pub sweep : ℕ → ℕ → Heap A → List A → Run (Outcome A)
  sweep zero k h gone = stuck
  sweep (suc fuel) k h gone =
      let check : Heap A → A → Run (Outcome A) = λ rest node.
        let next = sweep fuel (k + 1) rest (node ∷ gone) in
        if expired k node
        then next
        else ok (record { rest = rest; result = some node; deleted = gone }) in
      let round : Run (Outcome A) = do
        popped ← Heap.pop priority h
        elim popped.1 [ none ↦ fault | some node ↦ check popped.0 node ]
      in if Heap.empty h then ok (record { rest = h; result = none; deleted = gone }) else round

  pub get_highest_priority_node : Heap A → Run (Outcome A)
  get_highest_priority_node h = sweep (h.size + 1) 0 h []
