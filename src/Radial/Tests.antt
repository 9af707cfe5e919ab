-- ===== src/Radial/Tests.antt =====
-- The theorems on the cache at a cache of twenty nodes.
use hft_radial_cache.Common.{ℕ, ◌≤◌, ◌≡◌, refl, Bool, false, List, [], ◌∷◌, arith}
use hft_radial_cache.Common.Bytes.{Bytes, bytes_eq}
use hft_radial_cache.Common.Double.{Double, positive, sixty}
use hft_radial_cache.Common.Int.{pos}
use hft_radial_cache.Common.Run.{◌>>=◌, Returns, value_or, Returns-value_or}
use hft_radial_cache.Heap
use hft_radial_cache.Midpoint.{add_node}
use hft_radial_cache.Table
use hft_radial_cache.Radial.{
  Cache, Request, new, insert, add_to, midpoint_at, priority_of, insert_batch, get_highest_priority,
}
use hft_radial_cache.Radial.Invariant.{IsValid}
use hft_radial_cache.Radial.Insert.{Inserted, insert_correct}
use hft_radial_cache.Radial.Batch.{BatchDone, insert_batch_correct}
use hft_radial_cache.Radial.Retrieve.{Retrieved, get_highest_priority_correct}
use hft_radial_cache.Radial.Life.{
  Call, inserts, looks_up, demand, step, run, After, new-IsValid, run-After, worn_out,
}

abbrev to_ns : Double → ℕ
to_ns expiry = 1000

abbrev symbol : Bytes
symbol = 65 ∷ 66 ∷ []

abbrev low : Request
low = record { value = positive 1; midpoint = symbol; priority = pos 3; expiry_time = sixty }

abbrev high : Request
high = record { value = positive 2; midpoint = symbol; priority = pos 7; expiry_time = sixty }

abbrev start : Cache
start = new to_ns 20 0

start-IsValid : IsValid start
start-IsValid = (new-IsValid to_ns 20 0 (omega arith)).0

start-counters : (start.pool_index ≡ 0) × (start.max_nodes ≡ 20)
unfolding new
start-counters = (refl, refl)

abbrev one : Cache × Bool
one = value_or (start, false) (insert to_ns start low 5)

one-Inserted : Inserted to_ns start low 5 one
one-Inserted =
    Returns-value_or _
      (insert_correct to_ns start low 5 start-IsValid (omega (arith, start-counters.0)))

one-counters : (one.0.pool_index ≤ 1) × (one.0.max_nodes ≡ 20)
one-counters = (
  omega (arith, one-Inserted.spent.1, start-counters.0),
  omega (arith, one-Inserted.spent.2, start-counters.1),
)

insert_correct_example : Returns (Inserted to_ns one.0 high 6) (insert to_ns one.0 high 6)
insert_correct_example =
    insert_correct to_ns one.0 high 6 one-Inserted.valid (omega (arith, one-counters.0))

insert_batch_correct_example :
    Returns
      (BatchDone to_ns one.0 (high ∷ low ∷ []))
      (insert_batch to_ns one.0 (high ∷ low ∷ []) (λ i. i))
insert_batch_correct_example =
    insert_batch_correct to_ns one.0 (high ∷ low ∷ []) (λ i. i) one-Inserted.valid
      (omega (arith, one-counters.0)) (omega (arith, one-counters.1))

get_highest_priority_correct_example :
    Returns (Retrieved one.0 symbol (λ k. 9)) (get_highest_priority one.0 symbol (λ k. 9))
get_highest_priority_correct_example =
    get_highest_priority_correct one.0 symbol (λ k. 9) one-Inserted.valid

abbrev calls : List Call
calls = inserts high 7 ∷ looks_up symbol (λ k. 9) ∷ []

calls-demand : demand calls ≡ 1
unfolding demand
calls-demand = refl

run-After_example : Returns (After to_ns one.0 (demand calls)) (run to_ns one.0 calls)
run-After_example =
    run-After to_ns one.0 calls one-Inserted.valid (omega (arith, one-counters.1, calls-demand))
      (omega (arith, one-counters.0, calls-demand))

-- A pool of ten nodes, and ten inserts of one symbol: its heap has room for one node, so that one
-- insert is accepted and nine are refused, and the pool is used up.
abbrev ten : List Call
ten =
    inserts low 1
    ∷ inserts low 2
    ∷ inserts low 3
    ∷ inserts low 4
    ∷ inserts low 5
    ∷ inserts low 6
    ∷ inserts low 7
    ∷ inserts low 8
    ∷ inserts low 9
    ∷ inserts low 10
    ∷ []

abbrev worn : Cache
worn = value_or (new to_ns 10 0) (run to_ns (new to_ns 10 0) ten)

worn-After : After to_ns (new to_ns 10 0) (demand ten) worn
unfolding new demand
worn-After = Returns-value_or _ (
    run-After to_ns (new to_ns 10 0) ten (new-IsValid to_ns 10 0 (omega arith)).0 (omega arith)
      (omega arith))

worn-counters : (worn.pool_index ≡ 10) × (worn.max_nodes ≡ 10) × (worn.total_nodes ≡ 1)
unfolding run step new insert add_to midpoint_at Table.new Table.get_or_create Table.get Table.find
    Table.hash Table.fnv Table.widen Heap.new Heap.load Heap.store Heap.settled Heap.sift_up
    Heap.push bytes_eq add_node priority_of
worn-counters = (refl, refl, refl)

worn_out_example : Returns (λ o. o.1 ≡ false) (run to_ns worn calls >>= λ d. insert to_ns d low 9)
worn_out_example =
    worn_out to_ns worn calls low 9 worn-After.valid
      (omega (arith, worn-counters.0, worn-counters.1))
      (omega (arith, worn-counters.1, calls-demand)) (omega (arith, worn-counters.0, calls-demand))
