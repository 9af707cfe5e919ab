-- ===== src/Radial/Life.antt =====
-- Sequences of calls on a cache, from its construction to its destruction.
use mathlib.Core.List.{Mem, Nodup, Nodup-append, mem-cons_self, mem-cons_of_mem}
use hft_radial_cache.Common.{
  ℕ, zero, suc, ◌+◌, ◌≤◌, ◌<◌, ◌≡◌, refl, ◌∙◌, Bool, true, false, some, List, [], ◌∷◌, arith,
  length, length-replicate, get_elem?,
}
use hft_radial_cache.Common.Bytes.{Bytes}
use hft_radial_cache.Common.Double.{Double}
use hft_radial_cache.Common.Run.{Run, ok, ◌>>=◌, Returns, returns, Returns-map, Returns-bind}
use hft_radial_cache.Common.Words.{word}
use native.Mathlib.Decide.{ℕ_discrete}
use hft_radial_cache.Heap.{Heap}
use hft_radial_cache.Table
use hft_radial_cache.Table.Laws
use hft_radial_cache.Radial.{
  Cache, Request, new, insert, insert_batch, get_highest_priority, pool_nodes, destroy,
}
use hft_radial_cache.Radial.Pending.{pending, pending-none}
use hft_radial_cache.Radial.Invariant.{IsValid}
use hft_radial_cache.Radial.Insert.{insert_correct}
use hft_radial_cache.Radial.Batch.{insert_batch_correct}
use hft_radial_cache.Radial.Retrieve.{get_highest_priority_correct}

-- A call of a client, with what it reads from the clock.
pub data Call : Type 0 where
  inserts : Request → ℕ → Call
  inserts_batch : List Request → (ℕ → ℕ) → Call
  looks_up : Bytes → (ℕ → ℕ) → Call

-- How many nodes of the pool the calls may use up.
unfoldable pub demand : List Call → ℕ
demand [] = 0
demand (inserts r now ∷ calls) = 1 + demand calls
demand (inserts_batch batch now ∷ calls) = length batch + demand calls
demand (looks_up key clock ∷ calls) = demand calls

module _ (to_ns : Double → ℕ) where
  unfoldable pub step : Cache → Call → Run Cache
  step c (inserts r now) = insert to_ns c r now >>= λ o. ok o.0
  step c (inserts_batch batch now) = insert_batch to_ns c batch now >>= λ o. ok o.0
  step c (looks_up key clock) = get_highest_priority c key clock >>= λ o. ok o.0

  unfoldable pub run : Cache → List Call → Run Cache
  run c [] = ok c
  run c (call ∷ calls) = step c call >>= λ d. run d calls

  no_heap : (p : ℕ) (h : Heap ℕ) → get_elem? Table.new.midpoints p ≡ some h → ⊥
  unfolding Table.new
  no_heap p h e = cc

  -- The constructor makes a valid cache, in which nothing is pending.
  pub new-IsValid :
      (max now : ℕ)
      → max + max < word
      → IsValid (new to_ns max now)
        × ((key : Bytes) → pending (new to_ns max now).midpoints key ≡ [])
  unfolding new
  new-IsValid max now small = (
    record {
      pool = length-replicate max _;
      small = small;
      sound = record { table = Laws.new-IsValid; heaps = λ p h e. absurd (no_heap p h e) };
      counted = omega arith;
    },
    λ key. pending-none Table.new key (Laws.get-new key),
  )

  -- A valid cache with the limit of `c`, which has used up at most `n` more nodes of its pool.
  pub record After (c : Cache) (n : ℕ) (d : Cache) : Type 0 where
    pub valid : IsValid d
    pub max : d.max_nodes ≡ c.max_nodes
    pub grows : c.pool_index ≤ d.pool_index
    pub bounded : d.pool_index ≤ c.pool_index + n

  step-After :
      (c : Cache) (call : Call)
      → IsValid c
      → c.max_nodes + demand (call ∷ []) < word
      → c.pool_index + demand (call ∷ []) < word
      → Returns (After c (demand (call ∷ []))) (step c call)
  unfolding step demand
  step-After c (inserts r now) v m h =
      Returns-bind (insert_correct to_ns c r now v (omega arith)) λ o i. returns (record {
        valid = i.valid;
        max = i.spent.2;
        grows = i.spent.0;
        bounded = omega (arith, i.spent.1);
      })
  step-After c (inserts_batch batch now) v m h =
      Returns-bind (insert_batch_correct to_ns c batch now v (omega arith) (omega arith)) λ o i.
        returns (record {
          valid = i.valid;
          max = i.spent.2;
          grows = i.spent.0;
          bounded = omega (arith, i.spent.1);
        })
  step-After c (looks_up key clock) v m h =
      Returns-bind (get_highest_priority_correct c key clock v) λ o i. returns (record {
        valid = i.valid;
        max = i.counters.2;
        grows = omega (arith, i.counters.0);
        bounded = omega (arith, i.counters.0);
      })

  demand-cons :
      (call : Call) (calls : List Call) → demand (call ∷ calls) ≡ demand (call ∷ []) + demand calls
  unfolding demand
  demand-cons (inserts r now) calls = omega arith
  demand-cons (inserts_batch batch now) calls = omega arith
  demand-cons (looks_up key clock) calls = omega arith

  -- Every sequence of insert, insert_batch and get_highest_priority on a valid cache returns, with a
  -- valid cache of the same limit that has used up no more nodes of the pool than the calls ask
  -- for, as long as neither the index of the pool nor the limit can wrap when that is added.
  pub run-After :
      (c : Cache) (calls : List Call)
      → IsValid c
      → c.max_nodes + demand calls < word
      → c.pool_index + demand calls < word
      → Returns (After c (demand calls)) (run c calls)
  unfolding run
  run-After c [] v m h =
      returns (record { valid = v; max = refl; grows = omega arith; bounded = omega arith })
  run-After c (call ∷ calls) v m h =
      let sum = demand-cons call calls in
      Returns-bind (step-After c call v (omega (arith, sum)) (omega (arith, sum))) λ d a.
        Returns-map
          (run-After d calls a.valid (omega (arith, sum, a.max)) (omega (arith, sum, a.bounded)))
          λ e b. record {
            valid = b.valid;
            max = b.max ∙ a.max;
            grows = omega (arith, a.grows, b.grows);
            bounded = omega (arith, sum, a.bounded, b.bounded);
          }

  -- Once the pool of a valid cache is used up no insert is accepted again, whatever sequence of
  -- inserts, batches and lookups comes before it, as long as the index of the pool cannot wrap.
  pub worn_out :
      (c : Cache) (calls : List Call) (r : Request) (now : ℕ)
      → IsValid c
      → c.max_nodes ≤ c.pool_index
      → c.max_nodes + demand calls < word
      → c.pool_index + demand calls + 1 < word
      → Returns (λ o. o.1 ≡ false) (run c calls >>= λ d. insert to_ns d r now)
  worn_out c calls r now v used m h = Returns-bind (run-After c calls v m (omega arith)) λ d a.
      Returns-map (insert_correct to_ns d r now a.valid (omega (arith, a.bounded)))
        λ o i. refused o.1 λ e. omega (arith, (i.when.0 e).1, a.grows, a.max)
    where
      refused : (b : Bool) → (b ≡ true → ⊥) → b ≡ false
      refused true no_way = absurd (no_way refl)
      refused false no_way = refl

mem-pool_nodes : (n p : ℕ) → p < n → Mem p (pool_nodes n)
unfolding pool_nodes
mem-pool_nodes zero p h = absurd (omega arith)
mem-pool_nodes (suc n) p h = elim (ℕ_discrete p n) [
  | yes e ↦ rw e mem-cons_self
  | no e ↦ mem-cons_of_mem n (mem-pool_nodes n p (omega arith))
]

-- A node of the pool that is among the deleted ones is deleted more than once by the end of the
-- destructor.
pub destroy_twice : (c : Cache) (p : ℕ) → p < c.max_nodes → Mem p c.deleted → ¬ Nodup (destroy c)
unfolding destroy
destroy_twice c p h m d = (Nodup-append.0 d).2 p (mem-pool_nodes c.max_nodes p h) m
