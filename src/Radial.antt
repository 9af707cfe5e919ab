-- ===== src/Radial.antt =====
-- include/radial_circular_list.hpp and src/radial_circular_list.cpp: RadialCircularList, the
-- cache. A `Node*` is an index into `node_pool`, which owns every node. Calls run one at a time;
-- the reads of the clock, and the conversion `to_ns` of an expiry in seconds, are arguments.
pub mod Pending
pub mod Invariant
pub mod Add
pub mod Insert
pub mod Batch
pub mod Retrieve
pub mod Life
mod Tests
use hft_radial_cache.Common.{
  ℕ, zero, suc, ◌+◌, ◌-◌, ◌/◌, ◌%◌, Bool, true, false, Option, none, some, List, [], ◌∷◌, ◌++◌, ltb,
  leb, if◌then◌else◌, length, get_elem?, get_or, set, replicate,
}
use hft_radial_cache.Common.Bytes.{Bytes}
use hft_radial_cache.Common.Double.{Double, zero_double, sixty}
use hft_radial_cache.Common.Int.{ℤ, pos}
use hft_radial_cache.Common.Run.{Run, ok, fault, ◌>>=◌}
use hft_radial_cache.Common.Words.{add64}
use hft_radial_cache.Heap.{Heap}
use hft_radial_cache.Midpoint
use hft_radial_cache.Midpoint.{Outcome}
use hft_radial_cache.Node
use hft_radial_cache.Node.{Node}
use hft_radial_cache.Table
use hft_radial_cache.Table.{Table}

-- `deleted` holds the nodes on which `delete` was called, latest first.
pub record Cache : Type 0 where
  pub midpoints : Table
  pub max_nodes : ℕ
  pub total_nodes : ℕ
  pub node_pool : List Node
  pub pool_index : ℕ
  pub deleted : List ℕ

-- What one element of a batch holds.
pub record Request : Type 0 where
  pub value : Double
  pub midpoint : Bytes
  pub priority : ℤ
  pub expiry_time : Double

-- Stands for a read past the pool.
abbrev pub blank : Node
blank = record { value = zero_double; priority = pos 0; timestamp_ns = 0; expiry_time_ns = 0 }

-- `node->priority` and `node->is_expired()` through the pool.
unfoldable pub priority_of : List Node → ℕ → ℤ
priority_of pool p = (get_or pool p blank).priority

unfoldable pub expired_at : List Node → (ℕ → ℕ) → ℕ → ℕ → Bool
expired_at pool clock k p = Node.is_expired (clock k) (get_or pool p blank)

-- The midpoint behind a pointer, and a write through it.
pub midpoint_at : Table → ℕ → Run (Heap ℕ)
midpoint_at t p = elim (get_elem? t.midpoints p) [ some h ↦ ok h | none ↦ fault ]

abbrev pub with_midpoint : Table → ℕ → Heap ℕ → Table
with_midpoint t p h = record t { midpoints = set t.midpoints p h }

-- `midpoints.get_or_create(midpoint, max_nodes / 10)->add_node(node)`
pub add_to : Table → ℕ → List Node → Bytes → ℕ → Run (Table × Bool)
add_to t max_nodes pool midpoint index =
    let created = Table.get_or_create t midpoint (max_nodes / 10) in
    do
      h ← midpoint_at created.0 created.1
      pushed ← Midpoint.add_node (priority_of pool) h index
      ok (with_midpoint created.0 created.1 pushed.0, pushed.1)

module _ (to_ns : Double → ℕ) where
  pub new : ℕ → ℕ → Cache
  new max now = record {
    midpoints = Table.new;
    max_nodes = max;
    total_nodes = 0;
    node_pool = replicate max (Node.new to_ns zero_double (pos 0) sixty now);
    pool_index = 0;
    deleted = [];
  }

  -- The stores that fill the node of a request.
  pub fill : Request → ℕ → Node
  fill r now = record {
    value = r.value;
    priority = r.priority;
    timestamp_ns = now;
    expiry_time_ns = to_ns r.expiry_time;
  }

  pub insert : Cache → Request → ℕ → Run (Cache × Bool)
  insert c r now =
      let index = c.pool_index in
      let taken = record c { pool_index = add64 c.pool_index 1 } in
      let pool = set c.node_pool index (fill r now) in
      let place : Run (Cache × Bool) = do
        added ← add_to c.midpoints c.max_nodes pool r.midpoint index
        let total = if added.1 then add64 c.total_nodes 1 else c.total_nodes
        ok (record taken { midpoints = added.0; total_nodes = total; node_pool = pool }, added.1)
      in if leb c.max_nodes c.total_nodes
        then ok (c, false)
        else if leb c.max_nodes index
        then ok (taken, false)
        else place

  -- The loop of `insert_batch`: the `index`-th node of the pool on; `now` is read in each round.
  pub batch_loop : Cache → ℕ → List Request → (ℕ → ℕ) → Run Cache
  batch_loop c index [] now = ok c
  batch_loop c index (r ∷ batch) now =
      let pool = set c.node_pool index (fill r (now index)) in
      do
        added ← add_to c.midpoints c.max_nodes pool r.midpoint index
        batch_loop (record c { midpoints = added.0; node_pool = pool }) (index + 1) batch now

  pub insert_batch : Cache → List Request → (ℕ → ℕ) → Run (Cache × Bool)
  insert_batch c batch now =
      let batch_size = length batch in
      let start_index = c.pool_index in
      let taken = record c { pool_index = add64 c.pool_index batch_size } in
      let place : Run (Cache × Bool) = do
        filled ← batch_loop taken start_index batch now
        ok (record filled { total_nodes = add64 filled.total_nodes batch_size }, true)
      in if ltb c.max_nodes (add64 c.total_nodes batch_size)
        then ok (c, false)
        else if ltb c.max_nodes (add64 start_index batch_size)
        then ok (taken, false)
        else place

pub get_highest_priority : Cache → Bytes → (ℕ → ℕ) → Run (Cache × Option ℕ)
get_highest_priority c midpoint clock =
    let search : ℕ → Run (Cache × Option ℕ) = λ mid. do
      h ← midpoint_at c.midpoints mid
      o ←
          Midpoint.get_highest_priority_node (priority_of c.node_pool)
            (expired_at c.node_pool clock) h
      ok (
        record c {
          midpoints = with_midpoint c.midpoints mid o.rest;
          deleted = o.deleted ++ c.deleted;
        },
        o.result,
      )
    in elim (Table.get c.midpoints midpoint) [ none ↦ ok (c, none) | some mid ↦ search mid ]

-- `clock i` gives the reads of the clock in the i-th lookup.
pub get_highest_priority_batch :
    Cache → ℕ → List Bytes → (ℕ → ℕ → ℕ) → Run (Cache × List (Option ℕ))
get_highest_priority_batch c i [] clock = ok (c, [])
get_highest_priority_batch c i (midpoint ∷ batch) clock = do
  found ← get_highest_priority c midpoint (clock i)
  rest ← get_highest_priority_batch found.0 (i + 1) batch clock
  ok (rest.0, found.1 ∷ rest.1)

-- The indices below `n`, as the destructor's loop over the pool meets them, backwards.
pub pool_nodes : ℕ → List ℕ
pool_nodes zero = []
pool_nodes (suc n) = n ∷ pool_nodes n

-- The destructor deletes every node of the pool: all the deletions in the cache's life.
pub destroy : Cache → List ℕ
destroy c = pool_nodes c.max_nodes ++ c.deleted
