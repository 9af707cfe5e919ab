-- ===== src/Queue.antt =====
-- include/lockfree_queue.hpp: LockFreeQueue<T>. A `Node*` is an address in a store of nodes; an
-- address with no node there stands for memory given back or never allocated, and an access to it
-- is a fault. `initial` is the value of `T()`. Between two calls another thread may stand inside
-- enqueue, past its first compare-and-swap: `link` is that half of a call, `swing` the other.
pub mod Chain
pub mod Tail
pub mod Shape
pub mod Link
pub mod Free
pub mod Dequeue
pub mod Calls
pub mod Count
pub mod Destroy
mod Tests
pub mod Fifo
use hft_radial_cache.Common.{
  ℕ, zero, suc, ◌+◌, Bool, true, false, ◌&&◌, Option, none, some, leb, ◌==◌, if◌then◌else◌,
}
use hft_radial_cache.Common.Words.{add64, sub64}
use hft_radial_cache.Common.Run.{Run, ok, fault, stuck, ◌>>=◌}

pub record Cell (T : Type 0) : Type 0 where
  pub value : T
  pub next : Option ℕ

abbrev pub Store : Type 0 → Type 0
Store T = ℕ → Option (Cell T)

pub record Queue (T : Type 0) : Type 0 where
  pub nodes : Store T
  pub head : ℕ
  pub tail : ℕ
  pub free_list : Option ℕ
  pub free_count : ℕ
  -- The address of the next new node.
  pub unused : ℕ

abbrev pub max_free_nodes : ℕ
max_free_nodes = 1000

module _ {T : Type 0} where
  abbrev pub update : Store T → ℕ → Option (Cell T) → Store T
  update s at cell other = if at == other then cell else s other

  unfoldable pub load : Store T → ℕ → Run (Cell T)
  load s at = elim (s at) [ some cell ↦ ok cell | none ↦ fault ]

  unfoldable pub new : T → Queue T
  new initial = record {
    nodes = update (λ at. none) 0 (some (record { value = initial; next = none }));
    head = 0;
    tail = 0;
    free_list = none;
    free_count = 0;
    unused = 1;
  }

  -- A node of the free list if there is one, else a new one.
  unfoldable pub allocate_node : Queue T → T → Run (Queue T × ℕ)
  unfolding load
  allocate_node q value =
      let fresh : Cell T = record { value = value; next = none } in
      elim q.free_list [
        | none ↦ ok (
          record q { nodes = update q.nodes q.unused (some fresh); unused = q.unused + 1 },
          q.unused,
        )
        | some free_node ↦ load q.nodes free_node >>= λ cell. ok (
          record q {
            nodes = update q.nodes free_node (some fresh);
            free_list = cell.next;
            free_count = sub64 q.free_count 1;
          },
          free_node,
        )
      ]

  unfoldable pub deallocate_node : Queue T → ℕ → Run (Queue T)
  unfolding load
  deallocate_node q node = load q.nodes node >>= λ cell.
      if leb max_free_nodes q.free_count
      then ok (record q { nodes = update q.nodes node none })
      else ok (record q {
        nodes = update q.nodes node (some (record cell { next = q.free_list }));
        free_list = some node;
        free_count = add64 q.free_count 1;
      })

  -- The loop of enqueue up to its first compare-and-swap, which links the node.
  unfoldable pub link_loop : ℕ → Queue T → ℕ → Run (Queue T)
  unfolding load
  link_loop zero q node = stuck
  link_loop (suc fuel) q node = load q.nodes q.tail >>= λ cell. elim cell.next [
    | none ↦
        ok (record q { nodes = update q.nodes q.tail (some (record cell { next = some node })) })
    | some next ↦ link_loop fuel (record q { tail = next }) node
  ]

  -- A call of enqueue up to and with its first compare-and-swap, and the pointer that it keeps.
  unfoldable pub link : Queue T → T → Run (Queue T × ℕ)
  unfolding allocate_node link_loop
  link q value = allocate_node q value >>= λ a. link_loop 2 a.0 a.1 >>= λ l. ok (l, a.1)

  -- The second compare-and-swap: nothing happens unless the tail is as it was read.
  unfoldable pub swing : Queue T → ℕ → ℕ → Queue T
  swing q tail node = if q.tail == tail then record q { tail = node } else q

  unfoldable pub enqueue : Queue T → T → Run (Queue T)
  unfolding link swing
  enqueue q value = link q value >>= λ l. ok (swing l.0 l.0.tail l.1)

  unfoldable pub dequeue_loop : ℕ → Queue T → Run (Queue T × Option T)
  unfolding load deallocate_node
  dequeue_loop zero q = stuck
  dequeue_loop (suc fuel) q = load q.nodes q.head >>= λ cell. elim cell.next [
    | none ↦ elim (q.head == q.tail) [ true ↦ ok (q, none) | false ↦ dequeue_loop fuel q ]
    | some next ↦ elim (q.head == q.tail) [
      | true ↦ dequeue_loop fuel (record q { tail = next })
      | false ↦ load q.nodes next >>= λ first.
          deallocate_node (record q { head = next }) q.head >>= λ d. ok (d, some first.value)
    ]
  ]

  unfoldable pub dequeue : Queue T → Run (Queue T × Option T)
  unfolding dequeue_loop
  dequeue q = dequeue_loop 2 q

  unfoldable pub empty : Queue T → Run Bool
  unfolding load
  empty q = load q.nodes q.head >>= λ cell.
      ok (q.head == q.tail && elim cell.next [ none ↦ true | some next ↦ false ])

  -- The loop of size, from the node behind the head.
  unfoldable pub count_from : ℕ → Store T → Option ℕ → Run ℕ
  unfolding load
  count_from zero s at = stuck
  count_from (suc fuel) s none = ok 0
  count_from (suc fuel) s (some at) =
      load s at >>= λ cell. count_from fuel s cell.next >>= λ count. ok (count + 1)

  unfoldable pub size : Queue T → Run ℕ
  unfolding load count_from
  size q = load q.nodes q.head >>= λ cell. count_from (q.unused + 1) q.nodes cell.next

  -- A loop of the destructor, which deletes the nodes of one chain.
  unfoldable pub delete_chain : ℕ → Store T → Option ℕ → Run (Store T)
  unfolding load
  delete_chain zero s at = stuck
  delete_chain (suc fuel) s none = ok s
  delete_chain (suc fuel) s (some at) =
      load s at >>= λ cell. delete_chain fuel (update s at none) cell.next

  unfoldable pub destroy : Queue T → Run (Store T)
  unfolding delete_chain
  destroy q = delete_chain (q.unused + 1) q.nodes (some q.head) >>= λ s.
      delete_chain (q.unused + 1) s q.free_list
