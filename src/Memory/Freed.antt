-- ===== src/Memory/Freed.antt =====
-- src/memory_manager.cpp: the nodes given back, and the counts of nodes over sequences of calls.
use mathlib.Core.List.{
  Mem, Nodup, Nodup-append, mem-cons_self, mem-cons_of_mem, append_assoc, Mem-prop, not-mem-nil,
  eq-or-mem_of_mem-cons,
}
use mathlib.Core.Logic.Or
use hft_radial_cache.Common.{
  ℕ, ◌+◌, ◌≤◌, ◌<◌, ◌≡◌, refl, sym, ◌∙◌, ap, Bool, true, false, not, ◌&&◌, Option, List, [], ◌∷◌,
  ◌++◌, arith, ltb, if◌then◌else◌, length, subst, min, take, drop,
}
use hft_radial_cache.Common.Words.{word, add64, sub64}
use hft_radial_cache.Memory.{
  MemoryManager, numa_allocate, numa_deallocate, is_memory_available, count_allocation,
  allocate_block, allocate_node, deallocate_node, mark_for_cleanup, release, cleanup_expired_nodes,
  emergency_cleanup, deallocate_all, destroy,
}
use hft_radial_cache.Memory.Account.{release-others}

-- The nodes given back, latest first, when `nodes` are given back after `freed`.
back : List ℕ → List ℕ → List ℕ
back [] freed = freed
back (node ∷ nodes) freed = back nodes (node ∷ freed)

back-append : (nodes freed : List ℕ) → back nodes freed ≡ back nodes [] ++ freed
unfolding back
back-append [] freed = refl
back-append (node ∷ nodes) freed =
    back-append nodes (node ∷ freed)
    ∙ (sym (append_assoc (back nodes []) (node ∷ []) freed)
        ∙ ap (λ xs. xs ++ freed) (sym (back-append nodes (node ∷ []))))

mem-back_freed : (nodes : List ℕ) (p : ℕ) (freed : List ℕ) → Mem p freed → Mem p (back nodes freed)
unfolding back
mem-back_freed [] p freed m = m
mem-back_freed (node ∷ nodes) p freed m =
    mem-back_freed nodes p (node ∷ freed) (mem-cons_of_mem node m)

mem-back : (nodes : List ℕ) (p : ℕ) (freed : List ℕ) → Mem p nodes → Mem p (back nodes freed)
unfolding back
mem-back [] p freed m = absurd (not-mem-nil m)
mem-back (node ∷ nodes) p freed m =
    Or.elim Mem-prop (eq-or-mem_of_mem-cons m)
      (λ e. rw e (mem-back_freed nodes node (node ∷ freed) mem-cons_self))
      (λ later. mem-back nodes p (node ∷ freed) later)

module _ (node_size : ℕ) where
  release-back :
      (nodes : List ℕ) (m : MemoryManager) → (release node_size nodes m).freed ≡ back nodes m.freed
  unfolding release numa_deallocate back
  release-back [] m = refl
  release-back (node ∷ nodes) m = release-back nodes _

  deallocate_all-back :
      (nodes : List ℕ) (m : MemoryManager)
      → (deallocate_all node_size nodes m).freed ≡ back nodes m.freed
  unfolding deallocate_all numa_deallocate back
  deallocate_all-back [] m = refl
  deallocate_all-back (node ∷ nodes) m = deallocate_all-back nodes _

  destroy-back :
      (m : MemoryManager)
      → (destroy node_size m).freed
        ≡ back m.memory_blocks (back m.node_pool (back m.expired_nodes m.freed))
  unfolding destroy emergency_cleanup
  destroy-back m =
      deallocate_all-back m.memory_blocks _
      ∙ ap (back m.memory_blocks) (
          deallocate_all-back m.node_pool _
          ∙ ap (back m.node_pool) (release-back m.expired_nodes (record m { expired_nodes = [] })))

  -- A node of the pool that waits for cleanup is given back more than once by the end of the
  -- destructor: by the emergency cleanup, and again with the pool.
  pub destroy_again :
      (m : MemoryManager) (p : ℕ)
      → Mem p m.expired_nodes
      → Mem p m.node_pool
      → ¬ Nodup (destroy node_size m).freed
  destroy_again m p waits pooled d =
      let gone = back m.expired_nodes m.freed in
      let all =
        subst Nodup
          (destroy-back m
            ∙ back-append m.memory_blocks (back m.node_pool gone)
            ∙ ap (λ xs. back m.memory_blocks [] ++ xs) (back-append m.node_pool gone))
          d in
      (Nodup-append.0 (Nodup-append.0 all).1).2 p (mem-back m.node_pool p [] pooled)
        (mem-back m.expired_nodes p m.freed waits)

  -- The states that calls reach: a client deallocates only while some node is allocated, and the
  -- count of allocations does not wrap.
  pub data Reaches (m : MemoryManager) : MemoryManager → Type 0 where
    starts : Reaches m m
    allocates :
        {r : MemoryManager} (granted : Bool)
        → Reaches m r
        → r.allocations + 1 < word
        → Reaches m (allocate_node node_size r granted).0
    deallocates :
        {r : MemoryManager} (node : ℕ)
        → Reaches m r
        → 0 < r.allocated_nodes
        → Reaches m (deallocate_node node_size r node)
    cleans : {r : MemoryManager} → Reaches m r → Reaches m (cleanup_expired_nodes node_size r)

  -- The nodes allocated are those allocations that no deallocation answers, and within the limit.
  pub record IsBalanced (m : MemoryManager) : Type 0 where
    pub limit : m.allocated_nodes ≤ m.config.max_nodes
    pub balance : m.allocated_nodes + m.deallocations ≡ m.allocations
    pub small : m.allocations < word

  -- The manager that an allocation leaves is balanced.
  record Granted (r : MemoryManager × Option ℕ) : Type 0 where
    balanced : IsBalanced r.0

  choose :
      (b : Bool) (x y : MemoryManager × Option ℕ)
      → (b ≡ true → Granted x)
      → (b ≡ false → Granted y)
      → Granted (if b then x else y)
  choose true x y p q = p refl
  choose false x y p q = q refl

  counted :
      (m : MemoryManager)
      → IsBalanced m
      → m.allocated_nodes < m.config.max_nodes
      → m.allocations + 1 < word
      → IsBalanced (count_allocation node_size m)
  unfolding count_allocation
  counted m v free room = record {
    limit = omega (arith, v.balance);
    balance = omega (arith, v.balance);
    small = omega arith;
  }

  available_free :
      (m : MemoryManager)
      → not (is_memory_available node_size m) ≡ false
      → m.allocated_nodes < m.config.max_nodes
  unfolding is_memory_available
  available_free m e = ground arith

  block-Granted :
      (m : MemoryManager) (granted : Bool)
      → IsBalanced m
      → m.allocated_nodes < m.config.max_nodes
      → m.allocations + 1 < word
      → Granted (allocate_block node_size m granted)
  unfolding allocate_block numa_allocate count_allocation
  block-Granted m true v free room =
      let r = counted m v free room in
      record { balanced = record { limit = r.limit; balance = r.balance; small = r.small } }
  block-Granted m false v free room = record { balanced = v }

  allocate-Granted :
      (m : MemoryManager) (granted : Bool)
      → IsBalanced m
      → m.allocations + 1 < word
      → Granted (allocate_node node_size m granted)
  unfolding allocate_node
  allocate-Granted m granted v room =
      choose (not (is_memory_available node_size m)) _ _ (λ e. record { balanced = v })
        λ e.
          let free = available_free m e in
          choose (m.config.enable_memory_pool && ltb m.pool_index (length m.node_pool)) _ _
            (λ f. record {
              balanced =
                  counted (record m { pool_index = add64 m.pool_index 1 })
                    (record { limit = v.limit; balance = v.balance; small = v.small }) free room;
            })
            (λ f. block-Granted m granted v free room)

  deallocate-IsBalanced :
      (m : MemoryManager) (node : ℕ)
      → IsBalanced m
      → 0 < m.allocated_nodes
      → IsBalanced (deallocate_node node_size m node)
  unfolding deallocate_node mark_for_cleanup
  deallocate-IsBalanced m node v some_left = record {
    limit =
        one_less m.allocated_nodes m.config.max_nodes v.limit some_left
          (omega (arith, v.balance, v.small));
    balance = omega (arith, v.balance, v.small);
    small = v.small;
  }
    where
      one_less : (n max : ℕ) → n ≤ max → 0 < n → n < word → sub64 n 1 ≤ max
      one_less n max h p small = omega arith

  cleanup-IsBalanced :
      (m : MemoryManager) → IsBalanced m → IsBalanced (cleanup_expired_nodes node_size m)
  unfolding cleanup_expired_nodes
  cleanup-IsBalanced m v =
      let n = min (length m.expired_nodes) m.config.max_expired_nodes_per_cleanup in
      let kept = record m { expired_nodes = drop n m.expired_nodes } in
      let (a, b, c, nodes, up, down, config) =
        release-others node_size (take n m.expired_nodes) kept in
      record {
        limit = rw (nodes, config) v.limit;
        balance = rw (nodes, up, down) v.balance;
        small = rw up v.small;
      }

  -- In every state that calls reach from a balanced one the nodes allocated are those allocations
  -- that no deallocation answers, and they are within the limit of the configuration.
  pub reached-IsBalanced : (m r : MemoryManager) → IsBalanced m → Reaches m r → IsBalanced r
  reached-IsBalanced m r v starts = v
  reached-IsBalanced m r v (allocates {r = q} granted before room) =
      (allocate-Granted q granted (reached-IsBalanced m q v before) room).balanced
  reached-IsBalanced m r v (deallocates {r = q} node before some_left) =
      deallocate-IsBalanced q node (reached-IsBalanced m q v before) some_left
  reached-IsBalanced m r v (cleans {r = q} before) =
      cleanup-IsBalanced q (reached-IsBalanced m q v before)
