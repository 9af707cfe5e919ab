-- ===== src/Queue/Free.antt =====
-- The old dummy node of a dequeue goes to the free list, or back to the system.
use hft_radial_cache.Common.{
  ℕ, ◌≡◌, refl, subst, inl, inr, true, false, Bool-cases, Option, none, some, ◌∷◌, map, leb, arith,
}
use hft_radial_cache.Common.Words.{add64}
use hft_radial_cache.Common.Run.{ok, Returns, returns}
use hft_radial_cache.Queue.{Cell, Queue, load, update, deallocate_node, max_free_nodes}
use hft_radial_cache.Queue.Chain.{
  Items, address, Absent-left, Absent-right, Distinct-middle, Below-middle, Chain, Chain_frame,
}
use hft_radial_cache.Queue.Shape.{Parts}

module _ {T : Type 0} where
  deleted :
      (q : Queue T) (node : ℕ) (cell : Cell T)
      → q.nodes node ≡ some cell
      → leb max_free_nodes q.free_count ≡ true
      → deallocate_node q node ≡ ok (record q { nodes = update q.nodes node none })
  unfolding deallocate_node load
  deleted q node cell e full = ground arith

  kept :
      (q : Queue T) (node : ℕ) (cell : Cell T)
      → q.nodes node ≡ some cell
      → leb max_free_nodes q.free_count ≡ false
      → deallocate_node q node
        ≡ ok (record q {
          nodes = update q.nodes node (some (record cell { next = q.free_list }));
          free_list = some node;
          free_count = add64 q.free_count 1;
        })
  unfolding deallocate_node load
  kept q node cell e room = ground arith

  -- The queue without its old dummy node.
  pub record Freed (dummy : ℕ × T) (items : Items T) (tail : ℕ) (d : Queue T) : Type 0 where
    pub frees : Items T
    pub parts : Parts d dummy items frees
    pub unmoved : d.tail ≡ tail

  module _ (q : Queue T) (dummy item : ℕ × T) (items frees : Items T)
      (p : Parts q dummy (item ∷ items) frees) where
    abbrev pub moved : Queue T
    moved = record q { head = item.0 }

    behind : Chain q.nodes (some (item.0)) (item ∷ items)
    behind =
        let (next, start, here, rest) = p.live in
        subst (λ n. Chain q.nodes n (item ∷ items)) rest.1 rest

    -- A write to the old dummy node spares the nodes behind it, and the free list.
    behind_frame :
        (cell : Option (Cell T))
        → Chain (update q.nodes (dummy.0) cell) (some (item.0)) (item ∷ items)
    behind_frame cell =
        Chain_frame q.nodes (some (item.0)) (item ∷ items) (dummy.0) cell
          (Absent-left (dummy.0) (map address (item ∷ items)) (map address frees) p.distinct.0)
          behind

    frees_frame : (cell : Option (Cell T)) → Chain (update q.nodes (dummy.0) cell) q.free_list frees
    frees_frame cell =
        Chain_frame q.nodes q.free_list frees (dummy.0) cell
          (Absent-right (dummy.0) (map address (item ∷ items)) (map address frees) p.distinct.0)
          p.free

    pub freed : Returns (Freed item items q.tail) (deallocate_node moved (dummy.0))
    freed =
        let (next, start, here, rest) = p.live in
        elim (Bool-cases (leb max_free_nodes q.free_count)) [
          | inl full ↦ rw (deleted moved (dummy.0) _ here full) (
              returns (record {
                frees = frees;
                parts = record {
                  live = behind_frame none;
                  free = frees_frame none;
                  counted = p.counted;
                  bounded = p.bounded;
                  distinct = p.distinct.1;
                  below = p.below.1;
                };
                unmoved = refl;
              }))
          | inr room ↦
              let cell : Option (Cell T) = some (record { value = dummy.1; next = q.free_list }) in
              rw (kept moved (dummy.0) (record { value = dummy.1; next = next }) here room) (
                returns (record {
                  frees = dummy ∷ frees;
                  parts = record {
                    live = behind_frame cell;
                    free = (q.free_list, refl, ground arith, frees_frame cell);
                    counted = ground (arith, p.counted);
                    bounded = ground (arith, p.counted);
                    distinct =
                        Distinct-middle (dummy.0) (map address (item ∷ items)) (map address frees)
                          p.distinct;
                    below =
                        Below-middle q.unused (dummy.0) (map address (item ∷ items))
                          (map address frees) p.below;
                  };
                  unmoved = refl;
                }))
        ]
