-- ===== src/Queue/Shape.antt =====
-- The shape of the queue in the store, kept by allocation, linking and deallocation.
use hft_radial_cache.Common.{ℕ, ◌+◌, ◌≤◌, ◌≡◌, none, some, List, [], ◌∷◌, ◌++◌, map, length, arith}
use hft_radial_cache.Common.Words.{sub64}
use hft_radial_cache.Common.Run.{ok, Returns, returns}
use hft_radial_cache.Queue.{Cell, Queue, update, allocate_node, max_free_nodes}
use hft_radial_cache.Queue.Chain.{
  Items, address, Absent, Distinct, Absent-left, Absent-right, Distinct-front, Below, Below-front,
  Below-next, Below-Absent, Chain, Chain_frame,
}
use hft_radial_cache.Queue.Tail.{IsTail}

module _ {T : Type 0} where
  -- The addresses of the queue's nodes, the dummy's first, then those of the free list.
  abbrev pub addresses : ℕ × T → Items T → Items T → List ℕ
  addresses dummy items frees = map address (dummy ∷ items) ++ map address frees

  -- What the pointers lead to, but for the tail: two chains that share no node.
  pub record Parts (q : Queue T) (dummy : ℕ × T) (items frees : Items T) : Type 0 where
    pub live : Chain q.nodes (some q.head) (dummy ∷ items)
    pub free : Chain q.nodes q.free_list frees
    pub counted : length frees ≡ q.free_count
    pub bounded : length frees ≤ max_free_nodes
    pub distinct : Distinct (addresses dummy items frees)
    pub below : Below q.unused (addresses dummy items frees)

  pub record Shape (q : Queue T) (dummy : ℕ × T) (items frees : Items T) : Type 0 where
    pub parts : Parts q dummy items frees
    pub tail : IsTail q.tail (dummy.0) items

  pub Parts-tail :
      (q : Queue T) (dummy : ℕ × T) (items frees : Items T) (tail : ℕ)
      → Parts q dummy items frees
      → Parts (record q { tail = tail }) dummy items frees
  Parts-tail q dummy items frees tail p = record {
    live = p.live;
    free = p.free;
    counted = p.counted;
    bounded = p.bounded;
    distinct = p.distinct;
    below = p.below;
  }

  -- A node in neither chain, which holds a value.
  pub record Spare (q : Queue T) (dummy : ℕ × T) (items frees : Items T) (node : ℕ) (value : T)
      : Type 0 where
    pub shape : Shape q dummy items frees
    pub filled : q.nodes node ≡ some (record { value = value; next = none })
    pub distinct : Distinct (node ∷ addresses dummy items frees)
    pub below : Below q.unused (node ∷ addresses dummy items frees)

  pub record Allocated (dummy : ℕ × T) (items : Items T) (value : T) (r : Queue T × ℕ)
      : Type 0 where
    pub frees : Items T
    pub spare : Spare (r.0) dummy items frees (r.1) value

  new_node :
      (q : Queue T) (value : T)
      → q.free_list ≡ none
      → allocate_node q value
        ≡ ok (
          record q {
            nodes = update q.nodes q.unused (some (record { value = value; next = none }));
            unused = q.unused + 1;
          },
          q.unused,
        )
  unfolding allocate_node
  new_node q value e = ground arith

  reused_node :
      (q : Queue T) (value : T) (node : ℕ) (cell : Cell T)
      → q.free_list ≡ some node
      → q.nodes node ≡ some cell
      → allocate_node q value
        ≡ ok (
          record q {
            nodes = update q.nodes node (some (record { value = value; next = none }));
            free_list = cell.next;
            free_count = sub64 q.free_count 1;
          },
          node,
        )
  unfolding allocate_node
  reused_node q value node cell e f = ground arith

  pub allocated :
      (q : Queue T) (dummy : ℕ × T) (items frees : Items T) (value : T)
      → Shape q dummy items frees
      → Returns (Allocated dummy items value) (allocate_node q value)
  allocated q dummy items [] value h =
      let p = h.parts in
      let ids = addresses dummy items [] in
      let apart : Absent q.unused ids = Below-Absent q.unused ids p.below in
      rw (new_node q value p.free) (
        returns (record {
          frees = [];
          spare = record {
            shape = record {
              parts = record {
                live =
                    Chain_frame q.nodes _ (dummy ∷ items) q.unused _
                      (Absent-left q.unused (map address (dummy ∷ items)) [] apart) p.live;
                free = p.free;
                counted = p.counted;
                bounded = p.bounded;
                distinct = p.distinct;
                below = Below-next q.unused ids p.below;
              };
              tail = h.tail;
            };
            filled = ground arith;
            distinct = (apart, p.distinct);
            below = (omega arith, Below-next q.unused ids p.below);
          };
        }))
  allocated q dummy items (first ∷ frees) value h =
      let p = h.parts in
      let (next, start, here, rest) = p.free in
      let front =
        Distinct-front (first.0) (map address (dummy ∷ items)) (map address frees) p.distinct in
      let under =
        Below-front q.unused (first.0) (map address (dummy ∷ items)) (map address frees) p.below in
      rw (reused_node q value (first.0) (record { value = first.1; next = next }) start here) (
        returns (record {
          frees = frees;
          spare = record {
            shape = record {
              parts = record {
                live =
                    Chain_frame q.nodes _ (dummy ∷ items) (first.0) _
                      (Absent-left (first.0) (map address (dummy ∷ items)) _ front.0) p.live;
                free =
                    Chain_frame q.nodes _ frees (first.0) _
                      (Absent-right (first.0) (map address (dummy ∷ items)) _ front.0) rest;
                counted = omega (arith, p.counted, p.bounded);
                bounded = omega (arith, p.bounded);
                distinct = front.1;
                below = under.1;
              };
              tail = h.tail;
            };
            filled = ground arith;
            distinct = front;
            below = under;
          };
        }))
