-- ===== src/Radial/Invariant.antt =====
-- The invariant of the cache, and writes through the pointers that it keeps.
use hft_radial_cache.Common.{
  ℕ, ◌+◌, ◌/◌, ◌≤◌, ◌<◌, ◌≡◌, refl, sym, ◌∙◌, ◌⊎◌, inl, inr, true, false, none, some, List, arith,
  ◌==◌, if◌then◌else◌, length, get_elem?, set, get_elem?-set, get_elem?_lt, get_elem?-some,
  get_or-set, length-set, Bool-cases, Option-cases,
}
use hft_radial_cache.Common.Bytes.{Bytes, bytes_eq, bytes_eq_iff}
use hft_radial_cache.Common.Int.{ℤ}
use hft_radial_cache.Common.Words.{word}
use hft_radial_cache.Heap.{Heap}
use hft_radial_cache.Heap.Held.{held}
use hft_radial_cache.Heap.Congr.{IsValid-congr}
use hft_radial_cache.Node.{Node}
use hft_radial_cache.Table
use hft_radial_cache.Table.{Table}
use hft_radial_cache.Radial.{Cache, blank, priority_of, with_midpoint, new}
use hft_radial_cache.Radial.Pending.{pending, pending_at, pending-none, HeapSound, Sound}

-- Every heap is valid and as large as a tenth of the pool, and no pointer in it is past the nodes
-- handed out so far.
pub record IsValid (c : Cache) : Type 0 where
  pub pool : length c.node_pool ≡ c.max_nodes
  pub small : c.max_nodes + c.max_nodes < word
  pub sound : Sound (priority_of c.node_pool) (c.max_nodes / 10) c.pool_index c.midpoints
  pub counted : c.total_nodes ≤ c.max_nodes

-- A node that is written before it is handed out changes no heap.
pub Sound-write :
    (pool : List Node) (cap index bound : ℕ) (node : Node) (t : Table)
    → index < length pool
    → bound ≤ index
    → Sound (priority_of pool) cap bound t
    → Sound (priority_of (set pool index node)) cap bound t
unfolding priority_of
Sound-write pool cap index bound node t inside fresh s = record {
  table = s.table;
  heaps = λ p h e.
      let old = s.heaps p h e in
      record {
        valid =
            IsValid-congr (priority_of pool) (priority_of (set pool index node)) h
              (λ x m. ground (arith, get_or-set blank pool index x node, old.below x m)) old.valid;
        capacity = old.capacity;
        below = old.below;
      };
}

-- Later bounds are weaker.
pub Sound_mono :
    (priority : ℕ → ℤ) (cap bound bound' : ℕ) (t : Table)
    → bound ≤ bound'
    → Sound priority cap bound t
    → Sound priority cap bound' t
Sound_mono priority cap bound bound' t le s = record {
  table = s.table;
  heaps = λ p h e.
      let old = s.heaps p h e in
      record {
        valid = old.valid;
        capacity = old.capacity;
        below = λ x m. omega (arith, old.below x m);
      };
}

module _ (priority : ℕ → ℤ) (cap bound : ℕ) (t : Table) (key : Bytes) (p : ℕ) (h h' : Heap ℕ)
    (s : Sound priority cap bound t) (here : Table.get t key ≡ some p)
    (there : get_elem? t.midpoints p ≡ some h) where
  abbrev written : Table
  written = with_midpoint t p h'

  at-written :
      (q : ℕ)
      → get_elem? written.midpoints q ≡ (if p == q then some h' else get_elem? t.midpoints q)
  at-written q = get_elem?-set t.midpoints p q h' (get_elem?_lt t.midpoints p h there)

  get-written : (j : Bytes) → Table.get written j ≡ Table.get t j
  unfolding Table.get
  get-written j = refl

  -- A new heap behind the symbol's pointer keeps the table sound.
  pub written-Sound : HeapSound priority cap bound h' → Sound priority cap bound written
  written-Sound new = record {
    table = record {
      buckets = s.table.buckets;
      allocated = λ j q e.
          omega
            (arith, s.table.allocated j q (sym (get-written j) ∙ e), length-set t.midpoints p h');
      unshared =
          λ i j q e f. s.table.unshared i j q (sym (get-written i) ∙ e) (sym (get-written j) ∙ f);
    };
    heaps = λ q g e. case q g (Bool-cases (p == q)) e;
  }
    where
      case :
          (q : ℕ) (g : Heap ℕ)
          → ((p == q) ≡ true) ⊎ ((p == q) ≡ false)
          → get_elem? written.midpoints q ≡ some g
          → HeapSound priority cap bound g
      case q g (inl same) e = let r : h' ≡ g = ground (arith, at-written q) in rw (← r) new
      case q g (inr other) e = s.heaps q g (rw (at-written q, other) at e)

  pub pending-written_self : pending written key ≡ held h'.heap
  pending-written_self =
      pending_at written key p h' (get-written key ∙ here) (ground (arith, at-written p))

  -- The other symbols keep their nodes.
  pub pending-written_ne : (j : Bytes) → bytes_eq key j ≡ false → pending written j ≡ pending t j
  pending-written_ne j ne = case (Option-cases (Table.get t j))
    where
      case :
          (Table.get t j ≡ none) ⊎ ((q : ℕ) × (Table.get t j ≡ some q))
          → pending written j ≡ pending t j
      case (inl e) = pending-none written j (get-written j ∙ e) ∙ sym (pending-none t j e)
      case (inr (q, e)) =
          let (g, f) = get_elem?-some t.midpoints q (s.table.allocated j q e) in
          let differ : (p == q) ≡ false =
            ground (arith, s.table.unshared key j p, bytes_eq_iff key j) in
          pending_at written j q g (get-written j ∙ e) (rw (at-written q, differ) f)
          ∙ sym (pending_at t j q g e f)
