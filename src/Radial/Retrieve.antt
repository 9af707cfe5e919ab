-- ===== src/Radial/Retrieve.antt =====
-- src/radial_circular_list.cpp: get_highest_priority.
use mathlib.Core.List.{Mem, mem-append_right}
use mathlib.Core.List.Perm
use hft_radial_cache.Common.{
  ℕ, ◌/◌, ◌≡◌, refl, ◌∙◌, inl, inr, true, false, Option, none, some, List, [], ◌∷◌, ◌++◌, Perm,
  arith, length, get_elem?, Option-cases, get_elem?-some,
}
use hft_radial_cache.Common.Bytes.{Bytes, bytes_eq}
use hft_radial_cache.Common.Int.{◌≤ℤ◌}
use hft_radial_cache.Common.Run.{Returns, returns, Returns-bind}
use hft_radial_cache.Heap.{Heap}
use hft_radial_cache.Heap.Held.{held, length-held}
use hft_radial_cache.Midpoint.{Outcome}
use hft_radial_cache.Midpoint.Sweep.{All, to_list, Swept, get_highest_correct}
use hft_radial_cache.Table
use hft_radial_cache.Radial.{Cache, priority_of, expired_at, with_midpoint, get_highest_priority}
use hft_radial_cache.Radial.Pending.{pending, pending_at, pending-none, midpoint_at-ok, HeapSound}
use hft_radial_cache.Radial.Invariant.{
  IsValid, written-Sound, pending-written_self, pending-written_ne,
}

-- The cache after a lookup, and its answer. `gone` lists the nodes that the call deleted.
pub record Retrieved (c : Cache) (key : Bytes) (clock : ℕ → ℕ) (o : Cache × Option ℕ) : Type 0 where
  pub valid : IsValid o.0
  pub gone : List ℕ
  pub deleted : o.0.deleted ≡ gone ++ c.deleted
  -- Each node of the symbol is returned, deleted or still there.
  pub split : Perm (to_list o.1 ++ gone ++ pending o.0.midpoints key) (pending c.midpoints key)
  pub dead : All (λ x. (k : ℕ) × (expired_at c.node_pool clock k x ≡ true)) gone
  pub live : (x : ℕ) → o.1 ≡ some x → (k : ℕ) × (expired_at c.node_pool clock k x ≡ false)
  pub best :
      (x : ℕ)
      → o.1 ≡ some x
      → (y : ℕ) → Mem y (pending o.0.midpoints key)
      → priority_of c.node_pool y ≤ℤ priority_of c.node_pool x
  pub exhausted : o.1 ≡ none → pending o.0.midpoints key ≡ []
  pub others :
      (j : Bytes) → bytes_eq key j ≡ false → pending o.0.midpoints j ≡ pending c.midpoints j
  -- Neither the pool nor the counters change.
  pub pool : o.0.node_pool ≡ c.node_pool
  pub counters :
      (o.0.pool_index ≡ c.pool_index)
      × (o.0.total_nodes ≡ c.total_nodes)
      × (o.0.max_nodes ≡ c.max_nodes)

length_zero : (xs : List ℕ) → length xs ≡ 0 → xs ≡ []
length_zero [] e = refl
length_zero (x ∷ xs) e = absurd (omega arith)

module _ (c : Cache) (key : Bytes) (clock : ℕ → ℕ) (v : IsValid c) where
  unknown-Retrieved : Table.get c.midpoints key ≡ none → Retrieved c key clock (c, none)
  unknown-Retrieved e = record {
    valid = v;
    gone = [];
    deleted = refl;
    split = Perm.rfl;
    dead = tt;
    live = λ x q. cc;
    best = λ x q. cc;
    exhausted = λ q. pending-none c.midpoints key e;
    others = λ j q. refl;
    pool = refl;
    counters = (refl, refl, refl);
  }

  module _ (p : ℕ) (h : Heap ℕ) (here : Table.get c.midpoints key ≡ some p)
      (there : get_elem? c.midpoints.midpoints p ≡ some h) (o : Outcome ℕ)
      (s : Swept (priority_of c.node_pool) (expired_at c.node_pool clock) h [] o) where
    old : HeapSound (priority_of c.node_pool) (c.max_nodes / 10) c.pool_index h
    old = v.sound.heaps p h there

    rest-HeapSound : HeapSound (priority_of c.node_pool) (c.max_nodes / 10) c.pool_index o.rest
    rest-HeapSound = record {
      valid = s.valid;
      capacity = s.kept ∙ old.capacity;
      below = λ x m.
          old.below x
            ((Perm.mem_iff s.split).0 (mem-append_right (to_list o.result ++ o.deleted) m));
    }

    self : pending (with_midpoint c.midpoints p o.rest) key ≡ held o.rest.heap
    self =
        pending-written_self (priority_of c.node_pool) _ _ c.midpoints key p h o.rest v.sound here
          there

    swept-Retrieved : Retrieved c key clock (
      record c { midpoints = with_midpoint c.midpoints p o.rest; deleted = o.deleted ++ c.deleted },
      o.result,
    )
    swept-Retrieved = record {
      valid = record {
        pool = v.pool;
        small = v.small;
        sound =
            written-Sound (priority_of c.node_pool) _ _ c.midpoints key p h o.rest v.sound here
              there rest-HeapSound;
        counted = v.counted;
      };
      gone = o.deleted;
      deleted = refl;
      split = rw (self, pending_at c.midpoints key p h here there) s.split;
      dead = s.dead;
      live = s.live;
      best = λ x e y m. s.best x e y (rw self at m);
      exhausted = λ e.
          self
          ∙ length_zero (held o.rest.heap)
              (length-held o.rest.size o.rest.heap s.valid.shape ∙ s.exhausted e);
      others = λ j ne.
          pending-written_ne (priority_of c.node_pool) _ _ c.midpoints key p h o.rest v.sound here
            there j ne;
      pool = refl;
      counters = (refl, refl, refl);
    }

  -- On a valid cache get_highest_priority returns and keeps the cache valid. It deletes only nodes of
  -- the symbol that it found expired; the node returned was found fresh, and none of the symbol's
  -- nodes that are left has a higher priority; null is returned only if the symbol has none left.
  -- The other symbols' nodes, the pool and the counters stay as they were.
  pub get_highest_priority_correct :
      Returns (Retrieved c key clock) (get_highest_priority c key clock)
  unfolding get_highest_priority
  get_highest_priority_correct = elim (Option-cases (Table.get c.midpoints key)) [
    | inl e ↦ rw (e, get_highest_priority) (returns (unknown-Retrieved e))
    | inr (p, e) ↦
        let (h, there) = get_elem?-some c.midpoints.midpoints p (v.sound.table.allocated key p e) in
        rw (e, get_highest_priority, midpoint_at-ok c.midpoints p h there)
          (Returns-bind
            (get_highest_correct (priority_of c.node_pool) (expired_at c.node_pool clock) h
              (v.sound.heaps p h there).valid)
            λ o s. returns (swept-Retrieved p h e there o s))
  ]
