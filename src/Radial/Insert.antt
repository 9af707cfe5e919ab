-- ===== src/Radial/Insert.antt =====
-- src/radial_circular_list.cpp: insert.
use hft_radial_cache.Common.{
  ℕ, ◌+◌, ◌/◌, ◌≤◌, ◌<◌, ◌≡◌, ◌↔◌, refl, ◌∙◌, inl, inr, Bool, true, false, some, List, ◌∷◌, Perm,
  arith, leb, if◌then◌else◌, length, get_elem?, set, get_or, get_elem?-set, get_or-set, length-set,
}
use hft_radial_cache.Common.Bytes.{Bytes, bytes_eq}
use hft_radial_cache.Common.Double.{Double}
use hft_radial_cache.Common.Run.{Returns, returns, Returns-bind, Returns-if}
use hft_radial_cache.Common.Words.{word, add64}
use hft_radial_cache.Node.{Node}
use hft_radial_cache.Table.{Table}
use hft_radial_cache.Radial.{Cache, Request, blank, priority_of, fill, insert}
use hft_radial_cache.Radial.Pending.{pending, Sound}
use hft_radial_cache.Radial.Invariant.{IsValid, Sound-write, Sound_mono}
use hft_radial_cache.Radial.Add.{Added, add_to_correct}

module _ (to_ns : Double → ℕ) where
  -- The cache after a call of insert, and its answer.
  pub record Inserted (c : Cache) (r : Request) (now : ℕ) (o : Cache × Bool) : Type 0 where
    pub valid : IsValid o.0
    -- Accepted exactly if the cache, the pool and the symbol's heap have room.
    pub when : (o.1 ≡ true) ↔ (
        (c.total_nodes < c.max_nodes)
        × (c.pool_index < c.max_nodes)
        × (length (pending c.midpoints r.midpoint) < c.max_nodes / 10))
    pub accepted :
        o.1 ≡ true
        → Perm (pending o.0.midpoints r.midpoint) (c.pool_index ∷ pending c.midpoints r.midpoint)
          × (get_elem? o.0.node_pool c.pool_index ≡ some (fill to_ns r now))
          × (o.0.total_nodes ≡ c.total_nodes + 1)
    pub refused :
        o.1 ≡ false
        → (pending o.0.midpoints r.midpoint ≡ pending c.midpoints r.midpoint)
          × (o.0.total_nodes ≡ c.total_nodes)
    pub others :
        (j : Bytes)
        → bytes_eq r.midpoint j ≡ false
        → pending o.0.midpoints j ≡ pending c.midpoints j
    -- At most one node of the pool is used up, and none comes back.
    pub spent :
        (c.pool_index ≤ o.0.pool_index)
        × (o.0.pool_index ≤ c.pool_index + 1)
        × (o.0.max_nodes ≡ c.max_nodes)
    pub kept :
        (p : ℕ) → p < c.pool_index → get_or o.0.node_pool p blank ≡ get_or c.node_pool p blank

  module _ (c : Cache) (r : Request) (now : ℕ) (v : IsValid c)
      (room : c.pool_index + 1 < word) where
    abbrev taken : Cache
    taken = record c { pool_index = add64 c.pool_index 1 }

    step : add64 c.pool_index 1 ≡ c.pool_index + 1
    step = omega arith

    -- The two refusals before a node is filled.
    full-Inserted : c.max_nodes ≤ c.total_nodes → Inserted c r now (c, false)
    full-Inserted h = record {
      valid = v;
      when = (λ e. cc, λ w. absurd (omega arith));
      accepted = λ e. cc;
      refused = λ e. (refl, refl);
      others = λ j e. refl;
      spent = (omega (arith, step), omega (arith, step), refl);
      kept = λ p h. refl;
    }

    taken-IsValid : IsValid taken
    taken-IsValid = record {
      pool = v.pool;
      small = v.small;
      sound = rw step (Sound_mono _ _ c.pool_index _ c.midpoints (omega arith) v.sound);
      counted = v.counted;
    }

    exhausted-Inserted : c.max_nodes ≤ c.pool_index → Inserted c r now (taken, false)
    exhausted-Inserted h = record {
      valid = taken-IsValid;
      when = (λ e. cc, λ w. absurd (omega arith));
      accepted = λ e. cc;
      refused = λ e. (refl, refl);
      others = λ j e. refl;
      spent = (omega (arith, step), omega (arith, step), refl);
      kept = λ p h. refl;
    }

    module _ (free : c.total_nodes < c.max_nodes) (left : c.pool_index < c.max_nodes) where
      abbrev pool : List Node
      pool = set c.node_pool c.pool_index (fill to_ns r now)

      inside : c.pool_index < length c.node_pool
      inside = omega (arith, v.pool)

      fresh : Sound (priority_of pool) (c.max_nodes / 10) c.pool_index c.midpoints
      fresh =
          Sound-write c.node_pool _ c.pool_index c.pool_index _ c.midpoints inside (omega arith)
            v.sound

      module _ (t : Table × Bool)
          (a : Added (c.max_nodes / 10) c.pool_index pool c.midpoints r.midpoint t) where
        abbrev total : ℕ
        total = if t.1 then add64 c.total_nodes 1 else c.total_nodes

        placed-Inserted :
            Inserted c r now
              (record taken { midpoints = t.0; total_nodes = total; node_pool = pool }, t.1)
        placed-Inserted = record {
          valid = record {
            pool = length-set c.node_pool c.pool_index (fill to_ns r now) ∙ v.pool;
            small = v.small;
            sound = rw step a.sound;
            counted = ground (arith, v.small);
          };
          when = (λ e. ground (arith, a.outcome), λ w. ground (arith, a.outcome));
          accepted = λ e. (
            added_node e,
            ground (
              arith,
              get_elem?-set c.node_pool c.pool_index c.pool_index (fill to_ns r now) inside,
            ),
            ground (arith, v.small),
          );
          refused = λ e. (same_nodes e, rw e);
          others = a.others;
          spent = (omega (arith, step), omega (arith, step), refl);
          kept = λ p h.
              ground (arith, get_or-set blank c.node_pool c.pool_index p (fill to_ns r now) inside);
        }
          where
            added_node :
                t.1 ≡ true
                → Perm (pending t.0 r.midpoint) (c.pool_index ∷ pending c.midpoints r.midpoint)
            added_node e = elim a.outcome [ inl x ↦ x.2 | inr x ↦ absurd (cc) ]

            same_nodes : t.1 ≡ false → pending t.0 r.midpoint ≡ pending c.midpoints r.midpoint
            same_nodes e = elim a.outcome [ inl x ↦ cc | inr x ↦ x.2 ]

    -- On a valid cache, while the index of the pool cannot wrap, insert returns and keeps the cache
    -- valid. It accepts exactly if the cache, the pool and the symbol's heap have room; it then adds
    -- the filled node to the symbol's nodes and counts it, and else leaves both as they were. The
    -- other symbols keep their nodes, and at most one node of the pool is used up.
    pub insert_correct : Returns (Inserted c r now) (insert to_ns c r now)
    unfolding insert
    insert_correct =
        Returns-if (leb c.max_nodes c.total_nodes) (λ e. returns (full-Inserted (ground arith)))
          λ e.
            Returns-if (leb c.max_nodes c.pool_index)
              (λ f. returns (exhausted-Inserted (ground arith)))
              λ f.
                let free : c.total_nodes < c.max_nodes = ground arith in
                let left : c.pool_index < c.max_nodes = ground arith in
                Returns-bind
                  (add_to_correct c.max_nodes c.pool_index _ c.midpoints r.midpoint
                    (fresh free left))
                  λ t a. returns (placed-Inserted free left t a)
