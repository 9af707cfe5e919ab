-- ===== src/Radial/Batch.antt =====
-- src/radial_circular_list.cpp: insert_batch.
use hft_radial_cache.Common.{
  ℕ, ◌+◌, ◌/◌, ◌≤◌, ◌<◌, ◌≡◌, ◌↔◌, refl, sym, ◌∙◌, Bool, true, false, List, [], ◌∷◌, arith, ltb,
  if◌then◌else◌, length, set, get_or, get_or-set, length-set,
}
use hft_radial_cache.Common.Bytes.{Bytes, bytes_eq}
use hft_radial_cache.Common.Double.{Double}
use hft_radial_cache.Common.Run.{Returns, returns, Returns-map, Returns-bind, Returns-if}
use hft_radial_cache.Common.Words.{word, add64}
use hft_radial_cache.Midpoint.Sweep.{All}
use hft_radial_cache.Radial.{Cache, Request, blank, priority_of, fill, batch_loop, insert_batch}
use hft_radial_cache.Radial.Pending.{pending, Sound}
use hft_radial_cache.Radial.Invariant.{IsValid, Sound-write, Sound_mono}
use hft_radial_cache.Radial.Add.{add_to_correct}

module _ (to_ns : Double → ℕ) where
  -- The cache `d` after the rounds of a batch on `c`, from the `index`-th node on.
  pub record Filled (c : Cache) (index : ℕ) (batch : List Request) (d : Cache) : Type 0 where
    pub pool : length d.node_pool ≡ length c.node_pool
    pub sound :
        Sound (priority_of d.node_pool) (c.max_nodes / 10) (index + length batch) d.midpoints
    pub kept : (p : ℕ) → p < index → get_or d.node_pool p blank ≡ get_or c.node_pool p blank
    pub others :
        (j : Bytes)
        → All (λ r. bytes_eq r.midpoint j ≡ false) batch
        → pending d.midpoints j ≡ pending c.midpoints j
    pub max : d.max_nodes ≡ c.max_nodes
    pub counters : (d.total_nodes ≡ c.total_nodes) × (d.pool_index ≡ c.pool_index)

  batch_loop_correct :
      (c : Cache) (index : ℕ) (batch : List Request) (now : ℕ → ℕ)
      → index + length batch ≤ length c.node_pool
      → Sound (priority_of c.node_pool) (c.max_nodes / 10) index c.midpoints
      → Returns (Filled c index batch) (batch_loop to_ns c index batch now)
  unfolding batch_loop
  batch_loop_correct c index [] now room s = returns (record {
    pool = refl;
    sound = Sound_mono _ _ index _ c.midpoints (omega arith) s;
    kept = λ p h. refl;
    others = λ j a. refl;
    max = refl;
    counters = (refl, refl);
  })
  batch_loop_correct c index (r ∷ batch) now room s =
      let node = fill to_ns r (now index) in
      let pool = set c.node_pool index node in
      let size = length-set c.node_pool index node in
      let inside : index < length c.node_pool = omega arith in
      Returns-bind
        (add_to_correct c.max_nodes index pool c.midpoints r.midpoint
          (Sound-write c.node_pool _ index index node c.midpoints inside (omega arith) s))
        λ t a.
          let next = record c { midpoints = t.0; node_pool = pool } in
          Returns-map (batch_loop_correct next (index + 1) batch now (omega (arith, size)) a.sound)
            λ d f. record {
              pool = f.pool ∙ size;
              sound = Sound_mono _ _ _ _ d.midpoints (omega arith) f.sound;
              kept = λ p h.
                  f.kept p (omega arith)
                  ∙ ground (arith, get_or-set blank c.node_pool index p node inside);
              others = λ j e. f.others j e.1 ∙ a.others j e.0;
              max = f.max;
              counters = f.counters;
            }

  -- The cache after a call of insert_batch, and its answer.
  pub record BatchDone (c : Cache) (batch : List Request) (o : Cache × Bool) : Type 0 where
    pub valid : IsValid o.0
    pub when : (o.1 ≡ true) ↔ (
        (c.total_nodes + length batch ≤ c.max_nodes) × (c.pool_index + length batch ≤ c.max_nodes))
    pub total : o.0.total_nodes ≡ (if o.1 then c.total_nodes + length batch else c.total_nodes)
    pub others :
        (j : Bytes)
        → All (λ r. bytes_eq r.midpoint j ≡ false) batch
        → pending o.0.midpoints j ≡ pending c.midpoints j
    pub spent :
        (c.pool_index ≤ o.0.pool_index)
        × (o.0.pool_index ≤ c.pool_index + length batch)
        × (o.0.max_nodes ≡ c.max_nodes)
    pub kept :
        (p : ℕ) → p < c.pool_index → get_or o.0.node_pool p blank ≡ get_or c.node_pool p blank

  module _ (c : Cache) (batch : List Request) (now : ℕ → ℕ) (v : IsValid c)
      (room : c.pool_index + length batch < word) (short : c.max_nodes + length batch < word) where
    abbrev taken : Cache
    taken = record c { pool_index = add64 c.pool_index (length batch) }

    step : add64 c.pool_index (length batch) ≡ c.pool_index + length batch
    step = omega arith

    sum : add64 c.total_nodes (length batch) ≡ c.total_nodes + length batch
    sum = omega (arith, v.counted)

    refused-BatchDone : c.max_nodes < c.total_nodes + length batch → BatchDone c batch (c, false)
    refused-BatchDone h = record {
      valid = v;
      when = (λ e. cc, λ w. absurd (omega arith));
      total = refl;
      others = λ j e. refl;
      spent = (omega (arith, step), omega (arith, step), refl);
      kept = λ p e. refl;
    }

    spent-BatchDone : c.max_nodes < c.pool_index + length batch → BatchDone c batch (taken, false)
    spent-BatchDone h = record {
      valid = record {
        pool = v.pool;
        small = v.small;
        sound = rw step (Sound_mono _ _ c.pool_index _ c.midpoints (omega arith) v.sound);
        counted = v.counted;
      };
      when = (λ e. cc, λ w. absurd (omega arith));
      total = refl;
      others = λ j e. refl;
      spent = (omega (arith, step), omega (arith, step), refl);
      kept = λ p e. refl;
    }

    whole-BatchDone :
        (d : Cache)
        → c.total_nodes + length batch ≤ c.max_nodes
        → c.pool_index + length batch ≤ c.max_nodes
        → Filled taken c.pool_index batch d
        → BatchDone c batch (record d { total_nodes = add64 d.total_nodes (length batch) }, true)
    whole-BatchDone d h k f = record {
      valid = record {
        pool = f.pool ∙ v.pool ∙ sym f.max;
        small = rw f.max v.small;
        sound = rw (f.max, f.counters.1, step) f.sound;
        counted = rw (f.max, f.counters.0, sum) h;
      };
      when = (λ e. (h, k), λ w. refl);
      total = rw (f.counters.0, sum);
      others = f.others;
      spent = (omega (arith, step, f.counters.1), omega (arith, step, f.counters.1), f.max);
      kept = f.kept;
    }

    -- On a valid cache, while neither the pool's index nor the node limit wraps when the batch's
    -- size is added, insert_batch returns and keeps the cache valid. It accepts exactly if the whole
    -- batch fits under the node limit and into the pool; then, and only then, the count grows, by
    -- the batch's size. The symbols that the batch does not name keep their nodes.
    pub insert_batch_correct : Returns (BatchDone c batch) (insert_batch to_ns c batch now)
    unfolding insert_batch
    insert_batch_correct =
        Returns-if (ltb c.max_nodes (add64 c.total_nodes (length batch)))
          (λ e. returns (refused-BatchDone (ground (arith, sum))))
          λ e.
            Returns-if (ltb c.max_nodes (add64 c.pool_index (length batch)))
              (λ f. returns (spent-BatchDone (ground (arith, step))))
              λ f.
                let fits : c.total_nodes + length batch ≤ c.max_nodes = ground (arith, sum) in
                let left : c.pool_index + length batch ≤ c.max_nodes = ground (arith, step) in
                Returns-bind
                  (batch_loop_correct taken c.pool_index batch now (omega (arith, v.pool)) v.sound)
                  λ d g. returns (whole-BatchDone d fits left g)
