-- ===== src/MultiLevel/Front.antt =====
-- What each call does to the first level, as steps of a small machine.
use mathlib.Core.List.{append-nil}
use hft_radial_cache.Common.{
  ℕ, ◌<◌, ◌≡◌, refl, sym, subst, ◌∙◌, List, [], ◌∷◌, ◌++◌, if_either, if_cases, ltb, ltb→lt, arith,
}
use hft_radial_cache.Common.Bytes.{Bytes}
use hft_radial_cache.Common.Words.{add64, sub64}
use hft_radial_cache.Disk.{DiskNode}
use hft_radial_cache.MultiLevel.{
  Level2, MultiLevelCache, count_in, count_out, demote_to_l2, demote_to_l3, demote, evict_oldest,
  eviction_policy_l1, enqueue_l1, promote_to_l1,
}

pub record Front : Type 0 where
  pub nodes : List DiskNode
  pub items : ℕ
  pub hits : ℕ
  pub room : ℕ

abbrev pub front : {L : Type 0} → MultiLevelCache L → Front
front m = record {
  nodes = m.l1_cache;
  items = m.l1_stats.item_count;
  hits = m.l1_stats.hit_count;
  room = m.l1_capacity;
}

pub data Move (f : Front) : Front → Type 0 where
  stays : Move f f
  -- A node enters while the counter is below the capacity.
  enters :
      (node : DiskNode)
      → f.items < f.room
      → Move f (record f { nodes = f.nodes ++ node ∷ []; items = add64 f.items 1 })
  -- A node enters, and the first of the queue makes room for it.
  replaces :
      (node oldest : DiskNode) (others : List DiskNode)
      → f.nodes ≡ oldest ∷ others
      → Move f (record f { nodes = others ++ node ∷ []; items = add64 (sub64 f.items 1) 1 })
  overfills :
      (node : DiskNode)
      → f.nodes ≡ []
      → Move f (record f { nodes = node ∷ []; items = add64 f.items 1 })
  -- A lookup takes a node out, and does not count it out.
  hits_one :
      (before : List DiskNode) (node : DiskNode) (after : List DiskNode)
      → f.nodes ≡ before ++ node ∷ after
      → Move f (record f { nodes = after ++ before; hits = add64 f.hits 1 })
  leaves :
      (before : List DiskNode) (node : DiskNode) (after : List DiskNode)
      → f.nodes ≡ before ++ node ∷ after
      → Move f (record f { nodes = after ++ before; items = sub64 f.items 1 })

module _ {L : Type 0} (level2 : Level2 L) (to_string : ℕ → Bytes) (node_size count_size : ℕ) where
  pub demote_to_l2-front :
      (m : MultiLevelCache L) (node : DiskNode)
      → front ((demote_to_l2 level2 to_string node_size count_size m node).0) ≡ front m
  unfolding demote_to_l2
  demote_to_l2-front m node = ground arith

  pub demote_to_l3-front :
      (m : MultiLevelCache L) (node : DiskNode)
      → front ((demote_to_l3 level2 to_string node_size count_size m node).0) ≡ front m
  unfolding demote_to_l3
  demote_to_l3-front m node = ground arith

  demote-front :
      (m : MultiLevelCache L) (node : DiskNode)
      → front (demote level2 to_string node_size count_size m node) ≡ front m
  unfolding demote
  demote-front m node =
      let r = demote_to_l2 level2 to_string node_size count_size m node in
      if_either (λ (k : MultiLevelCache L). front k ≡ front m) (r.1) (demote_to_l2-front m node)
        (demote_to_l3-front (r.0) node ∙ demote_to_l2-front m node)

  -- An eviction takes the first node out, if there is one.
  evict-front :
      (m : MultiLevelCache L) (node : DiskNode) (queue : List DiskNode)
      → m.l1_cache ≡ node ∷ queue
      → front (eviction_policy_l1 level2 to_string node_size count_size m)
        ≡ record (front m) { nodes = queue; items = sub64 m.l1_stats.item_count 1 }
  unfolding eviction_policy_l1 evict_oldest count_out
  evict-front m node queue e =
      rw (e, evict_oldest)
        (demote-front (record m { l1_cache = queue; l1_stats = count_out m.l1_stats }) node)

  evict_none :
      (m : MultiLevelCache L)
      → m.l1_cache ≡ []
      → eviction_policy_l1 level2 to_string node_size count_size m ≡ m
  unfolding eviction_policy_l1 evict_oldest
  evict_none m e = rw (e, evict_oldest)

  -- The steps that the calls make.
  abbrev pub pushed : Front → DiskNode → Front
  pushed f node = record f { nodes = f.nodes ++ node ∷ []; items = add64 f.items 1 }

  pub enqueued :
      (m : MultiLevelCache L) (node : DiskNode)
      → front (enqueue_l1 level2 to_string node_size count_size m node) ≡ pushed (front m) node
  unfolding enqueue_l1 count_in
  enqueued m node = refl

  pub evict-Move :
      (m : MultiLevelCache L) (queue : List DiskNode)
      → m.l1_cache ≡ queue
      → Move (front m) (front (eviction_policy_l1 level2 to_string node_size count_size m))
  evict-Move m [] e =
      subst (λ (k : MultiLevelCache L). Move (front m) (front k)) (sym (evict_none m e)) stays
  evict-Move m (node ∷ queue) e = subst (Move (front m)) (sym (evict-front m node queue e)) (
      subst
        (λ q.
          Move (front m) (record (front m) { nodes = q; items = sub64 m.l1_stats.item_count 1 }))
        (append-nil queue) (leaves [] node queue e))

  full-Move :
      (m : MultiLevelCache L) (node : DiskNode) (queue : List DiskNode)
      → m.l1_cache ≡ queue
      → Move
          (front m)
          (pushed (front (eviction_policy_l1 level2 to_string node_size count_size m)) node)
  full-Move m node [] e =
      subst (λ (k : MultiLevelCache L). Move (front m) (pushed (front k) node))
        (sym (evict_none m e))
        (subst
          (λ q.
            Move (front m)
              (record (front m) { nodes = q ++ node ∷ []; items = add64 m.l1_stats.item_count 1 }))
          (sym e) (overfills node e))
  full-Move m node (oldest ∷ queue) e =
      subst (λ f. Move (front m) (pushed f node)) (sym (evict-front m oldest queue e))
        (replaces node oldest queue e)

  pub promote-Move :
      (m : MultiLevelCache L) (node : DiskNode)
      → Move (front m) (front ((promote_to_l1 level2 to_string node_size count_size m node).0))
  unfolding promote_to_l1
  promote-Move m node =
      if_cases
        (λ (k : MultiLevelCache L).
          Move (front m) (front (enqueue_l1 level2 to_string node_size count_size k node)))
        (ltb m.l1_stats.item_count m.l1_capacity)
        (λ e. subst (Move (front m)) (sym (enqueued m node)) (enters node (ltb→lt _ _ e)))
        (λ e.
          subst (Move (front m))
            (sym (enqueued (eviction_policy_l1 level2 to_string node_size count_size m) node))
            (full-Move m node m.l1_cache refl))
