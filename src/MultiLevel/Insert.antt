-- ===== src/MultiLevel/Insert.antt =====
-- insert takes every node, and a node just inserted is found again.
use mathlib.Core.List.{append_assoc, append-nil}
use hft_radial_cache.Common.{
  ℕ, ◌<◌, ◌≡◌, refl, sym, subst, ap, Bool, true, false, ◌&&◌, some, List, [], ◌∷◌, ◌++◌,
  if◌then◌else◌, if_cases, ltb, arith,
}
use hft_radial_cache.Common.Bytes.{Bytes, bytes_eq, bytes_eq_self}
use hft_radial_cache.Common.Int.{ℤ, leb_ℤ}
use hft_radial_cache.Disk.{DiskNode, key_of, retrieve}
use hft_radial_cache.MultiLevel.{
  Level2, MultiLevelCache, search, record_access, enqueue_l1, make_node, insert, answer_l1,
  has_symbol, get_highest_priority,
}
use hft_radial_cache.MultiLevel.Search.{NoneOf}
use hft_radial_cache.MultiLevel.Lookup.{put_found, demoted}

-- Behind nodes that fail the test stands one that passes.
search_snoc :
    (test : DiskNode → Bool) (temp_nodes queue : List DiskNode) (node : DiskNode)
    → NoneOf test queue
    → test node ≡ true
    → search test temp_nodes (queue ++ node ∷ []) ≡ (temp_nodes ++ queue, some node)
unfolding search
search_snoc test temp_nodes [] node n e = rw (append-nil temp_nodes, e)
search_snoc test temp_nodes (first ∷ queue) node n e =
    rw (n.0, search_snoc test (temp_nodes ++ first ∷ []) queue node n.1 e)
      (ap (λ q. (q, some node)) (append_assoc temp_nodes (first ∷ []) queue))

module _ {L : Type 0} (level2 : Level2 L) (to_string : ℕ → Bytes) (node_size count_size : ℕ)
    (initial : DiskNode) (to_ns : ℕ → ℕ) where
  -- The test by which insert chooses the first level.
  abbrev pub goes_first : MultiLevelCache L → ℤ → Bool
  goes_first m priority =
      ltb m.l1_stats.item_count m.l1_capacity && leb_ℤ m.l1_min_priority priority

  -- Where insert has put the node, and what it has left alone.
  pub data Placed (m : MultiLevelCache L) (value : ℕ) (symbol : Bytes) (priority : ℤ)
      (expiry_seconds : ℕ) (node placed : DiskNode) (r : MultiLevelCache L × Bool) : Type 0 where
    in_l1 :
        goes_first m priority ≡ true
        → r.1 ≡ true
        → r.0.l1_cache ≡ m.l1_cache ++ placed ∷ []
        → r.0.l2_cache ≡ m.l2_cache
        → r.0.l3_cache ≡ m.l3_cache
        → Placed m value symbol priority expiry_seconds node placed r
    in_l2 :
        goes_first m priority ≡ false
        → r.1 ≡ true
        → r.0.l1_cache ≡ m.l1_cache
        → level2.insert m.l2_cache value symbol priority expiry_seconds ≡ (r.0.l2_cache, true)
        → r.0.l3_cache ≡ m.l3_cache
        → Placed m value symbol priority expiry_seconds node placed r
    in_l3 :
        goes_first m priority ≡ false
        → r.1 ≡ true
        → r.0.l1_cache ≡ m.l1_cache
        → level2.insert m.l2_cache value symbol priority expiry_seconds ≡ (r.0.l2_cache, false)
        → ((s : Bytes) (v : ℕ)
            → retrieve to_string r.0.l3_cache s v ≡ (
                if bytes_eq (key_of to_string symbol value) (key_of to_string s v)
                then some node
                else retrieve to_string m.l3_cache s v))
        → Placed m value symbol priority expiry_seconds node placed r

  module _ (m : MultiLevelCache L) (value : ℕ) (symbol : Bytes) (priority : ℤ)
      (expiry_seconds made read now : ℕ) where
    abbrev pub node : DiskNode
    node =
        make_node level2 to_string node_size count_size initial to_ns value symbol priority
          expiry_seconds made read

    abbrev pub placed : DiskNode
    placed = record_access level2 to_string node_size count_size now node

    abbrev pub inserted : MultiLevelCache L × Bool
    inserted =
        insert level2 to_string node_size count_size initial to_ns m value symbol priority
          expiry_seconds made read now

    own : has_symbol symbol placed ≡ true
    unfolding has_symbol make_node record_access
    own = bytes_eq_self symbol

    -- insert returns true, whatever the levels hold: the node is at the end of the first level if
    -- that has room by its counter and the priority is high enough; else the second level took it;
    -- else it is in the third, under its symbol and value and nowhere else. The levels that did
    -- not get it hold what they held.
    pub insert-Placed : Placed m value symbol priority expiry_seconds node placed inserted
    unfolding insert enqueue_l1 make_node
    insert-Placed =
        let IsPlaced = λ (r : MultiLevelCache L × Bool).
          Placed m value symbol priority expiry_seconds node placed r in
        let below = level2.insert m.l2_cache value symbol priority expiry_seconds in
        let rest = record m { l2_cache = below.0 } in
        if_cases IsPlaced (goes_first m priority) (λ first. in_l1 first refl refl refl refl)
          (λ off.
            if_cases IsPlaced (below.1)
              (λ taken. in_l2 off refl refl (ap (λ (b : Bool). (below.0, b)) taken) refl)
              (λ refused.
                subst IsPlaced (sym (demoted level2 to_string node_size count_size rest node)) (
                  in_l3 off refl refl (ap (λ (b : Bool). (below.0, b)) refused)
                    (λ s v. put_found to_string node_size m.l3_cache node s v))))

    -- A node that goes to the first level while that holds no node of its symbol is what
    -- get_highest_priority of the symbol then returns, with both accesses recorded; and the first
    -- level holds the nodes that it held before the insertion, in the same order.
    pub get-insert :
        (later : ℕ)
        → m.l1_stats.item_count < m.l1_capacity
        → leb_ℤ m.l1_min_priority priority ≡ true
        → NoneOf (has_symbol symbol) m.l1_cache
        → ((get_highest_priority level2 to_string node_size count_size (inserted.0) symbol later).1
            ≡ some (record_access level2 to_string node_size count_size later placed))
          × ((get_highest_priority level2 to_string node_size count_size
                (inserted.0)
                symbol
                later).0.l1_cache
              ≡ m.l1_cache)
    unfolding insert enqueue_l1 get_highest_priority answer_l1
    get-insert later low high fresh =
        let first : goes_first m priority ≡ true = ground arith in
        let found = search_snoc (has_symbol symbol) [] m.l1_cache placed fresh own in
        rw (first, found) (refl, refl)
