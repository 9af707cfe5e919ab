-- ===== src/MultiLevel/Steps.antt =====
-- Each call makes one step on the first level; sequences of calls.
use hft_radial_cache.Common.{
  ℕ, ◌≡◌, refl, sym, subst, Bool, ◌&&◌, Option, none, some, List, if_either, if_cases, ltb, arith,
}
use hft_radial_cache.Common.Bytes.{Bytes}
use hft_radial_cache.Common.Int.{ℤ, leb_ℤ}
use hft_radial_cache.Disk.{DiskNode}
use hft_radial_cache.MultiLevel.{
  Level2, MultiLevelCache, count_out, count_hit, count_miss, record_access, insert, answer_l3,
  answer_l2, answer_l1, has_symbol, get_highest_priority, remove_below, remove_found, matches,
  remove, manage, should_promote_to_l1,
}
use hft_radial_cache.MultiLevel.Search.{Searched, missing, found_at, search-Searched}
use hft_radial_cache.MultiLevel.Front.{
  front, Move, stays, enters, hits_one, leaves, demote_to_l2-front, demote_to_l3-front,
  promote-Move, evict-Move, enqueued,
}

module _ {L : Type 0} (level2 : Level2 L) (to_string : ℕ → Bytes) (node_size count_size : ℕ) where
  answer_l3-front :
      (m : MultiLevelCache L) (symbol : Bytes) (now : ℕ) (found : Option DiskNode)
      → front ((answer_l3 level2 to_string node_size count_size m symbol now found).0) ≡ front m
  unfolding answer_l3 count_miss
  answer_l3-front m symbol now none = refl
  answer_l3-front m symbol now (some found) =
      demote_to_l2-front level2 to_string node_size count_size _ _

  answer_l2-Move :
      (m : MultiLevelCache L) (symbol : Bytes) (now : ℕ) (found : Option DiskNode)
      → Move
          (front m)
          (front ((answer_l2 level2 to_string node_size count_size m symbol now found).0))
  unfolding answer_l2
  answer_l2-Move m symbol now none =
      subst (Move (front m)) (sym (answer_l3-front m symbol now _)) stays
  answer_l2-Move m symbol now (some found) =
      let result = record_access level2 to_string node_size count_size now found in
      let hit = record m { l2_stats = count_hit m.l2_stats } in
      if_either (λ (k : MultiLevelCache L). Move (front m) (front k))
        (should_promote_to_l1 level2 to_string node_size count_size hit result)
        (promote-Move level2 to_string node_size count_size hit result) stays

  answer_l1-Move :
      (m : MultiLevelCache L) (symbol : Bytes) (now : ℕ) (test : DiskNode → Bool)
      {queue : List DiskNode} {result : Option DiskNode}
      → Searched test m.l1_cache queue result
      → Move (front m) (
          front (
            (answer_l1 level2 to_string node_size count_size
              (record m { l1_cache = queue })
              symbol
              now
              result).0))
  unfolding answer_l1 count_hit
  answer_l1-Move m symbol now test (missing none_there) =
      answer_l2-Move (record m { l2_cache = (level2.get_highest_priority m.l2_cache symbol).0 })
        symbol now ((level2.get_highest_priority m.l2_cache symbol).1)
  answer_l1-Move m symbol now test (found_at before node after split none_before passes) =
      hits_one before node after split

  pub get-Move :
      (m : MultiLevelCache L) (symbol : Bytes) (now : ℕ)
      → Move
          (front m)
          (front ((get_highest_priority level2 to_string node_size count_size m symbol now).0))
  unfolding get_highest_priority
  get-Move m symbol now =
      answer_l1-Move m symbol now (has_symbol symbol)
        (search-Searched (has_symbol symbol) m.l1_cache)

  remove_below-front :
      (m : MultiLevelCache L) (symbol : Bytes) (value : ℕ)
      → front ((remove_below level2 to_string node_size count_size m symbol value).0) ≡ front m
  unfolding remove_below
  remove_below-front m symbol value = ground arith

  remove_found-Move :
      (m : MultiLevelCache L) (symbol : Bytes) (value : ℕ) (test : DiskNode → Bool)
      {queue : List DiskNode} {result : Option DiskNode}
      → Searched test m.l1_cache queue result
      → Move (front m) (
          front (
            (remove_found level2 to_string node_size count_size
              (record m { l1_cache = queue })
              symbol
              value
              result).0))
  unfolding remove_found count_out
  remove_found-Move m symbol value test (missing none_there) =
      subst (Move (front m)) (sym (remove_below-front m symbol value)) stays
  remove_found-Move m symbol value test (found_at before node after split none_before passes) =
      leaves before node after split

  pub remove-Move :
      (same_double : ℕ → ℕ → Bool) (m : MultiLevelCache L) (symbol : Bytes) (value : ℕ)
      → Move
          (front m)
          (front ((remove level2 to_string node_size count_size same_double m symbol value).0))
  unfolding remove
  remove-Move same_double m symbol value =
      let test = matches same_double symbol value in
      remove_found-Move m symbol value test (search-Searched test m.l1_cache)

  pub manage-Move :
      (over : ℕ → ℕ → Bool) (m : MultiLevelCache L)
      → Move (front m) (front (manage level2 to_string node_size count_size over m))
  unfolding manage
  manage-Move over m =
      if_either (λ (k : MultiLevelCache L). Move (front m) (front k))
        (over m.l1_stats.item_count m.l1_capacity)
        (evict-Move level2 to_string node_size count_size m m.l1_cache refl) stays

  pub insert-Move :
      (initial : DiskNode) (to_ns : ℕ → ℕ) (m : MultiLevelCache L) (value : ℕ) (symbol : Bytes)
      (priority : ℤ) (expiry_seconds made read now : ℕ)
      → Move (front m) (
          front (
            (insert level2 to_string node_size count_size initial to_ns m value symbol priority
              expiry_seconds made read now).0))
  unfolding insert
  insert-Move initial to_ns m value symbol priority expiry_seconds made read now =
      let below = level2.insert m.l2_cache value symbol priority expiry_seconds in
      if_cases (λ (r : MultiLevelCache L × Bool). Move (front m) (front (r.0)))
        (ltb m.l1_stats.item_count m.l1_capacity && leb_ℤ m.l1_min_priority priority)
        (λ e.
          subst (Move (front m)) (sym (enqueued level2 to_string node_size count_size m _))
            (enters _ (ground arith)))
        (λ e.
          if_either (λ (r : MultiLevelCache L × Bool). Move (front m) (front (r.0))) (below.1) stays
            (subst (Move (front m))
              (sym (
                demote_to_l3-front level2 to_string node_size count_size
                  (record m { l2_cache = below.0 }) _))
              stays))
