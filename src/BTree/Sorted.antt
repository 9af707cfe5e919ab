-- ===== src/BTree/Sorted.antt =====
-- The three sorted queries. `sort` is std::sort, which takes the test of its comparator.
use hft_radial_cache.Common.{ℕ, ◌<◌, Bool, List, [], ltb, Perm}
use hft_radial_cache.Common.Bytes.{Bytes, bytes_eq}
use hft_radial_cache.Common.Double.{double_lt}
use hft_radial_cache.Common.Int.{ltb_ℤ}
use hft_radial_cache.Common.Run.{Run, ok, ◌>>=◌, Returns, returns}
use hft_radial_cache.BTree.{Entry, BTree, order}
use hft_radial_cache.BTree.Tree.{IsValid, entries}
use hft_radial_cache.BTree.Walk.{begin, collect, select, collect_complete}

unfoldable pub of_symbol : Bytes → Entry → Bool
of_symbol symbol e = bytes_eq e.symbol symbol

unfoldable pub by_value : Entry → Entry → Bool
by_value a b = double_lt a.value b.value

unfoldable pub by_priority : Entry → Entry → Bool
by_priority a b = ltb_ℤ b.priority a.priority

unfoldable pub by_timestamp : Entry → Entry → Bool
by_timestamp a b = ltb a.timestamp b.timestamp

module _ (sort : (Entry → Entry → Bool) → List Entry → List Entry) where
  unfoldable pub get_sorted_by_value : ℕ → BTree → Bytes → Run (List Entry)
  get_sorted_by_value fuel t symbol =
      collect fuel (of_symbol symbol) (begin t) [] >>= λ results. ok (sort by_value results)

  unfoldable pub get_sorted_by_priority : ℕ → BTree → Bytes → Run (List Entry)
  get_sorted_by_priority fuel t symbol =
      collect fuel (of_symbol symbol) (begin t) [] >>= λ results. ok (sort by_priority results)

  unfoldable pub get_sorted_by_timestamp : ℕ → BTree → Bytes → Run (List Entry)
  get_sorted_by_timestamp fuel t symbol =
      collect fuel (of_symbol symbol) (begin t) [] >>= λ results. ok (sort by_timestamp results)

  -- On a valid tree each of the three queries ends, with fuel for 65 rounds or more, and gives the
  -- entries of the symbol, each as often as the tree holds it, if sorting only rearranges a list.
  pub sorted_complete :
      (t : BTree) (symbol : Bytes) (fuel : ℕ)
      → ((before : Entry → Entry → Bool) (found : List Entry) → Perm (sort before found) found)
      → IsValid t
      → order < fuel
      → Returns
          (λ l. Perm l (select (of_symbol symbol) (entries t)))
          (get_sorted_by_value fuel t symbol)
        × Returns
            (λ l. Perm l (select (of_symbol symbol) (entries t)))
            (get_sorted_by_priority fuel t symbol)
        × Returns
            (λ l. Perm l (select (of_symbol symbol) (entries t)))
            (get_sorted_by_timestamp fuel t symbol)
  unfolding get_sorted_by_value get_sorted_by_priority get_sorted_by_timestamp
  sorted_complete t symbol fuel rearranges v f =
      let all = collect_complete (of_symbol symbol) t fuel v f in
      let found = select (of_symbol symbol) (entries t) in
      rw all (
        returns (rearranges by_value found),
        returns (rearranges by_priority found),
        returns (rearranges by_timestamp found),
      )
