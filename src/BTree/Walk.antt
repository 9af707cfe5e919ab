-- ===== src/BTree/Walk.antt =====
-- The iterator of the tree, and the queries over ranges.
use hft_radial_cache.Common.{
  ℕ, zero, suc, ◌+◌, ◌≤◌, ◌<◌, ◌≡◌, refl, ap, ◌∙◌, Bool, true, false, ◌&&◌, Option, none, some,
  List, [], ◌∷◌, ◌++◌, arith, ltb, leb, if◌then◌else◌, length, get_elem?, drop, Bool-cases, inl,
  inr, lt→ltb, sym,
}
use mathlib.Core.List.{append-nil, append_assoc}
use hft_radial_cache.Common.Bytes.{Bytes, bytes_eq}
use hft_radial_cache.Common.Double.{Double, double_le}
use hft_radial_cache.Common.Int.{ℤ, leb_ℤ}
use hft_radial_cache.Common.Run.{Run, ok, stuck}
use hft_radial_cache.BTree.{
  Entry, BTreeNode, Children, node, end, null, child, BTree, empty, order, position,
}
use hft_radial_cache.BTree.Tree.{
  leaf_tree, IsValid, none_yet, one_leaf, entries, entries-leaf_tree, entries-empty,
}

-- The iterator's two stacks, with the index of the next key beside each node, top first.
abbrev pub Iterator : Type 0
Iterator = List (BTreeNode × ℕ)

unfoldable mutual
  pub push_left : BTreeNode → Iterator → Iterator
  push_left (node true keys children) it = (node true keys children, 0) ∷ it
  push_left (node false keys children) it = push_first children ((node false keys children, 0) ∷ it)

  pub push_first : Children → Iterator → Iterator
  push_first end it = it
  push_first (null rest) it = it
  push_first (child t rest) it = push_left t it

-- `children[i]`
unfoldable pub child_at : Children → ℕ → Option BTreeNode
child_at end i = none
child_at (null rest) zero = none
child_at (null rest) (suc i) = child_at rest i
child_at (child t rest) zero = some t
child_at (child t rest) (suc i) = child_at rest i

unfoldable pub begin : BTree → Iterator
unfolding push_left
begin t = elim t.root [ none ↦ [] | some n ↦ push_left n [] ]

unfoldable pub deref : Iterator → Option Entry
deref [] = none
deref ((node leaf keys children, i) ∷ it) = get_elem? keys i

-- Past the last key: on to the child behind it, or back to the node above.
unfoldable pub leave : BTreeNode → ℕ → Iterator → Iterator
unfolding push_left child_at
leave (node true keys children) i it = it
leave (node false keys children) i it = elim (child_at children (suc i)) [
  | none ↦ it
  | some t ↦ push_left t ((node false keys children, i) ∷ it)
]

unfoldable pub advance : Iterator → Iterator
unfolding leave
advance [] = []
advance ((node leaf keys children, i) ∷ it) =
    if ltb (suc i) (length keys)
    then (node leaf keys children, suc i) ∷ it
    else leave (node leaf keys children) i it

-- The loop of the range queries: the end iterator has empty stacks.
unfoldable pub collect : ℕ → (Entry → Bool) → Iterator → List Entry → Run (List Entry)
collect zero test it results = stuck
collect (suc fuel) test it results = elim it [
  | [] ↦ ok results
  | top ∷ rest ↦ elim (deref (top ∷ rest)) [
    | none ↦ collect fuel test (advance (top ∷ rest)) results
    | some e ↦
        collect fuel test (advance (top ∷ rest)) (if test e then results ++ e ∷ [] else results)
  ]
]

unfoldable pub in_priority_range : Bytes → ℤ → ℤ → Entry → Bool
in_priority_range symbol min_priority max_priority e =
    bytes_eq e.symbol symbol && leb_ℤ min_priority e.priority && leb_ℤ e.priority max_priority

unfoldable pub in_timestamp_range : Bytes → ℕ → ℕ → Entry → Bool
in_timestamp_range symbol start_time end_time e =
    bytes_eq e.symbol symbol && leb start_time e.timestamp && leb e.timestamp end_time

unfoldable pub in_value_range : Bytes → Double → Double → Entry → Bool
in_value_range symbol min_value max_value e =
    bytes_eq e.symbol symbol && double_le min_value e.value && double_le e.value max_value

pub get_by_priority_range : ℕ → BTree → Bytes → ℤ → ℤ → Run (List Entry)
get_by_priority_range fuel t symbol min_priority max_priority =
    collect fuel (in_priority_range symbol min_priority max_priority) (begin t) []

pub get_by_timestamp_range : ℕ → BTree → Bytes → ℕ → ℕ → Run (List Entry)
get_by_timestamp_range fuel t symbol start_time end_time =
    collect fuel (in_timestamp_range symbol start_time end_time) (begin t) []

-- The keys that pass the test, in order.
unfoldable pub select : (Entry → Bool) → List Entry → List Entry
select test [] = []
select test (e ∷ keys) = if test e then e ∷ select test keys else select test keys

-- get_range goes down to one leaf, and collects from it alone.
unfoldable mutual
  pub leaf_for : BTreeNode → Bytes → Double → List Entry
  leaf_for (node true keys children) symbol min_value = keys
  leaf_for (node false keys children) symbol min_value =
      leaf_below children (position symbol min_value keys) symbol min_value

  pub leaf_below : Children → ℕ → Bytes → Double → List Entry
  leaf_below end i symbol min_value = []
  leaf_below (null rest) zero symbol min_value = []
  leaf_below (null rest) (suc i) symbol min_value = leaf_below rest i symbol min_value
  leaf_below (child t rest) zero symbol min_value = leaf_for t symbol min_value
  leaf_below (child t rest) (suc i) symbol min_value = leaf_below rest i symbol min_value

unfoldable pub get_range : BTree → Bytes → Double → Double → List Entry
unfolding select leaf_for
get_range t symbol min_value max_value = elim t.root [
  | none ↦ []
  | some n ↦ select (in_value_range symbol min_value max_value) (leaf_for n symbol min_value)
]

drop_head :
    (keys : List Entry) (i : ℕ) (k : Entry) (rest : List Entry)
    → drop i keys ≡ k ∷ rest
    → (get_elem? keys i ≡ some k)
      × (drop (suc i) keys ≡ rest)
      × (length keys ≡ i + suc (length rest))
drop_head [] zero k rest e = cc
drop_head [] (suc i) k rest e = cc
drop_head (l ∷ keys) zero k rest e = (cc, cc, omega (arith, ap length e))
drop_head (l ∷ keys) (suc i) k rest e =
    let (here, next, size) = drop_head keys i k rest e in (here, next, omega arith)

module _ (test : Entry → Bool) (keys : List Entry) where
  abbrev visit : ℕ → Iterator
  visit i = (node true keys end, i) ∷ []

  collect_step :
      (fuel i : ℕ) (k : Entry) (results : List Entry)
      → get_elem? keys i ≡ some k
      → collect (suc fuel) test (visit i) results
        ≡ collect fuel test (advance (visit i)) (if test k then results ++ k ∷ [] else results)
  unfolding collect deref
  collect_step fuel i k results h = rw (h, collect)

  advance_on : (i : ℕ) → suc i < length keys → advance (visit i) ≡ visit (suc i)
  unfolding advance
  advance_on i h = rw (lt→ltb (suc i) (length keys) h)

  advance_off : (i : ℕ) → length keys ≤ suc i → advance (visit i) ≡ []
  unfolding advance
  advance_off i h = ground arith

  collect_end : (fuel : ℕ) (results : List Entry) → collect (suc fuel) test [] results ≡ ok results
  unfolding collect
  collect_end fuel results = refl

  select_one :
      (k : Entry) (rest results : List Entry)
      → (if test k then results ++ k ∷ [] else results) ++ select test rest
        ≡ results ++ select test (k ∷ rest)
  unfolding select
  select_one k rest results = elim (Bool-cases (test k)) [
    | inl h ↦ rw h (append_assoc results (k ∷ []) (select test rest))
    | inr h ↦ rw h
  ]

  collect_from :
      (fuel i : ℕ) (k : Entry) (rest results : List Entry)
      → suc (length rest) < fuel
      → drop i keys ≡ k ∷ rest
      → collect fuel test (visit i) results ≡ ok (results ++ select test (k ∷ rest))
  collect_from zero i k rest results f e = absurd (omega arith)
  collect_from (suc zero) i k rest results f e = absurd (omega arith)
  collect_from (suc (suc fuel)) i k [] results f e =
      let (here, next, size) = drop_head keys i k [] e in
      rw
        (
          collect_step (suc fuel) i k results here,
          advance_off i (omega arith),
          collect_end fuel (if test k then results ++ k ∷ [] else results),
        )
        (ap ok (sym (append-nil _) ∙ select_nil k results))
    where
      select_nil :
          (k : Entry) (results : List Entry)
          → (if test k then results ++ k ∷ [] else results) ++ [] ≡ results ++ select test (k ∷ [])
      select_nil k results = unfold select in select_one k [] results
  collect_from (suc (suc fuel)) i k (l ∷ rest) results f e =
      let (here, next, size) = drop_head keys i k (l ∷ rest) e in
      rw (collect_step (suc fuel) i k results here, advance_on i (omega arith))
        (collect_from (suc fuel) (suc i) l rest _ (omega arith) next
          ∙ ap ok (select_one k (l ∷ rest) results))

begin-leaf_tree : (keys : List Entry) → begin (leaf_tree keys) ≡ (node true keys end, 0) ∷ []
unfolding begin
begin-leaf_tree keys = refl

begin-empty : begin empty ≡ []
unfolding begin
begin-empty = refl

collect_no_key :
    (test : Entry → Bool) (fuel : ℕ)
    → collect (suc (suc fuel)) test ((node true [] end, 0) ∷ []) [] ≡ ok []
unfolding collect deref advance
collect_no_key test fuel = refl

select-nil : (test : Entry → Bool) → select test [] ≡ []
unfolding select
select-nil test = refl

-- On a valid tree the loop over the iterator ends, and keeps exactly the entries that pass.
pub collect_complete :
    (test : Entry → Bool) (t : BTree) (fuel : ℕ)
    → IsValid t
    → order < fuel
    → collect fuel test (begin t) [] ≡ ok (select test (entries t))
collect_complete test t zero v f = absurd (omega arith)
collect_complete test t (suc zero) v f = absurd (omega arith)
collect_complete test t (suc (suc fuel)) (none_yet q) f =
    rw (q, begin-empty, entries-empty, collect_end test [] (suc fuel) [], select-nil test)
collect_complete test t (suc (suc fuel)) (one_leaf [] q g) f =
    rw (q, begin-leaf_tree [], entries-leaf_tree [], collect_no_key test fuel, select-nil test)
collect_complete test t (suc (suc fuel)) (one_leaf (k ∷ keys) q g) f =
    rw (q, begin-leaf_tree (k ∷ keys), entries-leaf_tree (k ∷ keys))
      (collect_from test (k ∷ keys) (suc (suc fuel)) 0 k keys [] (omega (arith, g.bounded)) refl)
