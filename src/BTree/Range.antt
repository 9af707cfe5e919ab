-- ===== src/BTree/Range.antt =====
-- src/b_tree.cpp: get_range.
use hft_radial_cache.Common.{ℕ, ◌≤◌, ◌≡◌, true, List, [], ◌∷◌, arith, Bool-cases, inl, inr}
use hft_radial_cache.Common.Bytes.{Bytes, bytes_eq, bytes_eq_self, bytes_eq→eq}
use hft_radial_cache.Common.Double.{Double, num, nan, double_le}
use hft_radial_cache.BTree.{Entry, BTree}
use hft_radial_cache.BTree.Tree.{
  IsValid, none_yet, one_leaf, entries, entries-leaf_tree, entries-empty,
}
use hft_radial_cache.BTree.Walk.{in_value_range, select, leaf_for, get_range}

-- The order of the doubles that are numbers.
pub data AtMost : Double → Double → Type 0 where
  numbers : {a b : ℕ} → a ≤ b → AtMost (num a) (num b)

-- The entries of a symbol whose value is between the bounds, which count in.
pub record InRange (symbol : Bytes) (min_value max_value : Double) (e : Entry) : Type 0 where
  pub same_symbol : e.symbol ≡ symbol
  pub above : AtMost min_value e.value
  pub below : AtMost e.value max_value

-- The second list is the first without those that have not the property.
pub data Picks (P : Entry → Type 0) : List Entry → List Entry → Type 0 where
  finished : Picks P [] []
  taken :
      {e : Entry} {all kept : List Entry} → P e → Picks P all kept → Picks P (e ∷ all) (e ∷ kept)
  passed : {e : Entry} {all kept : List Entry} → ¬ P e → Picks P all kept → Picks P (e ∷ all) kept

double_le→AtMost : (a b : Double) → double_le a b ≡ true → AtMost a b
unfolding double_le
double_le→AtMost (num a) (num b) h = numbers (ground arith)
double_le→AtMost (num a) nan h = cc
double_le→AtMost nan b h = cc

AtMost→double_le : (a b : Double) → AtMost a b → double_le a b ≡ true
unfolding double_le
AtMost→double_le _ _ (numbers h) = ground arith

module _ (symbol : Bytes) (min_value max_value : Double) where
  passing :
      (e : Entry)
      → in_value_range symbol min_value max_value e ≡ true
      → InRange symbol min_value max_value e
  unfolding in_value_range
  passing e h = record {
    same_symbol = bytes_eq→eq e.symbol symbol (ground arith);
    above = double_le→AtMost min_value e.value (ground arith);
    below = double_le→AtMost e.value max_value (ground arith);
  }

  in_range :
      (e : Entry)
      → InRange symbol min_value max_value e
      → in_value_range symbol min_value max_value e ≡ true
  unfolding in_value_range
  in_range e r =
      let low = AtMost→double_le min_value e.value r.above in
      let high = AtMost→double_le e.value max_value r.below in
      let own : bytes_eq e.symbol symbol ≡ true = rw r.same_symbol (bytes_eq_self symbol) in
      ground arith

  select-Picks :
      (keys : List Entry)
      → Picks
          (InRange symbol min_value max_value)
          keys
          (select (in_value_range symbol min_value max_value) keys)
  unfolding select
  select-Picks [] = finished
  select-Picks (e ∷ keys) = elim (Bool-cases (in_value_range symbol min_value max_value e)) [
    | inl h ↦ rw h (taken (passing e h) (select-Picks keys))
    | inr h ↦ rw h (passed (λ r. cc (in_range e r)) (select-Picks keys))
  ]

  -- On a valid tree get_range returns the entries of the tree in their order, each as often as it
  -- is there, without exactly those that are of another symbol, or whose value is below the least
  -- or above the greatest value asked for, or not comparable.
  pub get_range_complete :
      (t : BTree)
      → IsValid t
      → Picks
          (InRange symbol min_value max_value)
          (entries t)
          (get_range t symbol min_value max_value)
  unfolding get_range leaf_for
  get_range_complete t (none_yet q) = rw (q, entries-empty) finished
  get_range_complete t (one_leaf keys q g) = rw (q, entries-leaf_tree keys) (select-Picks keys)
