-- ===== src/BTree.antt =====
-- include/b_tree.hpp and src/b_tree.cpp: LockFreeBTree. A tree
-- node is a value: its keys are the first `key_count` of the vector (the others are null, and
-- insert stores no null), its children the vector's pointers in order. A `Node*` is the node it
-- points to, with the fields that this file reads. Metrics, reports and printing are left out.
pub mod Keys
pub mod Leaf
pub mod Tree
pub mod Remove
pub mod Walk
pub mod Range
pub mod Sorted
mod Tests
use hft_radial_cache.Common.{
  ℕ, zero, suc, ◌+◌, ◌-◌, Bool, true, false, not, ◌&&◌, ◌||◌, Option, none, some, List, [], ◌∷◌,
  ◌++◌, ltb, ◌==◌, if◌then◌else◌, length, max, take, drop,
}
use hft_radial_cache.Common.Bytes.{Bytes, bytes_eq, bytes_lt}
use hft_radial_cache.Common.Double.{Double, double_eq, double_lt, double_le}
use hft_radial_cache.Common.Int.{ℤ, leb_ℤ}

pub record Entry : Type 0 where
  pub symbol : Bytes
  pub value : Double
  pub priority : ℤ
  pub timestamp : ℕ

abbrev pub order : ℕ
order = 64

mutual
  pub data BTreeNode : Type 0 where
    node : Bool → List Entry → Children → BTreeNode

  -- The child pointers from some index on; `end` stands for null pointers alone.
  pub data Children : Type 0 where
    end : Children
    null : Children → Children
    child : BTreeNode → Children → Children

-- A new node is an empty leaf.
abbrev pub fresh : BTreeNode
fresh = node true [] end

pub record BTree : Type 0 where
  pub root : Option BTreeNode
  pub size : ℕ
  pub height : ℕ

abbrev pub empty : BTree
empty = record { root = none; size = 0; height = 0 }

-- `k->symbol == symbol && k->value == value`
unfoldable pub is_key : Bytes → Double → Entry → Bool
is_key symbol value k = bytes_eq k.symbol symbol && double_eq k.value value

-- `k->symbol < symbol || (k->symbol == symbol && k->value < value)`
unfoldable pub is_less : Bytes → Double → Entry → Bool
is_less symbol value k =
    bytes_lt k.symbol symbol || bytes_eq k.symbol symbol && double_lt k.value value

-- `k->symbol > symbol || (k->symbol == symbol && k->value > value)`
unfoldable pub is_greater : Bytes → Double → Entry → Bool
is_greater symbol value k =
    bytes_lt symbol k.symbol || bytes_eq k.symbol symbol && double_lt value k.value

-- Where the scan of a node's keys ends: at the key, or at an index with no match before it.
pub data Scan : Type 0 where
  found : ℕ → Entry → Scan
  stop : ℕ → Scan

-- The inner loop of find and remove, from index `i` on.
unfoldable pub scan : Bytes → Double → ℕ → List Entry → Scan
scan symbol value i [] = stop i
scan symbol value i (k ∷ keys) =
    let rest = scan symbol value (suc i) keys in
    if is_key symbol value k then found i k else if is_greater symbol value k then stop i else rest

-- The inner loop of find_leaf and insert_into_leaf: how many keys stand before the place.
unfoldable pub position : Bytes → Double → List Entry → ℕ
position symbol value [] = 0
position symbol value (k ∷ keys) =
    let rest = suc (position symbol value keys) in if is_less symbol value k then rest else 0

-- The shift of the later keys, and the store.
unfoldable pub insert_at : ℕ → Entry → List Entry → List Entry
insert_at i e keys = take i keys ++ e ∷ drop i keys

unfoldable pub remove_at : ℕ → List Entry → List Entry
remove_at i keys = take i keys ++ drop (suc i) keys

-- A leaf with room takes the key at its place; a full one is not split.
unfoldable pub insert_into_leaf : List Entry → Entry → Option (List Entry)
unfolding position insert_at
insert_into_leaf keys e =
    if ltb (length keys) (order - 1)
    then some (insert_at (position e.symbol e.value keys) e keys)
    else none

unfoldable mutual
  pub find_node : BTreeNode → Bytes → Double → Option Entry
  find_node (node leaf keys children) symbol value = elim (scan symbol value 0 keys) [
    | found i k ↦ some k
    | stop i ↦ elim leaf [ true ↦ none | false ↦ find_child children i symbol value ]
  ]

  pub find_child : Children → ℕ → Bytes → Double → Option Entry
  find_child end i symbol value = none
  find_child (null rest) zero symbol value = none
  find_child (null rest) (suc i) symbol value = find_child rest i symbol value
  find_child (child t rest) zero symbol value = find_node t symbol value
  find_child (child t rest) (suc i) symbol value = find_child rest i symbol value

-- The descent of find_leaf, and insert_into_leaf at its end; `none` is the answer false.
unfoldable mutual
  pub insert_node : BTreeNode → Entry → Option BTreeNode
  insert_node (node true keys children) e = elim (insert_into_leaf keys e) [
    | none ↦ none
    | some ks ↦ some (node true ks children)
  ]
  insert_node (node false keys children) e =
      elim (insert_child children (position e.symbol e.value keys) e) [
        | none ↦ none
        | some cs ↦ some (node false keys cs)
      ]

  pub insert_child : Children → ℕ → Entry → Option Children
  insert_child end i e = none
  insert_child (null rest) zero e = none
  insert_child (null rest) (suc i) e = elim (insert_child rest i e) [
    | none ↦ none
    | some cs ↦ some (null cs)
  ]
  insert_child (child t rest) zero e = elim (insert_node t e) [
    | none ↦ none
    | some u ↦ some (child u rest)
  ]
  insert_child (child t rest) (suc i) e = elim (insert_child rest i e) [
    | none ↦ none
    | some cs ↦ some (child t cs)
  ]

-- A key found in an inner node is not removed.
unfoldable mutual
  pub remove_node : BTreeNode → Bytes → Double → Option BTreeNode
  remove_node (node leaf keys children) symbol value = elim (scan symbol value 0 keys) [
    | found i k ↦ elim leaf [ true ↦ some (node true (remove_at i keys) children) | false ↦ none ]
    | stop i ↦ elim leaf [
      | true ↦ none
      | false ↦ elim (remove_child children i symbol value) [
        | none ↦ none
        | some cs ↦ some (node false keys cs)
      ]
    ]
  ]

  pub remove_child : Children → ℕ → Bytes → Double → Option Children
  remove_child end i symbol value = none
  remove_child (null rest) zero symbol value = none
  remove_child (null rest) (suc i) symbol value = elim (remove_child rest i symbol value) [
    | none ↦ none
    | some cs ↦ some (null cs)
  ]
  remove_child (child t rest) zero symbol value = elim (remove_node t symbol value) [
    | none ↦ none
    | some u ↦ some (child u rest)
  ]
  remove_child (child t rest) (suc i) symbol value = elim (remove_child rest i symbol value) [
    | none ↦ none
    | some cs ↦ some (child t cs)
  ]

unfoldable pub find : BTree → Bytes → Double → Option Entry
find t symbol value = elim t.root [ none ↦ none | some n ↦ find_node n symbol value ]

unfoldable pub insert : BTree → Entry → BTree × Bool
insert t e = elim t.root [
  | none ↦ (record { root = some (node true (e ∷ []) end); size = t.size + 1; height = 1 }, true)
  | some n ↦ elim (insert_node n e) [
    | none ↦ (t, false)
    | some m ↦ (record t { root = some m; size = t.size + 1 }, true)
  ]
]

unfoldable pub remove : BTree → Bytes → Double → BTree × Bool
remove t symbol value = elim t.root [
  | none ↦ (t, false)
  | some n ↦ elim (remove_node n symbol value) [
    | none ↦ (t, false)
    | some m ↦ (record t { root = some m; size = t.size - 1 }, true)
  ]
]

unfoldable pub clear : BTree → BTree
clear t = record { root = none; size = 0; height = 0 }

unfoldable mutual
  pub calculate_height : BTreeNode → ℕ
  calculate_height (node true keys children) = 1
  calculate_height (node false keys children) = 1 + max_child_height children

  pub max_child_height : Children → ℕ
  max_child_height end = 0
  max_child_height (null rest) = max_child_height rest
  max_child_height (child t rest) = max (calculate_height t) (max_child_height rest)

unfoldable mutual
  pub calculate_size : BTreeNode → ℕ
  calculate_size (node true keys children) = length keys
  calculate_size (node false keys children) = length keys + children_size children

  pub children_size : Children → ℕ
  children_size end = 0
  children_size (null rest) = children_size rest
  children_size (child t rest) = calculate_size t + children_size rest

unfoldable pub validate_tree : BTree → Bool
unfolding calculate_height calculate_size
validate_tree t = elim t.root [
  | none ↦ true
  | some n ↦ calculate_height n == t.height && calculate_size n == t.size
]
