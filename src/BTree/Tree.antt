-- ===== src/BTree/Tree.antt =====
-- The trees that the calls can build, and insert, find and remove on them.
use mathlib.Core.List.{Mem, mem-cons_self, mem-cons_of_mem}
use mathlib.Core.List.Perm
use hft_radial_cache.Common.{
  ℕ, zero, suc, ◌+◌, ◌-◌, ◌≤◌, ◌<◌, ◌≡◌, ◌↔◌, ◌⊎◌, refl, ap, Bool, true, false, Option, none, some,
  List, [], ◌∷◌, Perm, arith, ltb, if◌then◌else◌, length, length-perm, Bool-cases, inl, inr,
  get_elem?,
}
use hft_radial_cache.Common.Bytes.{Bytes}
use hft_radial_cache.Common.Double.{Double}
use hft_radial_cache.BTree.{
  Entry, BTreeNode, node, end, BTree, empty, order, Scan, found, stop, scan, is_key,
  insert_into_leaf, find_node, insert_node, find, insert,
}
use hft_radial_cache.BTree.Keys.{IsNumber, All, IsSorted, self_key}
use hft_radial_cache.BTree.Leaf.{
  placed, placed-perm, placed-IsSorted, All-placed, scan-placed, scan_found, scan_stop,
}

-- The tree of one leaf.
abbrev pub leaf_tree : List Entry → BTree
leaf_tree keys = record { root = some (node true keys end); size = length keys; height = 1 }

pub record IsGood (keys : List Entry) : Type 0 where
  pub bounded : length keys < order
  pub sorted : IsSorted keys
  pub numbers : All (λ k. IsNumber k.value) keys

pub data IsValid : BTree → Type 0 where
  none_yet : {t : BTree} → t ≡ empty → IsValid t
  one_leaf : {t : BTree} (keys : List Entry) → t ≡ leaf_tree keys → IsGood keys → IsValid t

node_keys : BTreeNode → List Entry
node_keys (node leaf keys children) = keys

-- The keys of the root.
pub entries : BTree → List Entry
unfolding node_keys
entries t = elim t.root [ none ↦ [] | some n ↦ node_keys n ]

pub entries-leaf_tree : (keys : List Entry) → entries (leaf_tree keys) ≡ keys
unfolding entries
entries-leaf_tree keys = refl

pub entries-empty : entries empty ≡ []
unfolding entries
entries-empty = refl

-- What a call of insert does.
pub record Inserted (t : BTree) (e : Entry) (r : BTree × Bool) : Type 0 where
  pub valid : IsValid r.0
  pub when : (r.1 ≡ true) ↔ (length (entries t) + 1 < order)
  pub added : r.1 ≡ true → Perm (entries r.0) (e ∷ entries t) × (find r.0 e.symbol e.value ≡ some e)
  pub refused : r.1 ≡ false → r.0 ≡ t

find-leaf_tree :
    (keys : List Entry) (s : Bytes) (v : Double) (j : ℕ) (k : Entry)
    → scan s v 0 keys ≡ found j k
    → find (leaf_tree keys) s v ≡ some k
unfolding find find_node
find-leaf_tree keys s v j k h = ground arith

insert-empty : (e : Entry) → insert empty e ≡ (leaf_tree (e ∷ []), true)
unfolding insert
insert-empty e = refl

insert-leaf_tree :
    (keys : List Entry) (e : Entry)
    → insert (leaf_tree keys) e ≡ (
        if ltb (length keys) (order - 1)
        then (record (leaf_tree (placed e keys)) { size = length keys + 1 }, true)
        else (leaf_tree keys, false))
unfolding insert insert_node insert_into_leaf
insert-leaf_tree keys e = ground arith

singleton-IsGood : (e : Entry) → IsNumber e.value → IsGood (e ∷ [])
singleton-IsGood e n = record { bounded = omega arith; sorted = (tt, tt); numbers = (n, tt) }

scan_self : (e : Entry) → IsNumber e.value → scan e.symbol e.value 0 (e ∷ []) ≡ found 0 e
unfolding scan
scan_self e n = rw (self_key e n)

module _ (keys : List Entry) (e : Entry) (g : IsGood keys) (ne : IsNumber e.value) where
  grown-IsGood : length keys + 1 < order → IsGood (placed e keys)
  grown-IsGood h = record {
    bounded = omega (arith, length-perm (placed-perm e keys));
    sorted = placed-IsSorted e ne keys g.numbers g.sorted;
    numbers = All-placed (λ k. IsNumber k.value) e ne keys g.numbers;
  }

  resize : record (leaf_tree (placed e keys)) { size = length keys + 1 } ≡ leaf_tree (placed e keys)
  resize =
      ap (λ n. record (leaf_tree (placed e keys)) { size = n })
        (omega (arith, length-perm (placed-perm e keys)))

  leaf-Inserted : Inserted (leaf_tree keys) e (insert (leaf_tree keys) e)
  leaf-Inserted = elim (Bool-cases (ltb (length keys) (order - 1))) [
    | inl h ↦
        rw (insert-leaf_tree keys e, h, resize)
          (record {
            valid = one_leaf (placed e keys) refl (grown-IsGood (ground arith));
            when = (λ _. rw (entries-leaf_tree keys) (ground arith), λ _. refl);
            added = λ _. (
              rw (entries-leaf_tree (placed e keys), entries-leaf_tree keys) (placed-perm e keys),
              find-leaf_tree (placed e keys) e.symbol e.value _ e (scan-placed e ne keys 0),
            );
            refused = λ f. cc;
          })
    | inr h ↦
        rw (insert-leaf_tree keys e, h)
          (record {
            valid = one_leaf keys refl g;
            when = (λ f. cc, λ w. absurd (full (ground arith) (rw (entries-leaf_tree keys) at w)));
            added = λ f. cc;
            refused = λ _. refl;
          })
  ]
    where
      full : order ≤ length keys + 1 → length keys + 1 < order → ⊥
      full p q = omega arith

-- On a valid tree, for an entry whose value is no NaN, insert leaves a valid tree. It accepts exactly
-- if the tree has fewer than 63 entries; it then adds exactly the entry, which find returns for its
-- symbol and value; else it changes nothing.
pub insert_entry_correct :
    (t : BTree) (e : Entry) → IsValid t → IsNumber e.value → Inserted t e (insert t e)
insert_entry_correct t e (none_yet q) ne =
    rw (q, insert-empty e)
      (record {
        valid = one_leaf (e ∷ []) refl (singleton-IsGood e ne);
        when = (λ _. rw entries-empty (omega arith), λ _. refl);
        added = λ _. (
          rw (entries-leaf_tree (e ∷ []), entries-empty) Perm.rfl,
          find-leaf_tree (e ∷ []) e.symbol e.value 0 e (scan_self e ne),
        );
        refused = λ f. cc;
      })
insert_entry_correct t e (one_leaf keys q g) ne = rw q (leaf-Inserted keys e g ne)

-- What a call of find returns.
pub record Found (t : BTree) (s : Bytes) (v : Double) (r : Option Entry) : Type 0 where
  pub hit : (k : Entry) → r ≡ some k → (is_key s v k ≡ true) × Mem k (entries t)
  pub miss : r ≡ none → All (λ k. is_key s v k ≡ false) (entries t)

find-leaf_tree_stop :
    (keys : List Entry) (s : Bytes) (v : Double) (j : ℕ)
    → scan s v 0 keys ≡ stop j
    → find (leaf_tree keys) s v ≡ none
unfolding find find_node
find-leaf_tree_stop keys s v j h = ground arith

mem_at : (keys : List Entry) (n : ℕ) (k : Entry) → get_elem? keys n ≡ some k → Mem k keys
mem_at [] n k e = cc
mem_at (l ∷ keys) zero k e = let q : l ≡ k = cc in rw q mem-cons_self
mem_at (l ∷ keys) (suc n) k e = mem-cons_of_mem l (mem_at keys n k e)

pub Scan-cases : (r : Scan) → ((j : ℕ) × (k : Entry) × (r ≡ found j k)) ⊎ ((j : ℕ) × (r ≡ stop j))
Scan-cases (found j k) = inl (j, k, refl)
Scan-cases (stop j) = inr (j, refl)

leaf-Found :
    (keys : List Entry) (s : Bytes) (v : Double)
    → IsGood keys
    → Found (leaf_tree keys) s v (find (leaf_tree keys) s v)
leaf-Found keys s v g = elim (Scan-cases (scan s v 0 keys)) [
  | inl (j, k, h) ↦
      let r = scan_found s v keys j k h in
      rw (find-leaf_tree keys s v j k h) (record {
        hit = λ l e.
            let q : k ≡ l = cc in
            rw (← q, entries-leaf_tree keys) (r.matches, mem_at keys j k r.there);
        miss = λ e. absurd (cc);
      })
  | inr (j, h) ↦ rw (find-leaf_tree_stop keys s v j h) (record {
    hit = λ l e. cc;
    miss = λ e. rw (entries-leaf_tree keys) (scan_stop s v keys 0 j g.sorted h);
  })
]

find-empty : (s : Bytes) (v : Double) → find empty s v ≡ none
unfolding find
find-empty s v = refl

-- On a valid tree find returns an entry of the tree with the symbol and the value, and null only if
-- there is none.
pub find_correct : (t : BTree) (s : Bytes) (v : Double) → IsValid t → Found t s v (find t s v)
find_correct t s v (none_yet q) =
    rw (q, find-empty s v) (record { hit = λ k e. cc; miss = λ e. rw entries-empty tt })
find_correct t s v (one_leaf keys q g) = rw q (leaf-Found keys s v g)
