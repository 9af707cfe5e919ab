-- ===== src/BTree/Remove.antt =====
-- remove, validate_tree, and every tree that calls can build.
use hft_radial_cache.Common.{
  ℕ, ◌-◌, ◌<◌, ◌≡◌, refl, ap, Bool, true, false, List, [], ◌∷◌, Perm, arith, length, length-perm,
  inl, inr,
}
use hft_radial_cache.Common.Bytes.{Bytes}
use hft_radial_cache.Common.Double.{Double}
use hft_radial_cache.BTree.{
  Entry, BTree, empty, order, found, stop, scan, is_key, remove_at, remove_node, insert, remove,
  clear, validate_tree,
}
use hft_radial_cache.BTree.Keys.{IsNumber, All}
use hft_radial_cache.BTree.Leaf.{
  Removable, scan_found, scan_stop, remove_at-IsSorted, All-remove_at,
}
use hft_radial_cache.BTree.Tree.{
  leaf_tree, IsGood, IsValid, none_yet, one_leaf, entries, entries-leaf_tree, entries-empty,
  Scan-cases, insert_entry_correct,
}

-- What a call of remove does.
pub record Removed (t : BTree) (s : Bytes) (v : Double) (r : BTree × Bool) : Type 0 where
  pub valid : IsValid r.0
  pub taken : r.1 ≡ true → (k : Entry) × (is_key s v k ≡ true) × Perm (k ∷ entries r.0) (entries t)
  pub refused : r.1 ≡ false → (r.0 ≡ t) × All (λ k. is_key s v k ≡ false) (entries t)

remove-empty : (s : Bytes) (v : Double) → remove empty s v ≡ (empty, false)
unfolding remove
remove-empty s v = refl

remove-found :
    (keys : List Entry) (s : Bytes) (v : Double) (j : ℕ) (k : Entry)
    → scan s v 0 keys ≡ found j k
    → remove (leaf_tree keys) s v
      ≡ (record (leaf_tree (remove_at j keys)) { size = length keys - 1 }, true)
unfolding remove remove_node
remove-found keys s v j k h = ground arith

remove-stop :
    (keys : List Entry) (s : Bytes) (v : Double) (j : ℕ)
    → scan s v 0 keys ≡ stop j
    → remove (leaf_tree keys) s v ≡ (leaf_tree keys, false)
unfolding remove remove_node
remove-stop keys s v j h = ground arith

module _ (keys : List Entry) (s : Bytes) (v : Double) (g : IsGood keys) where
  shrunk-IsGood : (j : ℕ) (k : Entry) → Removable s v keys j k → IsGood (remove_at j keys)
  shrunk-IsGood j k r = record {
    bounded = omega (arith, length-perm r.removed, g.bounded);
    sorted = remove_at-IsSorted j keys g.sorted;
    numbers = All-remove_at (λ k. IsNumber k.value) j keys g.numbers;
  }

  resize :
      (j : ℕ) (k : Entry)
      → Removable s v keys j k
      → record (leaf_tree (remove_at j keys)) { size = length keys - 1 }
        ≡ leaf_tree (remove_at j keys)
  resize j k r =
      ap (λ n. record (leaf_tree (remove_at j keys)) { size = n })
        (omega (arith, length-perm r.removed))

  leaf-Removed : Removed (leaf_tree keys) s v (remove (leaf_tree keys) s v)
  leaf-Removed = elim (Scan-cases (scan s v 0 keys)) [
    | inl (j, k, h) ↦
        let r = scan_found s v keys j k h in
        rw (remove-found keys s v j k h, resize j k r)
          (record {
            valid = one_leaf (remove_at j keys) refl (shrunk-IsGood j k r);
            taken = λ _. (
              k,
              r.matches,
              rw (entries-leaf_tree (remove_at j keys), entries-leaf_tree keys) r.removed,
            );
            refused = λ f. absurd (cc);
          })
    | inr (j, h) ↦ rw (remove-stop keys s v j h) (record {
      valid = one_leaf keys refl g;
      taken = λ f. absurd (cc);
      refused = λ _. (refl, rw (entries-leaf_tree keys) (scan_stop s v keys 0 j g.sorted h));
    })
  ]

-- On a valid tree remove leaves a valid tree. If it returns true it has taken out exactly one entry,
-- with the symbol and the value; it returns false, and changes nothing, only if there is none.
pub remove_correct : (t : BTree) (s : Bytes) (v : Double) → IsValid t → Removed t s v (remove t s v)
remove_correct t s v (none_yet q) =
    rw (q, remove-empty s v)
      (record {
        valid = none_yet refl;
        taken = λ f. absurd (cc);
        refused = λ _. (refl, rw entries-empty tt);
      })
remove_correct t s v (one_leaf keys q g) = rw q (leaf-Removed keys s v g)

-- A call of a client.
pub data Call : Type 0 where
  inserts : Entry → Call
  removes : Bytes → Double → Call
  clears : Call

pub step : BTree → Call → BTree
step t (inserts e) = (insert t e).0
step t (removes s v) = (remove t s v).0
step t clears = clear t

pub run : BTree → List Call → BTree
run t [] = t
run t (c ∷ calls) = run (step t c) calls

-- The values inserted are numbers.
abbrev pub Numeric : Call → Type 0
Numeric (inserts e) = IsNumber e.value
Numeric (removes s v) = Unit
Numeric clears = Unit

clear-empty : (t : BTree) → clear t ≡ empty
unfolding clear
clear-empty t = refl

step-IsValid : (t : BTree) (c : Call) → Numeric c → IsValid t → IsValid (step t c)
unfolding step
step-IsValid t (inserts e) n v = (insert_entry_correct t e v n).valid
step-IsValid t (removes s w) n v = (remove_correct t s w v).valid
step-IsValid t clears n v = none_yet (clear-empty t)

run-IsValid :
    (t : BTree) (calls : List Call) → All Numeric calls → IsValid t → IsValid (run t calls)
unfolding run
run-IsValid t [] n v = v
run-IsValid t (c ∷ calls) n v = run-IsValid (step t c) calls n.1 (step-IsValid t c n.0 v)

validate-empty : validate_tree empty ≡ true
unfolding validate_tree
validate-empty = refl

validate-leaf_tree : (keys : List Entry) → validate_tree (leaf_tree keys) ≡ true
unfolding validate_tree
validate-leaf_tree keys = ground arith

entries_bound : (t : BTree) → IsValid t → length (entries t) < order
entries_bound t (none_yet q) = rw (q, entries-empty) (omega arith)
entries_bound t (one_leaf keys q g) = rw (q, entries-leaf_tree keys) g.bounded

validate-IsValid : (t : BTree) → IsValid t → validate_tree t ≡ true
validate-IsValid t (none_yet q) = rw q validate-empty
validate-IsValid t (one_leaf keys q g) = rw q (validate-leaf_tree keys)

-- After any sequence of inserts of entries whose values are no NaN, removes and clears on an empty
-- tree, the tree passes its own validation and holds fewer than 64 entries.
pub run_bounded :
    (calls : List Call)
    → All Numeric calls
    → (validate_tree (run empty calls) ≡ true) × (length (entries (run empty calls)) < order)
run_bounded calls n =
    let v = run-IsValid empty calls n (none_yet refl) in
    (validate-IsValid (run empty calls) v, entries_bound (run empty calls) v)
