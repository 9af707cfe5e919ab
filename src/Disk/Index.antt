-- ===== src/Disk/Index.antt =====
-- The index against a plain map, over any sequence of calls.
use hft_radial_cache.Common.{
  suc, ◌≡◌, refl, false, Bool-cases, inl, inr, none, some, [], ◌∷◌, ◌++◌, length, if◌then◌else◌,
  arith,
}
use hft_radial_cache.Common.Bytes.{Bytes, bytes_eq, bytes_eq_iff}
use hft_radial_cache.Disk.{DiskNode, Index, find_key, put, erase}

pub find_key-put :
    (key wanted : Bytes) (node : DiskNode) (index : Index)
    → find_key wanted (put key node index)
      ≡ (if bytes_eq key wanted then some node else find_key wanted index)
unfolding find_key put
find_key-put key wanted node [] = refl
find_key-put key wanted node (entry ∷ index) = ground (
  arith,
  bytes_eq_iff key wanted,
  bytes_eq_iff (entry.0) key,
  bytes_eq_iff (entry.0) wanted,
  find_key-put key wanted node index,
)

-- No two entries have the same key.
abbrev pub HasDistinctKeys : Index → Type 0
HasDistinctKeys [] = Unit
HasDistinctKeys (entry ∷ index) = (find_key (entry.0) index ≡ none) × HasDistinctKeys index

pub find_key-erase :
    (key wanted : Bytes) (index : Index)
    → HasDistinctKeys index
    → find_key wanted (erase key index)
      ≡ (if bytes_eq key wanted then none else find_key wanted index)
unfolding find_key erase
find_key-erase key wanted [] d = ground arith
find_key-erase key wanted (entry ∷ index) d = ground (
  arith,
  d.0,
  bytes_eq_iff key wanted,
  bytes_eq_iff (entry.0) key,
  bytes_eq_iff (entry.0) wanted,
  find_key-erase key wanted index d.1,
)

pub put-HasDistinctKeys :
    (key : Bytes) (node : DiskNode) (index : Index)
    → HasDistinctKeys index
    → HasDistinctKeys (put key node index)
unfolding put find_key
put-HasDistinctKeys key node [] d = (refl, tt)
put-HasDistinctKeys key node (entry ∷ index) d = elim (Bool-cases (bytes_eq (entry.0) key)) [
  | inl same ↦
      let e : entry.0 ≡ key = (bytes_eq_iff (entry.0) key).0 same in rw same (rw e at d.0, d.1)
  | inr other ↦
      let off : bytes_eq key (entry.0) ≡ false =
        ground (arith, bytes_eq_iff key (entry.0), bytes_eq_iff (entry.0) key) in
      rw other (
        ground (arith, find_key-put key (entry.0) node index, d.0),
        put-HasDistinctKeys key node index d.1,
      )
]

pub erase-HasDistinctKeys :
    (key : Bytes) (index : Index) → HasDistinctKeys index → HasDistinctKeys (erase key index)
unfolding erase find_key
erase-HasDistinctKeys key [] d = tt
erase-HasDistinctKeys key (entry ∷ index) d = elim (Bool-cases (bytes_eq (entry.0) key)) [
  | inl same ↦ rw same d.1
  | inr other ↦ rw other (
    ground (arith, find_key-erase key (entry.0) index d.1, d.0),
    erase-HasDistinctKeys key index d.1,
  )
]

pub length-put_new :
    (key : Bytes) (node : DiskNode) (index : Index)
    → find_key key index ≡ none
    → length (put key node index) ≡ suc (length index)
unfolding find_key put
length-put_new key node [] e = refl
length-put_new key node (entry ∷ index) e = ground (arith, length-put_new key node index)

pub length-put_old :
    (key : Bytes) (node old : DiskNode) (index : Index)
    → find_key key index ≡ some old
    → length (put key node index) ≡ length index
unfolding find_key put
length-put_old key node old [] e = cc
length-put_old key node old (entry ∷ index) e = ground (arith, length-put_old key node old index)

pub length-erase :
    (key : Bytes) (old : DiskNode) (index : Index)
    → find_key key index ≡ some old
    → suc (length (erase key index)) ≡ length index
unfolding find_key erase
length-erase key old [] e = cc
length-erase key old (entry ∷ index) e = ground (arith, length-erase key old index)

-- A key that is not there goes to the end.
pub put_end :
    (key : Bytes) (node : DiskNode) (index : Index)
    → find_key key index ≡ none
    → put key node index ≡ index ++ (key, node) ∷ []
unfolding put find_key
put_end key node [] e = refl
put_end key node (entry ∷ index) e = ground (arith, put_end key node index)

differs :
    (key : Bytes) (front : Index) (entry : Bytes × DiskNode) (rest : Index)
    → find_key key (front ++ entry ∷ rest) ≡ none
    → bytes_eq (entry.0) key ≡ false
unfolding find_key
differs key [] entry rest e = ground arith
differs key (first ∷ front) entry rest e = ground (arith, differs key front entry rest)

pub missing_front :
    (front : Index) (entry : Bytes × DiskNode) (rest : Index)
    → HasDistinctKeys (front ++ entry ∷ rest)
    → find_key (entry.0) front ≡ none
unfolding find_key
missing_front [] entry rest d = refl
missing_front (first ∷ front) entry rest d = ground (
  arith,
  differs (first.0) front entry rest d.0,
  missing_front front entry rest d.1,
  bytes_eq_iff (first.0) (entry.0),
  bytes_eq_iff (entry.0) (first.0),
)
