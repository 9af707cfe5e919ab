-- ===== src/BTree/Tests.antt =====
-- The theorems on the tree at a leaf of two entries.
use hft_radial_cache.Common.{◌<◌, ◌≡◌, refl, true, List, [], ◌∷◌, length}
use hft_radial_cache.Common.Bytes.{Bytes}
use hft_radial_cache.Common.Double.{Double, double_eq, zero_double, positive}
use hft_radial_cache.Common.Int.{pos}
use hft_radial_cache.BTree.{Entry, BTree, empty, order, find, insert, remove, validate_tree}
use hft_radial_cache.BTree.Keys.{IsNumber}
use hft_radial_cache.BTree.Tree.{
  IsValid, none_yet, entries, Inserted, insert_entry_correct, Found, find_correct,
}
use hft_radial_cache.BTree.Remove.{
  Removed, remove_correct, Call, inserts, removes, run, run_bounded,
}
use hft_radial_cache.BTree.Walk.{get_range}
use hft_radial_cache.BTree.Range.{Picks, InRange, get_range_complete}

abbrev symbol : Bytes
symbol = 65 ∷ 66 ∷ []

abbrev value : Double
value = positive 4

abbrev entry : Double → Entry
entry v = record { symbol = symbol; value = v; priority = pos 1; timestamp = 7 }

value-IsNumber : IsNumber value
unfolding double_eq
value-IsNumber = refl

one-IsValid : IsValid (insert empty (entry value)).0
one-IsValid = (insert_entry_correct empty (entry value) (none_yet refl) value-IsNumber).valid

abbrev one : BTree
one = (insert empty (entry value)).0

insert_entry_correct_example : Inserted one (entry value) (insert one (entry value))
insert_entry_correct_example = insert_entry_correct one (entry value) one-IsValid value-IsNumber

find_correct_example : Found one symbol value (find one symbol value)
find_correct_example = find_correct one symbol value one-IsValid

remove_correct_example : Removed one symbol value (remove one symbol value)
remove_correct_example = remove_correct one symbol value one-IsValid

abbrev calls : List Call
calls = inserts (entry value) ∷ removes symbol value ∷ []

run_bounded_example :
    (validate_tree (run empty calls) ≡ true) × (length (entries (run empty calls)) < order)
run_bounded_example = run_bounded calls (value-IsNumber, (tt, tt))

get_range_complete_example :
    Picks (InRange symbol zero_double value) (entries one) (get_range one symbol zero_double value)
get_range_complete_example = get_range_complete symbol zero_double value one one-IsValid
