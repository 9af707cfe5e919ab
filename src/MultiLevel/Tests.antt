-- ===== src/MultiLevel/Tests.antt =====
-- The theorems at a small cache, whose second level holds one node.
use hft_radial_cache.Common.{
  ℕ, ◌≡◌, refl, Bool, true, false, some, List, [], ◌∷◌, ◌==◌, ltb, length, if◌then◌else◌, arith,
}
use hft_radial_cache.Common.Bytes.{Bytes, bytes_eq}
use hft_radial_cache.Common.Int.{pos, pos_part, neg_part}
use hft_radial_cache.Disk
use hft_radial_cache.Disk.{DiskNode, retrieve}
use hft_radial_cache.MultiLevel.{
  LevelStats, Level2, MultiLevelCache, record_access, demote_to_l3, insert, get_highest_priority,
  search, answer_l1, has_symbol, clear, enqueue_l1, promote_to_l1, eviction_policy_l1, evict_oldest,
  demote, demote_to_l2, manage, remove, remove_found, matches, count_hit, count_in, count_out,
  make_node, answer_l2, remove_below,
}
use hft_radial_cache.MultiLevel.Front.{front}
use hft_radial_cache.MultiLevel.Count.{
  Call, inserts, gets, removes, promotes, clears, manages, IsWithin, IsCounted, run, run-IsWithin,
  run-IsCounted, base, call,
}
use hft_radial_cache.MultiLevel.Lookup.{first_with, or_else, accessed, get_correct, lost_on_disk}
use hft_radial_cache.MultiLevel.Insert.{Placed, node, placed, insert-Placed, get-insert}

abbrev text_of : ℕ → Bytes
text_of value = if value == 0 then b'0' ∷ [] else b'1' ∷ []

abbrev symbol_a : Bytes
symbol_a = b'A' ∷ []

abbrev blank : DiskNode
blank = record {
  value = 0;
  symbol = [];
  priority = pos 0;
  timestamp = 0;
  expiry = 0;
  last_access = 0;
  access_count = 0;
}

abbrev one_place : Level2 (List DiskNode)
one_place = record {
  insert = λ held value symbol priority expiry.
      if ltb (length held) 1
      then (record blank { value = value; symbol = symbol; priority = priority } ∷ held, true)
      else (held, false);
  get_highest_priority = λ held symbol. (held, first_with (λ n. bytes_eq n.symbol symbol) held);
  remove = λ held symbol value. (held, false);
  clear = λ held. [];
}

abbrev none_yet : LevelStats
none_yet = record { item_count = 0; hit_count = 0; miss_count = 0 }

abbrev start : MultiLevelCache (List DiskNode)
start = record {
  l1_cache = [];
  l2_cache = [];
  l3_cache = record { memory_index = []; disk_size = 0 };
  l1_stats = none_yet;
  l2_stats = none_yet;
  l3_stats = none_yet;
  l1_capacity = 2;
  l2_capacity = 10;
  l3_capacity = 100;
  l1_min_priority = pos 5;
  l1_max_age_ns = 1000;
  l2_max_age_ns = 2000;
}

abbrev calls : List Call
calls =
    inserts 7 symbol_a (pos 9) 60 1 2 3
    ∷ gets symbol_a 4
    ∷ inserts 8 symbol_a (pos 2) 60 5 6 7
    ∷ promotes blank
    ∷ manages
    ∷ clears
    ∷ inserts 6 symbol_a (pos 9) 60 8 9 10
    ∷ gets symbol_a 11
    ∷ removes symbol_a 8
    ∷ []

abbrev same : ℕ → ℕ → Bool
same a b = a == b

-- One hit before the clear, and one after it.
base-calls :
    (base one_place text_of 80 4 blank (λ s. s) same same 0 start calls ≡ 1)
    × ((run one_place text_of 80 4 blank (λ s. s) same same start calls).l1_stats.item_count ≡ 1)
    × ((run one_place text_of 80 4 blank (λ s. s) same same start calls).l1_stats.hit_count ≡ 2)
unfolding base call insert get_highest_priority search answer_l1 has_symbol bytes_eq clear
    enqueue_l1 promote_to_l1 eviction_policy_l1 evict_oldest demote demote_to_l2 manage remove
    remove_found matches count_hit count_in count_out record_access make_node answer_l2 remove_below
    pos_part neg_part demote_to_l3 Disk.insert run Disk.remove Disk.clear
base-calls = (refl, refl, refl)

run-IsWithin_example :
    IsWithin 0 (front (run one_place text_of 80 4 blank (λ s. s) same same start calls))
run-IsWithin_example =
    run-IsWithin one_place text_of 80 4 blank (λ s. s) same same start calls (omega arith)

run-IsCounted_example :
    IsCounted
      (base one_place text_of 80 4 blank (λ s. s) same same 0 start calls)
      (front (run one_place text_of 80 4 blank (λ s. s) same same start calls))
run-IsCounted_example =
    run-IsCounted one_place text_of 80 4 blank (λ s. s) same same 0 start calls (omega arith)

-- Two nodes of one symbol, and one of another between them.
abbrev symbol_b : Bytes
symbol_b = b'B' ∷ []

abbrev busy : MultiLevelCache (List DiskNode)
busy = record start {
  l1_cache =
      record blank { value = 1; symbol = symbol_a; priority = pos 9 }
      ∷ record blank { value = 2; symbol = symbol_b; priority = pos 6 }
      ∷ record blank { value = 3; symbol = symbol_a; priority = pos 7 }
      ∷ [];
}

-- A lookup of the other symbol turns the queue round.
abbrev turned : MultiLevelCache (List DiskNode)
turned = (get_highest_priority one_place text_of 80 4 busy symbol_b 4).0

-- The later node of lower priority is found then.
turned_finds :
    first_with (has_symbol symbol_a) turned.l1_cache
    ≡ some (record blank { value = 3; symbol = symbol_a; priority = pos 7 })
unfolding get_highest_priority search answer_l1 has_symbol bytes_eq
turned_finds = refl

get_correct_example :
    (get_highest_priority one_place text_of 80 4 turned symbol_a 5).1
    ≡ accessed one_place text_of 80 4 5 (
        or_else (first_with (has_symbol symbol_a) turned.l1_cache) (
          or_else
            (first_with (λ n. bytes_eq n.symbol symbol_a) turned.l2_cache)
            (retrieve text_of turned.l3_cache symbol_a 0)))
get_correct_example = get_correct one_place text_of 80 4 turned symbol_a 5

lost_on_disk_example :
    (get_highest_priority one_place text_of 80 4
      ((demote_to_l3 one_place text_of 80 4 start
        (record blank { value = 3; symbol = symbol_a })).0)
      symbol_a
      4).1
    ≡ (get_highest_priority one_place text_of 80 4 start symbol_a 4).1
lost_on_disk_example =
    lost_on_disk one_place text_of 80 4 start (record blank { value = 3; symbol = symbol_a }) 4
      (λ e. ground arith)

insert-Placed_example :
    Placed one_place text_of 80 4 blank
      (λ s. s)
      start
      7
      symbol_a
      (pos 9)
      60
      (node one_place text_of 80 4 blank (λ s. s) start 7 symbol_a (pos 9) 60 1 2 3)
      (placed one_place text_of 80 4 blank (λ s. s) start 7 symbol_a (pos 9) 60 1 2 3)
      (insert one_place text_of 80 4 blank (λ s. s) start 7 symbol_a (pos 9) 60 1 2 3)
insert-Placed_example =
    insert-Placed one_place text_of 80 4 blank (λ s. s) start 7 symbol_a (pos 9) 60 1 2 3

get-insert_example :
    ((get_highest_priority one_place text_of 80 4
        ((insert one_place text_of 80 4 blank (λ s. s) start 7 symbol_a (pos 9) 60 1 2 3).0)
        symbol_a
        4).1
      ≡ some (
          record_access one_place text_of 80 4 4
            (placed one_place text_of 80 4 blank (λ s. s) start 7 symbol_a (pos 9) 60 1 2 3)))
    × ((get_highest_priority one_place text_of 80 4
          ((insert one_place text_of 80 4 blank (λ s. s) start 7 symbol_a (pos 9) 60 1 2 3).0)
          symbol_a
          4).0.l1_cache
        ≡ [])
unfolding pos_part neg_part
get-insert_example =
    get-insert one_place text_of 80 4 blank (λ s. s) start 7 symbol_a (pos 9) 60 1 2 3 4
      (omega arith) refl tt
