-- ===== src/Disk/Tests.antt =====
-- The theorems at concrete nodes, and a file that is cut short.
use hft_radial_cache.Common.{
  ℕ, ◌==◌, ◌≡◌, refl, true, none, some, List, [], ◌∷◌, ◌++◌, take, if◌then◌else◌, arith,
}
use hft_radial_cache.Common.Bytes.{Bytes, bytes_eq}
use hft_radial_cache.Common.Int.{pos, negsuc, pos_part, neg_part}
use hft_radial_cache.Common.Run.{ok}
use hft_radial_cache.Disk.{
  DiskNode, insert, remove, write_number, read_number, read_text, int_bits, bits_int,
  serialize_node, deserialize_node, flush_to_disk, load_from_disk,
}
use hft_radial_cache.Disk.Codec.{deserialize_node-serialize_node}
use hft_radial_cache.Disk.Calls.{Call, insert_node, remove_node, run, after, Holds, run-Holds}
use hft_radial_cache.Disk.Reload.{bare, bare-Holds, restart}

-- A conversion that tells 0 from the rest.
abbrev text_of : ℕ → Bytes
text_of value = if value == 0 then b'0' ∷ [] else b'1' ∷ []

abbrev quote : DiskNode
quote = record {
  value = 7;
  symbol = b'E' ∷ b'U' ∷ [];
  priority = negsuc 4;
  timestamp = 100;
  expiry = 900;
  last_access = 300;
  access_count = 2;
}

abbrev calls : List Call
calls =
    insert_node quote
    ∷ insert_node (record quote { value = 0; priority = pos 8 })
    ∷ insert_node quote
    ∷ remove_node (b'E' ∷ b'U' ∷ []) 0
    ∷ []

deserialize_node-serialize_node_example :
    deserialize_node 8 4 (serialize_node 8 4 quote ++ 5 ∷ []) ≡ ok (quote, 5 ∷ [])
unfolding pos_part neg_part
deserialize_node-serialize_node_example =
    deserialize_node-serialize_node 8 4 quote (5 ∷ []) (omega arith)

run-Holds_example :
    Holds text_of 80 (after text_of 80 (λ key. none) calls) (run text_of 80 bare calls)
run-Holds_example =
    run-Holds text_of 80 (λ key. none) bare calls (omega arith) (bare-Holds text_of 80 8 4)

calls_outcome :
    run text_of 80 bare calls
    ≡ record { memory_index = (b'E' ∷ b'U' ∷ b'_' ∷ b'1' ∷ [], quote) ∷ []; disk_size = 80 }
unfolding run insert remove bytes_eq
calls_outcome = refl

restart_example :
    load_from_disk 8 4 text_of 80 0xCAFECA
      (some (flush_to_disk 8 4 0xCAFECA (run text_of 80 bare calls)))
      bare
    ≡ ok (run text_of 80 bare calls, true)
unfolding pos_part neg_part
restart_example =
    restart text_of 80 8 4 0xCAFECA calls (omega arith) (omega arith) (omega arith)
      (rw calls_outcome (omega arith))

-- A file without its last byte is accepted: the symbol ends in a zero byte.
cut_short :
    deserialize_node 8 4 (take 45 (serialize_node 8 4 quote))
    ≡ ok (record quote { symbol = b'E' ∷ 0 ∷ [] }, [])
unfolding deserialize_node serialize_node write_number read_number read_text int_bits bits_int
cut_short = refl
