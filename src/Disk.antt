-- ===== src/Disk.antt =====
-- src/multi_level_cache.cpp: DiskBackedCache, the third level of the multi-level cache. A double is
-- its 64 bits, and `to_string` is std::to_string on them. memory_index_ is the list of its entries,
-- in some order of its own, and a node stands for the pointer to it. The file is
-- its bytes; `fault` is the use of a variable that no read has set. `stamp_size` and `count_size`
-- are the sizes of a node's time stamps and of its access count, whose types no header gives, and
-- `magic` is what 0xCAFECACHE, which is no literal, is meant to be.
pub mod Codec
pub mod Index
pub mod Calls
pub mod Reload
mod Tests
use hft_radial_cache.Common.{
  ℕ, zero, suc, ◌+◌, ◌-◌, ◌*◌, ◌/◌, ◌%◌, ◌^◌, Bool, true, false, not, Option, none, some, List, [],
  ◌∷◌, ◌++◌, ltb, leb, ◌==◌, if◌then◌else◌, length, take, drop, replicate,
}
use hft_radial_cache.Common.Bytes.{Bytes, bytes_eq}
use hft_radial_cache.Common.Int.{ℤ, pos, negsuc}
use hft_radial_cache.Common.Words.{add64, sub64, mul64}
use hft_radial_cache.Common.Run.{Run, ok, fault, stuck, ◌>>=◌}

-- The fields of Node that these files use.
pub record DiskNode : Type 0 where
  pub value : ℕ
  pub symbol : Bytes
  pub priority : ℤ
  pub timestamp : ℕ
  pub expiry : ℕ
  pub last_access : ℕ
  pub access_count : ℕ

abbrev pub Index : Type 0
Index = List (Bytes × DiskNode)

pub record DiskBackedCache : Type 0 where
  pub memory_index : Index
  pub disk_size : ℕ

-- `memory_index_.find(key)`.
unfoldable pub find_key : Bytes → Index → Option DiskNode
find_key key [] = none
find_key key (entry ∷ entries) =
    if bytes_eq (entry.0) key then some (entry.1) else find_key key entries

-- `it->second = node` for a key that is there, `memory_index_[key] = node` for one that is not. The
-- place of a new key among the entries is not the one that an unordered map would give it.
unfoldable pub put : Bytes → DiskNode → Index → Index
put key node [] = (key, node) ∷ []
put key node (entry ∷ entries) =
    if bytes_eq (entry.0) key then (key, node) ∷ entries else entry ∷ put key node entries

-- `memory_index_.erase(it)`.
unfoldable pub erase : Bytes → Index → Index
erase key [] = []
erase key (entry ∷ entries) = if bytes_eq (entry.0) key then entries else entry ∷ erase key entries

module _ (to_string : ℕ → Bytes) where
  unfoldable pub key_of : Bytes → ℕ → Bytes
  key_of symbol value = symbol ++ b'_' ∷ to_string value

  -- insert, with `node_size` for sizeof(Node). It returns true.
  unfoldable pub insert : ℕ → DiskBackedCache → DiskNode → DiskBackedCache × Bool
  unfolding find_key put key_of
  insert node_size c node =
      let key = key_of node.symbol node.value in
      let index = put key node c.memory_index in
      elim (find_key key c.memory_index) [
        | some old ↦ (record c { memory_index = index }, true)
        | none ↦ (record { memory_index = index; disk_size = add64 c.disk_size node_size }, true)
      ]

  unfoldable pub retrieve : DiskBackedCache → Bytes → ℕ → Option DiskNode
  unfolding find_key key_of
  retrieve c symbol value = find_key (key_of symbol value) c.memory_index

  unfoldable pub remove : ℕ → DiskBackedCache → Bytes → ℕ → DiskBackedCache × Bool
  unfolding find_key erase key_of
  remove node_size c symbol value =
      let key = key_of symbol value in
      elim (find_key key c.memory_index) [
        | some old ↦ (
          record {
            memory_index = erase key c.memory_index;
            disk_size = sub64 c.disk_size node_size;
          },
          true,
        )
        | none ↦ (c, false)
      ]

unfoldable pub clear : DiskBackedCache → DiskBackedCache
clear c = record { memory_index = []; disk_size = 0 }

-- A number as so many bytes, the lowest first.
unfoldable pub write_number : ℕ → ℕ → Bytes
write_number zero n = []
write_number (suc size) n = (n % 256) ∷ write_number size (n / 256)

unfoldable pub int_bits : ℤ → ℕ
int_bits (pos n) = n
int_bits (negsuc n) = 2 ^ 32 - 1 - n

unfoldable pub bits_int : ℕ → ℤ
bits_int n = if ltb n (2 ^ 31) then pos n else negsuc (2 ^ 32 - 1 - n)

-- A read of so many bytes, and what is left. If there are fewer the number stays unset, and so
-- does every number read later.
unfoldable pub read_number : ℕ → Bytes → Run (ℕ × Bytes)
read_number zero file = ok (0, file)
read_number (suc size) [] = fault
read_number (suc size) (byte ∷ file) = read_number size file >>= λ r. ok (byte + 256 * r.0, r.1)

-- A read into a vector of so many zeros.
unfoldable pub read_text : ℕ → Bytes → Bytes × Bytes
read_text zero file = ([], file)
read_text (suc size) [] = (replicate (suc size) 0, [])
read_text (suc size) (byte ∷ file) = let r = read_text size file in (byte ∷ r.0, r.1)

module _ (stamp_size count_size : ℕ) where
  unfoldable pub serialize_node : DiskNode → Bytes
  serialize_node node =
      write_number 8 node.value
      ++ (write_number 4 (int_bits node.priority)
          ++ (write_number stamp_size node.timestamp
              ++ (write_number stamp_size node.expiry
                  ++ (write_number stamp_size node.last_access
                      ++ (write_number count_size node.access_count
                          ++ (write_number 4 (length node.symbol % 2 ^ 32)
                              ++ take (length node.symbol % 2 ^ 32) node.symbol))))))

  unfoldable pub deserialize_node : Bytes → Run (DiskNode × Bytes)
  deserialize_node file = do
    value ← read_number 8 file
    priority ← read_number 4 (value.1)
    timestamp ← read_number stamp_size (priority.1)
    expiry ← read_number stamp_size (timestamp.1)
    last_access ← read_number stamp_size (expiry.1)
    access_count ← read_number count_size (last_access.1)
    symbol_length ← read_number 4 (access_count.1)
    let symbol = read_text (symbol_length.0) (symbol_length.1)
    ok (
      record {
        value = value.0;
        symbol = symbol.0;
        priority = bits_int (priority.0);
        timestamp = timestamp.0;
        expiry = expiry.0;
        last_access = last_access.0;
        access_count = access_count.0;
      },
      symbol.1,
    )

  unfoldable pub serialize_nodes : Index → Bytes
  serialize_nodes [] = []
  serialize_nodes (entry ∷ entries) = serialize_node (entry.1) ++ serialize_nodes entries

  -- What flush_to_disk writes to a file that opens.
  unfoldable pub flush_to_disk : ℕ → DiskBackedCache → Bytes
  flush_to_disk magic c =
      write_number 8 magic
      ++ (write_number 8 1
          ++ (write_number 8 (length c.memory_index) ++ serialize_nodes c.memory_index))

  -- The loop of load_from_disk: each node is put under its key, and its size is added.
  unfoldable pub load_nodes : (ℕ → Bytes) → ℕ → ℕ → Bytes → DiskBackedCache → Run DiskBackedCache
  load_nodes to_string node_size zero file c = ok c
  load_nodes to_string node_size (suc count) file c = deserialize_node file >>= λ r.
      load_nodes to_string node_size count (r.1) (record {
        memory_index = put (key_of to_string (r.0.symbol) (r.0.value)) (r.0) c.memory_index;
        disk_size = add64 c.disk_size node_size;
      })

  -- What load_from_disk reads behind the magic number. The source reads the version and the count
  -- before it tests the magic number, and uses the count only after.
  unfoldable pub load_behind :
      (ℕ → Bytes) → ℕ → Bytes → DiskBackedCache → Run (DiskBackedCache × Bool)
  load_behind to_string node_size file c = do
    version ← read_number 8 file
    count ← read_number 8 (version.1)
    loaded ← load_nodes to_string node_size (count.0) (count.1) c
    ok (loaded, true)

  -- load_from_disk, with `none` for a file that does not open.
  unfoldable pub load_from_disk :
      (ℕ → Bytes) → ℕ → ℕ → Option Bytes → DiskBackedCache → Run (DiskBackedCache × Bool)
  unfolding load_behind
  load_from_disk to_string node_size magic none c = ok (c, false)
  load_from_disk to_string node_size magic (some file) c = do
    found ← read_number 8 file
    if found.0 == magic then load_behind to_string node_size (found.1) c else ok (c, false)
