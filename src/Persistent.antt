-- ===== src/Persistent.antt =====
-- include/persistent_cache.hpp and src/persistent_cache.cpp: PersistentCache, which the two define
-- alike. The file system is a map from files to their bytes: `resolve` is the file that a path names,
-- as two paths that differ as text may name one file; `join` is the `/` of two paths, `to_string`
-- std::to_string, and whether a file opens or can be removed is an argument, as is the clock. The
-- fields of the metadata that no code sets are left out. The cache itself is neither written nor
-- read: those functions are placeholders. No call throws.
pub mod History
pub mod Restore
mod Tests
use hft_radial_cache.Common.{
  ℕ, suc, ◌+◌, ◌-◌, Bool, true, false, Option, none, some, List, [], ◌∷◌, ◌++◌, ltb, if◌then◌else◌,
  length,
}
use hft_radial_cache.Common.Bytes.{Bytes, bytes_eq}
use hft_radial_cache.Common.Run.{Run, ok, fault, stuck, ◌>>=◌}
use hft_radial_cache.Disk.{write_number, read_number}

pub record CheckpointMetadata : Type 0 where
  pub timestamp : ℕ
  pub filename : Bytes
  pub is_incremental : Bool

pub record CheckpointHeader : Type 0 where
  pub version : ℕ
  pub type : ℕ
  pub timestamp : ℕ
  pub node_count : ℕ

abbrev pub Files : Type 0
Files = Bytes → Option Bytes

pub record PersistentCache : Type 0 where
  pub checkpoint_dir : Bytes
  pub checkpoint_in_progress : Bool
  pub checkpoint_history : List CheckpointMetadata
  pub modified_nodes : List (ℕ × Bytes)
  pub files : Files

abbrev pub max_checkpoint_history : ℕ
max_checkpoint_history = 10

abbrev pub change : Files → Bytes → Option Bytes → Files
change files file content other = if bytes_eq file other then content else files other

unfoldable pub new : Bytes → Files → PersistentCache
new checkpoint_dir files = record {
  checkpoint_dir = checkpoint_dir;
  checkpoint_in_progress = false;
  checkpoint_history = [];
  modified_nodes = [];
  files = files;
}

unfoldable pub write_checkpoint_header : Bool → ℕ → Bytes
write_checkpoint_header incremental timestamp =
    write_number 4 1
    ++ (write_number 1 (if incremental then 1 else 0)
        ++ (write_number 8 timestamp ++ write_number 8 0))

unfoldable pub read_checkpoint_header : Bytes → Run (CheckpointHeader × Bytes)
read_checkpoint_header file = do
  version ← read_number 4 file
  type ← read_number 1 (version.1)
  timestamp ← read_number 8 (type.1)
  node_count ← read_number 8 (timestamp.1)
  ok (
    record {
      version = version.0;
      type = type.0;
      timestamp = timestamp.0;
      node_count = node_count.0;
    },
    node_count.1,
  )

unfoldable pub write_cache_data : Bytes
write_cache_data = write_number 8 0xDEADBEEF

-- The loop that pops the oldest checkpoints.
unfoldable pub trim : List CheckpointMetadata → List CheckpointMetadata
trim [] = []
trim (oldest ∷ later) =
    let rest = trim later in
    if ltb max_checkpoint_history (length (oldest ∷ later)) then rest else oldest ∷ later

unfoldable pub update_checkpoint_metadata : PersistentCache → Bytes → Bool → ℕ → PersistentCache
update_checkpoint_metadata c filename incremental now = record c {
  checkpoint_history = trim (
      c.checkpoint_history
      ++ record { timestamp = now; filename = filename; is_incremental = incremental } ∷ []);
}

-- "checkpoint_", "incremental_" and ".dat"
abbrev pub full_prefix : Bytes
full_prefix = b'c' ∷ b'h' ∷ b'e' ∷ b'c' ∷ b'k' ∷ b'p' ∷ b'o' ∷ b'i' ∷ b'n' ∷ b't' ∷ b'_' ∷ []

abbrev pub incremental_prefix : Bytes
incremental_prefix =
    b'i' ∷ b'n' ∷ b'c' ∷ b'r' ∷ b'e' ∷ b'm' ∷ b'e' ∷ b'n' ∷ b't' ∷ b'a' ∷ b'l' ∷ b'_' ∷ []

abbrev pub suffix : Bytes
suffix = b'.' ∷ b'd' ∷ b'a' ∷ b't' ∷ []

module _ (join : Bytes → Bytes → Bytes) (to_string : ℕ → Bytes) (resolve : Bytes → Bytes) where
  unfoldable pub generate_checkpoint_filename : ℕ → Bytes
  generate_checkpoint_filename now = full_prefix ++ (to_string now ++ suffix)

  unfoldable pub generate_incremental_filename : ℕ → Bytes
  generate_incremental_filename now = incremental_prefix ++ (to_string now ++ suffix)

  -- `written` and `now` are the clock for the header and for the metadata.
  unfoldable pub perform_checkpoint :
      PersistentCache → Bytes → Bool → Bool → ℕ → ℕ → PersistentCache × Bool
  unfolding update_checkpoint_metadata
  perform_checkpoint c filename incremental opens written now =
      let path = join c.checkpoint_dir filename in
      let content = write_checkpoint_header incremental written ++ write_cache_data in
      let saved = record c { files = change c.files (resolve path) (some content) } in
      let noted = update_checkpoint_metadata saved filename incremental now in
      if opens
      then (record noted { checkpoint_in_progress = false }, true)
      else (record c { checkpoint_in_progress = false }, false)

  -- `named` is the clock for a generated name.
  unfoldable pub chosen_name : Bytes → ℕ → Bytes
  chosen_name [] named = generate_checkpoint_filename named
  chosen_name (byte ∷ filename) named = byte ∷ filename

  unfoldable pub checkpoint_to_disk :
      PersistentCache → Bytes → Bool → ℕ → ℕ → ℕ → PersistentCache × Bool
  unfolding perform_checkpoint
  checkpoint_to_disk c filename opens named written now =
      if c.checkpoint_in_progress
      then (c, false)
      else perform_checkpoint c (chosen_name filename named) false opens written now

  unfoldable pub incremental_checkpoint :
      PersistentCache → Bool → ℕ → ℕ → ℕ → PersistentCache × Bool
  unfolding perform_checkpoint
  incremental_checkpoint c opens named written now =
      if c.checkpoint_in_progress
      then (c, false)
      else perform_checkpoint c (generate_incremental_filename named) true opens written now

  unfoldable pub delete_checkpoint : PersistentCache → Bytes → Bool → PersistentCache × Bool
  delete_checkpoint c filename removed =
      let path = join c.checkpoint_dir filename in
      elim (c.files (resolve path)) [
        | none ↦ (c, false)
        | some content ↦ (
          if removed then record c { files = change c.files (resolve path) none } else c,
          removed,
        )
      ]

-- A header is read, and not used.
unfoldable pub perform_restore : (Bytes → Bytes) → PersistentCache → Bytes → Bool → Bool
perform_restore resolve c filename opens = elim (c.files (resolve filename)) [
  | none ↦ false
  | some content ↦ opens
]

unfoldable pub restore_from_disk : (Bytes → Bytes) → PersistentCache → Bytes → Bool → Bool
unfolding perform_restore
restore_from_disk resolve c filename opens = elim (c.files (resolve filename)) [
  | none ↦ false
  | some content ↦ perform_restore resolve c filename opens
]

unfoldable pub find_checkpoint_at_time : PersistentCache → ℕ → Bytes
find_checkpoint_at_time c timestamp = []

unfoldable pub restore_found : (Bytes → Bytes) → PersistentCache → Bytes → Bool → Bool
restore_found resolve c [] opens = false
restore_found resolve c (byte ∷ filename) opens = perform_restore resolve c (byte ∷ filename) opens

unfoldable pub point_in_time_recovery : (Bytes → Bytes) → PersistentCache → ℕ → Bool → Bool
unfolding restore_found find_checkpoint_at_time
point_in_time_recovery resolve c timestamp opens =
    restore_found resolve c (find_checkpoint_at_time c timestamp) opens

unfoldable pub list_checkpoints : PersistentCache → List CheckpointMetadata
list_checkpoints c = c.checkpoint_history

unfoldable pub record_node_modification : PersistentCache → ℕ → Bytes → PersistentCache
record_node_modification c timestamp node_id = record c {
  modified_nodes = c.modified_nodes ++ (timestamp, node_id) ∷ [];
}
