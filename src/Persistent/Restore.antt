-- ===== src/Persistent/Restore.antt =====
-- A checkpoint and its restoration.
use mathlib.Core.List.{append_assoc}
use hft_radial_cache.Common.{
  ℕ, ◌<◌, ◌^◌, ◌≡◌, refl, ◌∙◌, Bool, true, false, none, some, ◌∷◌, ◌++◌, if◌then◌else◌, arith,
}
use hft_radial_cache.Common.Bytes.{Bytes, bytes_eq, bytes_eq_self}
use hft_radial_cache.Common.Run.{ok}
use hft_radial_cache.Disk.Codec.{read_number-write_number}
use hft_radial_cache.Persistent.{
  PersistentCache, write_checkpoint_header, read_checkpoint_header, write_cache_data,
  update_checkpoint_metadata, perform_checkpoint, checkpoint_to_disk, chosen_name, perform_restore,
  restore_from_disk,
}

-- A header written before 2^64 is read back, with no nodes counted, and what follows it is left.
pub read-write_checkpoint_header :
    (incremental : Bool) (timestamp : ℕ) (rest : Bytes)
    → timestamp < 256 ^ 8
    → read_checkpoint_header (write_checkpoint_header incremental timestamp ++ rest)
      ≡ ok (
        record {
          version = 1;
          type = if incremental then 1 else 0;
          timestamp = timestamp;
          node_count = 0;
        },
        rest,
      )
unfolding read_checkpoint_header write_checkpoint_header
read-write_checkpoint_header incremental timestamp rest small =
    let kind : ℕ = if incremental then 1 else 0 in
    simp (
      append_assoc,
      λ (left : Bytes). read_number-write_number 4 1 left (omega arith),
      λ (left : Bytes). read_number-write_number 1 kind left (ground arith),
      λ (left : Bytes). read_number-write_number 8 timestamp left small,
      λ (left : Bytes). read_number-write_number 8 0 left (omega arith),
    )

restored_missing :
    (resolve : Bytes → Bytes) (c : PersistentCache) (filename : Bytes) (opens : Bool)
    → c.files (resolve filename) ≡ none
    → restore_from_disk resolve c filename opens ≡ false
unfolding restore_from_disk
restored_missing resolve c filename opens e = rw (e, restore_from_disk)

restored_there :
    (resolve : Bytes → Bytes) (c : PersistentCache) (filename : Bytes) (opens : Bool)
    (content : Bytes)
    → c.files (resolve filename) ≡ some content
    → restore_from_disk resolve c filename opens ≡ opens
unfolding restore_from_disk perform_restore
restored_there resolve c filename opens content e =
    rw (e, restore_from_disk) (rw (e, perform_restore))

module _ (join : Bytes → Bytes → Bytes) (to_string : ℕ → Bytes) (resolve : Bytes → Bytes) where
  -- The file of a finished checkpoint, and the files beside it.
  saved :
      (c : PersistentCache) (filename : Bytes) (written now : ℕ) (file : Bytes)
      → (perform_checkpoint join to_string resolve c filename false true written now).0.files file
        ≡ (if bytes_eq (resolve (join c.checkpoint_dir filename)) file
            then some (write_checkpoint_header false written ++ write_cache_data)
            else c.files file)
  unfolding perform_checkpoint update_checkpoint_metadata
  saved c filename written now file = refl

  -- A checkpoint under a name that is not empty, while none is under way and its file opens, is
  -- reported as made; but restore_from_disk with the same name returns false, if the path in the
  -- checkpoint directory names another file than the bare name does (as it does not for a
  -- directory like "."), and there was no file under the bare name. It returns true for the path
  -- in the directory, if that opens.
  pub restore-checkpoint :
      (c : PersistentCache) (byte : ℕ) (name : Bytes) (named written now : ℕ) (opens : Bool)
      → c.checkpoint_in_progress ≡ false
      → bytes_eq (resolve (join c.checkpoint_dir (byte ∷ name))) (resolve (byte ∷ name)) ≡ false
      → c.files (resolve (byte ∷ name)) ≡ none
      → ((checkpoint_to_disk join to_string resolve c (byte ∷ name) true named written now).1
          ≡ true)
        × (restore_from_disk resolve
              ((checkpoint_to_disk join to_string resolve c (byte ∷ name) true named written now).0)
              (byte ∷ name)
              opens
            ≡ false)
        × (restore_from_disk resolve
              ((checkpoint_to_disk join to_string resolve c (byte ∷ name) true named written now).0)
              (join c.checkpoint_dir (byte ∷ name))
              opens
            ≡ opens)
  unfolding checkpoint_to_disk chosen_name restore_from_disk
  restore-checkpoint c byte name named written now opens idle other missing =
      let path = join c.checkpoint_dir (byte ∷ name) in
      let there = saved c (byte ∷ name) written now (resolve path) in
      let bare = saved c (byte ∷ name) written now (resolve (byte ∷ name)) in
      let done =
        (perform_checkpoint join to_string resolve c (byte ∷ name) false true written now).0 in
      let absent : done.files (resolve (byte ∷ name)) ≡ none = bare ∙ rw other missing in
      let present : done.files (resolve path)
          ≡ some (write_checkpoint_header false written ++ write_cache_data) =
        there ∙ rw (bytes_eq_self (resolve path)) in
      rw idle (
        refl,
        restored_missing resolve done (byte ∷ name) opens absent,
        restored_there resolve done path opens
            (write_checkpoint_header false written ++ write_cache_data) present,
      )
