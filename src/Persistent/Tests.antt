-- ===== src/Persistent/Tests.antt =====
-- The theorems at a few checkpoints.
use hft_radial_cache.Common.{
  ℕ, ◌≡◌, refl, true, false, none, List, [], ◌∷◌, ◌++◌, ◌==◌, ◌&&◌, if◌then◌else◌,
}
use hft_radial_cache.Common.Bytes.{Bytes, bytes_eq}
use hft_radial_cache.Persistent.{
  PersistentCache, Files, new, checkpoint_to_disk, restore_from_disk, list_checkpoints,
}
use hft_radial_cache.Persistent.History.{
  Call, checkpoints, increments, deletes, modifies, run, made, last_ten, run-last_ten,
}
use hft_radial_cache.Persistent.Restore.{restore-checkpoint}

-- A directory and a name with a slash between; a number as one digit.
abbrev with_slash : Bytes → Bytes → Bytes
with_slash directory name = directory ++ b'/' ∷ name

abbrev digit_of : ℕ → Bytes
digit_of n = n ∷ []

-- The file that a relative path names: a leading "./" stays in the working directory.
abbrev without_dot : Bytes → Bytes
without_dot [] = []
without_dot (first ∷ []) = first ∷ []
without_dot (first ∷ second ∷ path) =
    if first == b'.' && second == b'/' then path else first ∷ second ∷ path

abbrev no_files : Files
no_files path = none

abbrev fresh : PersistentCache
fresh = new (b'd' ∷ []) no_files

abbrev calls : List Call
calls =
    checkpoints (b'a' ∷ []) true 1 2 3
    ∷ increments false 4 5 6
    ∷ modifies 7 (b'n' ∷ [])
    ∷ checkpoints [] true 8 9 10
    ∷ deletes (b'a' ∷ []) true
    ∷ []

run-last_ten_example :
    (list_checkpoints (run with_slash digit_of without_dot fresh calls)
      ≡ last_ten (made with_slash digit_of without_dot calls))
    × ((run with_slash digit_of without_dot fresh calls).checkpoint_in_progress ≡ false)
run-last_ten_example = run-last_ten with_slash digit_of without_dot (b'd' ∷ []) no_files calls

restore-checkpoint_example :
    ((checkpoint_to_disk with_slash digit_of without_dot fresh (b'a' ∷ []) true 1 2 3).1 ≡ true)
    × (restore_from_disk without_dot
          ((checkpoint_to_disk with_slash digit_of without_dot fresh (b'a' ∷ []) true 1 2 3).0)
          (b'a' ∷ [])
          true
        ≡ false)
    × (restore_from_disk without_dot
          ((checkpoint_to_disk with_slash digit_of without_dot fresh (b'a' ∷ []) true 1 2 3).0)
          (b'd' ∷ b'/' ∷ b'a' ∷ [])
          true
        ≡ true)
unfolding new bytes_eq
restore-checkpoint_example =
    restore-checkpoint with_slash digit_of without_dot fresh (b'a') [] 1 2 3 true refl refl refl
