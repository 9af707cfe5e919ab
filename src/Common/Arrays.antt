-- ===== src/Common/Arrays.antt =====
-- Writes and swaps in a list used as an array.
use Prim.Native.Nat.{ℕ, zero, suc, ◌≤◌, ◌<◌}
use mathlib.Core.Path.{◌≡◌, refl}
use mathlib.Core.List.{List, [], ◌∷◌, ◌++◌, Perm}
use mathlib.Core.List.Perm
use mathlib.Core.Option.{some}
use native.Mathlib.Omega.{arith}
use hft_radial_cache.Common.Lists.{length, set, get_elem?, get_or, length-set}
use hft_radial_cache.Common.Tests.{◌==◌, if◌then◌else◌}

module _ {ℓ} {A : Type ℓ} where
  pub get_elem?-set :
      (a : List A) (i j : ℕ) (v : A)
      → i < length a
      → get_elem? (set a i v) j ≡ (if i == j then some v else get_elem? a j)
  get_elem?-set [] i j v h = absurd (omega arith)
  get_elem?-set (x ∷ a) zero zero v h = refl
  get_elem?-set (x ∷ a) (suc i) (suc j) v h = ground (arith, get_elem?-set a i j v)
  get_elem?-set (x ∷ a) i j v h = ground arith

  -- An appended entry stands at the old length.
  pub get_elem?-push :
      (a : List A) (j : ℕ) (v : A)
      → get_elem? (a ++ v ∷ []) j ≡ (if length a == j then some v else get_elem? a j)
  get_elem?-push [] zero v = refl
  get_elem?-push [] (suc j) v = ground arith
  get_elem?-push (x ∷ a) zero v = ground arith
  get_elem?-push (x ∷ a) (suc j) v = ground (arith, get_elem?-push a j v)

  pub get_elem?_lt : (a : List A) (i : ℕ) (v : A) → get_elem? a i ≡ some v → i < length a
  get_elem?_lt [] i v e = cc
  get_elem?_lt (x ∷ a) zero v e = omega arith
  get_elem?_lt (x ∷ a) (suc i) v e = omega (arith, get_elem?_lt a i v e)

  pub get_elem?-some : (a : List A) (i : ℕ) → i < length a → (v : A) × (get_elem? a i ≡ some v)
  get_elem?-some [] i h = absurd (omega arith)
  get_elem?-some (x ∷ a) zero h = (x, refl)
  get_elem?-some (x ∷ a) (suc i) h = get_elem?-some a i (omega arith)

-- Reads with a default, and exchanges of two entries.
module _ {ℓ} {Entry : Type ℓ} (default : Entry) where
  abbrev read : List Entry → ℕ → Entry
  read entries at = get_or entries at default

  pub get_or-set :
      (entries : List Entry) (written at : ℕ) (new : Entry)
      → written < length entries
      → read (set entries written new) at ≡ (if written == at then new else read entries at)
  get_or-set [] written at new inside = absurd (omega arith)
  get_or-set (entry ∷ entries) zero zero new inside = refl
  get_or-set (entry ∷ entries) zero (suc at) new inside = ground arith
  get_or-set (entry ∷ entries) (suc written) zero new inside = ground arith
  get_or-set (entry ∷ entries) (suc written) (suc at) new inside =
      ground (arith, get_or-set entries written at new)

  pub get_or_past :
      (entries : List Entry) (at : ℕ) → length entries ≤ at → read entries at ≡ default
  get_or_past [] at past = refl
  get_or_past (entry ∷ entries) zero past = absurd (omega arith)
  get_or_past (entry ∷ entries) (suc at) past = get_or_past entries at (omega arith)

  -- A write puts the new entry in the place of the old one.
  pub set-perm :
      (entries : List Entry) (written : ℕ) (new : Entry)
      → written < length entries
      → Perm (read entries written ∷ set entries written new) (new ∷ entries)
  set-perm [] written new inside = absurd (omega arith)
  set-perm (entry ∷ entries) zero new inside = Perm.swap new entry entries
  set-perm (entry ∷ entries) (suc written) new inside = Perm.trans (Perm.swap entry _ _) (
      Perm.trans (Perm.cons entry (set-perm entries written new (omega arith)))
        (Perm.swap new entry entries))

  unfoldable pub swap : List Entry → ℕ → ℕ → List Entry
  swap entries left right = set (set entries left (read entries right)) right (read entries left)

  pub length-swap :
      (entries : List Entry) (left right : ℕ) → length (swap entries left right) ≡ length entries
  unfolding swap
  length-swap entries left right = rw (length-set, length-set) refl

  module _ (entries : List Entry) (left right : ℕ) (left_inside : left < length entries)
      (right_inside : right < length entries) where
    -- The entries after the first of the two writes.
    abbrev half : List Entry
    half = set entries left (read entries right)

    half_inside : right < length half
    half_inside = omega (arith, length-set entries left (read entries right))

    pub get_or-swap :
        (at : ℕ)
        → read (swap entries left right) at ≡ (
            if right == at
            then read entries left
            else if left == at
            then read entries right
            else read entries at)
    unfolding swap
    get_or-swap at = ground (
      arith,
      get_or-set half right at (read entries left) half_inside,
      get_or-set entries left at (read entries right) left_inside,
    )

    -- The entry that the second write overwrites.
    overwritten : read half right ≡ read entries right
    overwritten = ground (arith, get_or-set entries left right (read entries right) left_inside)

    pub swap-perm : Perm (swap entries left right) entries
    unfolding swap
    swap-perm = Perm.cons_inv (
        Perm.trans (rw overwritten at (set-perm half right (read entries left) half_inside))
          (set-perm entries left (read entries right) left_inside))
