-- ===== src/BTree/Leaf.antt =====
-- A leaf's keys under insertion, search and removal.
use mathlib.Core.List.Perm
use native.Mathlib.Nat.{add-zero}
use hft_radial_cache.Common.{
  ℕ, zero, suc, ◌+◌, ◌≡◌, refl, ap, ◌∙◌, true, false, some, List, [], ◌∷◌, Perm, arith, Bool-cases,
  inl, inr, get_elem?,
}
use hft_radial_cache.Common.Bytes.{Bytes}
use hft_radial_cache.Common.Double.{Double}
use hft_radial_cache.BTree.{
  Entry, found, stop, is_key, is_less, is_greater, scan, position, insert_at, remove_at,
}
use hft_radial_cache.BTree.Keys.{
  IsNumber, All, IsSorted, less_only, not_less_after_one, less_asym, past_greater, self_key,
}

abbrev pub placed : Entry → List Entry → List Entry
placed e keys = insert_at (position e.symbol e.value keys) e keys

pub placed-nil : (e : Entry) → placed e [] ≡ e ∷ []
unfolding position insert_at
placed-nil e = refl

-- The key goes past a lesser one, or in front.
pub placed-cons_less :
    (e k : Entry) (keys : List Entry)
    → is_less e.symbol e.value k ≡ true
    → placed e (k ∷ keys) ≡ k ∷ placed e keys
unfolding position insert_at
placed-cons_less e k keys h = rw h

pub placed-cons_stop :
    (e k : Entry) (keys : List Entry)
    → is_less e.symbol e.value k ≡ false
    → placed e (k ∷ keys) ≡ e ∷ k ∷ keys
unfolding position insert_at
placed-cons_stop e k keys h = rw h

-- Both cases at once, as induction needs them.
placed_ind {κ} :
    (e : Entry) (P : List Entry → List Entry → Type κ)
    → P [] (e ∷ [])
    → ((k : Entry) (keys : List Entry)
        → is_less e.symbol e.value k ≡ true
        → P keys (placed e keys)
        → P (k ∷ keys) (k ∷ placed e keys))
    → ((k : Entry) (keys : List Entry)
        → is_less e.symbol e.value k ≡ false
        → P (k ∷ keys) (e ∷ k ∷ keys))
    → (keys : List Entry) → P keys (placed e keys)
placed_ind e P base past front [] = rw (placed-nil e) base
placed_ind e P base past front (k ∷ keys) = elim (Bool-cases (is_less e.symbol e.value k)) [
  | inl h ↦ rw (placed-cons_less e k keys h) (past k keys h (placed_ind e P base past front keys))
  | inr h ↦ rw (placed-cons_stop e k keys h) (front k keys h)
]

pub placed-perm : (e : Entry) (keys : List Entry) → Perm (placed e keys) (e ∷ keys)
placed-perm e =
    placed_ind e (λ keys r. Perm r (e ∷ keys)) Perm.rfl
      (λ k keys h p. Perm.trans (Perm.cons k p) (Perm.swap e k keys)) (λ k keys h. Perm.rfl)

pub All-placed {κ} :
    (P : Entry → Type κ) (e : Entry)
    → P e
    → (keys : List Entry) → All P keys
    → All P (placed e keys)
All-placed P e pe =
    placed_ind e (λ keys r. All P keys → All P r) (λ a. (pe, a)) (λ k keys h ih a. (a.0, ih a.1))
      (λ k keys h a. (pe, a))

pub All-remove_at {κ} :
    (P : Entry → Type κ) (n : ℕ) (keys : List Entry) → All P keys → All P (remove_at n keys)
unfolding remove_at
All-remove_at P zero [] a = tt
All-remove_at P zero (k ∷ keys) a = a.1
All-remove_at P (suc n) [] a = tt
All-remove_at P (suc n) (k ∷ keys) a = (a.0, All-remove_at P n keys a.1)

-- Placing a number among sorted numbers keeps them sorted.
pub placed-IsSorted :
    (e : Entry)
    → IsNumber e.value
    → (keys : List Entry) → All (λ l. IsNumber l.value) keys
    → IsSorted keys
    → IsSorted (placed e keys)
placed-IsSorted e ne =
    placed_ind e (λ keys r. All (λ l. IsNumber l.value) keys → IsSorted keys → IsSorted r)
      (λ n s. (tt, tt))
      (λ k keys h ih n s. (
        All-placed (λ l. is_less k.symbol k.value l ≡ false) e (less_asym e k h) keys s.0,
        ih n.1 s.1,
      ))
      (λ k keys h n s. ((h, not_less_after_one e k keys ne n.0 n.1 h s.0), s))

-- The scan for the key just placed ends at it.
pub scan-placed :
    (e : Entry)
    → IsNumber e.value
    → (keys : List Entry) (i : ℕ)
    → scan e.symbol e.value i (placed e keys) ≡ found (i + position e.symbol e.value keys) e
unfolding scan position insert_at
scan-placed e ne [] i = rw (self_key e ne, add-zero)
scan-placed e ne (k ∷ keys) i = elim (Bool-cases (is_less e.symbol e.value k)) [
  | inl h ↦
      let (differ, low) = less_only e.symbol e.value k h in
      rw (h, differ, low) (scan-placed e ne keys (suc i) ∙ ap (λ j. found j e) (omega arith))
  | inr h ↦ rw (h, self_key e ne, add-zero)
]

-- What the scan finds is a key of the node that matches; removing it takes out that key alone.
pub record Removable (s : Bytes) (v : Double) (keys : List Entry) (n : ℕ) (k : Entry) : Type 0 where
  pub matches : is_key s v k ≡ true
  pub there : get_elem? keys n ≡ some k
  pub removed : Perm (k ∷ remove_at n keys) keys

scan_found_from :
    (s : Bytes) (v : Double) (keys : List Entry) (i j : ℕ) (k : Entry)
    → scan s v i keys ≡ found j k
    → (n : ℕ) × (j ≡ i + n) × Removable s v keys n k
unfolding scan remove_at
scan_found_from s v [] i j k h = cc
scan_found_from s v (l ∷ keys) i j k h = elim (Bool-cases (is_key s v l)) [
  | inl m ↦
      let e : l ≡ k = ground arith in
      (0, ground arith, record { matches = rw (← e) m; there = ap some e; removed = rw e Perm.rfl })
  | inr m ↦ elim (Bool-cases (is_greater s v l)) [
    | inl g ↦ absurd (ground arith)
    | inr g ↦
        let (n, e, r) = scan_found_from s v keys (suc i) j k (rw (m, g) at h) in
        (
          suc n,
          omega arith,
          record {
            matches = r.matches;
            there = r.there;
            removed = Perm.trans (Perm.swap l k _) (Perm.cons l r.removed);
          },
        )
  ]
]

pub scan_found :
    (s : Bytes) (v : Double) (keys : List Entry) (j : ℕ) (k : Entry)
    → scan s v 0 keys ≡ found j k
    → Removable s v keys j k
scan_found s v keys j k h =
    let (n, e, r) = scan_found_from s v keys 0 j k h in let same : j ≡ n = omega arith in rw same r

none_past :
    (s : Bytes) (v : Double) (k : Entry) (keys : List Entry)
    → is_greater s v k ≡ true
    → All (λ l. is_less k.symbol k.value l ≡ false) keys
    → All (λ l. is_key s v l ≡ false) keys
none_past s v k [] g a = tt
none_past s v k (l ∷ keys) g a = (past_greater s v k l g a.0, none_past s v k keys g a.1)

-- Among sorted keys a scan that stops has missed none.
pub scan_stop :
    (s : Bytes) (v : Double) (keys : List Entry) (i j : ℕ)
    → IsSorted keys
    → scan s v i keys ≡ stop j
    → All (λ l. is_key s v l ≡ false) keys
unfolding scan
scan_stop s v [] i j sorted h = tt
scan_stop s v (k ∷ keys) i j sorted h = elim (Bool-cases (is_key s v k)) [
  | inl m ↦ absurd (ground arith)
  | inr m ↦ elim (Bool-cases (is_greater s v k)) [
    | inl g ↦ (m, none_past s v k keys g sorted.0)
    | inr g ↦ (m, scan_stop s v keys (suc i) j sorted.1 (rw (m, g) at h))
  ]
]

pub remove_at-IsSorted : (n : ℕ) (keys : List Entry) → IsSorted keys → IsSorted (remove_at n keys)
unfolding remove_at
remove_at-IsSorted zero [] s = tt
remove_at-IsSorted zero (k ∷ keys) s = s.1
remove_at-IsSorted (suc n) [] s = tt
remove_at-IsSorted (suc n) (k ∷ keys) s = (
  All-remove_at (λ l. is_less k.symbol k.value l ≡ false) n keys s.0,
  remove_at-IsSorted n keys s.1,
)
