-- ===== src/Radial/Pending.antt =====
-- The nodes that wait under a symbol, and how the table's operations change them.
use mathlib.Core.List.{Mem, not-mem-nil}
use hft_radial_cache.Common.{
  ℕ, ◌<◌, ◌≡◌, refl, sym, ◌∙◌, ◌⊎◌, inl, inr, true, false, none, some, List, [], arith, ◌==◌,
  if◌then◌else◌, length, get_elem?, get_elem?-push, get_elem?-some, Bool-cases, Option-cases,
}
use hft_radial_cache.Common.Bytes.{Bytes, bytes_eq, bytes_eq_self, bytes_eq_iff}
use hft_radial_cache.Common.Int.{ℤ}
use hft_radial_cache.Common.Run.{ok}
use hft_radial_cache.Heap
use hft_radial_cache.Heap.{Heap}
use hft_radial_cache.Heap.Held.{held, held-replicate}
use hft_radial_cache.Heap.Push.{IsValid, new-IsValid}
use hft_radial_cache.Table
use hft_radial_cache.Table.{Table}
use hft_radial_cache.Table.Laws
use hft_radial_cache.Radial.{midpoint_at}

pub midpoint_at-ok :
    (t : Table) (p : ℕ) (h : Heap ℕ) → get_elem? t.midpoints p ≡ some h → midpoint_at t p ≡ ok h
unfolding midpoint_at
midpoint_at-ok t p h e = rw (e, midpoint_at)

held_at : Table → ℕ → List ℕ
held_at t p = elim (get_elem? t.midpoints p) [ none ↦ [] | some h ↦ held h.heap ]

-- The pool indices of the nodes in the symbol's heap.
pub pending : Table → Bytes → List ℕ
unfolding held_at
pending t key = elim (Table.get t key) [ none ↦ [] | some p ↦ held_at t p ]

pub pending_at :
    (t : Table) (key : Bytes) (p : ℕ) (h : Heap ℕ)
    → Table.get t key ≡ some p
    → get_elem? t.midpoints p ≡ some h
    → pending t key ≡ held h.heap
unfolding pending
pending_at t key p h e f = rw (e, f, pending, held_at)

pub pending-none : (t : Table) (key : Bytes) → Table.get t key ≡ none → pending t key ≡ []
unfolding pending
pending-none t key e = rw (e, pending)

-- A heap of nodes of the pool below `bound`, as large as the cache makes its heaps.
pub record HeapSound (priority : ℕ → ℤ) (cap bound : ℕ) (h : Heap ℕ) : Type 0 where
  pub valid : IsValid priority h
  pub capacity : h.capacity ≡ cap
  pub below : (x : ℕ) → Mem x (held h.heap) → x < bound

pub record Sound (priority : ℕ → ℤ) (cap bound : ℕ) (t : Table) : Type 0 where
  pub table : Laws.IsValid t
  pub heaps :
      (p : ℕ) (h : Heap ℕ) → get_elem? t.midpoints p ≡ some h → HeapSound priority cap bound h

-- What a caller of get_or_create gets: a sound table with the same nodes pending, and the heap of
-- the symbol behind the pointer.
pub record Created (priority : ℕ → ℤ) (cap bound : ℕ) (t : Table) (key : Bytes) (r : Table × ℕ)
    : Type 0 where
  pub sound : Sound priority cap bound r.0
  pub here : Table.get r.0 key ≡ some r.1
  pub heap : Heap ℕ
  pub there : get_elem? r.0.midpoints r.1 ≡ some heap
  pub same : (j : Bytes) → pending r.0 j ≡ pending t j

module _ (priority : ℕ → ℤ) (cap bound : ℕ) (t : Table) (key : Bytes) where
  new_heap-HeapSound : HeapSound priority cap bound (Heap.new cap)
  unfolding Heap.new
  new_heap-HeapSound = record {
    valid = new-IsValid priority cap;
    capacity = refl;
    below = λ x m. absurd (not-mem-nil (rw (held-replicate cap) at m));
  }

  module _ (s : Sound priority cap bound t) where
    found-Created : (p : ℕ) → Table.get t key ≡ some p → Created priority cap bound t key (t, p)
    found-Created p e =
        let (h, there) = get_elem?-some t.midpoints p (s.table.allocated key p e) in
        record { sound = s; here = e; heap = h; there = there; same = λ j. refl }

    module _ (e : Table.get t key ≡ none) where
      abbrev grown : Table
      grown = Laws.extended t key cap

      get-grown :
          (j : Bytes)
          → Table.get grown j
            ≡ (if bytes_eq key j then some (length t.midpoints) else Table.get t j)
      get-grown j = Laws.get-extended t key j cap s.table.buckets

      at-grown :
          (p : ℕ)
          → get_elem? grown.midpoints p
            ≡ (if length t.midpoints == p then some (Heap.new cap) else get_elem? t.midpoints p)
      at-grown p = get_elem?-push t.midpoints p (Heap.new cap)

      pending-grown : (j : Bytes) → pending grown j ≡ pending t j
      pending-grown j = elim (Bool-cases (bytes_eq key j)) [
        | inl same ↦
            let k : key ≡ j = (bytes_eq_iff key j).0 same in
            pending_at grown j (length t.midpoints) (Heap.new cap) (rw (get-grown j, same))
              (ground (arith, at-grown (length t.midpoints)))
            ∙ (held-new ∙ sym (pending-none t j (rw (← k) e)))
        | inr other ↦ elsewhere other (Option-cases (Table.get t j))
      ]
        where
          held-new : held (Heap.new {A = ℕ} cap).heap ≡ []
          held-new = unfold Heap.new in held-replicate cap

          elsewhere :
              bytes_eq key j ≡ false
              → (Table.get t j ≡ none) ⊎ ((p : ℕ) × (Table.get t j ≡ some p))
              → pending grown j ≡ pending t j
          elsewhere other (inl q) =
              pending-none grown j (rw (get-grown j, other) q) ∙ sym (pending-none t j q)
          elsewhere other (inr (p, q)) =
              let inside = s.table.allocated j p q in
              let (h, there) = get_elem?-some t.midpoints p inside in
              pending_at grown j p h (rw (get-grown j, other) q) (ground (arith, at-grown p))
              ∙ sym (pending_at t j p h q there)

      missing-Created : Created priority cap bound t key (grown, length t.midpoints)
      missing-Created = record {
        sound = record {
          table =
              rw (Laws.get_or_create_missing t key cap e) at
                (Laws.get_or_create-IsValid t key cap s.table);
          heaps = λ p h f. grown_heap p h (Bool-cases (length t.midpoints == p)) f;
        };
        here = rw (get-grown key, bytes_eq_self key);
        heap = Heap.new cap;
        there = ground (arith, at-grown (length t.midpoints));
        same = pending-grown;
      }
        where
          grown_heap :
              (p : ℕ) (h : Heap ℕ)
              → ((length t.midpoints == p) ≡ true) ⊎ ((length t.midpoints == p) ≡ false)
              → get_elem? grown.midpoints p ≡ some h
              → HeapSound priority cap bound h
          grown_heap p h (inl e) f =
              let q : Heap.new cap ≡ h = ground (arith, at-grown p) in rw (← q) new_heap-HeapSound
          grown_heap p h (inr e) f = s.heaps p h (rw (at-grown p, e) at f)

    pub get_or_create-Created : Created priority cap bound t key (Table.get_or_create t key cap)
    get_or_create-Created = elim (Option-cases (Table.get t key)) [
      | inr (p, e) ↦ rw (Laws.get_or_create_found t key cap p e) (found-Created p e)
      | inl e ↦ rw (Laws.get_or_create_missing t key cap e) (missing-Created e)
    ]
