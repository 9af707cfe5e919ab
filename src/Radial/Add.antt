-- ===== src/Radial/Add.antt =====
-- src/radial_circular_list.cpp: get_or_create and add_node, as insert and insert_batch call them.
use mathlib.Core.List.{mem-cons}
use mathlib.Core.List.Perm
use mathlib.Core.Logic.Or
use native.Mathlib.Bridge.{le_prop}
use hft_radial_cache.Common.{
  ℕ, ◌+◌, ◌/◌, ◌≤◌, ◌<◌, ◌≡◌, refl, sym, ◌∙◌, ap, ◌⊎◌, inl, inr, Bool, true, false, List, ◌∷◌, Perm,
  arith, ltb, length, Bool-cases,
}
use hft_radial_cache.Common.Bytes.{Bytes, bytes_eq}
use hft_radial_cache.Common.Run.{Returns, returns, Returns-bind}
use hft_radial_cache.Heap.{Heap}
use hft_radial_cache.Heap.Held.{held, length-held}
use hft_radial_cache.Heap.Push.{Pushed, push_correct, push-full}
use hft_radial_cache.Midpoint.{add_node}
use hft_radial_cache.Node.{Node}
use hft_radial_cache.Table
use hft_radial_cache.Table.{Table}
use hft_radial_cache.Radial.{priority_of, with_midpoint, add_to}
use hft_radial_cache.Radial.Pending.{
  pending, pending_at, midpoint_at-ok, HeapSound, Sound, Created, get_or_create-Created,
}
use hft_radial_cache.Radial.Invariant.{
  Sound_mono, written-Sound, pending-written_self, pending-written_ne,
}

-- What add_to does to the table: it adds the node under its symbol if the heap has room.
pub record Added (cap index : ℕ) (pool : List Node) (t : Table) (key : Bytes) (r : Table × Bool)
    : Type 0 where
  pub sound : Sound (priority_of pool) cap (index + 1) r.0
  pub others : (j : Bytes) → bytes_eq key j ≡ false → pending r.0 j ≡ pending t j
  pub outcome :
      ((r.1 ≡ true)
        × (length (pending t key) < cap)
        × Perm (pending r.0 key) (index ∷ pending t key))
      ⊎ ((r.1 ≡ false) × (cap ≤ length (pending t key)) × (pending r.0 key ≡ pending t key))

module _ (max_nodes index : ℕ) (pool : List Node) (t : Table) (key : Bytes)
    (s : Sound (priority_of pool) (max_nodes / 10) index t) where
  abbrev cap : ℕ
  cap = max_nodes / 10

  abbrev made : Table × ℕ
  made = Table.get_or_create t key cap

  created : Created (priority_of pool) cap index t key made
  created = get_or_create-Created (priority_of pool) cap index t key s

  waiting : held created.heap.heap ≡ pending t key
  waiting =
      sym (pending_at made.0 key made.1 created.heap created.here created.there) ∙ created.same key

  sound_heap : HeapSound (priority_of pool) cap index created.heap
  sound_heap = created.sound.heaps made.1 created.heap created.there

  size : created.heap.size ≡ length (pending t key)
  size =
      sym (length-held created.heap.size created.heap.heap sound_heap.valid.shape)
      ∙ ap length waiting

  later : Sound (priority_of pool) cap (index + 1) made.0
  later = Sound_mono (priority_of pool) cap index (index + 1) made.0 (omega arith) created.sound

  module _ (r : Heap ℕ × Bool) (new : HeapSound (priority_of pool) cap (index + 1) r.0) where
    abbrev result : Table × Bool
    result = (with_midpoint made.0 made.1 r.0, r.1)

    result-others : (j : Bytes) → bytes_eq key j ≡ false → pending result.0 j ≡ pending t j
    result-others j ne =
        pending-written_ne (priority_of pool) cap (index + 1) made.0 key made.1 created.heap r.0
          later created.here created.there j ne
        ∙ created.same j

    result_self : pending result.0 key ≡ held r.0.heap
    result_self =
        pending-written_self (priority_of pool) cap (index + 1) made.0 key made.1 created.heap r.0
          later created.here created.there

    result-Sound : Sound (priority_of pool) cap (index + 1) result.0
    result-Sound =
        written-Sound (priority_of pool) cap (index + 1) made.0 key made.1 created.heap r.0 later
          created.here created.there new

  next-HeapSound :
      (r : Heap ℕ × Bool)
      → Pushed (priority_of pool) created.heap index r
      → HeapSound (priority_of pool) cap (index + 1) r.0
  next-HeapSound r p = record {
    valid = p.valid;
    capacity = p.kept ∙ sound_heap.capacity;
    below = λ x m.
        Or.elim le_prop (mem-cons.0 ((Perm.mem_iff p.added).0 m)) (λ e. omega arith)
          (λ old. omega (arith, sound_heap.below x old));
  }

  full-HeapSound : HeapSound (priority_of pool) cap (index + 1) created.heap
  full-HeapSound = later.heaps made.1 created.heap created.there

  -- add_to ends, and adds exactly the node if the symbol has fewer than a tenth of the pool.
  pub add_to_correct : Returns (Added cap index pool t key) (add_to t max_nodes pool key index)
  unfolding add_to add_node
  add_to_correct =
      rw (midpoint_at-ok made.0 made.1 created.heap created.there)
        (elim (Bool-cases (ltb created.heap.size cap)) [
          | inl room ↦
              Returns-bind
                (push_correct (priority_of pool) created.heap index sound_heap.valid
                  (ground (arith, sound_heap.capacity)))
                λ r p. returns (record {
                  sound = result-Sound r (next-HeapSound r p);
                  others = result-others r (next-HeapSound r p);
                  outcome = inl (
                    p.accepted,
                    ground (arith, size),
                    rw (result_self r (next-HeapSound r p), ← waiting) p.added,
                  );
                })
          | inr full ↦
              rw
                (push-full (priority_of pool) created.heap index
                  (ground (arith, sound_heap.capacity)))
                (returns (record {
                  sound = result-Sound (created.heap, false) full-HeapSound;
                  others = result-others (created.heap, false) full-HeapSound;
                  outcome = inr (
                    refl,
                    ground (arith, size),
                    result_self (created.heap, false) full-HeapSound ∙ waiting,
                  );
                }))
        ])
