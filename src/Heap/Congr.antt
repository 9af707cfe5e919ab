-- ===== src/Heap/Congr.antt =====
-- include/lockfree_heap.hpp: a heap under two readings of the priorities.
use mathlib.Core.List.{Mem, mem-cons_self, mem-cons_of_mem}
use hft_radial_cache.Common.{ℕ, zero, suc, ◌≡◌, refl, Option, none, some, List, [], ◌∷◌}
use hft_radial_cache.Common.Int.{ℤ}
use hft_radial_cache.Heap.{Heap, parent}
use hft_radial_cache.Heap.Order.{at, rank}
use hft_radial_cache.Heap.Held.{held}
use hft_radial_cache.Heap.Push.{IsValid}

module _ {A : Type 0} where
  mem-held : (a : List (Option A)) (i : ℕ) (x : A) → at a i ≡ some x → Mem x (held a)
  mem-held [] i x e = cc
  mem-held (none ∷ a) zero x e = cc
  mem-held (none ∷ a) (suc i) x e = mem-held a i x e
  mem-held (some y ∷ a) zero x e = let q : y ≡ x = cc in rw q mem-cons_self
  mem-held (some y ∷ a) (suc i) x e = mem-cons_of_mem y (mem-held a i x e)

  module _ (p q : A → ℤ) (h : Heap A) (agree : (x : A) → Mem x (held h.heap) → p x ≡ q x) where
    rank-congr : (o : Option A) (i : ℕ) → at h.heap i ≡ o → rank p o ≡ rank q o
    rank-congr none i e = refl
    rank-congr (some x) i e = agree x (mem-held h.heap i x e)

    -- A valid heap stays valid when the nodes held keep their priorities.
    pub IsValid-congr : IsValid p h → IsValid q h
    IsValid-congr v = record {
      slots = v.slots;
      shape = v.shape;
      order = λ c l r.
          rw
            (← rank-congr (at h.heap c) c refl, ← rank-congr (at h.heap (parent c)) (parent c) refl)
            (v.order c l r);
    }
