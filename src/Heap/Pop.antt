-- ===== src/Heap/Pop.antt =====
-- include/lockfree_heap.hpp: pop.
use mathlib.Core.List.{Mem}
use mathlib.Core.List.Perm
use hft_radial_cache.Common.{
  ℕ, suc, ◌+◌, ◌-◌, ◌<◌, ◌≡◌, refl, true, Option, none, some, List, ◌∷◌, Perm, arith, ltb, ◌==◌,
  length, set, length-set, get_or-set, length-perm, if◌then◌else◌,
}
use hft_radial_cache.Common.Int.{ℤ, ◌≤ℤ◌}
use hft_radial_cache.Common.Run.{ok, Returns, returns, Returns-if, Returns-bind, Returns-map}
use hft_radial_cache.Heap.{Heap, parent, settle, pop}
use hft_radial_cache.Heap.Order.{at, is_some, IsFilled, load-ok, store-ok, IsHeap, root_most}
use hft_radial_cache.Heap.Down.{DownInv, sift_down_restores}
use hft_radial_cache.Heap.Held.{held, held-perm, held-set_none, held-set_replace, le_of_mem-held}
use hft_radial_cache.Heap.Push.{IsValid}

module _ {A : Type 0} (priority : A → ℤ) where
  -- `r` is a node of the highest priority in the heap, and the heap without it.
  pub record Popped (h : Heap A) (r : Heap A × Option A) : Type 0 where
    pub top : A
    pub returned : r.1 ≡ some top
    pub valid : IsValid priority r.0
    pub removed : Perm (top ∷ held r.0.heap) (held h.heap)
    pub kept : r.0.capacity ≡ h.capacity
    pub size : r.0.size + 1 ≡ h.size
    pub highest : (x : A) → Mem x (held h.heap) → priority x ≤ℤ priority top

  -- pop on an empty heap changes nothing and returns null.
  pub pop-empty : (h : Heap A) → h.size ≡ 0 → pop priority h ≡ ok (h, none)
  unfolding pop
  pop-empty h e = ground arith

  module _ (h : Heap A) (v : IsValid priority h) (n : ℕ) (size : h.size ≡ suc n) where
    -- The slots after the last one is cleared.
    abbrev cut : List (Option A)
    cut = set h.heap n none

    inside : n < length h.heap
    inside = omega (arith, v.shape.inside)

    at-cut : (c : ℕ) → at cut c ≡ (if n == c then none else at h.heap c)
    at-cut c = get_or-set none h.heap n c none inside

    cut-IsFilled : IsFilled n cut
    cut-IsFilled = record {
      inside = omega (arith, length-set h.heap n none, inside);
      filled = λ i p. ground (arith, at-cut i, v.shape.filled i);
      cleared = λ i p. ground (arith, at-cut i, v.shape.cleared i);
    }

    cut-IsHeap : IsHeap priority n cut
    cut-IsHeap c p q = ground (arith, at-cut c, at-cut (parent c), v.order c)

    module _ (l : A) (last : at h.heap n ≡ some l) (pos : 0 < n) where
      -- The slots after the last node takes the root's place.
      abbrev moved : List (Option A)
      moved = set cut 0 (some l)

      at-moved : (c : ℕ) → at moved c ≡ (if 0 == c then some l else at cut c)
      at-moved c = get_or-set none cut 0 c (some l) (omega (arith, cut-IsFilled.inside))

      moved-DownInv : DownInv priority n moved 0
      moved-DownInv = record {
        shape = record {
          inside = omega (arith, length-set cut 0 (some l), cut-IsFilled.inside);
          filled = λ i p. ground (arith, at-moved i, cut-IsFilled.filled i);
          cleared = λ i p. ground (arith, at-moved i, cut-IsFilled.cleared i);
        };
        edges = λ c p q r. ground (arith, at-moved c, at-moved (parent c), cut-IsHeap c);
        bridged = λ c p q r s. absurd (omega arith);
      }

      moved-perm : (t : A) → at h.heap 0 ≡ some t → Perm (t ∷ held moved) (held h.heap)
      moved-perm t e =
          Perm.trans
            (held-set_replace cut 0 l t (omega (arith, cut-IsFilled.inside))
              (ground (arith, at-cut 0)))
            (held-set_none h.heap n l inside last)

    -- `b` is a heap of the nodes of `h` but `t`.
    record Settled (t : A) (b : List (Option A)) : Type 0 where
      order : IsHeap priority n b
      shape : IsFilled n b
      same : Perm (t ∷ held b) (held h.heap)
      slots : length b ≡ h.capacity

    settle_correct :
        (t l : A)
        → at h.heap 0 ≡ some t
        → at h.heap n ≡ some l
        → Returns (Settled t) (settle priority cut n (some l))
    unfolding settle
    settle_correct t l e last =
        Returns-if (ltb 0 n)
          (λ some_left.
            let pos : 0 < n = ground arith in
            rw (store-ok cut 0 (some l) (omega (arith, cut-IsFilled.inside))) (
              Returns-map (sift_down_restores priority n _ 0 pos (moved-DownInv l last pos)) λ b s.
                record {
                  order = s.heap;
                  shape = s.shape;
                  same = Perm.trans (Perm.cons t (held-perm s.same)) (moved-perm l last pos t e);
                  slots = omega (
                    arith,
                    length-perm s.same,
                    length-set cut 0 (some l),
                    length-set h.heap n none,
                    v.slots,
                  );
                }))
          (λ none_left.
            let root : n ≡ 0 = ground arith in
            returns (record {
              order = cut-IsHeap;
              shape = cut-IsFilled;
              same = held-set_none h.heap n t inside (rw root e);
              slots = omega (arith, length-set h.heap n none, v.slots);
            }))

  some_of : (o : Option A) → is_some o ≡ true → (x : A) × (o ≡ some x)
  some_of none e = cc
  some_of (some x) e = (x, refl)

  root_highest :
      (h : Heap A) (t : A)
      → IsValid priority h
      → at h.heap 0 ≡ some t
      → (x : A) → Mem x (held h.heap)
      → priority x ≤ℤ priority t
  root_highest h t v e =
      le_of_mem-held priority h.heap (priority t)
        λ i x p q. ground (arith, root_most priority h.size h.heap i v.order, v.shape.cleared i)

  -- pop on a valid heap with nodes returns one of them; no node of the heap has a higher priority,
  -- and the heap is valid again, of the same capacity, and holds exactly that node less.
  pub pop_correct :
      (h : Heap A) → IsValid priority h → 0 < h.size → Returns (Popped h) (pop priority h)
  unfolding pop
  pop_correct h v pos =
      let n = h.size - 1 in
      let size : h.size ≡ suc n = omega arith in
      let (t, e) = some_of (at h.heap 0) (v.shape.filled 0 pos) in
      let (l, last) = some_of (at h.heap n) (v.shape.filled n (omega arith)) in
      Returns-if (h.size == 0) (λ e. absurd (ground arith))
        λ _.
          rw
            (
              load-ok h.heap 0 (omega (arith, v.shape.inside)),
              e,
              load-ok h.heap n (omega (arith, v.shape.inside)),
              last,
              store-ok h.heap n none (omega (arith, v.shape.inside)),
            )
            (Returns-bind (settle_correct h v n size t l e last) λ b s. returns (record {
              top = t;
              returned = refl;
              valid = record { slots = s.slots; shape = s.shape; order = s.order };
              removed = s.same;
              kept = refl;
              size = omega arith;
              highest = root_highest h t v e;
            }))
