-- ===== src/Heap/Push.antt =====
-- include/lockfree_heap.hpp: the heap's invariant, and push.
use mathlib.Core.List.Perm
use hft_radial_cache.Common.{
  ℕ, zero, suc, ◌+◌, ◌≤◌, ◌<◌, ◌≡◌, refl, Bool, true, false, none, some, ◌∷◌, Perm, arith, leb,
  length, set, length-set, get_or-set, length-perm, length-replicate, replicate,
}
use hft_radial_cache.Common.Int.{ℤ}
use hft_radial_cache.Common.Run.{ok, Returns, returns, Returns-if, Returns-bind}
use hft_radial_cache.Heap.{Heap, new, parent, push}
use hft_radial_cache.Heap.Order.{at, IsFilled, store-ok, IsHeap}
use hft_radial_cache.Heap.Up.{UpInv, sift_up_restores}
use hft_radial_cache.Heap.Held.{held, held-perm, held-set_some}

module _ {A : Type 0} (priority : A → ℤ) where
  -- The vector has `capacity` slots, the first `size` hold nodes, in heap order.
  pub record IsValid (h : Heap A) : Type 0 where
    pub slots : length h.heap ≡ h.capacity
    pub shape : IsFilled h.size h.heap
    pub order : IsHeap priority h.size h.heap

  -- `r` is the heap after a push that adds `node`.
  pub record Pushed (h : Heap A) (node : A) (r : Heap A × Bool) : Type 0 where
    pub valid : IsValid r.0
    pub added : Perm (held r.0.heap) (node ∷ held h.heap)
    pub kept : r.0.capacity ≡ h.capacity
    pub size : r.0.size ≡ h.size + 1
    pub accepted : r.1 ≡ true

  -- push on a full heap changes nothing and returns false.
  pub push-full :
      (h : Heap A) (node : A) → h.capacity ≤ h.size → push priority h node ≡ ok (h, false)
  unfolding push
  push-full h node p = ground arith

  push-UpInv :
      (h : Heap A) (node : A)
      → IsValid h
      → h.size < h.capacity
      → UpInv priority (h.size + 1) (set h.heap h.size (some node)) h.size
  push-UpInv h node v room =
      let here = λ (c : ℕ). get_or-set none h.heap h.size c (some node) (omega (arith, v.slots)) in
      record {
        inside = omega arith;
        shape = record {
          inside = omega (arith, length-set h.heap h.size (some node), v.slots);
          filled = λ i p. ground (arith, here i, v.shape.filled i);
          cleared = λ i p. ground (arith, here i, v.shape.cleared i);
        };
        edges = λ c p q r. ground (arith, here c, here (parent c), v.order c);
        bridged = λ c p q r s. absurd (omega arith);
      }

  -- push on a valid heap with room returns true; the heap is valid again, of the same capacity, and
  -- holds exactly the node more.
  pub push_correct :
      (h : Heap A) (node : A)
      → IsValid h
      → h.size < h.capacity
      → Returns (Pushed h node) (push priority h node)
  unfolding push
  push_correct h node v room =
      let hi : h.size < length h.heap = omega (arith, v.slots) in
      Returns-if (leb h.capacity h.size) (λ e. absurd (ground arith))
        λ _. rw (store-ok h.heap h.size (some node) hi) (
          Returns-bind (sift_up_restores priority (h.size + 1) _ h.size (push-UpInv h node v room))
            λ b s. returns (record {
              valid = record {
                slots =
                    omega
                      (arith, length-perm s.same, length-set h.heap h.size (some node), v.slots);
                shape = s.shape;
                order = s.heap;
              };
              added =
                  Perm.trans (held-perm s.same)
                    (held-set_some h.heap h.size node hi (v.shape.cleared h.size (omega arith)));
              kept = refl;
              size = refl;
              accepted = refl;
            }))

  at-replicate : (n i : ℕ) → at {A = A} (replicate n none) i ≡ none
  at-replicate zero i = refl
  at-replicate (suc n) zero = refl
  at-replicate (suc n) (suc i) = at-replicate n i

  -- The constructor makes an empty heap.
  pub new-IsValid : (n : ℕ) → IsValid (new n)
  unfolding new
  new-IsValid n = record {
    slots = length-replicate n none;
    shape = record {
      inside = omega arith;
      filled = λ i p. absurd (omega arith);
      cleared = λ i p. at-replicate n i;
    };
    order = λ c p q. absurd (omega arith);
  }
