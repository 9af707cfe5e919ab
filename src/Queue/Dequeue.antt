-- ===== src/Queue/Dequeue.antt =====
-- dequeue takes the oldest value, and helps a tail that lags behind; size, and the destructor.
use hft_radial_cache.Common.{
  ℕ, suc, ◌≡◌, refl, sym, subst, inl, inr, true, false, Option, none, some, List, [], ◌∷◌, map,
  ◌==◌, arith,
}
use hft_radial_cache.Common.Run.{ok, ◌>>=◌, Returns, returns, Returns-bind}
use hft_radial_cache.Queue.{Cell, Queue, deallocate_node, dequeue_loop, dequeue}
use hft_radial_cache.Queue.Chain.{Items, address, Absent-left}
use hft_radial_cache.Queue.Tail.{IsTail, tail_differs}
use hft_radial_cache.Queue.Shape.{Parts, Parts-tail, Shape}
use hft_radial_cache.Queue.Free.{Freed, freed}
use hft_radial_cache.Queue.Fifo.{Holds}

module _ {T : Type 0} where
  -- What a queue gives, and what is left.
  abbrev pub oldest : List T → Option T
  oldest [] = none
  oldest (value ∷ values) = some value

  abbrev pub later : List T → List T
  later [] = []
  later (value ∷ values) = values

  pub record Took (values : List T) (r : Queue T × Option T) : Type 0 where
    pub given : r.1 ≡ oldest values
    pub left : Holds (later values) (r.0)

  found_empty :
      (fuel : ℕ) (q : Queue T) (cell : Cell T)
      → q.nodes q.head ≡ some cell
      → cell.next ≡ none
      → (q.head == q.tail) ≡ true
      → dequeue_loop (suc fuel) q ≡ ok (q, none)
  unfolding dequeue_loop
  found_empty fuel q cell e n t = ground arith

  helped :
      (fuel : ℕ) (q : Queue T) (cell : Cell T) (next : ℕ)
      → q.nodes q.head ≡ some cell
      → cell.next ≡ some next
      → (q.head == q.tail) ≡ true
      → dequeue_loop (suc fuel) q ≡ dequeue_loop fuel (record q { tail = next })
  unfolding dequeue_loop
  helped fuel q cell next e n t = ground arith

  passed :
      (fuel : ℕ) (q : Queue T) (cell first : Cell T) (next : ℕ)
      → q.nodes q.head ≡ some cell
      → cell.next ≡ some next
      → (q.head == q.tail) ≡ false
      → q.nodes next ≡ some first
      → dequeue_loop (suc fuel) q
        ≡ (deallocate_node (record q { head = next }) q.head >>= λ d. ok (d, some first.value))
  unfolding dequeue_loop
  passed fuel q cell first next e n t f = ground arith

  module _ (dummy item : ℕ × T) (items frees : Items T) where
    front_given :
        (fuel : ℕ) (q : Queue T)
        → Parts q dummy (item ∷ items) frees
        → IsTail q.tail (item.0) items
        → Returns (Took (item.1 ∷ map (λ i. i.1) items)) (dequeue_loop (suc fuel) q)
    front_given fuel q p t =
        let (next, start, here, (after, begin, there, rest)) = p.live in
        let at : q.head ≡ dummy.0 = cc in
        let elsewhere : (q.head == q.tail) ≡ false = ground (
          arith,
          tail_differs (dummy.0) q.tail (item.0) items t
              (Absent-left (dummy.0) (map address (item ∷ items)) (map address frees) p.distinct.0),
        ) in
        rw
          (passed fuel q (record { value = dummy.1; next = next })
            (record { value = item.1; next = after }) (item.0) (rw at here) begin elsewhere there)
          (Returns-bind
            (subst
              (λ n.
                Returns (Freed item items q.tail) (deallocate_node (record q { head = item.0 }) n))
              (sym at) (freed q dummy item items frees p))
            (λ d f. returns (record {
              given = refl;
              left = record {
                dummy = item;
                items = items;
                frees = f.frees;
                shape = record {
                  parts = f.parts;
                  tail = subst (λ t. IsTail t (item.0) items) (sym f.unmoved) t;
                };
                held = refl;
              };
            })))

  took :
      (dummy : ℕ × T) (items frees : Items T) (q : Queue T)
      → Shape q dummy items frees
      → Returns (Took (map (λ i. i.1) items)) (dequeue q)
  unfolding dequeue
  took dummy [] frees q h =
      let (next, start, here, rest) = h.parts.live in
      let at : q.head ≡ dummy.0 = cc in
      let same : (q.head == q.tail) ≡ true = ground (arith, h.tail) in
      rw (found_empty 1 q (record { value = dummy.1; next = next }) (rw at here) rest same) (
        returns (record {
          given = refl;
          left = record { dummy = dummy; items = []; frees = frees; shape = h; held = refl };
        }))
  took dummy (item ∷ items) frees q h = elim h.tail [
    | inl t ↦ front_given dummy item items frees 1 q h.parts t
    | inr (t, alone) ↦
        let (next, start, here, (after, begin, there, rest)) = h.parts.live in
        let at : q.head ≡ dummy.0 = cc in
        let same : (q.head == q.tail) ≡ true = ground arith in
        rw (helped 1 q (record { value = dummy.1; next = next }) (item.0) (rw at here) begin same) (
          front_given dummy item items frees 0 (record q { tail = item.0 })
            (Parts-tail q dummy (item ∷ items) frees (item.0) h.parts)
            (subst (IsTail (item.0) (item.0)) (sym alone) refl))
  ]

  pub dequeue-Holds :
      (q : Queue T) (values : List T) → Holds values q → Returns (Took values) (dequeue q)
  dequeue-Holds q values h =
      subst (λ vs. Returns (Took vs) (dequeue q)) h.held (took h.dummy h.items h.frees q h.shape)
