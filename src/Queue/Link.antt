-- ===== src/Queue/Link.antt =====
-- The loop of enqueue: it links the node behind the last one, and helps a tail that lags behind.
use hft_radial_cache.Common.{
  ℕ, suc, ◌≡◌, refl, sym, subst, inl, inr, none, some, List, [], ◌∷◌, ◌++◌, map, arith,
}
use mathlib.Core.List.{map-append, append_assoc}
use hft_radial_cache.Common.Run.{ok, Returns, returns, Returns-bind}
use hft_radial_cache.Queue.{Cell, Queue, update, link_loop, link}
use hft_radial_cache.Queue.Chain.{
  Items, address, Absent, Distinct, Absent-left, Distinct-left, Distinct-middle, Below,
  Below-middle, Chain, Chain_frame, last, Chain-last, Chain_snoc,
}
use hft_radial_cache.Queue.Tail.{last-IsTail, tail_apart, tail_cell}
use hft_radial_cache.Queue.Shape.{addresses, Parts, Parts-tail, Shape, Spare, allocated}

module _ {T : Type 0} where
  -- The node is linked, and the tail stands at the node before it.
  pub record Linked (dummy : ℕ × T) (items : Items T) (value : T) (r : Queue T × ℕ) : Type 0 where
    pub frees : Items T
    pub parts : Parts (r.0) dummy (items ++ (r.1, value) ∷ []) frees
    pub behind : r.0.tail ≡ last (dummy.0) items

  ids_snoc :
      (dummy : ℕ × T) (items frees : Items T) (node : ℕ) (value : T)
      → addresses dummy (items ++ (node, value) ∷ []) frees
        ≡ map address (dummy ∷ items) ++ node ∷ map address frees
  ids_snoc dummy items frees node value = simp (map-append, append_assoc)

  last_apart :
      (dummy : ℕ × T) (items : Items T) (others : List ℕ)
      → Distinct (map address (dummy ∷ items) ++ others)
      → Absent (last (dummy.0) items) others
  last_apart dummy items others d =
      tail_apart (last (dummy.0) items) (dummy.0) items others (last-IsTail (dummy.0) items) d

  link_once :
      (fuel : ℕ) (q : Queue T) (node : ℕ) (cell : Cell T)
      → q.nodes q.tail ≡ some cell
      → cell.next ≡ none
      → link_loop (suc fuel) q node
        ≡ ok (record q { nodes = update q.nodes q.tail (some (record cell { next = some node })) })
  unfolding link_loop
  link_once fuel q node cell e f = ground arith

  link_helped :
      (fuel : ℕ) (q : Queue T) (node next : ℕ) (cell : Cell T)
      → q.nodes q.tail ≡ some cell
      → cell.next ≡ some next
      → link_loop (suc fuel) q node ≡ link_loop fuel (record q { tail = next }) node
  unfolding link_loop
  link_helped fuel q node next cell e f = ground arith

  module _ (dummy : ℕ × T) (items frees : Items T) (node : ℕ) (value : T) where
    abbrev IsLinked : Queue T → Type 0
    IsLinked l = Linked dummy items value (l, node)

    link_last :
        (fuel : ℕ) (q : Queue T)
        → Spare q dummy items frees node value
        → q.tail ≡ last (dummy.0) items
        → Returns IsLinked (link_loop (suc fuel) q node)
    link_last fuel q s e =
        let p = s.shape.parts in
        let (end, there) = Chain-last q.nodes (some q.head) dummy items p.live in
        let live = map address (dummy ∷ items) in
        let others = map address frees in
        let final : Cell T = record { value = end; next = some node } in
        let after = λ (t : ℕ). update q.nodes t (some final) in
        let written =
          Chain_frame q.nodes q.free_list frees (last (dummy.0) items) (some final)
            (last_apart dummy items others p.distinct) p.free in
        let longer =
          Chain_snoc q.nodes (some q.head) dummy items node value
            (Distinct-left live others p.distinct) (Absent-left node live others s.distinct.0)
            s.filled end there p.live in
        rw (link_once fuel q node (record { value = end; next = none }) (rw e there) refl) (
          returns (record {
            frees = frees;
            parts = record {
              live =
                  subst (λ t. Chain (after t) (some q.head) (dummy ∷ items ++ (node, value) ∷ []))
                    (sym e) longer;
              free = subst (λ t. Chain (after t) q.free_list frees) (sym e) written;
              counted = p.counted;
              bounded = p.bounded;
              distinct =
                  subst Distinct (sym (ids_snoc dummy items frees node value))
                    (Distinct-middle node live others s.distinct);
              below =
                  subst (Below q.unused) (sym (ids_snoc dummy items frees node value))
                    (Below-middle q.unused node live others s.below);
            };
            behind = e;
          }))

    joined :
        (q : Queue T) → Spare q dummy items frees node value → Returns IsLinked (link_loop 2 q node)
    joined q s =
        elim (tail_cell q.nodes (some q.head) dummy items q.tail s.shape.parts.live s.shape.tail) [
          | inl e ↦ link_last 1 q s e
          | inr (v, e) ↦
              let end = last (dummy.0) items in
              rw (link_helped 1 q node end (record { value = v; next = some end }) e refl) (
                link_last 0 (record q { tail = end })
                  (record {
                    shape = record {
                      parts = Parts-tail q dummy items frees end s.shape.parts;
                      tail = last-IsTail (dummy.0) items;
                    };
                    filled = s.filled;
                    distinct = s.distinct;
                    below = s.below;
                  })
                  refl)
        ]

  pub linked :
      (q : Queue T) (dummy : ℕ × T) (items frees : Items T) (value : T)
      → Shape q dummy items frees
      → Returns (Linked dummy items value) (link q value)
  unfolding link
  linked q dummy items frees value h =
      Returns-bind (allocated q dummy items frees value h) (λ a found.
        Returns-bind (joined dummy items found.frees (a.1) value (a.0) found.spare)
          (λ l done. returns done))
