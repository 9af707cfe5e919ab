-- ===== src/Queue/Destroy.antt =====
-- empty, and the destructor, which deletes the nodes of the two chains.
use hft_radial_cache.Common.{
  ℕ, zero, suc, ◌+◌, ◌<◌, ◌≡◌, refl, ap, ◌∙◌, Bool, true, false, Option, none, some, List, [], ◌∷◌,
  ◌++◌, map, ◌==◌, if◌then◌else◌, length, arith,
}
use hft_radial_cache.Common.Run.{ok, Returns, returns}
use hft_radial_cache.Queue.{Store, Queue, update, empty, delete_chain, destroy}
use hft_radial_cache.Queue.Chain.{
  Items, address, Distinct, Absent-right, Distinct-left, Distinct-right, Chain, Chain_frame,
}
use hft_radial_cache.Queue.Shape.{addresses, Shape}
use hft_radial_cache.Queue.Fifo.{Holds}
use hft_radial_cache.Queue.Count.{load_filled, room}

abbrev pub listed : ℕ → List ℕ → Bool
listed at [] = false
listed at (first ∷ others) = if at == first then true else listed at others

listed-append :
    (at : ℕ) (left right : List ℕ)
    → listed at (left ++ right) ≡ (if listed at left then true else listed at right)
listed-append at [] right = refl
listed-append at (first ∷ left) right = ground (arith, listed-append at left right)

module _ {T : Type 0} where
  abbrev pub is_empty : List T → Bool
  is_empty [] = true
  is_empty (value ∷ values) = false

  nothing_held :
      (dummy : ℕ × T) (items frees : Items T) (q : Queue T)
      → Shape q dummy items frees
      → empty q ≡ ok (is_empty (map (λ i. i.1) items))
  unfolding empty
  nothing_held dummy [] frees q h =
      let (next, start, here, rest) = h.parts.live in
      let at : q.head ≡ dummy.0 = cc in
      rw (load_filled q.nodes q.head (record { value = dummy.1; next = next }) (rw at here))
        (rw rest (ground (arith, h.tail)))
  nothing_held dummy (item ∷ items) frees q h =
      let (next, start, here, rest) = h.parts.live in
      let at : q.head ≡ dummy.0 = cc in
      rw (load_filled q.nodes q.head (record { value = dummy.1; next = next }) (rw at here))
        (rw (rest.1) (ground arith))

  -- On a queue that holds some values, empty returns whether there are none.
  pub empty_correct :
      (q : Queue T) (values : List T) → Holds values q → empty q ≡ ok (is_empty values)
  empty_correct q values h =
      nothing_held h.dummy h.items h.frees q h.shape ∙ ap (λ vs. ok (is_empty vs)) h.held

  -- The store without the nodes at these addresses.
  erase : Store T → List ℕ → Store T
  erase s [] = s
  erase s (first ∷ others) = erase (update s first none) others

  erased :
      (s : Store T) (ids : List ℕ) (at : ℕ)
      → erase s ids at ≡ (if listed at ids then none else s at)
  unfolding erase
  erased s [] at = refl
  erased s (first ∷ others) at = ground (arith, erased (update s first none) others at)

  erase_frame :
      (s : Store T) (at : Option ℕ) (items : Items T) (ids : List ℕ)
      → Distinct (ids ++ map address items)
      → Chain s at items
      → Chain (erase s ids) at items
  unfolding erase
  erase_frame s at items [] d c = c
  erase_frame s at items (first ∷ others) d c =
      erase_frame (update s first none) at items others d.1
        (Chain_frame s at items first none (Absent-right first others (map address items) d.0) c)

  deleted_all :
      (fuel : ℕ) (s : Store T) (at : Option ℕ) (items : Items T)
      → Chain s at items
      → Distinct (map address items)
      → length items < fuel
      → delete_chain fuel s at ≡ ok (erase s (map address items))
  unfolding delete_chain erase
  deleted_all zero s at items c d f = absurd (omega arith)
  deleted_all (suc fuel) s at [] c d f = rw (c, delete_chain)
  deleted_all (suc fuel) s at (item ∷ items) (next, start, here, rest) d f =
      rw (start, delete_chain)
        (rw (load_filled s (item.0) _ here) (
          deleted_all fuel (update s (item.0) none) next items
            (Chain_frame s next items (item.0) none d.0 rest) d.1 (omega arith)))

  -- On a queue that holds some values the destructor returns: no node is deleted twice or read
  -- after it is deleted. It deletes exactly the nodes of the chain from the head and those of the
  -- free list.
  pub destroy_correct :
      (q : Queue T) (values : List T) (h : Holds values q)
      → Returns
          (λ s.
            (at : ℕ)
            → s at ≡ (if listed at (addresses h.dummy h.items h.frees) then none else q.nodes at))
          (destroy q)
  unfolding destroy
  destroy_correct q values h =
      let p = h.shape.parts in
      let live = map address (h.dummy ∷ h.items) in
      let others = map address h.frees in
      let bound = room q h.dummy h.items h.frees p in
      rw
        (deleted_all (q.unused + 1) q.nodes (some q.head) (h.dummy ∷ h.items) p.live
          (Distinct-left live others p.distinct) (omega arith))
        (rw
          (deleted_all (q.unused + 1) (erase q.nodes live) q.free_list h.frees
            (erase_frame q.nodes q.free_list h.frees live p.distinct p.free)
            (Distinct-right live others p.distinct) (omega arith))
          (returns (λ at. ground (
            arith,
            erased (erase q.nodes live) others at,
            erased q.nodes live at,
            listed-append at live others,
          ))))
