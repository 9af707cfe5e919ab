-- ===== src/Queue/Tail.antt =====
-- Where the tail pointer stands: at the last node of the chain, or one node before it.
use hft_radial_cache.Common.{
  ℕ, ◌≡◌, ◌≢◌, refl, ap, ◌∙◌, ◌⊎◌, inl, inr, Option, some, List, [], ◌∷◌, ◌++◌, map,
}
use hft_radial_cache.Queue.{Store}
use hft_radial_cache.Queue.Chain.{Items, address, Absent, Distinct, Absent-right, Chain, last}

module _ {T : Type 0} where
  abbrev pub IsTail : ℕ → ℕ → Items T → Type 0
  IsTail tail first [] = tail ≡ first
  IsTail tail first (item ∷ items) = IsTail tail (item.0) items ⊎ ((tail ≡ first) × (items ≡ []))

  pub last-IsTail : (first : ℕ) (items : Items T) → IsTail (last first items) first items
  last-IsTail first [] = refl
  last-IsTail first (item ∷ items) = inl (last-IsTail (item.0) items)

  pub last_snoc :
      (first : ℕ) (items : Items T) (item : ℕ × T) → last first (items ++ item ∷ []) ≡ item.0
  last_snoc first [] item = refl
  last_snoc first (second ∷ items) item = last_snoc (second.0) items item

  -- The former last node is one before the end.
  pub snoc-IsTail :
      (first : ℕ) (items : Items T) (item : ℕ × T)
      → IsTail (last first items) first (items ++ item ∷ [])
  snoc-IsTail first [] item = inr (refl, refl)
  snoc-IsTail first (second ∷ items) item = inl (snoc-IsTail (second.0) items item)

  pub tail_differs :
      (at tail first : ℕ) (items : Items T)
      → IsTail tail first items
      → Absent at (first ∷ map address items)
      → at ≢ tail
  tail_differs at tail first [] t a = λ e. a.0 (e ∙ t)
  tail_differs at tail first (item ∷ items) (inl t) a = tail_differs at tail (item.0) items t a.1
  tail_differs at tail first (item ∷ items) (inr t) a = λ e. a.0 (e ∙ t.0)

  pub tail_apart :
      (tail first : ℕ) (items : Items T) (others : List ℕ)
      → IsTail tail first items
      → Distinct (first ∷ map address items ++ others)
      → Absent tail others
  tail_apart tail first [] others t d = rw t d.0
  tail_apart tail first (item ∷ items) others (inl t) d =
      tail_apart tail (item.0) items others t d.1
  tail_apart tail first (item ∷ items) others (inr t) d =
      rw t.0 (Absent-right first (item.0 ∷ map address items) others d.0)

  -- What stands at the tail.
  pub tail_cell :
      (s : Store T) (at : Option ℕ) (item : ℕ × T) (items : Items T) (tail : ℕ)
      → Chain s at (item ∷ items)
      → IsTail tail (item.0) items
      → (tail ≡ last (item.0) items)
        ⊎ ((value : T) × (s tail
              ≡ some (record { value = value; next = some (last (item.0) items) })))
  tail_cell s at item [] tail c t = inl t
  tail_cell s at item (second ∷ items) tail (next, start, here, rest) (inl t) =
      tail_cell s next second items tail rest t
  tail_cell s at item (second ∷ items) tail (next, start, here, (after, begin, there, rest))
        (inr t) =
      inr
        (item.1, rw (t.0, t.1) (here ∙ ap (λ n. some (record { value = item.1; next = n })) begin))
