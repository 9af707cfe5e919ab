-- ===== src/MultiLevel/Search.antt =====
-- The search of the first level: the first node in the queue that passes the test is taken out, and
-- the nodes before it go to the back, so that the order is not always that of the insertions.
use mathlib.Core.List.{append_assoc, append-nil}
use hft_radial_cache.Common.{
  ◌≡◌, refl, sym, subst, Bool, true, false, Bool-cases, inl, inr, Option, none, some, List, [], ◌∷◌,
  ◌++◌,
}
use hft_radial_cache.Disk.{DiskNode}
use hft_radial_cache.MultiLevel.{search}

module _ (test : DiskNode → Bool) where
  abbrev pub NoneOf : List DiskNode → Type 0
  NoneOf [] = Unit
  NoneOf (node ∷ nodes) = (test node ≡ false) × NoneOf nodes

  -- What is left of the queue, and what was found.
  pub data Searched (queue : List DiskNode) : List DiskNode → Option DiskNode → Type 0 where
    missing : NoneOf queue → Searched queue queue none
    found_at :
        (before : List DiskNode) (node : DiskNode) (after : List DiskNode)
        → queue ≡ before ++ node ∷ after
        → NoneOf before
        → test node ≡ true
        → Searched queue (after ++ before) (some node)

  NoneOf-snoc :
      (nodes : List DiskNode) (node : DiskNode)
      → NoneOf nodes
      → test node ≡ false
      → NoneOf (nodes ++ node ∷ [])
  NoneOf-snoc [] node n e = (e, tt)
  NoneOf-snoc (first ∷ nodes) node n e = (n.0, NoneOf-snoc nodes node n.1 e)

  scanned :
      (temp_nodes queue : List DiskNode)
      → NoneOf temp_nodes
      → Searched
          (temp_nodes ++ queue)
          ((search test temp_nodes queue).0)
          ((search test temp_nodes queue).1)
  unfolding search
  scanned temp_nodes [] n =
      subst (λ q. Searched q temp_nodes none) (sym (append-nil temp_nodes)) (missing n)
  scanned temp_nodes (result ∷ queue) n = elim (Bool-cases (test result)) [
    | inl yes_it ↦ rw yes_it (found_at temp_nodes result queue refl n yes_it)
    | inr no_it ↦ rw no_it (
        subst
          (λ q.
            Searched q ((search test (temp_nodes ++ result ∷ []) queue).0)
              ((search test (temp_nodes ++ result ∷ []) queue).1))
          (append_assoc temp_nodes (result ∷ []) queue)
          (scanned (temp_nodes ++ result ∷ []) queue (NoneOf-snoc temp_nodes result n no_it)))
  ]

  pub search-Searched :
      (queue : List DiskNode) → Searched queue ((search test [] queue).0) ((search test [] queue).1)
  search-Searched queue = scanned [] queue tt
