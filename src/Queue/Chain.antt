-- ===== src/Queue/Chain.antt =====
-- Chains of linked nodes in the store, and what a write does to them.
use hft_radial_cache.Common.{
  ℕ, ◌+◌, ◌<◌, ◌≡◌, ◌≢◌, refl, sym, Option, none, some, List, [], ◌∷◌, ◌++◌, map, arith,
}
use hft_radial_cache.Queue.{Cell, Store, update}

-- The address and the value of each node of a chain.
abbrev pub Items : Type 0 → Type 0
Items T = List (ℕ × T)

abbrev pub address : {T : Type 0} → ℕ × T → ℕ
address item = item.0

abbrev pub Absent : ℕ → List ℕ → Type 0
Absent at [] = Unit
Absent at (first ∷ others) = (at ≢ first) × Absent at others

abbrev pub Distinct : List ℕ → Type 0
Distinct [] = Unit
Distinct (first ∷ others) = Absent first others × Distinct others

pub Absent-left : (at : ℕ) (left right : List ℕ) → Absent at (left ++ right) → Absent at left
Absent-left at [] right a = tt
Absent-left at (first ∷ left) right a = (a.0, Absent-left at left right a.1)

pub Absent-right : (at : ℕ) (left right : List ℕ) → Absent at (left ++ right) → Absent at right
Absent-right at [] right a = a
Absent-right at (first ∷ left) right a = Absent-right at left right a.1

pub Distinct-left : (left right : List ℕ) → Distinct (left ++ right) → Distinct left
Distinct-left [] right d = tt
Distinct-left (first ∷ left) right d =
    (Absent-left first left right d.0, Distinct-left left right d.1)

pub Distinct-right : (left right : List ℕ) → Distinct (left ++ right) → Distinct right
Distinct-right [] right d = d
Distinct-right (first ∷ left) right d = Distinct-right left right d.1

-- The first address of a list may stand behind a part of it, and come back.
Absent-middle :
    (at moved : ℕ) (left right : List ℕ)
    → Absent at (moved ∷ left ++ right)
    → Absent at (left ++ moved ∷ right)
Absent-middle at moved [] right a = a
Absent-middle at moved (first ∷ left) right a =
    (a.1.0, Absent-middle at moved left right (a.0, a.1.1))

Absent-front :
    (at moved : ℕ) (left right : List ℕ)
    → Absent at (left ++ moved ∷ right)
    → Absent at (moved ∷ left ++ right)
Absent-front at moved [] right a = a
Absent-front at moved (first ∷ left) right a =
    let later = Absent-front at moved left right a.1 in (later.0, (a.0, later.1))

pub Distinct-middle :
    (moved : ℕ) (left right : List ℕ)
    → Distinct (moved ∷ left ++ right)
    → Distinct (left ++ moved ∷ right)
Distinct-middle moved [] right d = d
Distinct-middle moved (first ∷ left) right d = (
  Absent-middle first moved left right (λ e. d.0.0 (sym e), d.1.0),
  Distinct-middle moved left right (d.0.1, d.1.1),
)

pub Distinct-front :
    (moved : ℕ) (left right : List ℕ)
    → Distinct (left ++ moved ∷ right)
    → Distinct (moved ∷ left ++ right)
Distinct-front moved [] right d = d
Distinct-front moved (first ∷ left) right d =
    let later = Distinct-front moved left right d.1 in
    let apart = Absent-front first moved left right d.0 in
    ((λ e. apart.0 (sym e), later.0), (apart.1, later.1))

abbrev pub Below : ℕ → List ℕ → Type 0
Below bound [] = Unit
Below bound (first ∷ others) = (first < bound) × Below bound others

pub Below-middle :
    (bound moved : ℕ) (left right : List ℕ)
    → Below bound (moved ∷ left ++ right)
    → Below bound (left ++ moved ∷ right)
Below-middle bound moved [] right b = b
Below-middle bound moved (first ∷ left) right b =
    (b.1.0, Below-middle bound moved left right (b.0, b.1.1))

pub Below-front :
    (bound moved : ℕ) (left right : List ℕ)
    → Below bound (left ++ moved ∷ right)
    → Below bound (moved ∷ left ++ right)
Below-front bound moved [] right b = b
Below-front bound moved (first ∷ left) right b =
    let later = Below-front bound moved left right b.1 in (later.0, (b.0, later.1))

pub Below-next : (bound : ℕ) (ids : List ℕ) → Below bound ids → Below (bound + 1) ids
Below-next bound [] b = tt
Below-next bound (first ∷ others) b = (omega (arith, b.0), Below-next bound others b.1)

pub Below-Absent : (bound : ℕ) (ids : List ℕ) → Below bound ids → Absent bound ids
Below-Absent bound [] b = tt
Below-Absent bound (first ∷ others) b = (λ e. omega (arith, b.0), Below-Absent bound others b.1)

module _ {T : Type 0} where
  -- From the pointer `at` the nodes `items` are linked, and the last one's `next` is null.
  abbrev pub Chain : Store T → Option ℕ → Items T → Type 0
  Chain s at [] = at ≡ none
  Chain s at (item ∷ items) =
      (next : Option ℕ) × (at ≡ some (item.0))
      × (s (item.0) ≡ some (record { value = item.1; next = next }))
      × Chain s next items

  pub Chain_frame :
      (s : Store T) (at : Option ℕ) (items : Items T) (written : ℕ) (cell : Option (Cell T))
      → Absent written (map address items)
      → Chain s at items
      → Chain (update s written cell) at items
  Chain_frame s at [] written cell a c = c
  Chain_frame s at (item ∷ items) written cell a (next, start, here, rest) =
      (next, start, ground (arith, a.0), Chain_frame s next items written cell a.1 rest)

  -- The address of the last node.
  abbrev pub last : ℕ → Items T → ℕ
  last first [] = first
  last first (item ∷ items) = last (item.0) items

  -- The last node of a chain, and a node linked behind it.
  pub Chain-last :
      (s : Store T) (at : Option ℕ) (item : ℕ × T) (items : Items T)
      → Chain s at (item ∷ items)
      → (value : T) × (s (last (item.0) items) ≡ some (record { value = value; next = none }))
  Chain-last s at item [] (next, start, here, rest) = (item.1, cc)
  Chain-last s at item (second ∷ items) (next, start, here, rest) =
      Chain-last s next second items rest

  pub last_differs :
      (at first : ℕ) (items : Items T)
      → Absent at (first ∷ map address items)
      → at ≢ last first items
  last_differs at first [] a = a.0
  last_differs at first (item ∷ items) a = last_differs at (item.0) items a.1

  pub Chain_snoc :
      (s : Store T) (at : Option ℕ) (item : ℕ × T) (items : Items T) (added : ℕ) (value : T)
      → Distinct (map address (item ∷ items))
      → Absent added (map address (item ∷ items))
      → s added ≡ some (record { value = value; next = none })
      → (end : T) → s (last (item.0) items) ≡ some (record { value = end; next = none })
      → Chain s at (item ∷ items)
      → Chain
          (update s (last (item.0) items) (some (record { value = end; next = some added })))
          at
          (item ∷ items ++ (added, value) ∷ [])
  Chain_snoc s at item [] added value d a e end l (next, start, here, rest) =
      (some added, start, ground arith, (none, refl, ground (arith, a.0), refl))
  Chain_snoc s at item (second ∷ items) added value d a e end l (next, start, here, rest) = (
    next,
    start,
    ground (arith, last_differs (item.0) (second.0) items d.0),
    Chain_snoc s next second items added value d.1 a.1 e end l rest,
  )
