-- ===== src/Heap/Order.antt =====
-- The heap order by descending priority, and the shape of the slots.
use mathlib.Core.List.Perm
use hft_radial_cache.Common.{
  ℕ, zero, suc, ◌≤◌, ◌<◌, ◌≡◌, refl, Bool, true, false, Option, none, some, List, Perm, [], ◌∷◌,
  arith, length, get_or, set, swap, length-set, length-swap, get_or-swap, swap-perm, lt→ltb, ◌==◌,
  if◌then◌else◌,
}
use hft_radial_cache.Common.Int.{ℤ, pos, ◌≤ℤ◌, leb_ℤ, ltb_ℤ}
use hft_radial_cache.Common.Run.{Run, ok, ◌>>=◌, Returns, Returns-map}
use hft_radial_cache.Heap.{parent, load, store, settled, higher}

module _ {A : Type 0} where
  abbrev pub at : List (Option A) → ℕ → Option A
  at a i = get_or a i none

  abbrev pub is_some : Option A → Bool
  is_some none = false
  is_some (some x) = true

  -- The first `n` slots hold nodes and the others are null.
  pub record IsFilled (n : ℕ) (a : List (Option A)) : Type 0 where
    pub inside : n ≤ length a
    pub filled : (i : ℕ) → i < n → is_some (at a i) ≡ true
    pub cleared : (i : ℕ) → n ≤ i → at a i ≡ none

  pub load-ok : (a : List (Option A)) (i : ℕ) → i < length a → load a i ≡ ok (at a i)
  unfolding load
  load-ok [] i h = absurd (omega arith)
  load-ok (x ∷ a) zero h = refl
  load-ok (x ∷ a) (suc i) h = load-ok a i (omega arith)

  pub store-ok :
      (a : List (Option A)) (i : ℕ) (x : Option A) → i < length a → store a i x ≡ ok (set a i x)
  unfolding store
  store-ok a i x h = rw (lt→ltb i (length a) h)

  -- The two stores by which a sift exchanges two slots.
  pub exchange-ok :
      {B : Type 0} (a : List (Option A)) (i j : ℕ) (f : List (Option A) → Run B)
      → i < length a
      → j < length a
      → (store a i (at a j) >>= λ b. store b j (at a i) >>= f) ≡ f (swap none a i j)
  unfolding swap
  exchange-ok a i j f hi hj =
      rw (store-ok a i (at a j) hi, store-ok (set a i (at a j)) j (at a i) (rw length-set hj))

module _ {A : Type 0} (priority : A → ℤ) where
  -- The priority in a slot.
  abbrev pub rank : Option A → ℤ
  rank none = pos 0
  rank (some x) = priority x

  abbrev pub key : List (Option A) → ℕ → ℤ
  key a i = rank (at a i)

  -- No node under slot `n` outranks its parent.
  abbrev pub IsHeap : ℕ → List (Option A) → Type 0
  IsHeap n a = (c : ℕ) → 0 < c → c < n → key a c ≤ℤ key a (parent c)

  -- `b` has the slots of `a` in another order, and is a heap.
  pub record Sifted (n : ℕ) (a b : List (Option A)) : Type 0 where
    pub heap : IsHeap n b
    pub shape : IsFilled n b
    pub same : Perm b a

  pub settled_lem :
      (x y : Option A)
      → is_some x ≡ true
      → is_some y ≡ true
      → settled priority x y ≡ leb_ℤ (rank x) (rank y)
  unfolding settled
  settled_lem (some x) (some y) h k = refl
  settled_lem (some x) none h k = cc
  settled_lem none y h k = cc

  pub higher_lem :
      (x y : Option A)
      → is_some x ≡ true
      → is_some y ≡ true
      → higher priority x y ≡ ok (ltb_ℤ (rank y) (rank x))
  unfolding higher
  higher_lem (some x) (some y) h k = refl
  higher_lem (some x) none h k = cc
  higher_lem none y h k = cc

  module _ (n : ℕ) (a : List (Option A)) (i j : ℕ) (shape : IsFilled n a) (hi : i < n)
      (hj : j < n) where
    pub at-swap :
        (c : ℕ)
        → at (swap none a i j) c ≡ (if j == c then at a i else if i == c then at a j else at a c)
    at-swap = get_or-swap none a i j (omega (arith, shape.inside)) (omega (arith, shape.inside))

    pub swap-IsFilled : IsFilled n (swap none a i j)
    swap-IsFilled = record {
      inside = omega (arith, length-swap none a i j, shape.inside);
      filled = λ c h. ground (arith, at-swap c, shape.filled c, shape.filled i, shape.filled j);
      cleared = λ c h. ground (arith, at-swap c, shape.cleared c);
    }

    pub Sifted-swap :
        {r : Run (List (Option A))}
        → Returns (Sifted n (swap none a i j)) r
        → Returns (Sifted n a) r
    Sifted-swap run = Returns-map run λ b s. record {
      heap = s.heap;
      shape = s.shape;
      same =
          Perm.trans s.same
            (swap-perm none a i j (omega (arith, shape.inside)) (omega (arith, shape.inside)));
    }

  root_most_below :
      (k n : ℕ) (a : List (Option A)) (i : ℕ) → IsHeap n a → i < k → i < n → key a i ≤ℤ key a 0
  root_most_below zero n a i h f p = absurd (omega arith)
  root_most_below (suc k) n a i h f p = ground (arith, h i, root_most_below k n a (parent i) h)

  -- The root outranks every node.
  pub root_most : (n : ℕ) (a : List (Option A)) (i : ℕ) → IsHeap n a → i < n → key a i ≤ℤ key a 0
  root_most n a i h p = root_most_below (suc i) n a i h (omega arith) p
