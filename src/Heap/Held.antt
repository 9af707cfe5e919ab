-- ===== src/Heap/Held.antt =====
-- The nodes that a heap holds, as a list in which the order does not matter.
use mathlib.Core.List.{Mem, filter_map, not-mem-nil, forall_mem-cons}
use mathlib.Core.List.Perm
use native.Mathlib.Bridge.{le_prop}
use hft_radial_cache.Common.{
  ℕ, zero, suc, ◌<◌, ◌≡◌, refl, ap, Option, none, some, List, [], ◌∷◌, Perm, arith, length, set,
  set-perm, replicate,
}
use hft_radial_cache.Common.Int.{ℤ, ◌≤ℤ◌}
use hft_radial_cache.Heap.Order.{at, IsFilled}

module _ {A : Type 0} where
  abbrev pub held : List (Option A) → List A
  held [] = []
  held (none ∷ a) = held a
  held (some x ∷ a) = x ∷ held a

  filter_map-held : (a : List (Option A)) → filter_map (λ x. x) a ≡ held a
  unfolding filter_map
  filter_map-held [] = refl
  filter_map-held (none ∷ a) = filter_map-held a
  filter_map-held (some x ∷ a) = ap (◌∷◌ x) (filter_map-held a)

  pub held-perm : {a b : List (Option A)} → Perm a b → Perm (held a) (held b)
  held-perm {a} {b} p =
      rw (filter_map-held a, filter_map-held b) at (Perm.filter_map (λ (x : Option A). x) p)

  -- A store into a null slot adds the node, and a null into a slot takes its node out.
  pub held-set_some :
      (a : List (Option A)) (i : ℕ) (x : A)
      → i < length a
      → at a i ≡ none
      → Perm (held (set a i (some x))) (x ∷ held a)
  held-set_some a i x h e = held-perm (rw e at (set-perm none a i (some x) h))

  pub held-set_none :
      (a : List (Option A)) (i : ℕ) (x : A)
      → i < length a
      → at a i ≡ some x
      → Perm (x ∷ held (set a i none)) (held a)
  held-set_none a i x h e = held-perm (rw e at (set-perm none a i none h))

  pub held-set_replace :
      (a : List (Option A)) (i : ℕ) (x y : A)
      → i < length a
      → at a i ≡ some y
      → Perm (y ∷ held (set a i (some x))) (x ∷ held a)
  held-set_replace a i x y h e = held-perm (rw e at (set-perm none a i (some x) h))

  pub held-replicate : (n : ℕ) → held (replicate n none) ≡ []
  held-replicate zero = refl
  held-replicate (suc n) = held-replicate n

  held-none : (a : List (Option A)) → ((i : ℕ) → at a i ≡ none) → held a ≡ []
  held-none [] h = refl
  held-none (none ∷ a) h = held-none a (λ i. h (suc i))
  held-none (some x ∷ a) h = absurd (cc (h zero))

  -- A filled heap of size `n` holds `n` nodes.
  pub length-held : (n : ℕ) (a : List (Option A)) → IsFilled n a → length (held a) ≡ n
  length-held zero a s = rw (held-none a (λ i. s.cleared i (omega arith)))
  length-held (suc n) [] s = absurd (omega (arith, s.inside))
  length-held (suc n) (none ∷ a) s = absurd (cc (s.filled 0 (omega arith)))
  length-held (suc n) (some x ∷ a) s = ap suc (
      length-held n a (record {
        inside = omega (arith, s.inside);
        filled = λ i h. s.filled (suc i) (omega arith);
        cleared = λ i h. s.cleared (suc i) (omega arith);
      }))

module _ {A : Type 0} (priority : A → ℤ) where
  pub le_of_mem-held :
      (a : List (Option A)) (b : ℤ)
      → ((i : ℕ) (x : A) → i < length a → at a i ≡ some x → priority x ≤ℤ b)
      → (x : A) → Mem x (held a)
      → priority x ≤ℤ b
  le_of_mem-held [] b h = λ x m. absurd (not-mem-nil m)
  le_of_mem-held (none ∷ a) b h = le_of_mem-held a b λ i x p. h (suc i) x (omega arith)
  le_of_mem-held (some y ∷ a) b h =
      (forall_mem-cons λ x. le_prop).1
        (h 0 y (omega arith) refl, le_of_mem-held a b λ i x p. h (suc i) x (omega arith))
