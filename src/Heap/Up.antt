-- ===== src/Heap/Up.antt =====
-- include/lockfree_heap.hpp: sift_up, and the invariant of its loop.
use mathlib.Core.Logic.{◌≢◌}
use mathlib.Core.List.Perm
use hft_radial_cache.Common.{
  ℕ, zero, suc, ◌+◌, ◌<◌, ◌≡◌, false, Option, none, List, arith, ltb, length, swap,
}
use hft_radial_cache.Common.Int.{ℤ, ◌≤ℤ◌, leb_ℤ}
use hft_radial_cache.Common.Run.{Returns, returns, Returns-if}
use hft_radial_cache.Heap.{parent, sift_up}
use hft_radial_cache.Heap.Order.{
  at, IsFilled, load-ok, key, Sifted, exchange-ok, settled_lem, at-swap, swap-IsFilled, Sifted-swap,
}

module _ {A : Type 0} (priority : A → ℤ) where
  -- Only the node in slot `i` may outrank its parent.
  pub record UpInv (n : ℕ) (a : List (Option A)) (i : ℕ) : Type 0 where
    pub inside : i < n
    pub shape : IsFilled n a
    pub edges : (c : ℕ) → 0 < c → c < n → c ≢ i → key priority a c ≤ℤ key priority a (parent c)
    pub bridged :
        (c : ℕ)
        → 0 < c
        → c < n
        → parent c ≡ i
        → 0 < i
        → key priority a c ≤ℤ key priority a (parent i)

  swap-UpInv :
      (n : ℕ) (a : List (Option A)) (i : ℕ)
      → UpInv n a i
      → 0 < i
      → leb_ℤ (key priority a i) (key priority a (parent i)) ≡ false
      → UpInv n (swap none a (parent i) i) (parent i)
  swap-UpInv n a i v pos above =
      let here = at-swap priority n a (parent i) i v.shape (omega (arith, v.inside)) v.inside in
      record {
        inside = omega (arith, v.inside);
        shape = swap-IsFilled priority n a (parent i) i v.shape (omega (arith, v.inside)) v.inside;
        edges = λ c p q r.
            ground (arith, here c, here (parent c), v.edges c, v.edges (parent i), v.bridged c);
        bridged = λ c p q r s.
            ground (arith, here c, here (parent (parent i)), v.edges c, v.edges (parent i));
      }

  sift_up_fuel :
      (k n : ℕ) (a : List (Option A)) (i : ℕ)
      → i < k
      → UpInv n a i
      → Returns (Sifted priority n a) (sift_up priority k a i)
  unfolding sift_up
  sift_up_fuel zero n a i f v = absurd (omega arith)
  sift_up_fuel (suc k) n a i f v =
      let room = v.shape.inside in
      let hp : parent i < length a = omega (arith, v.inside) in
      let hi : i < length a = omega (arith, v.inside) in
      rw
        (
          load-ok a i hi,
          load-ok a (parent i) hp,
          settled_lem priority (at a i) (at a (parent i)) (v.shape.filled i v.inside)
              (v.shape.filled (parent i) (omega (arith, v.inside))),
          exchange-ok a (parent i) i (λ c. sift_up priority k c (parent i)) hp hi,
        )
        (Returns-if (ltb 0 i)
          (λ pos.
            Returns-if (leb_ℤ (key priority a i) (key priority a (parent i)))
              (λ done. returns (record {
                heap = λ c p q. ground (arith, v.edges c);
                shape = v.shape;
                same = Perm.rfl;
              }))
              (λ above.
                Sifted-swap priority n a (parent i) i v.shape (omega (arith, v.inside)) v.inside (
                  sift_up_fuel k n (swap none a (parent i) i) (parent i) (ground arith)
                    (swap-UpInv n a i v (ground arith) above))))
          (λ root. returns (record {
            heap = λ c p q. ground (arith, v.edges c);
            shape = v.shape;
            same = Perm.rfl;
          })))

  -- A node that is too low in the tree rises to its place.
  pub sift_up_restores :
      (n : ℕ) (a : List (Option A)) (i : ℕ)
      → UpInv n a i
      → Returns (Sifted priority n a) (sift_up priority (i + 1) a i)
  sift_up_restores n a i v = sift_up_fuel (i + 1) n a i (omega arith) v
