-- ===== src/Heap/Down.antt =====
-- include/lockfree_heap.hpp: sift_down, and the invariant of its loop.
use mathlib.Core.Logic.{◌≢◌}
use mathlib.Core.List.Perm
use hft_radial_cache.Common.{
  ℕ, zero, suc, ◌+◌, ◌-◌, ◌*◌, ◌<◌, ◌≡◌, ◌⊎◌, inl, inr, true, Option, none, List, arith, ltb, ◌==◌,
  length, if◌then◌else◌, swap, Bool-cases,
}
use hft_radial_cache.Common.Int.{ℤ, ◌≤ℤ◌, ltb_ℤ}
use hft_radial_cache.Common.Run.{ok, Returns, returns, Returns-if}
use hft_radial_cache.Heap.{parent, pick, sift_down}
use hft_radial_cache.Heap.Order.{
  at, IsFilled, load-ok, key, Sifted, exchange-ok, higher_lem, at-swap, swap-IsFilled, Sifted-swap,
}

module _ {A : Type 0} (priority : A → ℤ) where
  -- Only the node in slot `i` may be outranked by its children.
  pub record DownInv (n : ℕ) (a : List (Option A)) (i : ℕ) : Type 0 where
    pub shape : IsFilled n a
    pub edges :
        (c : ℕ) → 0 < c → c < n → parent c ≢ i → key priority a c ≤ℤ key priority a (parent c)
    pub bridged :
        (c : ℕ)
        → 0 < c
        → c < n
        → parent c ≡ i
        → 0 < i
        → key priority a c ≤ℤ key priority a (parent i)

  -- The slot that `pick` returns.
  choose : List (Option A) → ℕ → ℕ → ℕ → ℕ
  choose a n child best =
      if ltb child n
      then if ltb_ℤ (key priority a best) (key priority a child) then child else best
      else best

  pick-ok :
      (n : ℕ) (a : List (Option A)) (child best : ℕ)
      → IsFilled n a
      → best < n
      → pick priority a n child best ≡ ok (choose a n child best)
  unfolding pick choose
  pick-ok n a child best shape h = elim (Bool-cases (ltb child n)) [
    | inl e ↦
        let hc : child < n = ground arith in
        rw (
          e,
          load-ok a child (omega (arith, shape.inside)),
          load-ok a best (omega (arith, shape.inside)),
          higher_lem priority (at a child) (at a best) (shape.filled child hc)
              (shape.filled best h),
        )
    | inr e ↦ rw e
  ]

  -- `m` is `i` or a child of it, and none of the three outranks it.
  record IsLargest (n : ℕ) (a : List (Option A)) (i m : ℕ) : Type 0 where
    inside : m < n
    near : (m ≡ i) ⊎ ((m ≡ 2 * i + 1) ⊎ (m ≡ 2 * i + 2))
    self : key priority a i ≤ℤ key priority a m
    children : (c : ℕ) → 0 < c → c < n → parent c ≡ i → key priority a c ≤ℤ key priority a m

  abbrev largest : List (Option A) → ℕ → ℕ → ℕ
  largest a n i = choose a n (2 * i + 2) (choose a n (2 * i + 1) i)

  choose_lt : (n : ℕ) (a : List (Option A)) (child best : ℕ) → best < n → choose a n child best < n
  unfolding choose
  choose_lt n a child best h = ground arith

  largest-IsLargest :
      (n : ℕ) (a : List (Option A)) (i : ℕ) → i < n → IsLargest n a i (largest a n i)
  unfolding choose
  largest-IsLargest n a i h = record {
    inside = choose_lt n a (2 * i + 2) _ (choose_lt n a (2 * i + 1) i h);
    near = ground arith;
    self = ground arith;
    children = λ c p q r. child c (omega arith) p q r;
  }
    where
      child :
          (c : ℕ)
          → (c ≡ 2 * i + 1) ⊎ (c ≡ 2 * i + 2)
          → 0 < c
          → c < n
          → parent c ≡ i
          → key priority a c ≤ℤ key priority a (largest a n i)
      child c (inl e) p q r = rw e (ground arith)
      child c (inr e) p q r = rw e (ground arith)

  swap-DownInv :
      (n : ℕ) (a : List (Option A)) (i m : ℕ)
      → DownInv n a i
      → i < n
      → IsLargest n a i m
      → m ≢ i
      → DownInv n (swap none a i m) m
  swap-DownInv n a i m v hi s ne =
      let here = at-swap priority n a i m v.shape hi s.inside in
      record {
        shape = swap-IsFilled priority n a i m v.shape hi s.inside;
        edges = λ c p q r.
            ground (arith, here c, here (parent c), v.edges c, v.bridged m, s.children c, s.near);
        bridged = λ c p q r t. ground (arith, here c, here (parent m), v.edges c, s.near);
      }

  sift_down_fuel :
      (k n : ℕ) (a : List (Option A)) (i : ℕ)
      → n - i < k
      → i < n
      → DownInv n a i
      → Returns (Sifted priority n a) (sift_down priority k a n i)
  unfolding sift_down
  sift_down_fuel zero n a i f h v = absurd (omega arith)
  sift_down_fuel (suc k) n a i f h v =
      let m = largest a n i in
      let s = largest-IsLargest n a i h in
      let hi : i < length a = omega (arith, v.shape.inside) in
      let hm : m < length a = omega (arith, v.shape.inside, s.inside) in
      rw
        (
          load-ok a i hi,
          pick-ok n a (2 * i + 1) i v.shape h,
          pick-ok n a (2 * i + 2) _ v.shape (choose_lt n a (2 * i + 1) i h),
          load-ok a m hm,
          exchange-ok a i m (λ c. sift_down priority k c n m) hi hm,
        )
        (Returns-if (m == i)
          (λ same.
            returns (record {
              heap = λ c p q. settled_here same c p q;
              shape = v.shape;
              same = Perm.rfl;
            }))
          (λ differ.
            let ne : m ≢ i = ground arith in
            Sifted-swap priority n a i m v.shape h s.inside (
              sift_down_fuel k n (swap none a i m) m (below s ne) s.inside
                (swap-DownInv n a i m v h s ne))))
    where
      below : {m : ℕ} → IsLargest n a i m → m ≢ i → n - m < k
      below s ne = ground (arith, s.near, s.inside)

      settled_here :
          (largest a n i == i) ≡ true
          → (c : ℕ) → 0 < c
          → c < n
          → key priority a c ≤ℤ key priority a (parent c)
      settled_here same c p q =
          let s = largest-IsLargest n a i h in
          let e : largest a n i ≡ i = ground arith in
          let at_root = rw e at s in ground (arith, v.edges c, at_root.children c)

  -- One node too high in the tree sinks to its place.
  pub sift_down_restores :
      (n : ℕ) (a : List (Option A)) (i : ℕ)
      → i < n
      → DownInv n a i
      → Returns (Sifted priority n a) (sift_down priority (n + 1) a n i)
  sift_down_restores n a i h v = sift_down_fuel (n + 1) n a i (omega arith) h v
