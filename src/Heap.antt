-- ===== src/Heap.antt =====
-- include/lockfree_heap.hpp: LockFreeHeap, the bounded binary max-heap of one symbol's nodes.
-- A slot holds a `Node*` or null; `priority` reads `node->priority`. The calls run one at a time,
-- so a compare-and-swap succeeds, and the `while (true)` of push and pop makes one round.
pub mod Order
pub mod Up
pub mod Down
pub mod Held
pub mod Push
pub mod Pop
pub mod Congr
mod Tests
use hft_radial_cache.Common.{
  ℕ, zero, suc, ◌+◌, ◌-◌, ◌*◌, ◌/◌, Bool, true, false, Option, none, some, List, ltb, leb, ◌==◌,
  if◌then◌else◌, length, get_elem?, set, replicate,
}
use hft_radial_cache.Common.Int.{ℤ, ltb_ℤ, leb_ℤ}
use hft_radial_cache.Common.Run.{Run, ok, fault, stuck, ◌>>=◌}

pub record Heap (A : Type 0) : Type 0 where
  pub heap : List (Option A)
  pub size : ℕ
  pub capacity : ℕ

abbrev pub parent : ℕ → ℕ
parent i = (i - 1) / 2

module _ {A : Type 0} where
  unfoldable pub new : ℕ → Heap A
  new initial_capacity = record {
    heap = replicate initial_capacity none;
    size = 0;
    capacity = initial_capacity;
  }

  -- `heap[i]`; an index out of range is undefined behaviour.
  unfoldable pub load : List (Option A) → ℕ → Run (Option A)
  load a i = elim (get_elem? a i) [ some x ↦ ok x | none ↦ fault ]

  unfoldable pub store : List (Option A) → ℕ → Option A → Run (List (Option A))
  store a i x = if ltb i (length a) then ok (set a i x) else fault

  unfoldable pub empty : Heap A → Bool
  empty h = h.size == 0

module _ {A : Type 0} (priority : A → ℤ) where
  -- The test by which `sift_up` stops.
  unfoldable pub settled : Option A → Option A → Bool
  settled none above = true
  settled (some child) none = true
  settled (some child) (some above) = leb_ℤ (priority child) (priority above)

  unfoldable pub sift_up : ℕ → List (Option A) → ℕ → Run (List (Option A))
  sift_up zero a index = stuck
  sift_up (suc fuel) a index =
      let climb : Run (List (Option A)) = do
        child ← load a index
        above ← load a (parent index)
        let rise = do
          b ← store a (parent index) child
          c ← store b index above
          sift_up fuel c (parent index)
        if settled child above then ok a else rise
      in if ltb 0 index then climb else ok a

  -- `x && x->priority > y->priority`, which reads through `y` only if `x` is not null.
  pub higher : Option A → Option A → Run Bool
  higher none y = ok false
  higher (some x) none = fault
  higher (some x) (some y) = ok (ltb_ℤ (priority y) (priority x))

  -- One of the two tests of `sift_down`: `child` if it exists and outranks `best`.
  pub pick : List (Option A) → ℕ → ℕ → ℕ → Run ℕ
  pick a size child best =
      let test : Run ℕ = do
        x ← load a child
        y ← load a best
        above ← higher x y
        ok (if above then child else best)
      in if ltb child size then test else ok best

  pub sift_down : ℕ → List (Option A) → ℕ → ℕ → Run (List (Option A))
  sift_down zero a size index = stuck
  sift_down (suc fuel) a size index = do
    current ← load a index
    m ← pick a size (2 * index + 1) index
    max_index ← pick a size (2 * index + 2) m
    let sink = do
      max_node ← load a max_index
      b ← store a index max_node
      c ← store b max_index current
      sift_down fuel c size max_index
    if max_index == index then ok a else sink

  unfoldable pub push : Heap A → A → Run (Heap A × Bool)
  push h node = if leb h.capacity h.size then ok (h, false) else do
    a ← store h.heap h.size (some node)
    b ← sift_up (h.size + 1) a h.size
    ok (record h { heap = b; size = h.size + 1 }, true)

  -- Past the checks: `last` takes the root's place, unless it is the root.
  pub settle : List (Option A) → ℕ → Option A → Run (List (Option A))
  settle a size last =
      if ltb 0 size then (do b ← store a 0 last; sift_down (size + 1) b size 0) else ok a

  -- With a null root `pop` retries for ever.
  pub pop : Heap A → Run (Heap A × Option A)
  pop h =
      let taken : A → Run (Heap A × Option A) = λ top. do
        last ← load h.heap (h.size - 1)
        a ← store h.heap (h.size - 1) none
        b ← settle a (h.size - 1) last
        ok (record h { heap = b; size = h.size - 1 }, some top)
      in let attempt : Run (Heap A × Option A) =
          load h.heap 0 >>= λ root. elim root [ none ↦ stuck | some top ↦ taken top ] in
        if h.size == 0 then ok (h, none) else attempt
