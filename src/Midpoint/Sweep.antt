-- ===== src/Midpoint/Sweep.antt =====
-- include/midpoint.hpp: the loop of get_highest_priority_node.
use mathlib.Core.List.{Mem, perm_middle, mem-cons_of_mem}
use mathlib.Core.List.Perm
use hft_radial_cache.Common.{
  ℕ, zero, suc, ◌+◌, ◌≤◌, ◌<◌, ◌≡◌, refl, ◌∙◌, Bool, true, false, Option, none, some, List, [], ◌∷◌,
  ◌++◌, Perm, arith, ◌==◌,
}
use hft_radial_cache.Common.Int.{ℤ, ◌≤ℤ◌}
use hft_radial_cache.Common.Run.{Returns, returns, Returns-map, Returns-if, Returns-bind}
use hft_radial_cache.Heap
use hft_radial_cache.Heap.{Heap}
use hft_radial_cache.Heap.Held.{held}
use hft_radial_cache.Heap.Push.{IsValid}
use hft_radial_cache.Heap.Pop.{Popped, pop_correct}
use hft_radial_cache.Midpoint.{Outcome, sweep, get_highest_priority_node}

-- Every entry satisfies `P`.
abbrev pub All {κ} : {A : Type 0} → (A → Type κ) → List A → Type κ
All P [] = Unit
All P (x ∷ xs) = P x × All P xs

abbrev pub to_list : {A : Type 0} → Option A → List A
to_list none = []
to_list (some x) = x ∷ []

module _ {A : Type 0} (priority : A → ℤ) (expired : ℕ → A → Bool) where
  -- The outcome of a call on `h` that had deleted `gone` before.
  pub record Swept (h : Heap A) (gone : List A) (r : Outcome A) : Type 0 where
    pub valid : IsValid priority r.rest
    -- No node is lost or made up.
    pub split : Perm (to_list r.result ++ r.deleted ++ held r.rest.heap) (gone ++ held h.heap)
    -- Each deleted node was found expired.
    pub dead : All (λ x. (k : ℕ) × (expired k x ≡ true)) r.deleted
    -- The node returned was found fresh, and none that is left has a higher priority.
    pub live : (x : A) → r.result ≡ some x → (k : ℕ) × (expired k x ≡ false)
    pub best :
        (x : A) → r.result ≡ some x → (y : A) → Mem y (held r.rest.heap) → priority y ≤ℤ priority x
    -- Null is returned only when nothing is left.
    pub exhausted : r.result ≡ none → r.rest.size ≡ 0
    pub kept : r.rest.capacity ≡ h.capacity
    pub fewer : r.rest.size ≤ h.size

  module _ (h : Heap A) (gone : List A) where
    -- The outcome of a round that pops a fresh node.
    fresh-Swept :
        (k : ℕ) (r : Heap A × Option A) (s : Popped priority h r)
        → All (λ x. (k : ℕ) × (expired k x ≡ true)) gone
        → expired k s.top ≡ false
        → Swept h gone (record { rest = r.0; result = some s.top; deleted = gone })
    fresh-Swept k r s dead e = record {
      valid = s.valid;
      split = Perm.trans (Perm.symm (perm_middle gone _)) (Perm.append_left gone s.removed);
      dead = dead;
      live = λ x p. (k, let q : s.top ≡ x = cc in rw (← q) e);
      best = λ x p y m.
          let q : s.top ≡ x = cc in
          rw (← q) (s.highest y ((Perm.mem_iff s.removed).0 (mem-cons_of_mem s.top m)));
      exhausted = λ p. cc;
      kept = s.kept;
      fewer = omega (arith, s.size);
    }

    -- A later outcome, seen from before a round that deletes the node it pops.
    stale-Swept :
        (r : Heap A × Option A) (s : Popped priority h r) (o : Outcome A)
        → Swept r.0 (s.top ∷ gone) o
        → Swept h gone o
    stale-Swept r s o t = record {
      valid = t.valid;
      split =
          Perm.trans t.split
            (Perm.trans (Perm.symm (perm_middle gone _)) (Perm.append_left gone s.removed));
      dead = t.dead;
      live = t.live;
      best = t.best;
      exhausted = t.exhausted;
      kept = t.kept ∙ s.kept;
      fewer = omega (arith, s.size, t.fewer);
    }

  sweep_fuel :
      (fuel k : ℕ) (h : Heap A) (gone : List A)
      → h.size < fuel
      → IsValid priority h
      → All (λ x. (k : ℕ) × (expired k x ≡ true)) gone
      → Returns (Swept h gone) (sweep priority expired fuel k h gone)
  unfolding sweep Heap.empty
  sweep_fuel zero k h gone f v dead = absurd (omega arith)
  sweep_fuel (suc fuel) k h gone f v dead =
      Returns-if (h.size == 0)
        (λ e. returns (record {
          valid = v;
          split = Perm.rfl;
          dead = dead;
          live = λ x p. cc;
          best = λ x p. cc;
          exhausted = λ _. ground arith;
          kept = refl;
          fewer = omega arith;
        }))
        (λ e. Returns-bind (pop_correct priority h v (ground arith)) λ r s. rw s.returned (
          Returns-if (expired k s.top)
            (λ old.
              Returns-map
                (sweep_fuel fuel (k + 1) r.0 (s.top ∷ gone) (omega (arith, s.size)) s.valid
                  ((k, old), dead))
                (λ o t. stale-Swept h gone r s o t))
            (λ new. returns (fresh-Swept h gone k r s dead new))))

  -- On a valid heap the loop ends; it deletes only nodes found expired, and returns a node found
  -- fresh that no node left outranks, or null only when none is left; each node of the heap is
  -- returned, deleted or still there, and the heap is valid again.
  pub get_highest_correct :
      (h : Heap A)
      → IsValid priority h
      → Returns (Swept h []) (get_highest_priority_node priority expired h)
  unfolding get_highest_priority_node
  get_highest_correct h v = sweep_fuel (h.size + 1) 0 h [] (omega arith) v tt
