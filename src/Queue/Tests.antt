-- ===== src/Queue/Tests.antt =====
-- The theorems at concrete queues, and a schedule of two threads.
use hft_radial_cache.Common.{ℕ, ◌≡◌, refl, Option, none, some, List, [], ◌∷◌, if◌then◌else◌}
use hft_radial_cache.Common.Run.{Run, ok, stuck, ◌>>=◌, Returns}
use hft_radial_cache.Queue.{Queue, new, link, swing, enqueue, dequeue, size, empty, destroy}
use hft_radial_cache.Queue.Calls.{Call, run, Agrees, run-fifo, new-Holds}
use hft_radial_cache.Queue.Count.{size_correct}
use hft_radial_cache.Queue.Destroy.{listed, is_empty, empty_correct, destroy_correct}

abbrev calls : List (Call ℕ)
calls =
    Call.whole 7
    ∷ Call.half 8
    ∷ Call.take
    ∷ Call.whole 9
    ∷ Call.take
    ∷ Call.take
    ∷ Call.take
    ∷ Call.half 3
    ∷ []

run-fifo_example :
    Returns (Agrees (3 ∷ [], some 7 ∷ some 8 ∷ some 9 ∷ none ∷ [])) (run (new 0) calls)
run-fifo_example = run-fifo (new 0) [] calls (new-Holds 0)

size_correct_example : size (new {T = ℕ} 4) ≡ ok 0
size_correct_example = size_correct (new {T = ℕ} 4) [] (new-Holds 4)

empty_correct_example : empty (new {T = ℕ} 4) ≡ ok (is_empty {T = ℕ} [])
empty_correct_example = empty_correct (new 4) [] (new-Holds 4)

destroy_correct_example :
    Returns
      (λ s. (at : ℕ) → s at ≡ (if listed at (0 ∷ []) then none else (new {T = ℕ} 4).nodes at))
      (destroy (new {T = ℕ} 4))
unfolding new-Holds
destroy_correct_example = destroy_correct (new 4) [] (new-Holds 4)

-- What the calls give, and the size in the end.
outcome : Run (Queue ℕ × List (Option ℕ)) → Run (ℕ × List (Option ℕ))
outcome r = r >>= λ o. size (o.0) >>= λ n. ok (n, o.1)

calls_outcome : outcome (run (new 0) calls) ≡ ok (1, some 7 ∷ some 8 ∷ some 9 ∷ none ∷ [])
unfolding outcome run new link enqueue dequeue size
calls_outcome = refl

-- A thread halts between the two compare-and-swaps of its enqueue of 1. Another enqueues 2, takes
-- 1, enqueues 3, and takes 2: the node that was the tail is used again, and is the tail again. So
-- the first thread's second compare-and-swap succeeds. Then 4 is enqueued, and 3 is taken.
late_swing : Run (Queue ℕ × Option ℕ)
late_swing = do
  a ← link (new 0) 1
  b ← enqueue (a.0) 2
  c ← dequeue b
  d ← enqueue (c.0) 3
  e ← dequeue d
  f ← enqueue (swing (e.0) 0 (a.1)) 4
  g ← dequeue f
  dequeue (g.0)

given : Run (Queue ℕ × Option ℕ) → Run (Option ℕ)
given r = r >>= λ o. ok (o.1)

-- 4 is lost: the next dequeue finds the head apart from the tail with nothing behind it, for ever.
late_swing_spins : given late_swing ≡ stuck
unfolding given late_swing new link enqueue dequeue swing
late_swing_spins = refl
