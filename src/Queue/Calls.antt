-- ===== src/Queue/Calls.antt =====
-- Sequences of calls, and of halves of calls that another thread makes.
use hft_radial_cache.Common.{◌≡◌, refl, Option, none, List, [], ◌∷◌, ◌++◌, arith}
use hft_radial_cache.Common.Run.{Run, ok, ◌>>=◌, Returns, returns, Returns-bind}
use hft_radial_cache.Queue.{Queue, new, link, enqueue, dequeue}
use hft_radial_cache.Queue.Fifo.{Holds, linked-Holds, enqueue-Holds}
use hft_radial_cache.Queue.Dequeue.{oldest, later, dequeue-Holds}

-- `half` is an enqueue of which the second compare-and-swap is still to come.
pub data Call (T : Type 0) : Type 0 where
  whole half : T → Call T
  take : Call T

module _ {T : Type 0} where
  -- The calls one after another, with what each dequeue gives.
  unfoldable pub run : Queue T → List (Call T) → Run (Queue T × List (Option T))
  run q [] = ok (q, [])
  run q (Call.whole value ∷ calls) = enqueue q value >>= λ r. run r calls
  run q (Call.half value ∷ calls) = link q value >>= λ r. run (r.0) calls
  run q (Call.take ∷ calls) = dequeue q >>= λ r. run (r.0) calls >>= λ o. ok (o.0, r.1 ∷ o.1)

  -- The same on a plain list.
  abbrev pub fifo : List T → List (Call T) → List T × List (Option T)
  fifo values [] = (values, [])
  fifo values (Call.whole value ∷ calls) = fifo (values ++ value ∷ []) calls
  fifo values (Call.half value ∷ calls) = fifo (values ++ value ∷ []) calls
  fifo values (Call.take ∷ calls) =
      let rest = fifo (later values) calls in (rest.0, oldest values ∷ rest.1)

  -- The queue holds what the list holds, and gave the same.
  pub record Agrees (expected : List T × List (Option T)) (r : Queue T × List (Option T))
      : Type 0 where
    pub given : r.1 ≡ expected.1
    pub left : Holds (expected.0) (r.0)

  -- On a queue that holds some values, every sequence of enqueues, of enqueues halted between
  -- their two compare-and-swaps, and of dequeues returns, gives what a list would give, first in,
  -- first out, and leaves the queue with what the list would hold.
  pub run-fifo :
      (q : Queue T) (values : List T) (calls : List (Call T))
      → Holds values q
      → Returns (Agrees (fifo values calls)) (run q calls)
  unfolding run
  run-fifo q values [] h = returns (record { given = refl; left = h })
  run-fifo q values (Call.whole value ∷ calls) h =
      Returns-bind (enqueue-Holds q values value h)
        (λ r k. run-fifo r (values ++ value ∷ []) calls k)
  run-fifo q values (Call.half value ∷ calls) h =
      Returns-bind (linked-Holds q values value h)
        (λ r k. run-fifo (r.0) (values ++ value ∷ []) calls k)
  run-fifo q values (Call.take ∷ calls) h = Returns-bind (dequeue-Holds q values h) (λ r k.
      Returns-bind (run-fifo (r.0) (later values) calls k.left)
        (λ o a. returns (record { given = rw (k.given, a.given); left = a.left })))

  unfoldable pub new-Holds : (initial : T) → Holds [] (new initial)
  unfolding new
  new-Holds initial = record {
    dummy = (0, initial);
    items = [];
    frees = [];
    shape = record {
      parts = record {
        live = (none, refl, refl, refl);
        free = refl;
        counted = refl;
        bounded = omega arith;
        distinct = (tt, tt);
        below = (omega arith, tt);
      };
      tail = refl;
    };
    held = refl;
  }
