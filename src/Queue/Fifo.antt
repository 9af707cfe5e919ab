-- ===== src/Queue/Fifo.antt =====
-- The queue against a list: first in, first out, whatever half of a call another thread has made.
use hft_radial_cache.Common.{ℕ, ◌≡◌, sym, ap, subst, ◌∙◌, List, [], ◌∷◌, ◌++◌, map, arith}
use mathlib.Core.List.{map-append}
use hft_radial_cache.Common.Run.{Returns, returns, Returns-bind, Returns-map}
use hft_radial_cache.Queue.{Queue, link, swing, enqueue}
use hft_radial_cache.Queue.Chain.{Items}
use hft_radial_cache.Queue.Tail.{IsTail, last-IsTail, last_snoc, snoc-IsTail}
use hft_radial_cache.Queue.Shape.{Parts-tail, Shape}
use hft_radial_cache.Queue.Link.{linked}

module _ {T : Type 0} where
  -- The queue holds these values, the oldest first.
  pub record Holds (values : List T) (q : Queue T) : Type 0 where
    pub dummy : ℕ × T
    pub items : Items T
    pub frees : Items T
    pub shape : Shape q dummy items frees
    pub held : map (λ item. item.1) items ≡ values

  pub linked-Holds :
      (q : Queue T) (values : List T) (value : T)
      → Holds values q
      → Returns (λ r. Holds (values ++ value ∷ []) (r.0)) (link q value)
  linked-Holds q values value h =
      Returns-map (linked q h.dummy h.items h.frees value h.shape) (λ r l. record {
        dummy = h.dummy;
        items = h.items ++ (r.1, value) ∷ [];
        frees = l.frees;
        shape = record {
          parts = l.parts;
          tail =
              subst (λ t. IsTail t (h.dummy.0) (h.items ++ (r.1, value) ∷ [])) (sym l.behind)
                (snoc-IsTail (h.dummy.0) h.items (r.1, value));
        };
        held = map-append _ h.items _ ∙ ap (λ vs. vs ++ value ∷ []) h.held;
      })

  swung : (q : Queue T) (node : ℕ) → swing q q.tail node ≡ record q { tail = node }
  unfolding swing
  swung q node = ground arith

  pub enqueue-Holds :
      (q : Queue T) (values : List T) (value : T)
      → Holds values q
      → Returns (Holds (values ++ value ∷ [])) (enqueue q value)
  unfolding enqueue
  enqueue-Holds q values value h =
      Returns-bind (linked q h.dummy h.items h.frees value h.shape) (λ r l. returns (
        subst (Holds (values ++ value ∷ [])) (sym (swung (r.0) (r.1))) (record {
          dummy = h.dummy;
          items = h.items ++ (r.1, value) ∷ [];
          frees = l.frees;
          shape = record {
            parts = Parts-tail (r.0) h.dummy (h.items ++ (r.1, value) ∷ []) l.frees (r.1) l.parts;
            tail =
                subst (λ t. IsTail t (h.dummy.0) (h.items ++ (r.1, value) ∷ []))
                  (last_snoc (h.dummy.0) h.items (r.1, value))
                  (last-IsTail (h.dummy.0) (h.items ++ (r.1, value) ∷ []));
          };
          held = map-append _ h.items _ ∙ ap (λ vs. vs ++ value ∷ []) h.held;
        })))
