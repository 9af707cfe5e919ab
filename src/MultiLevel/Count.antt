-- ===== src/MultiLevel/Count.antt =====
-- What sequences of calls keep of the first level: its bound, and how far its counter is off.
use hft_radial_cache.Common.{
  ℕ, ◌+◌, ◌%◌, ◌^◌, ◌≤◌, ◌<◌, ◌≡◌, refl, sym, subst, ap, Bool, List, [], ◌∷◌, length, length-append,
  arith,
}
use hft_radial_cache.Common.Bytes.{Bytes}
use hft_radial_cache.Common.Int.{ℤ}
use hft_radial_cache.Disk.{DiskNode}
use hft_radial_cache.MultiLevel.{
  Level2, MultiLevelCache, promote_to_l1, demote_to_l2, demote_to_l3, insert, get_highest_priority,
  remove, clear, manage,
}
use hft_radial_cache.MultiLevel.Front.{
  Front, front, Move, stays, enters, replaces, overfills, hits_one, leaves, demote_to_l2-front,
  demote_to_l3-front, promote-Move,
}
use hft_radial_cache.MultiLevel.Steps.{insert-Move, get-Move, remove-Move, manage-Move}

-- The calls, with the readings of the clock, and the rounds of the background worker.
pub data Call : Type 0 where
  inserts : ℕ → Bytes → ℤ → ℕ → ℕ → ℕ → ℕ → Call
  gets : Bytes → ℕ → Call
  removes : Bytes → ℕ → Call
  promotes demotes_to_l2 demotes_to_l3 : DiskNode → Call
  clears manages : Call

-- The first level holds no more nodes than are counted, nor than its capacity, and as many more
-- calls do not take the counter round.
pub record IsWithin (left : ℕ) (f : Front) : Type 0 where
  pub counted : length f.nodes ≤ f.items
  pub roomy : length f.nodes ≤ f.room
  pub some_room : 0 < f.room
  pub far : f.items + left < 2 ^ 64

Move-IsWithin : {f g : Front} (left : ℕ) → Move f g → IsWithin (left + 1) f → IsWithin left g
Move-IsWithin left stays b = omega arith
Move-IsWithin {f} left (enters node low) b = omega (arith, length-append f.nodes (node ∷ []))
Move-IsWithin left (replaces node oldest others e) b =
    omega (arith, ap length e, length-append others (node ∷ []))
Move-IsWithin left (overfills node e) b = omega arith
Move-IsWithin left (hits_one before node after e) b =
    omega (arith, ap length e, length-append before (node ∷ after), length-append after before)
Move-IsWithin left (leaves before node after e) b =
    omega (arith, ap length e, length-append before (node ∷ after), length-append after before)

-- The counter is off by the hits so far, but for a number of them.
abbrev pub IsCounted : ℕ → Front → Type 0
IsCounted before f = (f.items + before) % 2 ^ 64 ≡ (length f.nodes + f.hits) % 2 ^ 64

Move-IsCounted : {f g : Front} (before : ℕ) → Move f g → IsCounted before f → IsCounted before g
Move-IsCounted before stays c = c
Move-IsCounted {f} before (enters node low) c = omega (arith, length-append f.nodes (node ∷ []))
Move-IsCounted before (replaces node oldest others e) c =
    omega (arith, ap length e, length-append others (node ∷ []))
Move-IsCounted before (overfills node e) c = omega (arith, ap length e)
Move-IsCounted before (hits_one earlier node after e) c =
    omega (arith, ap length e, length-append earlier (node ∷ after), length-append after earlier)
Move-IsCounted before (leaves earlier node after e) c =
    omega (arith, ap length e, length-append earlier (node ∷ after), length-append after earlier)

-- What a call does to the first level and to the number that stands for the hits when its counter
-- was last right: a step of the machine leaves that number, and clear sets it anew.
data Turn (f : Front) (before : ℕ) : Front → ℕ → Type 0 where
  moves : {g : Front} → Move f g → Turn f before g before
  empties : Turn f before (record f { nodes = []; items = 0 }) f.hits

Turn-IsWithin :
    {f g : Front} {before after : ℕ} (left : ℕ)
    → Turn f before g after
    → IsWithin (left + 1) f
    → IsWithin left g
Turn-IsWithin left (moves move) b = Move-IsWithin left move b
Turn-IsWithin left empties b = omega arith

Turn-IsCounted :
    {f g : Front} {before after : ℕ}
    → Turn f before g after
    → IsCounted before f
    → IsCounted after g
Turn-IsCounted {before} (moves move) c = Move-IsCounted before move c
Turn-IsCounted empties c = refl

module _ {L : Type 0} (level2 : Level2 L) (to_string : ℕ → Bytes) (node_size count_size : ℕ)
    (initial : DiskNode) (to_ns : ℕ → ℕ) (same_double over : ℕ → ℕ → Bool) where
  unfoldable pub call : MultiLevelCache L → Call → MultiLevelCache L
  call m (inserts value symbol priority expiry_seconds made read now) =
      (insert level2 to_string node_size count_size initial to_ns m value symbol priority
        expiry_seconds made read now).0
  call m (gets symbol now) =
      (get_highest_priority level2 to_string node_size count_size m symbol now).0
  call m (removes symbol value) =
      (remove level2 to_string node_size count_size same_double m symbol value).0
  call m (promotes node) = (promote_to_l1 level2 to_string node_size count_size m node).0
  call m (demotes_to_l2 node) = (demote_to_l2 level2 to_string node_size count_size m node).0
  call m (demotes_to_l3 node) = (demote_to_l3 level2 to_string node_size count_size m node).0
  call m clears = clear level2 to_string node_size count_size m
  call m manages = manage level2 to_string node_size count_size over m

  unfoldable pub run : MultiLevelCache L → List Call → MultiLevelCache L
  unfolding call
  run m [] = m
  run m (first ∷ calls) = run (call m first) calls

  -- The hits so far when the counter was last right, after a call.
  abbrev mark : ℕ → MultiLevelCache L → Call → ℕ
  mark before m clears = m.l1_stats.hit_count
  mark before m c = before

  -- The same after a sequence of calls: the number given at first, or the hits so far at the last
  -- clear.
  unfoldable pub base : ℕ → MultiLevelCache L → List Call → ℕ
  base before m [] = before
  base before m (first ∷ calls) = base (mark before m first) (call m first) calls

  call-Turn :
      (before : ℕ) (m : MultiLevelCache L) (c : Call)
      → Turn (front m) before (front (call m c)) (mark before m c)
  unfolding call clear
  call-Turn before m (inserts value symbol priority expiry_seconds made read now) = moves (
      insert-Move level2 to_string node_size count_size initial to_ns m value symbol priority
        expiry_seconds made read now)
  call-Turn before m (gets symbol now) =
      moves (get-Move level2 to_string node_size count_size m symbol now)
  call-Turn before m (removes symbol value) =
      moves (remove-Move level2 to_string node_size count_size same_double m symbol value)
  call-Turn before m (promotes node) =
      moves (promote-Move level2 to_string node_size count_size m node)
  call-Turn before m (demotes_to_l2 node) = moves (
      subst (Move (front m)) (sym (demote_to_l2-front level2 to_string node_size count_size m node))
        stays)
  call-Turn before m (demotes_to_l3 node) = moves (
      subst (Move (front m)) (sym (demote_to_l3-front level2 to_string node_size count_size m node))
        stays)
  call-Turn before m manages = moves (manage-Move level2 to_string node_size count_size over m)
  call-Turn before m clears = empties

  -- Whatever the second level answers, no sequence of calls of insert, get_highest_priority,
  -- remove, clear, the promotion, the two demotions and of rounds of the worker takes the first
  -- level above its capacity or above its counter: if both bounds hold at first, the capacity is
  -- not 0, and the counter with the number of calls is below 2^64, they hold in the end.
  pub run-IsWithin :
      (m : MultiLevelCache L) (calls : List Call)
      → IsWithin (length calls) (front m)
      → IsWithin 0 (front (run m calls))
  unfolding run
  run-IsWithin m [] b = b
  run-IsWithin m (first ∷ calls) b = run-IsWithin (call m first) calls (
      Turn-IsWithin (length calls) (call-Turn 0 m first)
        (subst (λ (n : ℕ). IsWithin n (front m)) (omega arith) b))

  -- The counter of the first level is wrong by the number of its hits since the last clear, as no
  -- hit counts the node out that it takes. If at first the counter and a number `before` are,
  -- modulo 2^64, the nodes in the level and the hits so far, then after every sequence of calls of
  -- insert, get_highest_priority, remove, clear, the promotion, the two demotions and of rounds of
  -- the worker the counter and the number that `base` gives are: `before` if no call was a clear,
  -- else the hits so far at the last clear.
  pub run-IsCounted :
      (before : ℕ) (m : MultiLevelCache L) (calls : List Call)
      → IsCounted before (front m)
      → IsCounted (base before m calls) (front (run m calls))
  unfolding run base
  run-IsCounted before m [] c = c
  run-IsCounted before m (first ∷ calls) c =
      run-IsCounted (mark before m first) (call m first) calls
        (Turn-IsCounted (call-Turn before m first) c)
