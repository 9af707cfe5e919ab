-- ===== src/Queue/Count.antt =====
-- How many nodes there can be, and the loops that walk over all of a chain.
use hft_radial_cache.Common.{
  ℕ, zero, suc, ◌+◌, ◌≤◌, ◌<◌, ◌≡◌, refl, sym, ap, subst, ◌∙◌, Bool-cases, inl, inr, Option, some,
  List, [], ◌∷◌, map, ◌==◌, if◌then◌else◌, length, length-append, arith,
}
use hft_radial_cache.Common.Run.{ok}
use hft_radial_cache.Queue.{Cell, Store, Queue, load, count_from, size}
use hft_radial_cache.Queue.Chain.{Items, address, Absent, Distinct, Below, Chain}
use hft_radial_cache.Queue.Shape.{addresses, Parts}
use hft_radial_cache.Queue.Fifo.{Holds}

without : ℕ → List ℕ → List ℕ
without gone [] = []
without gone (first ∷ others) =
    let rest = without gone others in if gone == first then rest else first ∷ rest

without-Absent : (at gone : ℕ) (ids : List ℕ) → Absent at ids → Absent at (without gone ids)
unfolding without
without-Absent at gone [] a = tt
without-Absent at gone (first ∷ others) a = elim (Bool-cases (gone == first)) [
  | inl same ↦ rw same (without-Absent at gone others a.1)
  | inr other ↦ rw other (a.0, without-Absent at gone others a.1)
]

without-Distinct : (gone : ℕ) (ids : List ℕ) → Distinct ids → Distinct (without gone ids)
unfolding without
without-Distinct gone [] d = tt
without-Distinct gone (first ∷ others) d = elim (Bool-cases (gone == first)) [
  | inl same ↦ rw same (without-Distinct gone others d.1)
  | inr other ↦ rw other (without-Absent first gone others d.0, without-Distinct gone others d.1)
]

without-Below : (bound : ℕ) (ids : List ℕ) → Below (suc bound) ids → Below bound (without bound ids)
unfolding without
without-Below bound [] b = tt
without-Below bound (first ∷ others) b = elim (Bool-cases (bound == first)) [
  | inl same ↦ rw same (without-Below bound others b.1)
  | inr other ↦ rw other (ground (arith, b.0), without-Below bound others b.1)
]

nothing_removed : (gone : ℕ) (ids : List ℕ) → Absent gone ids → without gone ids ≡ ids
unfolding without
nothing_removed gone [] a = refl
nothing_removed gone (first ∷ others) a = ground (arith, a.0, nothing_removed gone others a.1)

length-without :
    (gone : ℕ) (ids : List ℕ) → Distinct ids → length ids ≤ suc (length (without gone ids))
unfolding without
length-without gone [] d = omega arith
length-without gone (first ∷ others) d = elim (Bool-cases (gone == first)) [
  | inl same ↦
      let e : gone ≡ first = ground arith in
      let kept = nothing_removed gone others (subst (λ n. Absent n others) (sym e) d.0) in
      rw (same, kept) (omega arith)
  | inr other ↦ rw other (omega (arith, length-without gone others d.1))
]

-- Distinct numbers below a bound are no more than the bound.
pub at_most : (bound : ℕ) (ids : List ℕ) → Distinct ids → Below bound ids → length ids ≤ bound
at_most zero [] d b = omega arith
at_most zero (first ∷ others) d b = absurd (omega (arith, b.0))
at_most (suc bound) ids d b = omega (
  arith,
  length-without bound ids d,
  at_most bound (without bound ids) (without-Distinct bound ids d) (without-Below bound ids b),
)

pub length-map {ℓ κ} :
    {A : Type ℓ} {B : Type κ} (f : A → B) (xs : List A) → length (map f xs) ≡ length xs
length-map f [] = refl
length-map f (x ∷ xs) = ap suc (length-map f xs)

module _ {T : Type 0} where
  pub load_filled : (s : Store T) (at : ℕ) (cell : Cell T) → s at ≡ some cell → load s at ≡ ok cell
  unfolding load
  load_filled s at cell e = ground arith

  counted_all :
      (fuel : ℕ) (s : Store T) (at : Option ℕ) (items : Items T)
      → Chain s at items
      → length items < fuel
      → count_from fuel s at ≡ ok (length items)
  unfolding count_from
  counted_all zero s at items c f = absurd (omega arith)
  counted_all (suc fuel) s at [] c f = rw (c, count_from)
  counted_all (suc fuel) s at (item ∷ items) (next, start, here, rest) f =
      rw (start, count_from)
        (rw (load_filled s (item.0) _ here)
          (rw (counted_all fuel s next items rest (omega arith)) (ap ok (omega arith))))

  -- The nodes of the two chains fit the addresses given out.
  pub room :
      (q : Queue T) (dummy : ℕ × T) (items frees : Items T)
      → Parts q dummy items frees
      → length items + length frees + 1 ≤ q.unused
  room q dummy items frees p = omega (
    arith,
    at_most q.unused (addresses dummy items frees) p.distinct p.below,
    length-append (map (address {T = T}) items) (map (address {T = T}) frees),
    length-map (address {T = T}) items,
    length-map (address {T = T}) frees,
  )

  -- On a queue that holds some values, size returns how many they are.
  pub size_correct : (q : Queue T) (values : List T) → Holds values q → size q ≡ ok (length values)
  unfolding size
  size_correct q values h =
      let p = h.shape.parts in
      let (next, start, here, rest) = p.live in
      let at : q.head ≡ h.dummy.0 = cc in
      let count =
        counted_all (q.unused + 1) q.nodes next h.items rest
          (omega (arith, room q h.dummy h.items h.frees p)) in
      rw (load_filled q.nodes q.head (record { value = h.dummy.1; next = next }) (rw at here))
        (count ∙ ap ok (sym (length-map (λ i. i.1) h.items) ∙ ap length h.held))
