-- ===== src/Fuzzy/Distance.antt =====
-- The table against the recursive definition of the edit distance.
use mathlib.Core.List.{reverse, reverse_aux, reverse-reverse}
use hft_radial_cache.Common.{
  ℕ, suc, ◌+◌, ◌≤◌, min, max, ◌≡◌, ◌↔◌, refl, sym, ap, ◌∙◌, List, [], ◌∷◌, ◌==◌, if◌then◌else◌,
  length, arith,
}
use hft_radial_cache.Common.Bytes.{Bytes}
use hft_radial_cache.Fuzzy.{
  head_of, last_of, first_row, entry_of, next_row, last_row, levenshtein_distance,
}

-- The edit distance of two texts, each given from its end.
abbrev pub distance : Bytes → Bytes → ℕ
distance [] t = length t
distance (a ∷ s) [] = suc (length s)
distance (a ∷ s) (b ∷ t) =
    if a == b
    then distance s t
    else 1 + min (min (distance s (b ∷ t)) (distance (a ∷ s) t)) (distance s t)

-- The distances of one text to those between a beginning and the whole.
row_of : Bytes → Bytes → Bytes → List ℕ
row_of s t [] = distance s t ∷ []
row_of s t (b ∷ rest) = distance s t ∷ row_of s (b ∷ t) rest

head-row_of : (s t rest : Bytes) → head_of (row_of s t rest) ≡ distance s t
unfolding row_of head_of
head-row_of s t [] = refl
head-row_of s t (b ∷ rest) = refl

-- The rest of a text put behind a beginning that is given from its end.
abbrev onto : Bytes → Bytes → Bytes
onto t [] = t
onto t (b ∷ rest) = onto (b ∷ t) rest

last-row_of : (d : ℕ) (s t rest : Bytes) → last_of d (row_of s t rest) ≡ distance s (onto t rest)
unfolding row_of last_of
last-row_of d s t [] = refl
last-row_of d s t (b ∷ rest) = last-row_of (distance s t) s (b ∷ t) rest

first-row_of : (t rest : Bytes) → first_row (length t) rest ≡ row_of [] t rest
unfolding first_row row_of
first-row_of t [] = refl
first-row_of t (b ∷ rest) = ap (λ r. length t ∷ r) (first-row_of (b ∷ t) rest)

next-row_of :
    (a : ℕ) (s t rest : Bytes)
    → next_row a rest (row_of s t rest) (distance (a ∷ s) t) ≡ row_of (a ∷ s) t rest
unfolding next_row row_of entry_of
next-row_of a s t [] = refl
next-row_of a s t (b ∷ rest) =
    ap (λ r. distance (a ∷ s) t ∷ r)
      (ap
          (λ (above : ℕ).
            next_row a rest (row_of s (b ∷ t) rest)
              (entry_of a b (distance s t) above (distance (a ∷ s) t)))
          (head-row_of s (b ∷ t) rest)
        ∙ next-row_of a s (b ∷ t) rest)

distance_nil : (s : Bytes) → distance s [] ≡ length s
distance_nil [] = refl
distance_nil (a ∷ s) = refl

last_row_of : (s1 s t : Bytes) → last_row s1 (length s) t (row_of s [] t) ≡ row_of (onto s s1) [] t
unfolding last_row
last_row_of [] s t = refl
last_row_of (a ∷ s1) s t =
    ap (last_row s1 (suc (length s)) t) (next-row_of a s [] t) ∙ last_row_of s1 (a ∷ s) t

onto-reverse_aux : (t rest : Bytes) → onto t rest ≡ reverse_aux rest t
onto-reverse_aux t [] = refl
onto-reverse_aux t (b ∷ rest) = onto-reverse_aux (b ∷ t) rest

onto-reverse : (s : Bytes) → onto [] s ≡ reverse s
onto-reverse s = onto-reverse_aux [] s

distance_comm : (s t : Bytes) → distance s t ≡ distance t s
distance_comm [] [] = refl
distance_comm [] (b ∷ t) = refl
distance_comm (a ∷ s) [] = refl
distance_comm (a ∷ s) (b ∷ t) =
    ground (arith, distance_comm s t, distance_comm s (b ∷ t), distance_comm (a ∷ s) t)

distance_bound : (s t : Bytes) → distance s t ≤ max (length s) (length t)
distance_bound [] t = omega arith
distance_bound (a ∷ s) [] = omega arith
distance_bound (a ∷ s) (b ∷ t) = ground (arith, distance_bound s t)

distance_zero : (s t : Bytes) → distance s t ≡ 0 → s ≡ t
distance_zero [] [] e = refl
distance_zero [] (b ∷ t) e = absurd (omega arith)
distance_zero (a ∷ s) [] e = absurd (omega arith)
distance_zero (a ∷ s) (b ∷ t) e = ground (arith, distance_zero s t)

distance_self : (s : Bytes) → distance s s ≡ 0
distance_self [] = refl
distance_self (a ∷ s) = ground (arith, distance_self s)

table_correct : (s1 s2 : Bytes) → levenshtein_distance s1 s2 ≡ distance (reverse s1) (reverse s2)
unfolding levenshtein_distance
table_correct s1 s2 =
    ap (λ r. last_of 0 (last_row s1 0 s2 r)) (first-row_of [] s2)
    ∙ ap (last_of 0) (last_row_of s1 [] s2)
    ∙ last-row_of 0 (onto [] s1) [] s2
    ∙ ap (λ s. distance s (onto [] s2)) (onto-reverse s1)
    ∙ ap (distance (reverse s1)) (onto-reverse s2)

zero_equal : (s1 s2 : Bytes) → levenshtein_distance s1 s2 ≡ 0 → s1 ≡ s2
zero_equal s1 s2 e =
    let same = distance_zero (reverse s1) (reverse s2) (sym (table_correct s1 s2) ∙ e) in
    sym (reverse-reverse s1) ∙ ap reverse same ∙ reverse-reverse s2

length-reverse_aux : (s t : Bytes) → length (reverse_aux s t) ≡ length s + length t
length-reverse_aux [] t = omega arith
length-reverse_aux (b ∷ s) t = omega (arith, length-reverse_aux s (b ∷ t))

bounded : (s1 s2 : Bytes) → levenshtein_distance s1 s2 ≤ max (length s1) (length s2)
bounded s1 s2 = omega (
  arith,
  table_correct s1 s2,
  distance_bound (reverse s1) (reverse s2),
  length-reverse_aux s1 [],
  length-reverse_aux s2 [],
)

-- levenshtein_distance is the recursively defined edit distance of the two texts, which it reads
-- from the end; it is 0 exactly for equal texts, the same both ways, and at most the longer length.
pub levenshtein_correct :
    (s1 s2 : Bytes)
    → (levenshtein_distance s1 s2 ≡ distance (reverse s1) (reverse s2))
      × ((levenshtein_distance s1 s2 ≡ 0) ↔ (s1 ≡ s2))
      × (levenshtein_distance s1 s2 ≡ levenshtein_distance s2 s1)
      × (levenshtein_distance s1 s2 ≤ max (length s1) (length s2))
levenshtein_correct s1 s2 = (
  table_correct s1 s2,
  (zero_equal s1 s2, λ e. rw e (table_correct s2 s2 ∙ distance_self (reverse s2))),
  table_correct s1 s2 ∙ distance_comm (reverse s1) (reverse s2) ∙ sym (table_correct s2 s1),
  bounded s1 s2,
)
