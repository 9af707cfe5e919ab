-- ===== src/Fuzzy.antt =====
-- src/advanced_operations.cpp: levenshtein_distance and string_similarity. A row of the table is a list; `int` entries are
-- numbers, as none exceeds the longer length, which an `int` is taken to hold.
pub mod Distance
mod Tests
use hft_radial_cache.Common.{
  ℕ, zero, suc, ◌+◌, min, max, List, [], ◌∷◌, ◌==◌, if◌then◌else◌, length,
}
use hft_radial_cache.Common.Bytes.{Bytes}
use hft_radial_cache.Common.Double.{Double, positive, zero_double}

-- The first and the last entry of a row, which is not empty.
unfoldable pub head_of : List ℕ → ℕ
head_of [] = 0
head_of (entry ∷ row) = entry

unfoldable pub last_of : ℕ → List ℕ → ℕ
last_of last [] = last
last_of last (entry ∷ row) = last_of entry row

-- dp[0][j] for j from `j` on, one more than there are bytes left.
unfoldable pub first_row : ℕ → Bytes → List ℕ
first_row j [] = j ∷ []
first_row j (byte ∷ s2) = j ∷ first_row (suc j) s2

-- dp[i][j] from dp[i - 1][j - 1], dp[i - 1][j] and dp[i][j - 1].
unfoldable pub entry_of : ℕ → ℕ → ℕ → ℕ → ℕ → ℕ
entry_of a b diagonal above left = if a == b then diagonal else 1 + min (min above left) diagonal

-- The inner loop from j on: `left` is dp[i][j - 1], and `above` the row i - 1 from j - 1 on.
unfoldable pub next_row : ℕ → Bytes → List ℕ → ℕ → List ℕ
unfolding head_of entry_of
next_row a [] above left = left ∷ []
next_row a (b ∷ s2) [] left = left ∷ []
next_row a (b ∷ s2) (diagonal ∷ above) left =
    left ∷ next_row a s2 above (entry_of a b diagonal (head_of above) left)

-- The outer loop from the row behind i on: dp[i + 1][0] is i + 1.
unfoldable pub last_row : Bytes → ℕ → Bytes → List ℕ → List ℕ
unfolding next_row
last_row [] i s2 row = row
last_row (a ∷ s1) i s2 row = last_row s1 (suc i) s2 (next_row a s2 row (suc i))

unfoldable pub levenshtein_distance : Bytes → Bytes → ℕ
unfolding last_row first_row last_of
levenshtein_distance s1 s2 = last_of 0 (last_row s1 0 s2 (first_row 0 s2))

-- The double 1.0.
abbrev pub one_double : Double
one_double = positive 0x3ff0000000000000

-- `less` stands for `1.0 - a / b` on two integers cast to double.
unfoldable pub string_similarity : (ℕ → ℕ → Double) → Bytes → Bytes → Double
unfolding levenshtein_distance
string_similarity less [] [] = one_double
string_similarity less [] (b ∷ s2) = zero_double
string_similarity less (a ∷ s1) [] = zero_double
string_similarity less (a ∷ s1) (b ∷ s2) =
    less (levenshtein_distance (a ∷ s1) (b ∷ s2)) (max (length (a ∷ s1)) (length (b ∷ s2)))
