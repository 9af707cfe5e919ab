-- ===== src/Fuzzy/Tests.antt =====
-- The distance of two words.
use mathlib.Core.List.{reverse}
use hft_radial_cache.Common.{◌≡◌, ◌↔◌, ◌≤◌, max, refl, [], ◌∷◌, length}
use hft_radial_cache.Common.Bytes.{Bytes}
use hft_radial_cache.Fuzzy.{levenshtein_distance}
use hft_radial_cache.Fuzzy.Distance.{distance, levenshtein_correct}

abbrev kitten : Bytes
kitten = b'k' ∷ b'i' ∷ b't' ∷ b't' ∷ b'e' ∷ b'n' ∷ []

abbrev sitting : Bytes
sitting = b's' ∷ b'i' ∷ b't' ∷ b't' ∷ b'i' ∷ b'n' ∷ b'g' ∷ []

three_edits : levenshtein_distance kitten sitting ≡ 3
unfolding levenshtein_distance
three_edits = refl

levenshtein_correct_example :
    (levenshtein_distance kitten sitting ≡ distance (reverse kitten) (reverse sitting))
    × ((levenshtein_distance kitten sitting ≡ 0) ↔ (kitten ≡ sitting))
    × (levenshtein_distance kitten sitting ≡ levenshtein_distance sitting kitten)
    × (levenshtein_distance kitten sitting ≤ max (length kitten) (length sitting))
levenshtein_correct_example = levenshtein_correct kitten sitting
