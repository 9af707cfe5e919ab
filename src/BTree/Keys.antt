-- ===== src/BTree/Keys.antt =====
-- The order of the keys, and the two scans of a node's keys.
use hft_radial_cache.Common.{◌≡◌, true, false, List, [], ◌∷◌, arith}
use hft_radial_cache.Common.Bytes.{
  Bytes, bytes_eq, bytes_lt, bytes_eq→eq, bytes_eq_self, bytes_lt_irrefl, bytes_lt_trans,
  bytes_lt_total,
}
use hft_radial_cache.Common.Double.{Double, double_eq, double_lt}
use hft_radial_cache.BTree.{Entry, is_key, is_less, is_greater}

-- The value is not a NaN.
abbrev pub IsNumber : Double → Type 0
IsNumber v = double_eq v v ≡ true

abbrev pub All {κ} : {A : Type 0} → (A → Type κ) → List A → Type κ
All P [] = Unit
All P (x ∷ xs) = P x × All P xs

-- No key is less than one before it.
abbrev pub IsSorted : List Entry → Type 0
IsSorted [] = Unit
IsSorted (k ∷ keys) = All (λ l. is_less k.symbol k.value l ≡ false) keys × IsSorted keys

module _ (s : Bytes) (v : Double) (k : Entry) where
  lt_both : bytes_lt k.symbol s ≡ true → bytes_lt s k.symbol ≡ true → ⊥
  lt_both p q = cc (bytes_lt_trans k.symbol s k.symbol p q, bytes_lt_irrefl k.symbol)

  lt_eq : bytes_lt k.symbol s ≡ true → bytes_eq k.symbol s ≡ true → ⊥
  lt_eq p q = cc (rw (bytes_eq→eq k.symbol s q) at p, bytes_lt_irrefl s)

  gt_eq : bytes_lt s k.symbol ≡ true → bytes_eq k.symbol s ≡ true → ⊥
  gt_eq p q = cc (rw (bytes_eq→eq k.symbol s q) at p, bytes_lt_irrefl s)

  -- A key that is less is neither equal nor greater.
  pub less_only : is_less s v k ≡ true → (is_key s v k ≡ false) × (is_greater s v k ≡ false)
  unfolding is_less is_key is_greater double_lt double_eq
  less_only h = ground (arith, lt_both, lt_eq, gt_eq)

  pub key_only : is_key s v k ≡ true → (is_less s v k ≡ false) × (is_greater s v k ≡ false)
  unfolding is_less is_key is_greater double_lt double_eq
  key_only h = ground (arith, lt_both, lt_eq, gt_eq)

  -- One of the three holds of two numbers.
  pub trichotomy :
      IsNumber v
      → IsNumber k.value
      → is_less s v k ≡ false
      → is_greater s v k ≡ false
      → is_key s v k ≡ true
  unfolding is_less is_key is_greater double_lt double_eq
  trichotomy m n h g = ground (arith, bytes_lt_total k.symbol s)

-- `b < e` and `e ≤ k` give `b < k`.
pub less_le_trans :
    (e k b : Entry)
    → IsNumber e.value
    → IsNumber k.value
    → IsNumber b.value
    → is_less e.symbol e.value b ≡ true
    → is_less e.symbol e.value k ≡ false
    → is_less k.symbol k.value b ≡ true
unfolding is_less double_lt double_eq
less_le_trans e k b ne nk nb p q = ground (
  arith,
  bytes_eq→eq k.symbol e.symbol,
  bytes_eq→eq b.symbol e.symbol,
  bytes_eq_self e.symbol,
  bytes_lt_total k.symbol e.symbol,
  bytes_lt_trans b.symbol e.symbol k.symbol,
)

-- What is not less than a key is not less than what stands before the key.
pub not_less_after_one :
    (e k : Entry) (keys : List Entry)
    → IsNumber e.value
    → IsNumber k.value
    → All (λ l. IsNumber l.value) keys
    → is_less e.symbol e.value k ≡ false
    → All (λ l. is_less k.symbol k.value l ≡ false) keys
    → All (λ l. is_less e.symbol e.value l ≡ false) keys
not_less_after_one e k [] ne nk n h s = tt
not_less_after_one e k (l ∷ keys) ne nk n h s =
    (ground (arith, less_le_trans e k l), not_less_after_one e k keys ne nk n.1 h s.1)

pub less_asym :
    (e k : Entry) → is_less e.symbol e.value k ≡ true → is_less k.symbol k.value e ≡ false
unfolding is_less double_lt
less_asym e k h = ground (
  arith,
  bytes_eq→eq k.symbol e.symbol,
  bytes_eq→eq e.symbol k.symbol,
  bytes_lt_irrefl e.symbol,
  bytes_lt_irrefl k.symbol,
  bytes_lt_trans k.symbol e.symbol k.symbol,
)

-- No key equals what is less than one before it.
pub past_greater :
    (s : Bytes) (v : Double) (k l : Entry)
    → is_greater s v k ≡ true
    → is_less k.symbol k.value l ≡ false
    → is_key s v l ≡ false
unfolding is_less is_greater is_key double_lt double_eq
past_greater s v k l g h =
    ground (arith, bytes_eq→eq l.symbol s, bytes_eq→eq k.symbol s, bytes_eq_self s)

pub self_key : (e : Entry) → IsNumber e.value → is_key e.symbol e.value e ≡ true
unfolding is_key
self_key e n = rw (bytes_eq_self e.symbol) n
