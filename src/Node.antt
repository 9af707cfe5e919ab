-- ===== src/Node.antt =====
-- include/node.hpp: Node. Every read of the clock is an argument.
use hft_radial_cache.Common.{ℕ, Bool, ltb}
use hft_radial_cache.Common.Int.{ℤ}
use hft_radial_cache.Common.Double.{Double}
use hft_radial_cache.Common.Words.{sub64}

pub record Node : Type 0 where
  pub value : Double
  pub priority : ℤ
  pub timestamp_ns : ℕ
  pub expiry_time_ns : ℕ

-- `to_ns` stands for the conversion `static_cast<uint64_t>(expiry * 1'000'000'000)` of a double.
unfoldable pub new : (Double → ℕ) → Double → ℤ → Double → ℕ → Node
new to_ns value priority expiry now = record {
  value = value;
  priority = priority;
  timestamp_ns = now;
  expiry_time_ns = to_ns expiry;
}

unfoldable pub is_expired : ℕ → Node → Bool
is_expired now n = ltb n.expiry_time_ns (sub64 now n.timestamp_ns)
