-- ===== src/Disk/Codec.antt =====
-- A node read back from the bytes it was written as.
use Prim.Native.Nat.{◌≤◌, ◌<◌}
use mathlib.Core.List.{append_assoc}
use native.Mathlib.Nat.{pow-suc}
use hft_radial_cache.Common.{
  ℕ, zero, suc, ◌/◌, ◌%◌, ◌^◌, ◌≡◌, refl, ap, [], ◌∷◌, ◌++◌, length, take, arith,
}
use hft_radial_cache.Common.Bytes.{Bytes}
use hft_radial_cache.Common.Int.{ℤ, pos, negsuc, pos_part, neg_part}
use hft_radial_cache.Common.Run.{ok}
use hft_radial_cache.Disk.{
  DiskNode, write_number, read_number, read_text, int_bits, bits_int, serialize_node,
  deserialize_node,
}

pub read_number-write_number :
    (size n : ℕ) (rest : Bytes)
    → n < 256 ^ size
    → read_number size (write_number size n ++ rest) ≡ ok (n, rest)
unfolding read_number write_number
read_number-write_number zero n rest small = ap (λ (m : ℕ). ok (m, rest)) (omega arith)
read_number-write_number (suc size) n rest small =
    rw (read_number-write_number size (n / 256) rest (omega (arith, pow-suc 256 size)))
      (ap (λ (m : ℕ). ok (m, rest)) (omega arith))

read_text_lem : (text rest : Bytes) → read_text (length text) (text ++ rest) ≡ (text, rest)
unfolding read_text
read_text_lem [] rest = refl
read_text_lem (byte ∷ text) rest = rw (read_text_lem text rest)

take_all : (text : Bytes) → take (length text) text ≡ text
take_all [] = refl
take_all (byte ∷ text) = ap (λ t. byte ∷ t) (take_all text)

-- The range of a 32-bit `int`.
abbrev pub IsInt : ℤ → Type 0
IsInt n = (pos_part n < 2 ^ 31) × (neg_part n ≤ 2 ^ 31)

bits_int-int_bits : (n : ℤ) → IsInt n → bits_int (int_bits n) ≡ n
unfolding bits_int int_bits pos_part neg_part
bits_int-int_bits (pos n) i = ground (arith, i.0)
bits_int-int_bits (negsuc n) i = ground (arith, i.1)

int_bits_bound : (n : ℤ) → IsInt n → int_bits n < 256 ^ 4
unfolding int_bits pos_part neg_part
int_bits_bound (pos n) i = omega (arith, i.0)
int_bits_bound (negsuc n) i = omega arith

module _ (stamp_size count_size : ℕ) where
  -- Each number fits the bytes it is written to.
  pub record Fits (node : DiskNode) : Type 0 where
    pub value : node.value < 256 ^ 8
    pub priority : IsInt node.priority
    pub timestamp : node.timestamp < 256 ^ stamp_size
    pub expiry : node.expiry < 256 ^ stamp_size
    pub last_access : node.last_access < 256 ^ stamp_size
    pub access_count : node.access_count < 256 ^ count_size
    pub symbol : length node.symbol < 256 ^ 4

  -- deserialize_node gives back the node that serialize_node wrote, and leaves what follows it.
  pub deserialize_node-serialize_node :
      (node : DiskNode) (rest : Bytes)
      → Fits node
      → deserialize_node stamp_size count_size (serialize_node stamp_size count_size node ++ rest)
        ≡ ok (node, rest)
  unfolding deserialize_node serialize_node
  deserialize_node-serialize_node node rest f =
      let whole : length node.symbol % 2 ^ 32 ≡ length node.symbol = omega (arith, f.symbol) in
      simp (
        append_assoc,
        whole,
        take_all node.symbol,
        λ (left : Bytes). read_number-write_number 8 node.value left f.value,
        λ (left : Bytes).
            read_number-write_number 4 (int_bits node.priority) left
              (int_bits_bound node.priority f.priority),
        λ (left : Bytes). read_number-write_number stamp_size node.timestamp left f.timestamp,
        λ (left : Bytes). read_number-write_number stamp_size node.expiry left f.expiry,
        λ (left : Bytes). read_number-write_number stamp_size node.last_access left f.last_access,
        λ (left : Bytes). read_number-write_number count_size node.access_count left f.access_count,
        λ (left : Bytes). read_number-write_number 4 (length node.symbol) left f.symbol,
        read_text_lem node.symbol rest,
        bits_int-int_bits node.priority f.priority,
      )
