-- ===== src/Replay/Bloom.antt =====
-- BloomFilter of replay.go. NewBloomFilter computes the number of bits `m` and of rounds `k` from
-- the capacity and the false positive rate in floating point; here they are the arguments.
pub mod Laws
use Prim.Native.Nat.{bit_or}
use stealthlink.Prelude.{
  Bool, Bytes, List, false, get_or, if◌then◌else◌, replicate, set, suc, true, zero, ℕ, ◌%◌, ◌*◌,
  ◌+◌, ◌/◌, ◌^◌,
}
use stealthlink.Replay.Bits.{has_bit}
use stealthlink.Replay.Hash.{hash}

pub record BloomFilter : Type 0 where
  pub bitset : List ℕ
  pub m : ℕ
  pub k : ℕ

unfoldable pub new_bloom_filter : ℕ → ℕ → BloomFilter
new_bloom_filter m k = record { bitset = replicate ((m + 63) / 64) 0; m = m; k = k }

-- (h1 + uint64(i)*h2) % m, in 64 bits.
unfoldable pub position : ℕ → ℕ → ℕ → ℕ → ℕ
position m h1 h2 i = (h1 + i * h2 % 2 ^ 64) % 2 ^ 64 % m

-- bitset[pos/64] |= 1 << (pos % 64)
unfoldable pub set_bit : List ℕ → ℕ → List ℕ
set_bit bitset pos = set bitset (pos / 64) (bit_or (get_or bitset (pos / 64) 0) (2 ^ (pos % 64)))

unfoldable pub test_bit : List ℕ → ℕ → Bool
test_bit bitset pos = has_bit (get_or bitset (pos / 64) 0) (pos % 64)

module _ (m h1 h2 : ℕ) where
  -- `left` rounds from round `i` on.
  unfoldable pub add_loop : ℕ → ℕ → List ℕ → List ℕ
  unfolding set_bit
  add_loop zero i bitset = bitset
  add_loop (suc left) i bitset = add_loop left (i + 1) (set_bit bitset (position m h1 h2 i))

  unfoldable pub contains_loop : ℕ → ℕ → List ℕ → Bool
  unfolding test_bit
  contains_loop zero i bitset = true
  contains_loop (suc left) i bitset =
      let rest = contains_loop left (i + 1) bitset in
      if test_bit bitset (position m h1 h2 i) then rest else false

unfoldable pub add : BloomFilter → Bytes → BloomFilter
unfolding add_loop
add bf bytes =
    let (h1, h2) = hash bytes in record bf { bitset = add_loop bf.m h1 h2 bf.k 0 bf.bitset }

unfoldable pub contains : BloomFilter → Bytes → Bool
unfolding contains_loop
contains bf bytes = let (h1, h2) = hash bytes in contains_loop bf.m h1 h2 bf.k 0 bf.bitset
