-- ===== src/Replay/Bloom/Laws.antt =====
-- The bits of a Bloom filter of replay.go under Add and Contains.
use Prim.Native.Nat.{bit_and-bitwise}
use native.Mathlib.Nat.{pow-le-pow_right}
use stealthlink.Prelude.{
  All, Bytes, List, [], ap, arith, false, get_or, length, length-replicate, refl, replicate, set,
  suc, true, zero, ℕ, ◌%◌, ◌+◌, ◌/◌, ◌<◌, ◌^◌, ◌∙◌, ◌∷◌, ◌≡◌, ◌≤◌,
}
use stealthlink.Replay.Hash.{hash}
use Prim.Native.Nat.{bit_or}
use stealthlink.Replay.Bits.{has_bit, has_bit-or_mono, has_bit-or_self, bit_or-lt}
use stealthlink.Replay.Bloom.{
  BloomFilter, new_bloom_filter, position, set_bit, test_bit, add_loop, contains_loop, add,
  contains,
}

-- The bit array has a word for each position, and each word is of 64 bits.
pub record IsSized (bf : BloomFilter) : Type 0 where
  pub some_bits : 0 < bf.m
  pub covers : length bf.bitset ≡ (bf.m + 63) / 64
  pub words : All (λ w. w < 2 ^ 64) bf.bitset

word_mono :
    (xs : List ℕ) (i j x b : ℕ)
    → has_bit (get_or xs j 0) b ≡ true
    → has_bit (get_or (set xs i (bit_or (get_or xs i 0) x)) j 0) b ≡ true
word_mono [] i j x b h = h
word_mono (w ∷ xs) zero zero x b h = has_bit-or_mono w x b h
word_mono (w ∷ xs) zero (suc j) x b h = h
word_mono (w ∷ xs) (suc i) zero x b h = h
word_mono (w ∷ xs) (suc i) (suc j) x b h = word_mono xs i j x b h

word_self : (xs : List ℕ) (i v : ℕ) → i < length xs → get_or (set xs i v) i 0 ≡ v
word_self [] i v h = absurd (omega arith)
word_self (w ∷ xs) zero v h = refl
word_self (w ∷ xs) (suc i) v h = word_self xs i v (omega arith)

length-set : (xs : List ℕ) (i v : ℕ) → length (set xs i v) ≡ length xs
length-set [] i v = refl
length-set (w ∷ xs) zero v = refl
length-set (w ∷ xs) (suc i) v = ap suc (length-set xs i v)

All-set : (P : ℕ → Type 0) (xs : List ℕ) (i v : ℕ) → All P xs → P v → All P (set xs i v)
All-set P [] i v h k = tt
All-set P (w ∷ xs) zero v h k = (k, h.1)
All-set P (w ∷ xs) (suc i) v h k = (h.0, All-set P xs i v h.1 k)

All-get_or : (P : ℕ → Type 0) (xs : List ℕ) (i d : ℕ) → All P xs → P d → P (get_or xs i d)
All-get_or P [] i d h k = k
All-get_or P (w ∷ xs) zero d h k = h.0
All-get_or P (w ∷ xs) (suc i) d h k = All-get_or P xs i d h.1 k

set_bit_mono :
    (bitset : List ℕ) (p q : ℕ) → test_bit bitset p ≡ true → test_bit (set_bit bitset q) p ≡ true
unfolding test_bit set_bit
set_bit_mono bitset p q h = word_mono bitset (q / 64) (p / 64) (2 ^ (q % 64)) (p % 64) h

set_bit_self :
    (bitset : List ℕ) (p : ℕ) → p / 64 < length bitset → test_bit (set_bit bitset p) p ≡ true
unfolding test_bit set_bit
set_bit_self bitset p h =
    rw (word_self bitset (p / 64) (bit_or (get_or bitset (p / 64) 0) (2 ^ (p % 64))) h)
      (has_bit-or_self (get_or bitset (p / 64) 0) (p % 64))

length-set_bit : (bitset : List ℕ) (p : ℕ) → length (set_bit bitset p) ≡ length bitset
unfolding set_bit
length-set_bit bitset p = length-set bitset (p / 64) _

shift_fits : (i : ℕ) → i < 64 → 2 ^ i < 2 ^ 64
shift_fits i h =
    let bound : 2 ^ i ≤ 2 ^ 63 =
      pow-le-pow_right {n = 2} (omega arith) {i = i} {j = 63} (omega arith) in
    omega arith

set_bit-words :
    (bitset : List ℕ) (p : ℕ)
    → All (λ w. w < 2 ^ 64) bitset
    → All (λ w. w < 2 ^ 64) (set_bit bitset p)
unfolding set_bit
set_bit-words bitset p h = All-set _ bitset (p / 64) _ h (
    bit_or-lt 64 _ _ (All-get_or (λ w. w < 2 ^ 64) bitset (p / 64) 0 h (omega arith))
      (shift_fits (p % 64) (omega arith)))

position-lt : (m h1 h2 i : ℕ) → 0 < m → position m h1 h2 i < m
unfolding position
position-lt m h1 h2 i h = omega arith

-- The index of the source never leaves the array.
pub position_in_range : (m h1 h2 i : ℕ) → 0 < m → position m h1 h2 i / 64 < (m + 63) / 64
position_in_range m h1 h2 i h = omega (arith, position-lt m h1 h2 i h)

module _ (m h1 h2 : ℕ) where
  add_loop_mono :
      (left i : ℕ) (bitset : List ℕ) (p : ℕ)
      → test_bit bitset p ≡ true
      → test_bit (add_loop m h1 h2 left i bitset) p ≡ true
  unfolding add_loop
  add_loop_mono zero i bitset p h = h
  add_loop_mono (suc left) i bitset p h =
      add_loop_mono left (i + 1) _ p (set_bit_mono bitset p (position m h1 h2 i) h)

  contains_loop-add_loop :
      (left i : ℕ) (bitset : List ℕ)
      → 0 < m
      → length bitset ≡ (m + 63) / 64
      → contains_loop m h1 h2 left i (add_loop m h1 h2 left i bitset) ≡ true
  unfolding contains_loop add_loop
  contains_loop-add_loop zero i bitset h n = refl
  contains_loop-add_loop (suc left) i bitset h n =
      let inside : position m h1 h2 i / 64 < length bitset = rw n (position_in_range m h1 h2 i h) in
      let own =
        add_loop_mono left (i + 1) (set_bit bitset (position m h1 h2 i)) (position m h1 h2 i)
          (set_bit_self bitset (position m h1 h2 i) inside) in
      rw own
        (contains_loop-add_loop left (i + 1) _ h (length-set_bit bitset (position m h1 h2 i) ∙ n))

  add_loop-sized :
      (left i : ℕ) (bitset : List ℕ)
      → All (λ w. w < 2 ^ 64) bitset
      → (length (add_loop m h1 h2 left i bitset) ≡ length bitset)
        × All (λ w. w < 2 ^ 64) (add_loop m h1 h2 left i bitset)
  unfolding add_loop
  add_loop-sized zero i bitset h = (refl, h)
  add_loop-sized (suc left) i bitset h =
      let p = position m h1 h2 i in
      let (n, w) = add_loop-sized left (i + 1) (set_bit bitset p) (set_bit-words bitset p h) in
      (n ∙ length-set_bit bitset p, w)

-- Whatever else is added, a key stays.
contains_loop_mono :
    (m h1 h2 left i : ℕ) (old new : List ℕ)
    → ((p : ℕ) → test_bit old p ≡ true → test_bit new p ≡ true)
    → contains_loop m h1 h2 left i old ≡ true
    → contains_loop m h1 h2 left i new ≡ true
unfolding contains_loop
contains_loop_mono m h1 h2 zero i old new keep h = refl
contains_loop_mono m h1 h2 (suc left) i old new keep h =
    ground (arith, keep (position m h1 h2 i), contains_loop_mono m h1 h2 left (i + 1) old new keep)

-- A key that was added is found.
pub contains-add_self :
    (bf : BloomFilter) (key : Bytes) → IsSized bf → contains (add bf key) key ≡ true
unfolding contains add
contains-add_self bf key v =
    contains_loop-add_loop bf.m (hash key).0 (hash key).1 bf.k 0 bf.bitset v.some_bits v.covers

-- A key that was found is found after any other is added.
pub contains-add_mono :
    (bf : BloomFilter) (key other : Bytes)
    → contains bf key ≡ true
    → contains (add bf other) key ≡ true
unfolding contains add
contains-add_mono bf key other h =
    contains_loop_mono bf.m (hash key).0 (hash key).1 bf.k 0 bf.bitset _
      (λ p. add_loop_mono bf.m (hash other).0 (hash other).1 bf.k 0 bf.bitset p) h

pub add-IsSized : (bf : BloomFilter) (key : Bytes) → IsSized bf → IsSized (add bf key)
unfolding add
add-IsSized bf key v =
    let (n, w) = add_loop-sized bf.m (hash key).0 (hash key).1 bf.k 0 bf.bitset v.words in
    record { some_bits = v.some_bits; covers = n ∙ v.covers; words = w }

All-replicate : (n : ℕ) → All (λ w. w < 2 ^ 64) (replicate n 0)
All-replicate zero = tt
All-replicate (suc n) = (omega arith, All-replicate n)

pub new_bloom_filter-IsSized : (m k : ℕ) → 0 < m → IsSized (new_bloom_filter m k)
unfolding new_bloom_filter
new_bloom_filter-IsSized m k h = record {
  some_bits = h;
  covers = length-replicate ((m + 63) / 64) 0;
  words = All-replicate ((m + 63) / 64);
}

no_word : (n i : ℕ) → get_or {A = ℕ} (replicate n 0) i 0 ≡ 0
no_word zero i = refl
no_word (suc n) zero = refl
no_word (suc n) (suc i) = no_word n i

no_bit : (i : ℕ) → has_bit 0 i ≡ false
no_bit i = rw (bit_and-bitwise 0 (2 ^ i))

-- A fresh filter finds nothing, given at least one round.
pub contains-new_bloom_filter :
    (m k : ℕ) (key : Bytes) → 0 < k → contains (new_bloom_filter m k) key ≡ false
unfolding contains new_bloom_filter
contains-new_bloom_filter m zero key h = absurd (omega arith)
contains-new_bloom_filter m (suc k) key h =
    let p = position m (hash key).0 (hash key).1 0 in
    let clear : test_bit (replicate ((m + 63) / 64) 0) p ≡ false =
      unfold test_bit in rw (no_word ((m + 63) / 64) (p / 64)) (no_bit (p % 64)) in
    rw clear
