-- ===== src/Replay/Filter.antt =====
-- ReplayFilter of replay.go: the current and the previous Bloom filter. CheckAndAdd looks under
-- the read lock, then looks again and adds under the write lock; the two phases are two
-- functions, since other calls may run between them.
pub mod Detection
use stealthlink.Prelude.{
  Bool, Bytes, List, Option, [], false, if◌then◌else◌, none, some, true, ℕ, ◌∷◌,
}
use stealthlink.Replay.Bloom.{BloomFilter, new_bloom_filter, add, contains}

-- `m` and `k` stand for the capacity and the rate from which each new filter is sized.
pub record ReplayFilter : Type 0 where
  pub current : BloomFilter
  pub previous : Option BloomFilter
  pub m : ℕ
  pub k : ℕ

unfoldable pub new_replay_filter : ℕ → ℕ → ReplayFilter
new_replay_filter m k = record { current = new_bloom_filter m k; previous = none; m = m; k = k }

abbrev pub contained_in : Option BloomFilter → Bytes → Bool
contained_in none key = false
contained_in (some bf) key = contains bf key

-- The look under either lock.
unfoldable pub seen : ReplayFilter → Bytes → Bool
seen rf key = if contains rf.current key then true else contained_in rf.previous key

-- The second phase, which is atomic.
unfoldable pub check_and_add_locked : ReplayFilter → Bytes → ReplayFilter × Bool
unfolding seen
check_and_add_locked rf key =
    if seen rf key then (rf, true) else (record rf { current = add rf.current key }, false)

-- A call that no other call interrupts.
unfoldable pub check_and_add : ReplayFilter → Bytes → ReplayFilter × Bool
unfolding check_and_add_locked
check_and_add rf key = if seen rf key then (rf, true) else check_and_add_locked rf key

unfoldable pub rotate : ReplayFilter → ReplayFilter
rotate rf = record rf { current = new_bloom_filter rf.m rf.k; previous = some rf.current }

-- What changes a filter: the second phase of a call, and a tick of autoRotate. The first phase
-- changes nothing, so every interleaving of calls is a list of these.
pub data Action : Type 0 where
  adds : Bytes → Action
  rotates : Action

unfoldable pub act : ReplayFilter → Action → ReplayFilter
unfolding check_and_add_locked rotate
act rf (adds key) = (check_and_add_locked rf key).0
act rf rotates = rotate rf

unfoldable pub acts : ReplayFilter → List Action → ReplayFilter
unfolding act
acts rf [] = rf
acts rf (a ∷ as') = acts (act rf a) as'
