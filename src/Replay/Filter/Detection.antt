-- ===== src/Replay/Filter/Detection.antt =====
-- A ReplayFilter of replay.go under any interleaving of its callers.
use stealthlink.Prelude.{Bytes, List, [], arith, false, suc, true, ℕ, ◌<◌, ◌∷◌, ◌≡◌, ◌≤◌}
use stealthlink.Replay.Bloom.{contains}
use stealthlink.Replay.Bloom.Laws.{
  contains-new_bloom_filter, contains-add_self, IsSized, contains-add_mono, add-IsSized,
  new_bloom_filter-IsSized,
}
use stealthlink.Replay.Filter.{
  check_and_add, new_replay_filter, ReplayFilter, contained_in, seen, check_and_add_locked, rotate,
  Action, adds, rotates, act, acts,
}

pub record IsReady (rf : ReplayFilter) : Type 0 where
  pub some_bits : 0 < rf.m
  pub sized : IsSized rf.current

act-IsReady : (rf : ReplayFilter) (a : Action) → IsReady rf → IsReady (act rf a)
unfolding act check_and_add_locked rotate
act-IsReady rf (adds key) v = ground (arith, add-IsSized rf.current key v.sized)
act-IsReady rf rotates v = record {
  some_bits = v.some_bits;
  sized = new_bloom_filter-IsSized rf.m rf.k v.some_bits;
}

abbrev pub rotations : List Action → ℕ
rotations [] = 0
rotations (adds key ∷ as') = rotations as'
rotations (rotates ∷ as') = suc (rotations as')

-- A key in the current filter stays there while nothing rotates; a key in either is seen.
act-current :
    (rf : ReplayFilter) (key other : Bytes)
    → contains rf.current key ≡ true
    → contains (act rf (adds other)).current key ≡ true
unfolding act check_and_add_locked
act-current rf key other h = ground (arith, contains-add_mono rf.current key other h)

act-previous : (rf : ReplayFilter) (other : Bytes) → (act rf (adds other)).previous ≡ rf.previous
unfolding act check_and_add_locked
act-previous rf other = ground arith

acts-previous :
    (rf : ReplayFilter) (as' : List Action) (key : Bytes)
    → contained_in rf.previous key ≡ true
    → rotations as' ≡ 0
    → contained_in (acts rf as').previous key ≡ true
unfolding acts
acts-previous rf [] key h n = h
acts-previous rf (adds other ∷ as') key h n =
    acts-previous (act rf (adds other)) as' key (rw (act-previous rf other) h) n
acts-previous rf (rotates ∷ as') key h n = absurd (omega arith)

seen_previous :
    (rf : ReplayFilter) (key : Bytes) → contained_in rf.previous key ≡ true → seen rf key ≡ true
unfolding seen
seen_previous rf key h = ground arith

acts-seen :
    (rf : ReplayFilter) (as' : List Action) (key : Bytes)
    → contains rf.current key ≡ true
    → rotations as' ≤ 1
    → seen (acts rf as') key ≡ true
unfolding acts
acts-seen rf [] key h n = unfold seen in rw h
acts-seen rf (adds other ∷ as') key h n =
    acts-seen (act rf (adds other)) as' key (act-current rf key other h) n
acts-seen rf (rotates ∷ as') key h n =
    seen_previous (acts (act rf rotates) as') key
      (acts-previous (act rf rotates) as' key (unfold act rotate in h) (omega arith))

accepted_current :
    (rf : ReplayFilter) (key : Bytes)
    → IsReady rf
    → (check_and_add_locked rf key).1 ≡ false
    → contains (check_and_add_locked rf key).0.current key ≡ true
unfolding check_and_add_locked
accepted_current rf key v h = ground (arith, contains-add_self rf.current key v.sized)

-- Once the second phase of a call has accepted a key, every later call with it is refused, after
-- any calls of others and at most one rotation: a whole call, and also one whose first phase ran
-- earlier, before the key was there.
pub replay_refused :
    (rf : ReplayFilter) (key : Bytes) (as' : List Action)
    → IsReady rf
    → (check_and_add_locked rf key).1 ≡ false
    → rotations as' ≤ 1
    → ((check_and_add (acts (check_and_add_locked rf key).0 as') key).1 ≡ true)
      × ((check_and_add_locked (acts (check_and_add_locked rf key).0 as') key).1 ≡ true)
replay_refused rf key as' v h n =
    let there = acts-seen (check_and_add_locked rf key).0 as' key (accepted_current rf key v h) n in
    (unfold check_and_add in rw there, unfold check_and_add_locked in rw there)

-- Two rotations with no call between them forget every key, if there is a round at all: the key
-- is accepted again.
pub rotated_out :
    (rf : ReplayFilter) (key : Bytes)
    → 0 < rf.k
    → (check_and_add (rotate (rotate rf)) key).1 ≡ false
unfolding check_and_add check_and_add_locked seen rotate
rotated_out rf key h = ground (arith, contains-new_bloom_filter rf.m rf.k key h)

-- A filter that was made with room for a bit stays ready through all calls and rotations: the
-- bit array keeps its size and its words stay within 64 bits.
pub acts-IsReady : (rf : ReplayFilter) (as' : List Action) → IsReady rf → IsReady (acts rf as')
unfolding acts
acts-IsReady rf [] v = v
acts-IsReady rf (a ∷ as') v = acts-IsReady (act rf a) as' (act-IsReady rf a v)

pub new_replay_filter-IsReady : (m k : ℕ) → 0 < m → IsReady (new_replay_filter m k)
unfolding new_replay_filter
new_replay_filter-IsReady m k h = record { some_bits = h; sized = new_bloom_filter-IsSized m k h }
