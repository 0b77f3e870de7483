-- ===== src/Stealth/Throttle.antt =====
-- When the throttle of stealth.go begins and ends.
use mathlib.Core.Path.{subst}
use stealthlink.Prelude.{
  All, All-append, All-drop, Bool-cases, List, [], ap, append_assoc, arith, drop, drop-append,
  false, inl, inr, length, length-append, length-drop, length-replicate, ltb, not, refl, replicate,
  sym, true, ℕ, ◌*◌, ◌++◌, ◌-◌, ◌<◌, ◌||◌, ◌∙◌, ◌∷◌, ◌≡◌, ◌≤◌,
}
use stealthlink.Stealth.History.{
  last_fifty-append, last_fifty, latency_history-record_latencies, older_avg, recent_avg, remembers,
  record_latency_cases, remember-last_fifty, durations,
}
use stealthlink.Stealth.{
  StealthConfig, remember, record_latency, millisecond, record_latencies, adapt, avg_duration,
  total, StealthEngine,
}

abbrev pub IsQuick : ℕ → Type 0
IsQuick d = d ≤ 500 * millisecond

total-IsQuick : (ds : List ℕ) → All IsQuick ds → total ds ≤ length ds * (500 * millisecond)
unfolding total
total-IsQuick [] _ = omega arith
total-IsQuick (d ∷ ds) (quick, all) = omega (arith, quick, total-IsQuick ds all)

avg_duration_five : (ds : List ℕ) → length ds ≡ 5 → All IsQuick ds → IsQuick (avg_duration ds)
unfolding avg_duration
avg_duration_five [] five _ = absurd (omega (arith, five))
avg_duration_five (d ∷ ds) five all = rw five (omega (arith, total-IsQuick (d ∷ ds) all, five))

-- Not throttled, and no latency of the history above half a second.
abbrev pub IsCalm : StealthEngine → Type 0
IsCalm se = (se.throttled ≡ false) × All IsQuick se.latency_history

adapt_calm :
    (se : StealthEngine) (r o : ℕ) (draws : ℕ → ℕ)
    → IsQuick r
    → se.throttled ≡ false
    → adapt se r o draws ≡ se
unfolding adapt
adapt_calm se r o draws quick idle = ground (arith, quick, idle)

record_latency-IsCalm :
    (se : StealthEngine) (d : ℕ) (draws : ℕ → ℕ)
    → IsQuick d
    → IsCalm se
    → IsCalm (record_latency se d draws)
record_latency-IsCalm se d draws quick (idle, all) =
    let history = remember se.latency_history d in
    let longer = se.latency_history ++ d ∷ [] in
    let all_longer = All-append IsQuick se.latency_history (d ∷ []) all (quick, tt) in
    let all_history : All IsQuick history =
      subst (λ ds. All IsQuick ds) (sym (remember-last_fifty se.latency_history d))
        (All-drop IsQuick (length longer - 50) longer all_longer) in
    elim (record_latency_cases se d draws) [
      | inl kept ↦ subst (λ x. IsCalm x) (sym kept) (idle, all_history)
      | inr (enough, adapts) ↦
          let five : length (drop (length history - 5) history) ≡ 5 =
            omega (arith, length-drop (length history - 5) history, enough) in
          let recent_quick =
            avg_duration_five (drop (length history - 5) history) five
              (All-drop IsQuick (length history - 5) history all_history) in
          let same =
            adapt_calm (remembers se d) (recent_avg history) (older_avg history) draws recent_quick
              idle in
          subst (λ x. IsCalm x) (sym (adapts ∙ same)) (idle, all_history)
    ]

-- An engine that is not throttled stays so as long as no latency is above half a second, whatever
-- their order, also if they grow more than threefold.
pub throttled-record_latencies :
    (se : StealthEngine) (rs : List (ℕ × (ℕ → ℕ)))
    → IsCalm se
    → All IsQuick (durations rs)
    → (record_latencies se rs).throttled ≡ false
unfolding record_latencies
throttled-record_latencies se [] calm all = calm.0
throttled-record_latencies se ((d, draws) ∷ rest) calm (quick, all) =
    throttled-record_latencies (record_latency se d draws) rest
      (record_latency-IsCalm se d draws quick calm) all

config-adapt :
    (se : StealthEngine) (r o : ℕ) (draws : ℕ → ℕ) → (adapt se r o draws).config ≡ se.config
unfolding adapt
config-adapt se r o draws = ground arith

config-record_latency :
    (se : StealthEngine) (d : ℕ) (draws : ℕ → ℕ) → (record_latency se d draws).config ≡ se.config
config-record_latency se d draws = elim (record_latency_cases se d draws) [
  | inl kept ↦ ap (λ (x : StealthEngine). x.config) kept
  | inr (enough, adapts) ↦
      ap (λ (x : StealthEngine). x.config) adapts
      ∙ config-adapt (remembers se d) (recent_avg (remember se.latency_history d))
          (older_avg (remember se.latency_history d)) draws
]

config-record_latencies :
    (se : StealthEngine) (rs : List (ℕ × (ℕ → ℕ))) → (record_latencies se rs).config ≡ se.config
unfolding record_latencies
config-record_latencies se [] = refl
config-record_latencies se ((d, draws) ∷ rest) =
    config-record_latencies (record_latency se d draws) rest ∙ config-record_latency se d draws

-- Forty-nine equal latencies and one more fill the history.
filled_history :
    (se : StealthEngine) (rs : List (ℕ × (ℕ → ℕ))) (d : ℕ)
    → length se.latency_history ≤ 50
    → durations rs ≡ replicate 49 d
    → remember (record_latencies se rs).latency_history d ≡ replicate 50 d
filled_history se rs d few same =
    let h = se.latency_history in
    let so_far = latency_history-record_latencies se rs few in
    let size : length (h ++ replicate 50 d) - 50 ≡ length h =
      omega (arith, length-append h (replicate 50 d), length-replicate 50 d) in
    remember-last_fifty (record_latencies se rs).latency_history d
    ∙ ap (λ (ds : List ℕ). last_fifty (ds ++ d ∷ [])) so_far
    ∙ ap (λ (ds : List ℕ). last_fifty (last_fifty (h ++ ds) ++ d ∷ [])) same
    ∙ last_fifty-append (h ++ replicate 49 d) (d ∷ [])
    ∙ ap (λ (ds : List ℕ). last_fifty ds) (append_assoc h (replicate 49 d) (d ∷ []))
    ∙ ap (λ (n : ℕ). drop n (h ++ replicate 50 d)) size
    ∙ drop-append (length h) h (replicate 50 d) refl

adapt_even :
    (se : StealthEngine) (d : ℕ) (draws : ℕ → ℕ) → 0 < d → (adapt se d d draws).throttled ≡ false
unfolding adapt
adapt_even se d draws some_time =
    let steady : ltb (d * 3) d ≡ false = ground arith in
    let over : ltb d (d * 2) ≡ true = ground arith in
    elim (Bool-cases se.throttled) [
      | inl on ↦ ground (arith, steady, over, on)
      | inr idle ↦ ground (arith, steady, over, idle)
    ]

record_latency-adapt :
    (se : StealthEngine) (d : ℕ) (draws : ℕ → ℕ)
    → se.config.adaptive_throttling ≡ true
    → 10 ≤ length (remember se.latency_history d)
    → record_latency se d draws
      ≡ adapt
          (remembers se d)
          (recent_avg (remember se.latency_history d))
          (older_avg (remember se.latency_history d))
          draws
unfolding record_latency
record_latency-adapt se d draws on enough =
    let looks : (not se.config.adaptive_throttling
          || ltb (length (remember se.latency_history d)) 10)
        ≡ false =
      ground (arith, on, enough) in
    rw looks refl

recent_avg_even : (d : ℕ) → recent_avg (replicate 50 d) ≡ d
unfolding avg_duration total
recent_avg_even d = omega arith

older_avg_even : (d : ℕ) → older_avg (replicate 50 d) ≡ d
unfolding avg_duration total
older_avg_even d = omega arith

-- A throttle ends: whatever the state of an engine that throttles, once fifty latencies in a row
-- have been the same, and not zero, it is not throttled.
pub record_latency_recovers :
    (se : StealthEngine) (rs : List (ℕ × (ℕ → ℕ))) (d : ℕ) (draws : ℕ → ℕ)
    → length se.latency_history ≤ 50
    → se.config.adaptive_throttling ≡ true
    → 0 < d
    → durations rs ≡ replicate 49 d
    → (record_latency (record_latencies se rs) d draws).throttled ≡ false
record_latency_recovers se rs d draws few adaptive some_time same =
    let last = record_latencies se rs in
    let on : last.config.adaptive_throttling ≡ true =
      ap (λ (c : StealthConfig). c.adaptive_throttling) (config-record_latencies se rs)
      ∙ adaptive in
    let filled = filled_history se rs d few same in
    let enough : 10 ≤ length (remember last.latency_history d) = rw filled (omega arith) in
    let recent = ap (λ (ds : List ℕ). recent_avg ds) filled ∙ recent_avg_even d in
    let older = ap (λ (ds : List ℕ). older_avg ds) filled ∙ older_avg_even d in
    ap (λ (x : StealthEngine). x.throttled)
      (record_latency-adapt last d draws on enough
        ∙ ap
            (λ (r : ℕ).
              adapt (remembers last d) r (older_avg (remember last.latency_history d)) draws)
            recent
        ∙ ap (λ (o : ℕ). adapt (remembers last d) d o draws) older)
    ∙ adapt_even (remembers last d) d draws some_time
