-- ===== src/Stealth/History.antt =====
-- The history of latencies of stealth.go.
use stealthlink.Prelude.{
  Bool-cases, List, [], ap, append-nil, append_assoc, arith, drop, drop-drop, drop_within, inl, inr,
  length, length-append, length-drop, ltb, not, refl, sym, take, ℕ, ◌++◌, ◌+◌, ◌-◌, ◌||◌, ◌∙◌, ◌∷◌,
  ◌≡◌, ◌≤◌, ◌⊎◌,
}
use stealthlink.Stealth.{
  record_latencies, remember, adapt, StealthEngine, record_latency, avg_duration,
}

abbrev pub last_fifty : List ℕ → List ℕ
last_fifty ds = drop (length ds - 50) ds

abbrev pub durations : List (ℕ × (ℕ → ℕ)) → List ℕ
durations [] = []
durations ((d, _) ∷ rest) = d ∷ durations rest

pub last_fifty-append : (xs ys : List ℕ) → last_fifty (last_fifty xs ++ ys) ≡ last_fifty (xs ++ ys)
last_fifty-append xs ys =
    let k = length xs - 50 in
    let joined : drop k xs ++ ys ≡ drop k (xs ++ ys) = sym (drop_within k xs ys (omega arith)) in
    let both = length-append xs ys in
    let left = length-drop k (xs ++ ys) in
    let sum : k + (length (drop k (xs ++ ys)) - 50) ≡ length (xs ++ ys) - 50 =
      omega (arith, both, left) in
    ap (λ (zs : List ℕ). last_fifty zs) joined
    ∙ drop-drop k (length (drop k (xs ++ ys)) - 50) (xs ++ ys)
    ∙ ap (λ (n : ℕ). drop n (xs ++ ys)) sum

pub remember-last_fifty :
    (history : List ℕ) (d : ℕ) → remember history d ≡ last_fifty (history ++ d ∷ [])
unfolding remember
remember-last_fifty history d =
    let longer = history ++ d ∷ [] in
    elim (Bool-cases (ltb 50 (length longer))) [
      | inl long ↦ rw long refl
      | inr short ↦
          let none_left : length longer - 50 ≡ 0 = ground (arith, short) in
          rw (short, none_left) refl
    ]

latency_history-adapt :
    (se : StealthEngine) (r o : ℕ) (draws : ℕ → ℕ)
    → (adapt se r o draws).latency_history ≡ se.latency_history
unfolding adapt
latency_history-adapt se r o draws = ground arith

abbrev pub recent_avg : List ℕ → ℕ
recent_avg ds = avg_duration (drop (length ds - 5) ds)

abbrev pub older_avg : List ℕ → ℕ
older_avg ds = avg_duration (take (length ds - 5) ds)

pub latency_history-record_latency :
    (se : StealthEngine) (d : ℕ) (draws : ℕ → ℕ)
    → (record_latency se d draws).latency_history ≡ remember se.latency_history d
unfolding record_latency
latency_history-record_latency se d draws =
    let history = remember se.latency_history d in
    elim (Bool-cases (not se.config.adaptive_throttling || ltb (length history) 10)) [
      | inl out ↦ rw out refl
      | inr on ↦ rw on (
          latency_history-adapt (record se { latency_history = history }) (recent_avg history)
            (older_avg history) draws)
    ]

-- After any latencies, the history is the last fifty of those it held and those that came.
pub latency_history-record_latencies :
    (se : StealthEngine) (rs : List (ℕ × (ℕ → ℕ)))
    → length se.latency_history ≤ 50
    → (record_latencies se rs).latency_history ≡ last_fifty (se.latency_history ++ durations rs)
unfolding record_latencies
latency_history-record_latencies se [] few =
    let none_left : length (se.latency_history ++ []) - 50 ≡ 0 =
      omega (arith, length-append se.latency_history []) in
    rw none_left (sym (append-nil se.latency_history))
latency_history-record_latencies se ((d, draws) ∷ rest) few =
    let h = se.latency_history in
    let next = latency_history-record_latency se d draws ∙ remember-last_fifty h d in
    let still_few : length (record_latency se d draws).latency_history ≤ 50 =
      rw next (omega (arith, length-drop (length (h ++ d ∷ []) - 50) (h ++ d ∷ []))) in
    latency_history-record_latencies (record_latency se d draws) rest still_few
    ∙ ap (λ (ds : List ℕ). last_fifty (ds ++ durations rest)) next
    ∙ last_fifty-append (h ++ d ∷ []) (durations rest)
    ∙ ap (λ (ds : List ℕ). last_fifty ds) (append_assoc h (d ∷ []) (durations rest))

abbrev pub remembers : StealthEngine → ℕ → StealthEngine
remembers se d = record se { latency_history = remember se.latency_history d }

pub record_latency_cases :
    (se : StealthEngine) (d : ℕ) (draws : ℕ → ℕ)
    → (record_latency se d draws ≡ remembers se d)
      ⊎ ((10 ≤ length (remember se.latency_history d))
          × (record_latency se d draws
              ≡ adapt
                  (remembers se d)
                  (recent_avg (remember se.latency_history d))
                  (older_avg (remember se.latency_history d))
                  draws))
unfolding record_latency
record_latency_cases se d draws =
    let history = remember se.latency_history d in
    elim (Bool-cases (not se.config.adaptive_throttling || ltb (length history) 10)) [
      | inl out ↦ inl (rw out refl)
      | inr on ↦ inr (ground (arith, on), rw on refl)
    ]
