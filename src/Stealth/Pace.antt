-- ===== src/Stealth/Pace.antt =====
-- The parameters of stealth.go and the pauses between decoys.
use mathlib.Core.Path.{subst}
use stealthlink.Prelude.{
  Bool-cases, List, [], arith, false, if◌then◌else◌, inl, inr, ltb, sym, ℕ, ◌&&◌, ◌*◌, ◌<◌, ◌∷◌,
  ◌≡◌, ◌≤◌, ◌⊎◌,
}
use stealthlink.Stealth.History.{older_avg, recent_avg, remembers, record_latency_cases}
use stealthlink.Stealth.{
  remember, record_latency, stealth_rand_duration, second, millisecond, slowed, SessionParams,
  new_stealth_engine, adapt, StealthConfig, record_latencies, generate_session_params,
  stealth_rand_int, decoy_pause, StealthEngine,
}

-- The ranges of the random parameters, the pauses between decoys k times as long.
abbrev pub IsShaped : ℕ → SessionParams → Type 0
IsShaped k p =
    (8 ≤ p.frame_padding_min)
    × (p.frame_padding_min ≤ 32)
    × (64 ≤ p.frame_padding_max)
    × (p.frame_padding_max ≤ 512)
    × (millisecond ≤ p.flush_interval)
    × (p.flush_interval ≤ 5 * millisecond)
    × (32 * 1024 ≤ p.batch_size)
    × (p.batch_size ≤ 128 * 1024)
    × (k * second ≤ p.dummy_min_interval)
    × (p.dummy_min_interval ≤ k * (4 * second))
    × (k * (5 * second) ≤ p.dummy_max_interval)
    × (p.dummy_max_interval ≤ k * (15 * second))

abbrev pub factor : StealthEngine → ℕ
factor se = if se.throttled then 3 else 1

stealth_rand_int-IsBetween :
    (least most draw : ℕ)
    → least ≤ most
    → (least ≤ stealth_rand_int least most draw) × (stealth_rand_int least most draw ≤ most)
unfolding stealth_rand_int
stealth_rand_int-IsBetween least most draw order = (ground (arith, order), ground (arith, order))

generate_session_params-IsShaped : (draws : ℕ → ℕ) → IsShaped 1 (generate_session_params draws)
unfolding generate_session_params
generate_session_params-IsShaped draws =
    let a = stealth_rand_int-IsBetween 8 32 (draws 0) (omega arith) in
    let b = stealth_rand_int-IsBetween 64 512 (draws 1) (omega arith) in
    let c = stealth_rand_int-IsBetween 1 5 (draws 2) (omega arith) in
    let d = stealth_rand_int-IsBetween 32 128 (draws 3) (omega arith) in
    let e = stealth_rand_int-IsBetween 1 4 (draws 4) (omega arith) in
    let f = stealth_rand_int-IsBetween 5 15 (draws 5) (omega arith) in
    (
      a.0,
      a.1,
      b.0,
      b.1,
      omega (arith, c.0),
      omega (arith, c.1),
      omega (arith, d.0),
      omega (arith, d.1),
      omega (arith, e.0),
      omega (arith, e.1),
      omega (arith, f.0),
      omega (arith, f.1),
    )

new_stealth_engine-IsShaped :
    (config : StealthConfig) (draws : ℕ → ℕ)
    → IsShaped 1 (new_stealth_engine config draws).session_params
unfolding new_stealth_engine
new_stealth_engine-IsShaped config draws = elim (Bool-cases config.protocol_polymorphism) [
  | inl random ↦ rw random (generate_session_params-IsShaped draws)
  | inr fixed ↦ rw fixed (
    omega arith,
    omega arith,
    omega arith,
    omega arith,
    omega arith,
    omega arith,
    omega arith,
    omega arith,
    omega arith,
    omega arith,
    omega arith,
    omega arith,
  )
]

-- The parameters fit the engine: in range, the pauses three times as long while it is throttled.
abbrev pub IsFit : StealthEngine → Type 0
IsFit se = IsShaped (factor se) se.session_params

slowed-IsShaped : (se : StealthEngine) → IsShaped 1 se.session_params → IsFit (slowed se)
slowed-IsShaped se (a, b, c, d, e, f, g, h, i, j, k, l) =
    (a, b, c, d, e, f, g, h, omega (arith, i), omega (arith, j), omega (arith, k), omega (arith, l))

adapt_cases :
    (se : StealthEngine) (r o : ℕ) (draws : ℕ → ℕ)
    → (adapt se r o draws ≡ se)
      ⊎ (((se.throttled ≡ false) × (adapt se r o draws ≡ slowed se))
          ⊎ (adapt se r o draws
              ≡ record se { throttled = false; session_params = generate_session_params draws }))
unfolding adapt
adapt_cases se r o draws = elim (Bool-cases (ltb (o * 3) r && ltb (500 * millisecond) r)) [
  | inl slow ↦ elim (Bool-cases se.throttled) [
    | inl already ↦ inl (ground (arith, slow, already))
    | inr begins ↦ inr (inl (begins, ground (arith, slow, begins)))
  ]
  | inr quick ↦ elim (Bool-cases (se.throttled && ltb r (o * 2))) [
    | inl over ↦ inr (inr (ground (arith, quick, over)))
    | inr still ↦ inl (ground (arith, quick, still))
  ]
]

adapt-IsFit : (se : StealthEngine) (r o : ℕ) (draws : ℕ → ℕ) → IsFit se → IsFit (adapt se r o draws)
adapt-IsFit se r o draws fit = elim (adapt_cases se r o draws) [
  | inl same ↦ subst (λ x. IsFit x) (sym same) fit
  | inr (inl (idle, begins)) ↦
      let plain = subst (λ t. IsShaped (if t then 3 else 1) se.session_params) idle fit in
      subst (λ x. IsFit x) (sym begins) (slowed-IsShaped se plain)
  | inr (inr over) ↦ subst (λ x. IsFit x) (sym over) (generate_session_params-IsShaped draws)
]

record_latency-IsFit :
    (se : StealthEngine) (d : ℕ) (draws : ℕ → ℕ) → IsFit se → IsFit (record_latency se d draws)
record_latency-IsFit se d draws fit = elim (record_latency_cases se d draws) [
  | inl kept ↦ subst (λ x. IsFit x) (sym kept) fit
  | inr (enough, adapts) ↦
      let history = remember se.latency_history d in
      subst (λ x. IsFit x) (sym adapts)
        (adapt-IsFit (remembers se d) (recent_avg history) (older_avg history) draws fit)
]

record_latencies-IsFit :
    (se : StealthEngine) (rs : List (ℕ × (ℕ → ℕ))) → IsFit se → IsFit (record_latencies se rs)
unfolding record_latencies
record_latencies-IsFit se [] fit = fit
record_latencies-IsFit se ((d, draws) ∷ rest) fit =
    record_latencies-IsFit (record_latency se d draws) rest (record_latency-IsFit se d draws fit)

pause_within :
    (se : StealthEngine) (draw : ℕ)
    → IsFit se
    → (se.session_params.dummy_min_interval ≤ decoy_pause se draw)
      × (decoy_pause se draw < se.session_params.dummy_max_interval)
unfolding decoy_pause stealth_rand_duration
pause_within se draw order = (ground (arith, order), ground (arith, order))

new_stealth_engine-IsFit :
    (config : StealthConfig) (draws : ℕ → ℕ) → IsFit (new_stealth_engine config draws)
unfolding new_stealth_engine
new_stealth_engine-IsFit config draws = new_stealth_engine-IsShaped config draws

pause_between :
    (se : StealthEngine) (draw : ℕ)
    → IsFit se
    → (factor se * second ≤ decoy_pause se draw) × (decoy_pause se draw < factor se * (15 * second))
pause_between se draw (a, b, c, d, e, f, g, h, i, j, k, l) =
    let some_factor : 1 ≤ factor se = ground arith in
    let within = pause_within se draw (omega (arith, some_factor, j, k)) in
    (omega (arith, within.0, i), omega (arith, within.1, l))

-- A decoy of a fitting engine waits for one to fifteen seconds, of a throttled one three times
-- as long.
abbrev pub IsPaced : StealthEngine → ℕ → Type 0
IsPaced se draw =
    IsFit se
    × (factor se * second ≤ decoy_pause se draw)
    × (decoy_pause se draw < factor se * (15 * second))

-- Whatever latencies a new engine has recorded, its parameters are in their ranges, and a decoy
-- waits for one to fifteen seconds, or for three to forty-five while the engine is throttled.
pub decoy_pause-record_latencies :
    (config : StealthConfig) (draws : ℕ → ℕ) (rs : List (ℕ × (ℕ → ℕ))) (draw : ℕ)
    → IsPaced (record_latencies (new_stealth_engine config draws) rs) draw
decoy_pause-record_latencies config draws rs draw =
    let se = record_latencies (new_stealth_engine config draws) rs in
    let fit =
      record_latencies-IsFit (new_stealth_engine config draws) rs
        (new_stealth_engine-IsFit config draws) in
    let pause = pause_between se draw fit in (fit, pause.0, pause.1)
