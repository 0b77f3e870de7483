-- ===== src/Runs/Throttles.antt =====
-- An engine with latencies that rise and fall.
use stealthlink.Prelude.{List, [], arith, false, refl, suc, true, zero, ℕ, ◌*◌, ◌∷◌, ◌≡◌}
use stealthlink.Stealth.Throttle.{throttled-record_latencies, record_latency_recovers}
use stealthlink.Stealth.Pace.{decoy_pause-record_latencies, IsPaced}
use stealthlink.Stealth.{
  record_latency, default_stealth_config, slowed, millisecond, record_latencies, StealthEngine,
  new_stealth_engine,
}

abbrev lowest : ℕ → ℕ
lowest n = 0

abbrev two_latencies : List (ℕ × (ℕ → ℕ))
two_latencies = (20 * millisecond, lowest) ∷ (90 * millisecond, lowest) ∷ []

-- One that is throttled, with an empty history.
abbrev throttled_engine : StealthEngine
throttled_engine = slowed (new_stealth_engine default_stealth_config lowest)

abbrev steady : ℕ → List (ℕ × (ℕ → ℕ))
steady zero = []
steady (suc n) = (80 * millisecond, lowest) ∷ steady n

abbrev slow_replies : List ℕ → List (ℕ × (ℕ → ℕ))
slow_replies [] = []
slow_replies (d ∷ ds) = (d * millisecond, lowest) ∷ slow_replies ds

-- Five slow replies after five quick ones throttle the engine.
slow_replies_run :
    (record_latencies
      (new_stealth_engine default_stealth_config lowest)
      (slow_replies (9 ∷ 9 ∷ 9 ∷ 9 ∷ 9 ∷ 900 ∷ 900 ∷ 900 ∷ 900 ∷ 900 ∷ []))).throttled
    ≡ true
unfolding record_latencies new_stealth_engine
slow_replies_run = refl

decoy_pause-record_latencies_example :
    IsPaced (record_latencies (new_stealth_engine default_stealth_config lowest) two_latencies) 77
decoy_pause-record_latencies_example =
    decoy_pause-record_latencies default_stealth_config lowest two_latencies 77

throttled-record_latencies_example :
    (record_latencies (new_stealth_engine default_stealth_config lowest) two_latencies).throttled
    ≡ false
unfolding new_stealth_engine
throttled-record_latencies_example =
    throttled-record_latencies (new_stealth_engine default_stealth_config lowest) two_latencies
      (refl, tt) (omega arith, (omega arith, tt))

record_latency_recovers_example :
    (record_latency
      (record_latencies throttled_engine (steady 49))
      (80 * millisecond)
      lowest).throttled
    ≡ false
unfolding new_stealth_engine
record_latency_recovers_example =
    record_latency_recovers throttled_engine (steady 49) (80 * millisecond) lowest (omega arith)
      refl (omega arith) refl
