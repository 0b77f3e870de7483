-- ===== src/Subscription/Stats/Laws.antt =====
-- The wait after failures, and the memory of a server's dials.
use native.Mathlib.Nat.{pow-le-pow_right}
use stealthlink.Prelude.{
  All, Bool, Bool-cases, List, String, [], arith, bytes_eq, false, inl, inr, insert, lookup, min,
  nat_eq, none, refl, str_eq, string_eq, suc, true, zero, ℕ, ◌*◌, ◌<◌, ◌^◌, ◌∷◌, ◌≡◌, ◌≤◌, ◌⊎◌,
}
use stealthlink.Subscription.Transports.{ServerEntry, Tidy}
use stealthlink.Subscription.Stats.{
  server_stats_key, stats_or_new, report_dial_result, ServerHealthStats, after_dial, Stats,
  millisecond, minute, cooldown_loop, cooldown_for_failures,
}

-- The wait after `n` failures in a row is 2 ^ n seconds, and a minute at most.
pub cooldown_for_failures_lem :
    (n : ℕ) → cooldown_for_failures (suc n) ≡ min minute (2 ^ suc n * (1000 * millisecond))
unfolding cooldown_for_failures cooldown_loop
cooldown_for_failures_lem zero = refl
cooldown_for_failures_lem (suc zero) = refl
cooldown_for_failures_lem (suc (suc zero)) = refl
cooldown_for_failures_lem (suc (suc (suc zero))) = refl
cooldown_for_failures_lem (suc (suc (suc (suc zero)))) = refl
cooldown_for_failures_lem (suc (suc (suc (suc (suc n))))) =
    let big : 2 ^ 6 ≤ 2 ^ suc (suc (suc (suc (suc (suc n))))) =
      pow-le-pow_right {n = 2} (omega arith) {i = 6} (omega arith) in
    ground arith

-- The memory of one server.
pub record IsSane (lo hi : ℕ) (s : ServerHealthStats) : Type 0 where
  pub mean : (s.latency_ewma ≡ 0) ⊎ ((lo ≤ s.latency_ewma) × (s.latency_ewma ≤ hi))
  pub in_a_row : s.consecutive_failures ≤ s.failure_count
  pub rested : (0 < s.consecutive_failures) ⊎ (s.cooldown_until ≡ none)

after_dial-IsSane :
    (lo hi : ℕ) (s : ServerHealthStats) (succeeded : Bool) (latency now : ℕ)
    → IsSane lo hi s
    → lo ≤ latency
    → latency ≤ hi
    → IsSane lo hi (after_dial s succeeded latency now)
unfolding after_dial
after_dial-IsSane lo hi s true latency now v a b = record {
  mean = grind (arith, v.mean);
  in_a_row = omega arith;
  rested = inr refl;
}
after_dial-IsSane lo hi s false latency now v a b = record {
  mean = v.mean;
  in_a_row = omega (arith, v.in_a_row);
  rested = inl (omega arith);
}

abbrev pub AllSane : ℕ → ℕ → Stats → Type 0
AllSane lo hi stats = All (λ (p : String × ServerHealthStats). IsSane lo hi p.1) stats

insert-AllSane :
    (lo hi : ℕ) (key : String) (s : ServerHealthStats) (stats : Stats)
    → IsSane lo hi s
    → AllSane lo hi stats
    → AllSane lo hi (insert key s stats)
insert-AllSane lo hi key s [] v w = (v, tt)
insert-AllSane lo hi key s ((j, t) ∷ stats) v w = elim (Bool-cases (str_eq j key)) [
  | inl same ↦ rw same (v, w.1)
  | inr other ↦ rw other (w.0, insert-AllSane lo hi key s stats v w.1)
]

lookup-IsSane :
    (lo hi : ℕ) (key : String) (stats : Stats)
    → AllSane lo hi stats
    → IsSane lo hi (stats_or_new (lookup key stats))
lookup-IsSane lo hi key [] w = record { mean = inl refl; in_a_row = omega arith; rested = inr refl }
lookup-IsSane lo hi key ((j, t) ∷ stats) w = elim (Bool-cases (str_eq j key)) [
  | inl same ↦ rw same w.0
  | inr other ↦ rw other (lookup-IsSane lo hi key stats w.1)
]

-- The results of dials of any servers, in the order in which they take the lock.
pub record DialResult : Type 0 where
  pub server : ServerEntry
  pub latency : ℕ
  pub succeeded : Bool
  pub at_time : ℕ

module _ (text : Tidy) where
  unfoldable pub reports : Stats → List DialResult → Stats
  reports stats [] = stats
  reports stats (d ∷ ds) =
      reports (report_dial_result text stats d.server d.latency d.succeeded d.at_time) ds

  -- If all latencies are between two bounds, the memory of every server stays sane through the
  -- results of any dials: its mean latency is 0 or between the bounds, its failures in a row are
  -- among its failures, and it has a cooldown only if its last dial failed.
  pub reports-AllSane :
      (lo hi : ℕ) (stats : Stats) (ds : List DialResult)
      → AllSane lo hi stats
      → All (λ d. (lo ≤ d.latency) × (d.latency ≤ hi)) ds
      → AllSane lo hi (reports stats ds)
  unfolding reports report_dial_result
  reports-AllSane lo hi stats [] v h = v
  reports-AllSane lo hi stats (d ∷ ds) v h =
      let key = server_stats_key text d.server in
      reports-AllSane lo hi (report_dial_result text stats d.server d.latency d.succeeded d.at_time)
        ds
        (insert-AllSane lo hi key _ stats
          (after_dial-IsSane lo hi (stats_or_new (lookup key stats)) d.succeeded d.latency d.at_time
            (lookup-IsSane lo hi key stats v) h.0.0 h.0.1)
          v)
        h.1
