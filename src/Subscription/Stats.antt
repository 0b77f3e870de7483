-- ===== src/Subscription/Stats.antt =====
-- What a selector remembers of its dials, and the score that it makes of it. Times are
-- nanoseconds, `none` is the zero time, and a latency is not negative. The clock is read once
-- in each function.
pub mod Laws
use Prim.Native.String.{◌++◌ as str_append}
use stealthlink.Prelude.{
  Bool, List, Option, String, bytes_eq, if◌then◌else◌, insert, leb, lookup, ltb, nat_eq, none, some,
  str_eq, string_eq, suc, zero, ℕ, ◌*◌, ◌+◌, ◌-◌, ◌/◌, ◌==◌,
}
use stealthlink.Subscription.Transports.{
  Tidy, ServerEntry, at_least_one, normalize_transport_preference,
}

abbrev pub millisecond : ℕ
millisecond = 1000000

abbrev pub minute : ℕ
minute = 60000 * millisecond

pub record ServerHealthStats : Type 0 where
  pub latency_ewma : ℕ
  pub success_count : ℕ
  pub failure_count : ℕ
  pub consecutive_failures : ℕ
  pub last_failure : Option ℕ
  pub last_success : Option ℕ
  pub cooldown_until : Option ℕ

abbrev pub Stats : Type 0
Stats = List (String × ServerHealthStats)

abbrev pub no_stats : ServerHealthStats
no_stats = record {
  latency_ewma = 0;
  success_count = 0;
  failure_count = 0;
  consecutive_failures = 0;
  last_failure = none;
  last_success = none;
  cooldown_until = none;
}

abbrev pub stats_or_new : Option ServerHealthStats → ServerHealthStats
stats_or_new none = no_stats
stats_or_new (some s) = s

-- An int64 as what was added to it and what was taken from it.
pub record Score : Type 0 where
  pub added : ℕ
  pub taken_off : ℕ

unfoldable pub cooldown_loop : ℕ → ℕ → ℕ
cooldown_loop zero cooldown = cooldown
cooldown_loop (suc left) cooldown =
    let rest = cooldown_loop left (cooldown * 2) in
    if leb minute (cooldown * 2) then minute else rest

unfoldable pub cooldown_for_failures : ℕ → ℕ
unfolding cooldown_loop
cooldown_for_failures zero = 0
cooldown_for_failures (suc failures) = cooldown_loop failures (2000 * millisecond)

abbrev pub averaged : ℕ → ℕ → ℕ
averaged ewma latency =
    if ltb 0 latency then (if ewma == 0 then latency else (ewma * 3 + latency) / 4) else ewma

unfoldable pub after_dial : ServerHealthStats → Bool → ℕ → ℕ → ServerHealthStats
unfolding cooldown_for_failures
after_dial s succeeded latency now =
    if succeeded
    then record s {
      success_count = s.success_count + 1;
      consecutive_failures = 0;
      last_success = some now;
      cooldown_until = none;
      latency_ewma = averaged s.latency_ewma latency;
    }
    else record s {
      failure_count = s.failure_count + 1;
      consecutive_failures = s.consecutive_failures + 1;
      last_failure = some now;
      cooldown_until = some (now + cooldown_for_failures (s.consecutive_failures + 1));
    }

abbrev pub cooling : Option ℕ → ℕ → ℕ
cooling none now = 0
cooling (some end) now = if ltb now end then 5000 + (end - now) / millisecond else 0

unfoldable pub score_of : ℕ → Option ServerHealthStats → ℕ → Score
score_of weight none now = record { added = 2000 / at_least_one weight + 250; taken_off = 0 }
score_of weight (some s) now = record {
  added =
      2000 / at_least_one weight
      + (if ltb 0 s.latency_ewma then s.latency_ewma / millisecond else 150)
      + s.failure_count * 50
      + s.consecutive_failures * 750
      + cooling s.cooldown_until now;
  taken_off = (s.success_count - s.failure_count) * 25;
}

module _ (text : Tidy) where
  unfoldable pub server_stats_key : ServerEntry → String
  unfolding normalize_transport_preference
  server_stats_key server = str_append server.address (
      str_append "|" (
        if str_eq (normalize_transport_preference text server.transport) "quic"
        then "quic"
        else "tls"))

  -- ensureStatsLocked makes the entry that the method then changes.
  unfoldable pub report_dial_result : Stats → ServerEntry → ℕ → Bool → ℕ → Stats
  unfolding server_stats_key after_dial
  report_dial_result stats server latency succeeded now =
      let key = server_stats_key server in
      insert key (after_dial (stats_or_new (lookup key stats)) succeeded latency now) stats

  unfoldable pub candidate_score : Stats → ServerEntry → ℕ → Score
  unfolding server_stats_key score_of
  candidate_score stats server now =
      score_of server.weight (lookup (server_stats_key server) stats) now
