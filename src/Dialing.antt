-- ===== src/Dialing.antt =====
-- How the client of client.go finds a server: the groups of candidates, the attempts, the waits
-- between them. The outcome of each attempt and its clock readings are arguments, by the number of
-- attempts before it; an error is its text. Functions of Go's package strings are arguments.
pub mod Order
pub mod Waits
use stealthlink.Subscription.Transports.{
  normalize_transport_preference, normalize_server_entries, Tidy,
}
use stealthlink.Prelude.{
  Bool, List, Option, String, [], false, if◌then◌else◌, length, ltb, none, not, some, str_eq, suc,
  true, zero, ℕ, ◌*◌, ◌||◌, ◌∷◌,
}
use stealthlink.Subscription.Stats.{millisecond, report_dial_result, Stats}
use stealthlink.Subscription.Transports.{build_transport_variants, Tidy, ServerEntry}
use stealthlink.Subscription.Ranking.{rank_server_groups, AttemptGroup}

pub record ErrorText : Type 0 where
  pub to_lower : String → String
  pub contains : String → String → Bool

pub record ClientConfig : Type 0 where
  pub server_addr : String
  pub psk : String
  pub sni : String
  pub transport : String
  pub secret_path : String
  pub socks_addr : String
  pub fingerprint : String

-- The defaults of NewClient.
unfoldable pub client_defaults : ClientConfig → ClientConfig
client_defaults config = record config {
  socks_addr = if str_eq config.socks_addr "" then "127.0.0.1:1080" else config.socks_addr;
  transport = if str_eq config.transport "" then "tls" else config.transport;
  secret_path = if str_eq config.secret_path "" then "/api/v2/sync" else config.secret_path;
}

-- The weight is Go's zero value.
abbrev pub default_server_entry : ClientConfig → ServerEntry
default_server_entry config = record {
  address = config.server_addr;
  psk = config.psk;
  sni = config.sni;
  weight = 0;
  transport = config.transport;
  secret_path = config.secret_path;
  fingerprint = config.fingerprint;
}

abbrev terminal_markers : List String
terminal_markers =
    "auth denied" ∷ "authentication denied" ∷ "persistent auth denied" ∷ "tunnel auth denied"
    ∷ "tun auth denied" ∷ "invalid psk" ∷ []

-- `none` is a nil selector.
pub record Selector : Type 0 where
  pub servers : List ServerEntry
  pub stats : Stats

-- How the attempts are going: the selector, and the attempts that were made, each with its error,
-- the last one first.
pub record Attempts : Type 0 where
  pub selector : Option Selector
  pub made : List (ServerEntry × Option String)

-- The loop over candidates goes on after an error that is worth another transport.
pub data Progress : Type 0 where
  connected stopped : Progress
  unconnected : Option String → Progress

abbrev has_marker : ErrorText → List String → String → Bool
has_marker text [] msg = false
has_marker text (marker ∷ markers) msg = text.contains msg marker || has_marker text markers msg

unfoldable pub should_retry_other_transports : ErrorText → String → Bool
should_retry_other_transports text msg = not (has_marker text terminal_markers (text.to_lower msg))

abbrev pub is_none {ℓ} : {A : Type ℓ} → Option A → Bool
is_none none = true
is_none (some a) = false

abbrev pub no_groups : List AttemptGroup → Bool
no_groups [] = true
no_groups (g ∷ groups) = false

module _ (names : Tidy) where
  abbrev default_group : ClientConfig → AttemptGroup
  default_group config = record {
    base = default_server_entry config;
    variants = build_transport_variants names (default_server_entry config) config.transport;
  }

  abbrev or_default : ClientConfig → List AttemptGroup → List AttemptGroup
  or_default config groups = if no_groups groups then default_group config ∷ [] else groups

  unfoldable pub resolve_attempt_groups : ClientConfig → Option Selector → ℕ → List AttemptGroup
  unfolding rank_server_groups build_transport_variants
  resolve_attempt_groups config none now = default_group config ∷ []
  resolve_attempt_groups config (some selector) now =
      or_default config
        (rank_server_groups names selector.stats now selector.servers config.transport)

  unfoldable pub resolve_server : ClientConfig → Option Selector → ℕ → Option ServerEntry
  unfolding resolve_attempt_groups
  resolve_server config selector now = first (resolve_attempt_groups config selector now)
    where
      first_variant : ServerEntry → List ServerEntry → ServerEntry
      first_variant base [] = base
      first_variant base (v ∷ variants) = v

      first : List AttemptGroup → Option ServerEntry
      first [] = none
      first (g ∷ groups) = some (first_variant g.base g.variants)

  module _ (text : ErrorText) (dial : ℕ → ServerEntry → Option String) (elapsed clock : ℕ → ℕ)
      (stops : ℕ → Bool) where
    abbrev report : Option Selector → ServerEntry → ℕ → Bool → ℕ → Option Selector
    report none candidate latency succeeded now = none
    report (some selector) candidate latency succeeded now = some (record selector {
      stats = report_dial_result names selector.stats candidate latency succeeded now;
    })

    -- An attempt: it is made, and its outcome is reported to the selector.
    unfoldable pub attempt : Attempts → ServerEntry → Attempts
    unfolding report_dial_result
    attempt a candidate =
        let n = length a.made in
        let outcome = dial n candidate in
        record {
          selector = report a.selector candidate (elapsed n) (is_none outcome) (clock n);
          made = (candidate, outcome) ∷ a.made;
        }

    -- The inner loop, with the error that is the last so far.
    unfoldable pub try_variants : Attempts → Option String → List ServerEntry → Attempts × Progress
    unfolding attempt should_retry_other_transports
    try_variants a last_err [] = (a, unconnected last_err)
    try_variants a last_err (candidate ∷ variants) =
        let outcome = dial (length a.made) candidate in
        let after = attempt a candidate in
        let rest = try_variants after outcome variants in
        if stops (length a.made) then (a, stopped) else elim outcome [
          | none ↦ (after, connected)
          | some msg ↦
              if should_retry_other_transports text msg
              then rest
              else (after, unconnected (some msg))
        ]

    -- What follows the variants of a server: the other servers, if there was no success.
    abbrev pub after_group :
        (Attempts → Option String → Attempts × Progress) → Attempts × Progress → Attempts × Progress
    after_group others (a, connected) = (a, connected)
    after_group others (a, stopped) = (a, stopped)
    after_group others (a, unconnected error) = others a error

    unfoldable pub try_groups : Attempts → Option String → List AttemptGroup → Attempts × Progress
    unfolding try_variants
    try_groups a last_err [] = (a, unconnected last_err)
    try_groups a last_err (g ∷ groups) =
        after_group (λ after error. try_groups after error groups)
          (try_variants a last_err g.variants)

    unfoldable pub try_connect_candidates : ClientConfig → Option Selector → ℕ → Attempts × Progress
    unfolding resolve_attempt_groups try_groups
    try_connect_candidates config selector now =
        try_groups (record { selector = selector; made = [] }) none
          (resolve_attempt_groups config selector now)

-- The wait after each failed round of connectLoop, from 500 milliseconds on, in nanoseconds.
unfoldable pub next_backoff : ℕ → ℕ
next_backoff backoff =
    let doubled = backoff * 2 in
    if ltb (30000 * millisecond) doubled then 30000 * millisecond else doubled

unfoldable pub backoff_after : ℕ → ℕ
unfolding next_backoff
backoff_after zero = 500 * millisecond
backoff_after (suc rounds) = next_backoff (backoff_after rounds)

-- The interval of subscriptionUpdateLoop in seconds, of the configured one.
unfoldable pub update_interval : ℕ → ℕ
update_interval configured = if ltb configured 60 then 3600 else configured

-- What updateSubscription does with servers that it has read.
unfoldable pub update_subscription : Tidy → Option Selector → List ServerEntry → Option Selector
unfolding normalize_server_entries
update_subscription names selector [] = selector
update_subscription names none servers =
    some (record { servers = normalize_server_entries names servers; stats = [] })
update_subscription names (some selector) servers =
    some (record selector { servers = normalize_server_entries names servers })

unfoldable pub transport_log_label : Tidy → String → String
unfolding normalize_transport_preference
transport_log_label names transport =
    if str_eq (normalize_transport_preference names transport) "quic" then "quic" else "tls"
