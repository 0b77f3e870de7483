-- ===== src/Subscription/Transports.antt =====
-- The names of transports in subscription.go, and the variants of a server that are tried.
pub mod Laws
use stealthlink.Prelude.{
  Bool, List, String, [], false, if◌then◌else◌, str_eq, true, ℕ, ◌==◌, ◌||◌, ◌∷◌, ◌≡◌,
}

pub record ServerEntry : Type 0 where
  pub address : String
  pub psk : String
  pub sni : String
  pub weight : ℕ
  pub transport : String
  pub secret_path : String
  pub fingerprint : String

abbrev pub any_of : List String → String → Bool
any_of [] s = false
any_of (name ∷ names) s = str_eq s name || any_of names s

abbrev pub exclusive : List String
exclusive = "reality" ∷ "mirage" ∷ "masque" ∷ "redstone" ∷ "webrtc" ∷ []

abbrev pub transport_names : List String
transport_names = "tls" ∷ "quic" ∷ "auto" ∷ exclusive

-- strings.ToLower(strings.TrimSpace(_)), which leaves the names of transports as they are.
pub record Tidy : Type 0 where
  pub tidy : String → String
  pub tidy-known : (s : String) → any_of transport_names s ≡ true → tidy s ≡ s
  pub tidy-empty : tidy "" ≡ ""

-- Weight, if it is not positive, is taken as 1.
abbrev pub at_least_one : ℕ → ℕ
at_least_one w = if w == 0 then 1 else w

abbrev pub with_transport : ServerEntry → String → ServerEntry
with_transport base transport = record base {
  transport = transport;
  weight = at_least_one base.weight;
}

module _ (text : Tidy) where
  -- The switch of normalizeTransportPreference, on the tidied text.
  abbrev pub known_name : String → String
  known_name s =
      if any_of ("tls" ∷ "quic" ∷ exclusive) s
      then s
      else if str_eq s "any" || str_eq s "auto"
      then "auto"
      else ""

  unfoldable pub normalize_transport_preference : String → String
  normalize_transport_preference transport = known_name (text.tidy transport)

  unfoldable pub normalize_stored_transport : String → String
  unfolding normalize_transport_preference
  normalize_stored_transport transport =
      let name = normalize_transport_preference transport in
      if any_of ("tls" ∷ "quic" ∷ "auto" ∷ []) name then name else ""

  unfoldable pub normalize_server_entries : List ServerEntry → List ServerEntry
  unfolding normalize_stored_transport
  normalize_server_entries [] = []
  normalize_server_entries (s ∷ servers) =
      record s {
        weight = at_least_one s.weight;
        transport = normalize_stored_transport s.transport;
      }
      ∷ normalize_server_entries servers

  -- The transport that a server is dialled over first.
  unfoldable pub primary_transport : ServerEntry → String → String
  unfolding normalize_transport_preference
  primary_transport base preferred =
      let own = normalize_transport_preference base.transport in
      let primary =
        if str_eq own "" || str_eq own "auto"
        then normalize_transport_preference preferred
        else own in
      if str_eq primary "" then "tls" else primary

  unfoldable pub build_transport_variants : ServerEntry → String → List ServerEntry
  unfolding primary_transport
  build_transport_variants base preferred =
      let primary = primary_transport base preferred in
      if any_of exclusive primary
      then with_transport base primary ∷ []
      else if str_eq primary "quic"
      then with_transport base "quic" ∷ with_transport base "tls" ∷ []
      else with_transport base "tls" ∷ with_transport base "quic" ∷ []
