-- ===== src/Runs/Dials.antt =====
-- The client's dials and its link.
use stealthlink.Prelude.{
  Bool, List, Option, String, [], false, if◌then◌else◌, inr, is_open, none, refl, some, str_eq,
  true, ℕ, ◌==◌, ◌∷◌, ◌≡◌,
}
use stealthlink.Runs.Servers.{plain_names, some_server}
use stealthlink.Link.{accepted, authentication_fails}
use stealthlink.Link.Held.{IsOwned, left_behind}
use stealthlink.Link.Ownership.{reset-closes_all, connect_session-is_lost}
use stealthlink.Dialing.Order.{try_connect_candidates-Explains, Explains}
use stealthlink.Subscription.Transports.{ServerEntry}
use stealthlink.Dialing.{try_connect_candidates, resolve_attempt_groups, ErrorText, ClientConfig}
use stealthlink.Link.{
  connect_session, link_acts, reset_transport_state, Link, LinkAct, ensure_persistent_channel, quic,
  ensures, drops,
}

abbrev some_texts : ErrorText
some_texts = record { to_lower = λ s. s; contains = str_eq }

abbrev some_config : ClientConfig
some_config = record {
  server_addr = "a";
  psk = "k";
  sni = "";
  transport = "tls";
  secret_path = "";
  socks_addr = "";
  fingerprint = "";
}

-- The first dial fails, all others succeed.
abbrev second_succeeds : ℕ → ServerEntry → Option String
second_succeeds n server = if n == 0 then some "timeout" else none

abbrev no_time : ℕ → ℕ
no_time n = 0

abbrev never : ℕ → Bool
never n = false

try_connect_candidates-Explains_example :
    Explains some_texts (resolve_attempt_groups plain_names some_config none 9) (
      try_connect_candidates plain_names some_texts second_succeeds no_time no_time never
        some_config none 9)
try_connect_candidates-Explains_example =
    try_connect_candidates-Explains some_texts plain_names second_succeeds no_time no_time never
      some_config none 9

abbrev no_link : Link
no_link = record {
  quic_conn = none;
  quic_transport = none;
  transport_closer = none;
  writer = none;
  reader = none;
  active_server = none;
  active_psk = "";
  udp = record {
    next_udp_assoc_id = 0;
    udp_handlers = [];
    frame_loop_active = false;
    inbox = none;
  };
  connected = false;
  open_conns = [];
}

no_link-IsOwned : IsOwned [] no_link
no_link-IsOwned = record { held = λ n h. cc; no_closer = inr refl }

-- A failed authentication, then a QUIC connection on the socket 8 with two channels.
abbrev some_acts : List LinkAct
some_acts =
    quic (some_server "a" 1 "quic") "k" 5 6 7 authentication_fails
    ∷ quic (some_server "a" 1 "quic") "k" 8 1 2 accepted
    ∷ ensures (some 3)
    ∷ drops
    ∷ ensures (some 4)
    ∷ []

four_is_kept : is_open 4 (left_behind some_acts) ≡ false
unfolding left_behind
four_is_kept = refl

reset-closes_all_example :
    is_open 4 (reset_transport_state (link_acts no_link some_acts)).open_conns ≡ false
reset-closes_all_example = reset-closes_all no_link some_acts 4 no_link-IsOwned four_is_kept

connect_session-is_lost_example :
    let lost =
      ensure_persistent_channel
        (connect_session (reset_transport_state no_link) (some_server "a" 1 "webrtc") "k" 1)
        (some 2) in
    (lost.transport_closer ≡ some 2) × (is_open 1 (reset_transport_state lost).open_conns ≡ true)
connect_session-is_lost_example =
    connect_session-is_lost no_link (some_server "a" 1 "webrtc") "k" 1 2 refl refl
