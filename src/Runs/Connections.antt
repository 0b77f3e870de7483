-- ===== src/Runs/Connections.antt =====
-- TLS connections to the server.
use stealthlink.Prelude.{Bool, Bytes, [], some, true, ◌++◌, ◌∷◌}
use stealthlink.Server.Frames.Steps.{timer_fires}
use stealthlink.Wire.Writer.{new_frame_writer}
use stealthlink.Auth.Manager.{AuthSession}
use stealthlink.Server.Safety.{handle_tls_connection-Grants, LetIn, Grants}
use stealthlink.Server.Balance.{Course, handle_tls_connection-SameCounts, ended, SameCounts}
use stealthlink.Server.{handle_tls_connection, Server}
use stealthlink.Wire.Address.{Decoded}
use stealthlink.Runs.Instances.{plain_text, plain_crypto}
use stealthlink.Runs.Users.{one_user, some_payload}
use stealthlink.Firewall.Connections.{default_firewall_config}

abbrev pub idle : Server
idle = record {
  auth = one_user;
  firewall = record { config = default_firewall_config; user_conn_counts = [] };
  sessions = [];
}

-- The payload, then the target 8.8.8.8 at port 80.
abbrev pub some_input : Bytes
some_input = some_payload ++ (1 ∷ 8 ∷ 8 ∷ 8 ∷ 8 ∷ 0 ∷ 80 ∷ [])

abbrev pub all_dial : Bool → Decoded → Bool
all_dial upstream d = true

handle_tls_connection-Grants_example :
    Grants plain_text all_dial
      (LetIn plain_text all_dial plain_crypto one_user.users 3 some_input)
      idle.firewall
      (handle_tls_connection plain_text all_dial plain_crypto idle "h" 5 3 some_input).2
handle_tls_connection-Grants_example =
    handle_tls_connection-Grants plain_text all_dial plain_crypto idle "h" 5 3 some_input

abbrev some_course : AuthSession → Bytes → Course
some_course session rest = record {
  trackers = [];
  writer = new_frame_writer (record { written = []; answers = [] });
  events = (timer_fires, 1) ∷ [];
  dials = λ addr port. some addr;
  resolves = λ addr port. some addr;
  listens = λ n. true;
}

handle_tls_connection-SameCounts_example :
    SameCounts
      (ended plain_text all_dial some_course
        (handle_tls_connection plain_text all_dial plain_crypto idle "h" 5 3 some_input))
      idle
      "u"
handle_tls_connection-SameCounts_example =
    handle_tls_connection-SameCounts plain_text all_dial some_course plain_crypto idle "h" 5 3
      some_input "u"
