-- ===== src/Runs/Webs.antt =====
-- Connections behind the web server's disguise, and answers to clients.
use stealthlink.Prelude.{[], none, true, ◌∷◌}
use stealthlink.Runs.Instances.{plain_text, plain_crypto}
use stealthlink.Runs.Connections.{some_input, all_dial, idle}
use stealthlink.Server.{handle_tls_connection}
use stealthlink.Upstream.Agreement.{handle_tls_connection-Tells, Tells}
use stealthlink.Camouflage.{CamouflageServer, handle_connection, HttpText}
use stealthlink.Camouflage.Admission.{handle_connection-Admitted, Admitted}
use stealthlink.Peeking.{arrives}

abbrev some_text : HttpText
some_text = record {
  fields = λ line. line ∷ [];
  to_lower = λ bytes. bytes;
  trim_space = λ bytes. bytes;
  base64 = λ token. none;
}

abbrev some_web : CamouflageServer
some_web = record { secret_path = 47 ∷ 120 ∷ []; has_handler = true; server = idle }

handle_connection-Admitted_example :
    Admitted some_text [] plain_crypto plain_text all_dial some_web "h" 5 3
      (arrives some_input ∷ [])
      (handle_connection some_text [] plain_crypto plain_text all_dial some_web "h" 5 3
        (arrives some_input ∷ []))
handle_connection-Admitted_example =
    handle_connection-Admitted some_text [] plain_crypto plain_text all_dial some_web "h" 5 3
      (arrives some_input ∷ [])

handle_tls_connection-Tells_example :
    Tells (handle_tls_connection plain_text all_dial plain_crypto idle "h" 5 3 some_input)
handle_tls_connection-Tells_example =
    handle_tls_connection-Tells plain_text all_dial plain_crypto idle "h" 5 3 some_input
