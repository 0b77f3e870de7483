-- ===== src/Runs/Disguise.antt =====
-- Sessions in the disguise of redstone.go.
use stealthlink.Prelude.{Bytes, [], arith, err, refl, replicate, some, ◌++◌, ◌∷◌, ◌≡◌}
use stealthlink.Redstone.Handshake.RoundTrip.{parse_handshake_panics}
use stealthlink.Redstone.Conn.{McConn, new_mc_conn}
use stealthlink.Redstone.Session.Tunnel.{redstone_dial-redstone_serve, reply}
use stealthlink.Redstone.Conn.Transparency.{read_all-conn_writes, read_all}
use stealthlink.Redstone.Varint.{append_varint, pos}
use stealthlink.Redstone.Varint.{no_byte}
use stealthlink.Redstone.Packet.{bad_varint}
use stealthlink.Redstone.Handshake.{parse_handshake, panics}
use stealthlink.Redstone.Session.{
  login_success_bytes, redstone_serve, status_result, redstone_dial, RedstoneConfig, tunnelled,
}
use stealthlink.Redstone.Conn.Chunks.{conn_writes, unbroken}

abbrev some_text : Bytes
some_text = 104 ∷ 105 ∷ []

read_all-conn_writes_example :
    read_all 6 3 (new_mc_conn (conn_writes (unbroken []) (some_text ∷ [] ∷ some_text ∷ [])).written)
    ≡ (104 ∷ 105 ∷ 104 ∷ 105 ∷ [], some (bad_varint no_byte))
read_all-conn_writes_example =
    read_all-conn_writes 3 (omega arith) (some_text ∷ [] ∷ some_text ∷ []) 6 (omega arith)

parse_handshake_panics_example :
    parse_handshake (append_varint 765 ++ (append_varint 3000000000 ++ some_text)) ≡ err panics
parse_handshake_panics_example =
    parse_handshake_panics 765 3000000000 some_text (omega arith) (omega arith)

abbrev some_config : RedstoneConfig
some_config = record { motd = []; version = []; protocol_version = pos 0 }

abbrev some_uuid : Bytes
some_uuid = replicate 16 7

redstone_dial-redstone_serve_example :
    let dialled =
      redstone_dial some_text 443 some_text
        (1 ∷ 2 ∷ 3 ∷ [])
        (reply some_uuid some_text 0 [] [])
        (unbroken []) in
    (dialled.1 ≡ status_result 0 (record { input = []; rbuf = [] }))
    × (c : McConn) × (redstone_serve
          (λ cfg. cfg.motd)
          some_config
          some_uuid
          some_text
          dialled.0.written
          (unbroken [])
        ≡ tunnelled (unbroken (login_success_bytes some_uuid some_text)) c)
    × (read_all 4 2 c ≡ (1 ∷ 2 ∷ 3 ∷ [], some (bad_varint no_byte)))
redstone_dial-redstone_serve_example =
    redstone_dial-redstone_serve (λ cfg. cfg.motd) some_config some_text 443 some_text
      (1 ∷ 2 ∷ 3 ∷ []) some_uuid some_text 0 [] [] 2 4 (omega arith) (omega arith) (omega arith)
      refl (omega arith) (omega arith) (omega arith)
