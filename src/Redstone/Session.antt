-- ===== src/Redstone/Session.antt =====
-- The two ends of a disguised connection: redstone_serve and redstone_dial of redstone.go. The
-- random name and identifier and the bytes that the other end sends are arguments; deadlines are
-- not modelled, a connection that times out ends like one that is closed.
pub mod Serve
pub mod Tunnel
use stealthlink.Prelude.{
  Bool, Bytes, Result, [], err, false, if◌then◌else◌, length, ok, some, ℕ, ◌++◌, ◌+◌, ◌==◌, ◌∷◌,
}
use stealthlink.Redstone.Packet.{packet_bytes, PacketError, read_packet}
use stealthlink.Redstone.Conn.{new_mc_conn, McConn, conn_read, conn_write}
use stealthlink.Wire.Writer.{Sink, WriteOutcome, done, write_failed, write}
use stealthlink.Redstone.Varint.{append_varint, append_string, ℤ, pos, negsuc}
use stealthlink.Redstone.Handshake.{parse_handshake, handshake_bytes, HandshakeError, panics}

pub record RedstoneConfig : Type 0 where
  pub motd : Bytes
  pub version : Bytes
  pub protocol_version : ℤ

-- "A Minecraft Server" and "1.20.4".
abbrev mc_default_motd : Bytes
mc_default_motd =
    65 ∷ 32 ∷ 77 ∷ 105 ∷ 110 ∷ 101 ∷ 99 ∷ 114 ∷ 97 ∷ 102 ∷ 116 ∷ 32 ∷ 83 ∷ 101 ∷ 114 ∷ 118 ∷ 101
    ∷ 114 ∷ []

abbrev mc_default_ver : Bytes
mc_default_ver = 49 ∷ 46 ∷ 50 ∷ 48 ∷ 46 ∷ 52 ∷ []

abbrev pub mc_default_proto : ℕ
mc_default_proto = 765

abbrev is_pos : ℤ → ℕ → Bool
is_pos (pos m) n = m == n
is_pos (negsuc m) n = false

unfoldable pub redstone_defaults : RedstoneConfig → RedstoneConfig
redstone_defaults cfg = record {
  motd = if length cfg.motd == 0 then mc_default_motd else cfg.motd;
  version = if length cfg.version == 0 then mc_default_ver else cfg.version;
  protocol_version =
      if is_pos cfg.protocol_version 0 then pos mc_default_proto else cfg.protocol_version;
}

abbrev pub send : Sink → Bytes → Sink × WriteOutcome
send sink bytes = write sink.answers sink.written bytes

unfoldable pub login_start_bytes : Bytes → Bytes
unfolding append_string
login_start_bytes username = packet_bytes 0x00 (append_string username)

unfoldable pub login_success_bytes : Bytes → Bytes → Bytes
unfolding append_string
login_success_bytes uuid username =
    packet_bytes 0x02 (uuid ++ (append_string username ++ append_varint 0))

-- How a served connection ends: closed, given to the handler of tunnels, or by a panic.
pub data Served : Type 0 where
  closed crashed : Sink → Served
  tunnelled : Sink → McConn → Served

-- `status_json` is mc_status_json, which fmt.Sprintf makes of the version, protocol and motd.
module _ (status_json : RedstoneConfig → Bytes) where
  abbrev pong : Sink → Result PacketError ((ℤ × Bytes) × Bytes) → Sink
  pong sink (ok ((id, payload), rest)) =
      if is_pos id 0x01 then (send sink (packet_bytes 0x01 payload)).0 else sink
  pong sink (err e) = sink

  unfoldable pub handle_status : RedstoneConfig → Bytes → Sink → Sink
  unfolding write append_string packet_bytes
  handle_status cfg input sink = elim (read_packet input) [
    | err e ↦ sink
    | ok (_, rest) ↦
        let (sink', outcome) = send sink (packet_bytes 0x00 (append_string (status_json cfg))) in
        elim outcome [ write_failed ↦ sink' | done ↦ pong sink' (read_packet rest) ]
  ]

  unfoldable pub handle_login : Bytes → Bytes → Bytes → Sink → Served
  unfolding write login_success_bytes
  handle_login uuid username input sink = elim (read_packet input) [
    | err e ↦ closed sink
    | ok (_, rest) ↦
        let (sink', outcome) = send sink (login_success_bytes uuid username) in
        elim outcome [ write_failed ↦ closed sink' | done ↦ tunnelled sink' (new_mc_conn rest) ]
  ]

  unfoldable pub serve_state :
      RedstoneConfig → Bytes → Bytes → Result HandshakeError ℤ → Bytes → Sink → Served
  unfolding handle_status handle_login redstone_defaults
  serve_state cfg uuid username (ok next_state) input sink =
      if is_pos next_state 1
      then closed (handle_status (redstone_defaults cfg) input sink)
      else if is_pos next_state 2
      then handle_login uuid username input sink
      else closed sink
  serve_state cfg uuid username (err panics) input sink = crashed sink
  serve_state cfg uuid username (err e) input sink = closed sink

  unfoldable pub redstone_serve : RedstoneConfig → Bytes → Bytes → Bytes → Sink → Served
  unfolding serve_state
  redstone_serve cfg uuid username input sink = elim (read_packet input) [
    | err e ↦ closed sink
    | ok ((id, bytes), rest) ↦
        if is_pos id 0x00
        then serve_state cfg uuid username (parse_handshake bytes) rest sink
        else closed sink
  ]

pub data DialError : Type 0 where
  handshake_write_failed login_start_failed login_response_failed auth_write_failed
        status_read_failed authentication_denied target_failed blocked_by_firewall :
      DialError
  connect_error : ℕ → DialError

abbrev pub status_result : ℕ → McConn → Result DialError McConn
status_result status c =
    if status == 0x00
    then ok c
    else if status == 0x01
    then err authentication_denied
    else if status == 0x02
    then err target_failed
    else if status == 0x03
    then err blocked_by_firewall
    else err (connect_error status)

-- io.ReadFull of the one byte of the status.
unfoldable pub read_status : McConn → Result DialError McConn
unfolding conn_read
read_status c = elim (conn_read (length c.input + 2) 1 c) [
  | some (ok (status ∷ _), c') ↦ status_result status c'
  | _ ↦ err status_read_failed
]

unfoldable pub send_auth : Bytes → McConn → Sink → Sink × Result DialError McConn
unfolding conn_write read_status
send_auth combined c sink =
    let (sink', _, outcome) = conn_write sink combined in
    (sink', elim outcome [ write_failed ↦ err auth_write_failed | done ↦ read_status c ])

unfoldable pub await_login : Bytes → Bytes → Sink → Sink × Result DialError McConn
unfolding send_auth
await_login combined input sink = elim (read_packet input) [
  | err e ↦ (sink, err login_response_failed)
  | ok (_, rest) ↦ send_auth combined (new_mc_conn rest) sink
]

-- `combined` is the payload of GenerateAuthPayload and the target of EncodeAddress.
unfoldable pub redstone_dial :
    Bytes → ℕ → Bytes → Bytes → Bytes → Sink → Sink × Result DialError McConn
unfolding write handshake_bytes login_start_bytes await_login
redstone_dial host handshake_port username combined input sink =
    let (greeted, first) = send sink (handshake_bytes mc_default_proto host handshake_port 2) in
    let (started, second) = send greeted (login_start_bytes username) in
    elim first [
      | write_failed ↦ (greeted, err handshake_write_failed)
      | done ↦ elim second [
        | write_failed ↦ (started, err login_start_failed)
        | done ↦ await_login combined input started
      ]
    ]
