-- ===== src/Redstone/Session/Serve.antt =====
-- The packets of a session and the server that reads them.
use stealthlink.Prelude.{Bytes, arith, length, length-append, ok, put_u16, ℕ, ◌++◌, ◌+◌, ◌≡◌, ◌≤◌}
use stealthlink.Redstone.Conn.{new_mc_conn}
use stealthlink.Redstone.Handshake.{handshake_bytes, handshake_data}
use stealthlink.Wire.Writer.{write}
use stealthlink.Redstone.Varint.{append_varint, append_string, pos}
use stealthlink.Redstone.Packet.{read_packet, mc_max_packet}
use stealthlink.Redstone.Varint.RoundTrip.{length-append_varint}
use stealthlink.Redstone.Packet.RoundTrip.{read_packet-packet_bytes}
use stealthlink.Redstone.Handshake.RoundTrip.{parse_handshake-handshake_data}
use stealthlink.Redstone.Conn.Chunks.{unbroken}
use stealthlink.Redstone.Session.{
  serve_state, handle_login, redstone_serve, RedstoneConfig, login_success_bytes, login_start_bytes,
  tunnelled,
}

length-append_string : (s : Bytes) → length (append_string s) ≤ length s + 5
unfolding append_string
length-append_string s =
    omega (arith, length-append_varint (length s), length-append (append_varint (length s)) s)

length-handshake_data :
    (v : ℕ) (host : Bytes) (port next : ℕ)
    → length (handshake_data v host port next) ≤ length host + 17
unfolding handshake_data put_u16
length-handshake_data v host port next = omega (
  arith,
  length-append_string host,
  length-append_varint v,
  length-append_varint next,
  length-append (append_varint v) (append_string host ++ (put_u16 port ++ append_varint next)),
  length-append (append_string host) (put_u16 port ++ append_varint next),
)

-- A text that fits in a packet beside what the packets of a session add to it.
abbrev pub IsShort : Bytes → Type 0
IsShort s = length s + 64 ≤ mc_max_packet

read_handshake :
    (v : ℕ) (host : Bytes) (port next : ℕ) (rest : Bytes)
    → IsShort host
    → read_packet (handshake_bytes v host port next ++ rest)
      ≡ ok ((pos 0, handshake_data v host port next), rest)
unfolding handshake_bytes
read_handshake v host port next rest h =
    read_packet-packet_bytes 0 (handshake_data v host port next) rest (omega arith)
      (omega (arith, length-handshake_data v host port next))

read_login_start :
    (name rest : Bytes)
    → IsShort name
    → read_packet (login_start_bytes name ++ rest) ≡ ok ((pos 0, append_string name), rest)
unfolding login_start_bytes
read_login_start name rest h =
    read_packet-packet_bytes 0 (append_string name) rest (omega arith)
      (omega (arith, length-append_string name))

abbrev pub login_success_data : Bytes → Bytes → Bytes
login_success_data uuid name = uuid ++ (append_string name ++ append_varint 0)

pub read_login_success :
    (uuid name rest : Bytes)
    → length uuid ≡ 16
    → IsShort name
    → read_packet (login_success_bytes uuid name ++ rest)
      ≡ ok ((pos 2, login_success_data uuid name), rest)
unfolding login_success_bytes
read_login_success uuid name rest h k =
    read_packet-packet_bytes 2 (uuid ++ (append_string name ++ append_varint 0)) rest (omega arith)
      (omega (
        arith,
        length-append uuid (append_string name ++ append_varint 0),
        length-append (append_string name) (append_varint 0),
        length-append_string name,
        length-append_varint 0,
      ))

module _ (status_json : RedstoneConfig → Bytes) (cfg : RedstoneConfig) (uuid username : Bytes) where
  serve-login :
      (name rest written : Bytes)
      → IsShort name
      → handle_login status_json uuid username (login_start_bytes name ++ rest) (unbroken written)
        ≡ tunnelled (unbroken (written ++ login_success_bytes uuid username)) (new_mc_conn rest)
  unfolding handle_login write
  serve-login name rest written h = ground (arith, read_login_start name rest h)

  pub serve_accepts :
      (v : ℕ) (host : Bytes) (port : ℕ) (name rest written : Bytes)
      → IsShort host
      → IsShort name
      → redstone_serve status_json cfg uuid username
          (handshake_bytes v host port 2 ++ (login_start_bytes name ++ rest))
          (unbroken written)
        ≡ tunnelled (unbroken (written ++ login_success_bytes uuid username)) (new_mc_conn rest)
  unfolding redstone_serve serve_state
  serve_accepts v host port name rest written h k = ground (
    arith,
    read_handshake v host port 2 (login_start_bytes name ++ rest) h,
    parse_handshake-handshake_data v host port 2 (omega arith) (omega arith),
    serve-login name rest written k,
  )
