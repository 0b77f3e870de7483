-- ===== src/Redstone/Handshake.antt =====
-- The handshake of redstone.go, written by the client and parsed by the server.
pub mod RoundTrip
use stealthlink.Prelude.{
  Bytes, Result, drop, err, if◌then◌else◌, length, ltb, ok, put_u16, suc, zero, ℕ, ◌++◌, ◌+◌,
}
use stealthlink.Redstone.Packet.{packet_bytes}
use stealthlink.Redstone.Varint.{
  decode_varint, append_varint, VarintError, ℤ, append_string, pos, negsuc,
}

-- `panics` is the run-time panic of a slice whose bound is negative.
pub data HandshakeError : Type 0 where
  handshake_too_short host_truncated panics : HandshakeError
  bad_integer : VarintError → HandshakeError

unfoldable pub handshake_data : ℕ → Bytes → ℕ → ℕ → Bytes
unfolding append_string
handshake_data protocol_version host port next_state =
    append_varint protocol_version
    ++ (append_string host ++ (put_u16 port ++ append_varint next_state))

-- mc_write_handshake: the bytes of its one Write.
unfoldable pub handshake_bytes : ℕ → Bytes → ℕ → ℕ → Bytes
unfolding handshake_data
handshake_bytes protocol_version host port next_state =
    packet_bytes 0x00 (handshake_data protocol_version host port next_state)

unfoldable pub parse_next_state : Bytes → Result HandshakeError ℤ
parse_next_state bytes = elim (decode_varint bytes) [
  | ok (next_state, _) ↦ ok next_state
  | err e ↦ err (bad_integer e)
]

-- `len(data) < strLen+2` and `data[strLen+2:]`, where strLen is an int32: `negsuc n` is -(n + 1).
unfoldable pub skip_host : ℤ → Bytes → Result HandshakeError ℤ
unfolding parse_next_state
skip_host (pos str_len) bytes =
    if ltb (length bytes) (str_len + 2)
    then err host_truncated
    else parse_next_state (drop (str_len + 2) bytes)
skip_host (negsuc zero) bytes =
    if ltb (length bytes) 1 then err host_truncated else parse_next_state (drop 1 bytes)
skip_host (negsuc (suc zero)) bytes = parse_next_state bytes
skip_host (negsuc (suc (suc n))) bytes = err panics

unfoldable pub parse_host : Bytes → Result HandshakeError ℤ
unfolding skip_host
parse_host bytes =
    if ltb (length bytes) 1 then err handshake_too_short else elim (decode_varint bytes) [
      | ok (str_len, n) ↦ skip_host str_len (drop n bytes)
      | err e ↦ err (bad_integer e)
    ]

unfoldable pub parse_handshake : Bytes → Result HandshakeError ℤ
unfolding parse_host
parse_handshake bytes = elim (decode_varint bytes) [
  | ok (_, n) ↦ parse_host (drop n bytes)
  | err e ↦ err (bad_integer e)
]
