-- ===== src/Redstone/Handshake/RoundTrip.antt =====
-- The server's parse of a handshake.
use stealthlink.Prelude.{
  Bytes, [], ap, append-nil, append_assoc, arith, drop-append, err, length, length-append, ok,
  put_u16, refl, suc, ℕ, ◌%◌, ◌++◌, ◌+◌, ◌-◌, ◌<◌, ◌^◌, ◌∙◌, ◌≡◌, ◌≤◌,
}
use stealthlink.Redstone.Varint.{ℤ, append_string, as_int32, append_varint, pos, negsuc}
use stealthlink.Redstone.Varint.RoundTrip.{decode_varint-append_varint, length-append_varint}
use stealthlink.Redstone.Handshake.{
  handshake_data, parse_host, skip_host, parse_handshake, parse_next_state, panics,
}

parse_handshake-append :
    (v : ℕ) (rest : Bytes) → parse_handshake (append_varint v ++ rest) ≡ parse_host rest
unfolding parse_handshake
parse_handshake-append v rest = ground (arith, decode_varint-append_varint v rest)

parse_host-append :
    (v : ℕ) (rest : Bytes)
    → parse_host (append_varint v ++ rest) ≡ skip_host (as_int32 (v % 2 ^ 32)) rest
unfolding parse_host
parse_host-append v rest = ground (
  arith,
  decode_varint-append_varint v rest,
  length-append_varint v,
  length-append (append_varint v) rest,
)

parse_next_state-append : (v : ℕ) → parse_next_state (append_varint v) ≡ ok (as_int32 (v % 2 ^ 32))
unfolding parse_next_state
parse_next_state-append v =
    ground (arith, decode_varint-append_varint v [], append-nil (append_varint v))

skip_host-append :
    (host rest : Bytes) (port : ℕ)
    → skip_host (pos (length host)) (host ++ (put_u16 port ++ rest)) ≡ parse_next_state rest
unfolding skip_host put_u16
skip_host-append host rest port = ground (
  arith,
  length-append host (put_u16 port ++ rest),
  drop-append (length host + 2) (host ++ put_u16 port) rest,
  append_assoc host (put_u16 port) rest,
  length-append host (put_u16 port),
)

-- A handshake that the client writes is parsed to its next state, whatever the version of the
-- protocol and the port, if the host and the next state are below 2 ^ 31.
pub parse_handshake-handshake_data :
    (protocol_version : ℕ) (host : Bytes) (port next_state : ℕ)
    → length host < 2 ^ 31
    → next_state < 2 ^ 31
    → parse_handshake (handshake_data protocol_version host port next_state) ≡ ok (pos next_state)
unfolding handshake_data append_string
parse_handshake-handshake_data protocol_version host port next_state h k =
    let tail = put_u16 port ++ append_varint next_state in
    let small : as_int32 (length host % 2 ^ 32) ≡ pos (length host) = ground arith in
    let small' : as_int32 (next_state % 2 ^ 32) ≡ pos next_state = ground arith in
    parse_handshake-append protocol_version ((append_varint (length host) ++ host) ++ tail)
    ∙ ap parse_host (append_assoc (append_varint (length host)) host tail)
    ∙ parse_host-append (length host) (host ++ tail)
    ∙ ap (λ (z : ℤ). skip_host z (host ++ tail)) small
    ∙ skip_host-append host (append_varint next_state) port
    ∙ parse_next_state-append next_state
    ∙ ap ok small'

skip_host_negative : (n : ℕ) (rest : Bytes) → skip_host (negsuc (suc (suc n))) rest ≡ err panics
unfolding skip_host
skip_host_negative n rest = refl

negative :
    (u : ℕ) (rest : Bytes)
    → 2 ^ 31 ≤ u
    → u < 2 ^ 32 - 2
    → skip_host (as_int32 (u % 2 ^ 32)) rest ≡ err panics
negative u rest h k =
    let sign : as_int32 (u % 2 ^ 32) ≡ negsuc (2 ^ 32 - 1 - u) = ground arith in
    let low : 2 ^ 32 - 1 - u ≡ suc (suc (2 ^ 32 - 3 - u)) = omega arith in
    ap (λ (z : ℤ). skip_host z rest) (sign ∙ ap negsuc low)
    ∙ skip_host_negative (2 ^ 32 - 3 - u) rest

-- A handshake whose host has a length of at least 2 ^ 31 and below 2 ^ 32 - 2, as five bytes can
-- say, makes the parser panic, whatever bytes follow.
pub parse_handshake_panics :
    (protocol_version host_length : ℕ) (rest : Bytes)
    → 2 ^ 31 ≤ host_length
    → host_length < 2 ^ 32 - 2
    → parse_handshake (append_varint protocol_version ++ (append_varint host_length ++ rest))
      ≡ err panics
parse_handshake_panics protocol_version host_length rest h k =
    parse_handshake-append protocol_version (append_varint host_length ++ rest)
    ∙ parse_host-append host_length rest
    ∙ negative host_length rest h k
