-- ===== src/Server.antt =====
-- How the server of protocol/core/transport/server.go takes in a TLS connection: authentication,
-- the choice of a mode, and a direct connection to a target. Whether dialling a target succeeds is
-- an argument; the relay itself is not modelled, and what is deferred to its end is `leave`.
pub mod Safety
pub mod Balance
pub mod Frames
pub mod Quic
use stealthlink.Prelude.{
  Bool, Bytes, List, ReadError, Result, String, [], bytes_eq, delete, err, get_or, if◌then◌else◌,
  insert, lookup, nat_eq, none, ok, read_full, some, string_eq, ℕ, ◌+◌, ◌-◌, ◌==◌, ◌||◌, ◌∷◌,
}
use stealthlink.Wire.Net.{IpText}
use stealthlink.Wire.Address.{Decoded, addr_ipv4, addr_ipv6, addr_domain}
use stealthlink.Wire.Stream.{
  HeaderError, read_address_header_with_first_byte, read_failed, unknown_type,
}
use stealthlink.Auth.Manager.{
  Crypto, AuthManager, AuthSession, AuthError, validate_auth, auth_status_ok,
}
use stealthlink.Firewall.Connections.{Firewall, check_connection, on_connect, on_disconnect}

-- `sessions` counts the direct connections of each user.
pub record Server : Type 0 where
  pub auth : AuthManager
  pub firewall : Firewall
  pub sessions : List (String × ℕ)

-- What a handler goes on with: nothing, a session of frames on the bytes that are left, or the
-- relay between the connection and a target.
pub data Ending : Type 0 where
  closed : Ending
  tun_session : AuthSession → Bytes → Ending
  relay : AuthSession → Decoded → Ending

abbrev pub session_count : List (String × ℕ) → String → ℕ
session_count sessions id = elim (lookup id sessions) [ none ↦ 0 | some n ↦ n ]

unfoldable pub enter : Server → String → Server
unfolding on_connect
enter s id = record s {
  firewall = on_connect s.firewall id;
  sessions = insert id (session_count s.sessions id + 1) s.sessions;
}

-- sessions[id]--, and the entry goes when it is not positive.
unfoldable pub leave : Server → String → Server
unfolding on_disconnect
leave s id = record s {
  firewall = on_disconnect s.firewall id;
  sessions =
      if session_count s.sessions id - 1 == 0
      then delete id s.sessions
      else insert id (session_count s.sessions id - 1) s.sessions;
}

-- The three types of addresses, which are modes too.
abbrev pub direct : ℕ → Bool
direct mode = mode == addr_ipv4 || mode == addr_domain || mode == addr_ipv6

module _ (net : IpText) (dials : Bool → Decoded → Bool) where
  unfoldable pub connect_target : Server → AuthSession → Decoded → Server × Bytes × Ending
  unfolding enter leave
  connect_target s session d =
      let entered = enter s session.user.id in
      if dials session.user.has_upstream d
      then (entered, 0x00 ∷ [], relay session d)
      else (leave entered session.user.id, 0x02 ∷ [], closed)

  unfoldable pub check_target : Server → AuthSession → Decoded → Server × Bytes × Ending
  unfolding connect_target
  check_target s session d =
      let (fw, allowed) =
        check_connection net s.firewall session.user.id d.addr d.port (some session.user) in
      if allowed
      then connect_target (record s { firewall = fw }) session d
      else (record s { firewall = fw }, 0x03 ∷ [], closed)

  unfoldable pub direct_target :
      Server → AuthSession → Result HeaderError Decoded → Server × Bytes × Ending
  unfolding check_target
  direct_target s session (ok d) = check_target s session d
  direct_target s session (err (read_failed e)) = (s, [], closed)
  direct_target s session (err (unknown_type t)) = (s, 0x01 ∷ [], closed)

  -- Its cases of the three address types are those of ReadAddressHeaderWithFirstByte.
  unfoldable pub handle_direct_connection_with_type :
      Server → AuthSession → ℕ → Bytes → Server × Bytes × Ending
  unfolding direct_target
  handle_direct_connection_with_type s session addr_type input =
      direct_target s session (read_address_header_with_first_byte net addr_type input)

  unfoldable pub handle_mode :
      Server → AuthSession → Result ReadError (Bytes × Bytes) → Server × Bytes × Ending
  unfolding handle_direct_connection_with_type
  handle_mode s session (err e) = (s, [], closed)
  handle_mode s session (ok (mode_buf, rest)) =
      let mode = get_or mode_buf 0 0 in
      if mode == 0x00
      then (s, auth_status_ok ∷ [], tun_session session rest)
      else if direct mode
      then handle_direct_connection_with_type s session mode rest
      else (s, 0x01 ∷ [], closed)

  unfoldable pub handle_smart_connection : Server → AuthSession → Bytes → Server × Bytes × Ending
  unfolding handle_mode
  handle_smart_connection s session input = handle_mode s session (read_full 1 input)

  unfoldable pub authenticated :
      Server → Result AuthError AuthSession → Bytes → Server × Bytes × Ending
  unfolding handle_smart_connection
  authenticated s (err e) rest = (s, 0x01 ∷ [], closed)
  authenticated s (ok session) rest = handle_smart_connection s session rest

  unfoldable pub handle_auth :
      Crypto → Server → String → ℕ → ℕ → Result ReadError (Bytes × Bytes) → Server × Bytes × Ending
  unfolding authenticated
  handle_auth std s remote_ip rate_now now (err e) = (s, [], closed)
  handle_auth std s remote_ip rate_now now (ok (auth_buf, rest)) =
      let (auth, result) = validate_auth std s.auth auth_buf remote_ip rate_now now in
      authenticated (record s { auth = auth }) result rest

  unfoldable pub handle_tls_connection :
      Crypto → Server → String → ℕ → ℕ → Bytes → Server × Bytes × Ending
  unfolding handle_auth
  handle_tls_connection std s remote_ip rate_now now input =
      handle_auth std s remote_ip rate_now now (read_full 56 input)
