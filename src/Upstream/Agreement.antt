-- ===== src/Upstream/Agreement.antt =====
-- The two ends of a direct connection: DialVPNServer of upstream.go and handleTLSConnection of
-- server.go.
use stealthlink.Prelude.{
  Bool, Bool-cases, Bytes, List, ReadError, Result, Result-cases, String, [], arith, both_branches,
  err, false, get_or, inl, inr, ok, read_full, refl, some, ℕ, ◌==◌, ◌∷◌, ◌≡◌,
}
use stealthlink.Firewall.Connections.{check_connection}
use stealthlink.Auth.Manager.{AuthError, validate_auth, auth_status_ok, AuthSession, Crypto}
use stealthlink.Wire.Address.{Decoded}
use stealthlink.Wire.Net.{IpText}
use stealthlink.Upstream.{status_read_failed, dial_status, UpstreamError, read_dial_status}
use stealthlink.Server.{
  direct, handle_direct_connection_with_type, handle_smart_connection, handle_mode, direct_target,
  handle_tls_connection, authenticated, connect_target, handle_auth, check_target, Ending, Server,
  closed, tun_session, relay,
}
use stealthlink.Wire.Stream.{
  read_address_header_with_first_byte, HeaderError, read_failed, unknown_type,
}
use stealthlink.Peeking.{Arrival, arrives}

-- The client goes on after these bytes, with those behind the status.
abbrev pub Accepted : Bytes → Type 0
Accepted answer = (rest : List Arrival) × (read_dial_status (arrives answer ∷ []) ≡ ok rest)

-- The client is told an error, or is left with none.
abbrev pub Refused : Bytes → Type 0
Refused answer = (e : UpstreamError) × (read_dial_status (arrives answer ∷ []) ≡ err e)

-- The answer tells how the handler goes on.
abbrev pub Tells : Server × Bytes × Ending → Type 0
Tells (s, answer, closed) = Refused answer
Tells (s, answer, tun_session session rest) = Accepted answer
Tells (s, answer, relay session d) = Accepted answer

silence : Refused []
unfolding read_dial_status
silence = (status_read_failed, refl)

refusal : (status : ℕ) → (status == 0x00) ≡ false → Refused (status ∷ [])
unfolding read_dial_status dial_status
refusal status h = elim (Result-cases (dial_status status [])) [
  | inl (conn, e) ↦ absurd (ground (arith, h, e))
  | inr (e, failed) ↦ (e, failed)
]

acceptance : Accepted (0x00 ∷ [])
unfolding read_dial_status dial_status
acceptance = ([], refl)

module _ (net : IpText) (dials : Bool → Decoded → Bool) where
  connect_target-Tells :
      (s : Server) (session : AuthSession) (d : Decoded)
      → Tells (connect_target net dials s session d)
  unfolding connect_target
  connect_target-Tells s session d = elim (Bool-cases (dials session.user.has_upstream d)) [
    | inl dialled ↦ rw dialled acceptance
    | inr failed ↦ rw failed (refusal 0x02 refl)
  ]

  check_target-Tells :
      (s : Server) (session : AuthSession) (d : Decoded)
      → Tells (check_target net dials s session d)
  unfolding check_target
  check_target-Tells s session d =
      let answer =
        check_connection net s.firewall session.user.id d.addr d.port (some session.user) in
      elim (Bool-cases answer.1) [
        | inl allowed ↦
            rw allowed (connect_target-Tells (record s { firewall = answer.0 }) session d)
        | inr blocked ↦ rw blocked (refusal 0x03 refl)
      ]

  direct_target-Tells :
      (s : Server) (session : AuthSession) (r : Result HeaderError Decoded)
      → Tells (direct_target net dials s session r)
  unfolding direct_target
  direct_target-Tells s session (ok d) = check_target-Tells s session d
  direct_target-Tells s session (err (read_failed e)) = silence
  direct_target-Tells s session (err (unknown_type t)) = refusal 0x01 refl

  handle_mode-Tells :
      (s : Server) (session : AuthSession) (r : Result ReadError (Bytes × Bytes))
      → Tells (handle_mode net dials s session r)
  unfolding handle_mode handle_direct_connection_with_type
  handle_mode-Tells s session (err e) = silence
  handle_mode-Tells s session (ok (mode_buf, rest)) =
      let mode = get_or mode_buf 0 0 in
      both_branches Tells (mode == 0x00) (s, auth_status_ok ∷ [], tun_session session rest) _
        acceptance
        (both_branches Tells (direct mode)
          (handle_direct_connection_with_type net dials s session mode rest) (s, 0x01 ∷ [], closed)
          (direct_target-Tells s session (read_address_header_with_first_byte net mode rest))
          (refusal 0x01 refl))

  authenticated-Tells :
      (s : Server) (r : Result AuthError AuthSession) (rest : Bytes)
      → Tells (authenticated net dials s r rest)
  unfolding authenticated handle_smart_connection
  authenticated-Tells s (ok session) rest = handle_mode-Tells s session (read_full 1 rest)
  authenticated-Tells s (err e) rest = refusal 0x01 refl

  handle_auth-Tells :
      (std : Crypto) (s : Server) (ip : String) (rate_now now : ℕ)
      (r : Result ReadError (Bytes × Bytes))
      → Tells (handle_auth net dials std s ip rate_now now r)
  unfolding handle_auth
  handle_auth-Tells std s ip rate_now now (err e) = silence
  handle_auth-Tells std s ip rate_now now (ok (auth_buf, rest)) =
      authenticated-Tells
        (record s { auth = (validate_auth std s.auth auth_buf ip rate_now now).0 })
        (validate_auth std s.auth auth_buf ip rate_now now).1 rest

  -- Whatever a client sends, the server's answer to it makes DialVPNServer succeed exactly if the
  -- server goes on with the connection: when it has closed the connection, the client gets an
  -- error, also if the server wrote nothing.
  pub handle_tls_connection-Tells :
      (std : Crypto) (s : Server) (ip : String) (rate_now now : ℕ) (input : Bytes)
      → Tells (handle_tls_connection net dials std s ip rate_now now input)
  unfolding handle_tls_connection
  handle_tls_connection-Tells std s ip rate_now now input =
      handle_auth-Tells std s ip rate_now now (read_full 56 input)
