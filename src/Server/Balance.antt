-- ===== src/Server/Balance.antt =====
-- What a connection leaves behind.
use stealthlink.Prelude.{
  Bool, Bool-cases, Bytes, List, Option, ReadError, Result, String, ap, arith, bytes_eq, delete,
  eq_iff, err, false, get_or, if◌then◌else◌, inl, inr, insert, lookup-delete, lookup-insert,
  lookup-insert_self, nat_eq, ok, read_full, refl, some, str_eq, string_eq, true, ℕ, ◌+◌, ◌-◌, ◌==◌,
  ◌∙◌, ◌≡◌,
}
use stealthlink.Wire.Writer.{Writer}
use stealthlink.Server.Frames.Steps.{end_session, SessionEvent, session_run, begin_session}
use stealthlink.Firewall.Bandwidth.{Trackers}
use stealthlink.Server.Frames.Interleavings.{count_of-end_session}
use stealthlink.Auth.Manager.{validate_auth, AuthError, Crypto, AuthSession}
use stealthlink.Wire.Address.{Decoded}
use stealthlink.Wire.Stream.{
  read_address_header_with_first_byte, read_failed, unknown_type, HeaderError,
}
use stealthlink.Server.{
  direct, enter, direct_target, handle_mode, connect_target, check_target, authenticated,
  handle_auth, handle_tls_connection, handle_direct_connection_with_type, handle_smart_connection,
}
use stealthlink.Wire.Net.{IpText}
use stealthlink.Firewall.Connections.{
  on_connect, increment, on_disconnect, count_of, decrement, Firewall, check_connection,
}
use stealthlink.Firewall.Connections.Limit.{
  decrement-increment, count-check, count-connect, count-disconnect,
}
use stealthlink.Server.{leave, session_count, Ending, Server, closed, tun_session, relay}

-- Two states in which all counts of connections read the same.
abbrev pub SameCounts : Server → Server → String → Type 0
SameCounts s t id =
    (count_of s.firewall id ≡ count_of t.firewall id)
    × (session_count s.sessions id ≡ session_count t.sessions id)

counts_back :
    (fw : Firewall) (id other : String)
    → count_of (on_disconnect (on_connect fw id) id) other ≡ count_of fw other
counts_back fw id other =
    count-disconnect (on_connect fw id) other id
    ∙ after_both (str_eq id other) (count-connect fw other id)
  where
    after_both :
        (same : Bool)
        → count_of (on_connect fw id) other
          ≡ (if same then increment (count_of fw other) else count_of fw other)
        → (if same
            then decrement (count_of (on_connect fw id) other)
            else count_of (on_connect fw id) other)
          ≡ count_of fw other
    after_both true e = ap decrement e ∙ decrement-increment (count_of fw other)
    after_both false e = e

sessions_back :
    (sessions : List (String × ℕ)) (id other : String)
    → let more = insert id (session_count sessions id + 1) sessions in
      session_count
        (if session_count more id - 1 == 0
          then delete id more
          else insert id (session_count more id - 1) more)
        other
      ≡ session_count sessions other
sessions_back sessions id other =
    let n = session_count sessions id in
    let more = insert id (n + 1) sessions in
    ground (
      arith,
      lookup-insert_self id (n + 1) sessions,
      lookup-insert id other (n + 1) sessions,
      lookup-delete id other more,
      lookup-insert id other n more,
      eq_iff id other,
    )

-- What a session of frames meets: its trackers and writer, the events while it lasts, and how the
-- dials, the resolutions and the sockets turn out.
pub record Course : Type 0 where
  pub trackers : Trackers
  pub writer : Writer
  pub events : List (SessionEvent × ℕ)
  pub dials : Bytes → ℕ → Option Bytes
  pub resolves : Bytes → ℕ → Option Bytes
  pub listens : ℕ → Bool

module _ (net : IpText) (dials : Bool → Decoded → Bool)
    (course : AuthSession → Bytes → Course) where
  -- handleTUNSession, from OnConnect to what it defers.
  unfoldable pub handle_tun_session : Server → AuthSession → Course → Server
  unfolding begin_session session_run end_session
  handle_tun_session s session c = record s {
    firewall =
        (end_session
          (session_run net session.user c.dials c.resolves c.listens
            (begin_session s.firewall c.trackers c.writer session.user.id) c.events)
          session.user.id).firewall;
  }

  -- The server when the handler has returned: a relay ends in what was deferred, and a session of
  -- frames runs its course on the bytes that are left.
  abbrev pub ended : Server × Bytes × Ending → Server
  ended (s, written, closed) = s
  ended (s, written, tun_session session rest) = handle_tun_session s session (course session rest)
  ended (s, written, relay session d) = leave s session.user.id

  tun_session-SameCounts :
      (s : Server) (session : AuthSession) (c : Course) (other : String)
      → SameCounts (handle_tun_session s session c) s other
  unfolding handle_tun_session
  tun_session-SameCounts s session c other = (
    count_of-end_session net s.firewall session.user c.dials c.resolves c.listens c.trackers
        c.writer c.events other,
    refl,
  )

  module _ (session : AuthSession) (other : String) where
    connect_target-SameCounts :
        (s : Server) (d : Decoded)
        → SameCounts (ended (connect_target net dials s session d)) s other
    unfolding connect_target enter leave
    connect_target-SameCounts s d = elim (Bool-cases (dials session.user.has_upstream d)) [
      | inl dialled ↦ rw dialled (
        counts_back s.firewall session.user.id other,
        sessions_back s.sessions session.user.id other,
      )
      | inr failed ↦ rw failed (
        counts_back s.firewall session.user.id other,
        sessions_back s.sessions session.user.id other,
      )
    ]

    check_target-SameCounts :
        (s : Server) (d : Decoded) → SameCounts (ended (check_target net dials s session d)) s other
    unfolding check_target
    check_target-SameCounts s d =
        let check =
          check_connection net s.firewall session.user.id d.addr d.port (some session.user) in
        let (_, kept) =
          count-check net s.firewall session.user.id d.addr d.port (some session.user) other in
        elim (Bool-cases check.1) [
          | inl allowed ↦ rw allowed (
              let (counts, sessions) =
                connect_target-SameCounts (record s { firewall = check.0 }) d in
              (counts ∙ kept, sessions))
          | inr refused ↦ rw refused (kept, refl)
        ]

    direct_target-SameCounts :
        (s : Server) (r : Result HeaderError Decoded)
        → SameCounts (ended (direct_target net dials s session r)) s other
    unfolding direct_target
    direct_target-SameCounts s (ok d) = check_target-SameCounts s d
    direct_target-SameCounts s (err (read_failed e)) = (refl, refl)
    direct_target-SameCounts s (err (unknown_type t)) = (refl, refl)

    handle_mode-SameCounts :
        (s : Server) (r : Result ReadError (Bytes × Bytes))
        → SameCounts (ended (handle_mode net dials s session r)) s other
    unfolding handle_mode handle_direct_connection_with_type
    handle_mode-SameCounts s (err e) = (refl, refl)
    handle_mode-SameCounts s (ok (mode_buf, rest)) =
        let mode = get_or mode_buf 0 0 in
        elim (Bool-cases (mode == 0x00)) [
          | inl tun ↦ rw tun (tun_session-SameCounts s session (course session rest) other)
          | inr not_tun ↦ elim (Bool-cases (direct mode)) [
            | inl directly ↦
                rw (not_tun, directly)
                  (direct_target-SameCounts s (read_address_header_with_first_byte net mode rest))
            | inr otherwise ↦ rw (not_tun, otherwise) (refl, refl)
          ]
        ]

  authenticated-SameCounts :
      (s : Server) (r : Result AuthError AuthSession) (rest : Bytes) (other : String)
      → SameCounts (ended (authenticated net dials s r rest)) s other
  unfolding authenticated handle_smart_connection
  authenticated-SameCounts s (ok session) rest other =
      handle_mode-SameCounts session other s (read_full 1 rest)
  authenticated-SameCounts s (err e) rest other = (refl, refl)

  handle_auth-SameCounts :
      (std : Crypto) (s : Server) (ip : String) (rate_now now : ℕ)
      (r : Result ReadError (Bytes × Bytes)) (other : String)
      → SameCounts (ended (handle_auth net dials std s ip rate_now now r)) s other
  unfolding handle_auth
  handle_auth-SameCounts std s ip rate_now now (err e) other = (refl, refl)
  handle_auth-SameCounts std s ip rate_now now (ok (auth_buf, rest)) other =
      authenticated-SameCounts
        (record s { auth = (validate_auth std s.auth auth_buf ip rate_now now).0 })
        (validate_auth std s.auth auth_buf ip rate_now now).1 rest other

  -- When a TLS connection is over, whatever it brought and whether it was closed, relayed or
  -- ran as a session of frames through any events, every user's counts of connections in the
  -- firewall and of sessions read as before it came.
  pub handle_tls_connection-SameCounts :
      (std : Crypto) (s : Server) (ip : String) (rate_now now : ℕ) (input : Bytes) (other : String)
      → SameCounts (ended (handle_tls_connection net dials std s ip rate_now now input)) s other
  unfolding handle_tls_connection
  handle_tls_connection-SameCounts std s ip rate_now now input other =
      handle_auth-SameCounts std s ip rate_now now (read_full 56 input) other
