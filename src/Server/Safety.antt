-- ===== src/Server/Safety.antt =====
-- Whom the server serves, and what it connects to.
use mathlib.Core.Path.{subst}
use stealthlink.Prelude.{
  Bool, Bool-cases, Bytes, List, OnOk, ReadError, Result, String, drop, err, get_or, inl, inr,
  length, ltb, ok, read_full, read_full_long, read_full_short, refl, some, sym, take, true, ℕ, ◌==◌,
  ◌≡◌,
}
use stealthlink.Firewall.Connections.{Firewall}
use stealthlink.Auth.Manager.{
  validate_auth, AuthError, AuthManager, UserRecord, Crypto, AuthSession,
}
use stealthlink.Wire.Address.{Decoded}
use stealthlink.Firewall.Connections.{check_connection}
use stealthlink.Wire.Stream.{HeaderError}
use stealthlink.Server.{
  direct, handle_mode, handle_auth, authenticated, handle_tls_connection,
  handle_direct_connection_with_type,
}
use stealthlink.Wire.Net.{IpText}
use stealthlink.Wire.Stream.{read_failed, unknown_type, read_address_header_with_first_byte}
use stealthlink.Auth.Manager.Validation.{IsUser, Admits, validate_auth_sound}
use stealthlink.Server.{
  handle_smart_connection, connect_target, Ending, direct_target, check_target, Server, closed,
  tun_session, relay,
}

module _ (net : IpText) (dials : Bool → Decoded → Bool) where
  -- What an ending grants, over a condition `Known` on sessions: no ending but the session of a
  -- known user, and no relay but to a target that the firewall allowed and that was dialled.
  abbrev pub Grants : (AuthSession → Type 0) → Firewall → Ending → Type 0
  Grants Known fw closed = Unit {0}
  Grants Known fw (tun_session session rest) = Known session
  Grants Known fw (relay session d) =
      Known session
      × ((check_connection net fw session.user.id d.addr d.port (some session.user)).1 ≡ true)
      × (dials session.user.has_upstream d ≡ true)

  module _ (Known : AuthSession → Type 0) (s : Server) (session : AuthSession)
      (known : Known session) where
    connect_target-Grants :
        (after : Server) (d : Decoded)
        → (check_connection net s.firewall session.user.id d.addr d.port (some session.user)).1
          ≡ true
        → Grants Known s.firewall (connect_target net dials after session d).2
    unfolding connect_target
    connect_target-Grants after d h = elim (Bool-cases (dials session.user.has_upstream d)) [
      | inl dialled ↦ rw dialled (known, h, dialled)
      | inr failed ↦ rw failed tt
    ]

    check_target-Grants :
        (d : Decoded) → Grants Known s.firewall (check_target net dials s session d).2
    unfolding check_target
    check_target-Grants d =
        elim (Bool-cases
          (check_connection net s.firewall session.user.id d.addr d.port (some session.user)).1) [
            | inl allowed ↦ rw allowed (connect_target-Grants _ d allowed)
            | inr refused ↦ rw refused tt
          ]

    direct_target-Grants :
        (r : Result HeaderError Decoded)
        → Grants Known s.firewall (direct_target net dials s session r).2
    unfolding direct_target
    direct_target-Grants (ok d) = check_target-Grants d
    direct_target-Grants (err (read_failed e)) = tt
    direct_target-Grants (err (unknown_type t)) = tt

    handle_mode-Grants :
        (r : Result ReadError (Bytes × Bytes))
        → Grants Known s.firewall (handle_mode net dials s session r).2
    unfolding handle_mode handle_direct_connection_with_type
    handle_mode-Grants (err e) = tt
    handle_mode-Grants (ok (mode_buf, rest)) =
        let mode = get_or mode_buf 0 0 in
        elim (Bool-cases (mode == 0x00)) [
          | inl tun ↦ rw tun known
          | inr not_tun ↦ elim (Bool-cases (direct mode)) [
            | inl directly ↦
                rw (not_tun, directly)
                  (direct_target-Grants (read_address_header_with_first_byte net mode rest))
            | inr other ↦ rw (not_tun, other) tt
          ]
        ]

    pub handle_smart_connection-Grants :
        (input : Bytes)
        → Grants Known s.firewall (handle_smart_connection net dials s session input).2
    unfolding handle_smart_connection
    handle_smart_connection-Grants input = handle_mode-Grants (read_full 1 input)

  -- Who stands behind a session: a user of the table, whose code for this minute or the one
  -- before is in the first 56 bytes of the connection, and who has not expired.
  abbrev pub LetIn : Crypto → List (String × UserRecord) → ℕ → Bytes → AuthSession → Type 0
  LetIn std users now input session =
      IsUser session.user users
      × Admits std session.user (take 32 (take 56 input)) (take 24 (drop 32 (take 56 input))) now

  authenticated-Grants :
      (Known : AuthSession → Type 0) (s : Server) (r : Result AuthError AuthSession) (rest : Bytes)
      → OnOk Known r
      → Grants Known s.firewall (authenticated net dials s r rest).2
  unfolding authenticated
  authenticated-Grants Known s (ok session) rest h =
      handle_smart_connection-Grants Known s session h rest
  authenticated-Grants Known s (err e) rest h = tt

  known_session :
      (std : Crypto) (am : AuthManager) (input : Bytes) (ip : String) (rate_now now : ℕ)
      (r : Result AuthError AuthSession)
      → (validate_auth std am (take 56 input) ip rate_now now).1 ≡ r
      → OnOk (LetIn std am.users now input) r
  known_session std am input ip rate_now now (ok session) h =
      let (_, _, user, admitted) =
        validate_auth_sound std am (take 56 input) ip rate_now now session h in
      (user, admitted)
  known_session std am input ip rate_now now (err e) h = tt

  -- Whatever bytes a connection brings, the server opens a session of frames only for a user who
  -- is let in, and relays only for such a user and to a target that the firewall, as it stood,
  -- allows this user and that was dialled.
  pub handle_tls_connection-Grants :
      (std : Crypto) (s : Server) (ip : String) (rate_now now : ℕ) (input : Bytes)
      → Grants
          (LetIn std s.auth.users now input)
          s.firewall
          (handle_tls_connection net dials std s ip rate_now now input).2
  unfolding handle_tls_connection
  handle_tls_connection-Grants std s ip rate_now now input =
      let result : Result ReadError (Bytes × Bytes) → Type 0 = λ r.
        Grants (LetIn std s.auth.users now input) s.firewall
          (handle_auth net dials std s ip rate_now now r).2 in
      elim (Bool-cases (ltb (length input) 56)) [
        | inl short ↦
            let (e, none_left) = read_full_short 56 input short in
            subst result (sym none_left) (unfold handle_auth in tt)
        | inr long ↦ subst result (sym (read_full_long 56 input long)) (
            unfold handle_auth in
            authenticated-Grants (LetIn std s.auth.users now input)
              (record s { auth = (validate_auth std s.auth (take 56 input) ip rate_now now).0 })
              (validate_auth std s.auth (take 56 input) ip rate_now now).1 (drop 56 input)
              (known_session std s.auth input ip rate_now now _ refl))
      ]
