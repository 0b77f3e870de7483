-- ===== src/Server/Quic/Equivalence.antt =====
-- Streams of QUIC against connections over TLS in server.go, and who may open them.
use stealthlink.Prelude.{
  Bool, Bool-cases, Bytes, ReadError, Result, arith, err, false, get_or, inl, inr, ok, read_full,
  refl, some, true, ℕ, ◌==◌, ◌≡◌,
}
use stealthlink.Firewall.Connections.{Firewall, check_connection}
use stealthlink.Server.Quic.{handle_quic_stream, quic_dial, quic_first_byte, quic_target}
use stealthlink.Auth.Manager.{AuthSession}
use stealthlink.Wire.Address.{Decoded}
use stealthlink.Wire.Net.{IpText}
use stealthlink.Server.{
  leave, direct, enter, handle_direct_connection_with_type, check_target, direct_target,
  handle_smart_connection, handle_mode, connect_target, Ending, Server,
}
use stealthlink.Wire.Stream.{
  read_address_header_with_first_byte, HeaderError, read_failed, unknown_type,
}

module _ (net : IpText) (dials : Bool → Decoded → Bool) where
  -- The same ending, and firewalls in the same state.
  abbrev pub Agree : Server × Bytes × Ending → Server × Bytes × Ending → Type 0
  Agree a b = (a.2 ≡ b.2) × (a.0.firewall ≡ b.0.firewall)

  not_direct :
      (t : ℕ) (rest : Bytes)
      → direct t ≡ false
      → read_address_header_with_first_byte net t rest ≡ err (unknown_type t)
  unfolding read_address_header_with_first_byte
  not_direct t rest h = ground (arith, h)

  module _ (s : Server) (session : AuthSession) (own : session.user.has_upstream ≡ false) where
    dial-Agree :
        (fw : Firewall) (d : Decoded)
        → Agree
            (quic_dial net dials (record s { firewall = fw }) session d)
            (connect_target net dials (record s { firewall = fw }) session d)
    unfolding quic_dial connect_target enter leave
    dial-Agree fw d = elim (Bool-cases (dials false d)) [
      | inl dialled ↦ rw (own, dialled) (refl, refl)
      | inr failed ↦ rw (own, failed) (refl, refl)
    ]

    target-Agree :
        (r : Result HeaderError Decoded)
        → Agree (quic_target net dials s session r) (direct_target net dials s session r)
    unfolding quic_target direct_target check_target
    target-Agree (err (read_failed e)) = (refl, refl)
    target-Agree (err (unknown_type t)) = (refl, refl)
    target-Agree (ok d) =
        let answer =
          check_connection net s.firewall session.user.id d.addr d.port (some session.user) in
        elim (Bool-cases answer.1) [
          | inl allowed ↦ rw allowed (dial-Agree answer.0 d)
          | inr refused ↦ rw refused (refl, refl)
        ]

    first_byte-Agree :
        (r : Result ReadError (Bytes × Bytes))
        → Agree (quic_first_byte net dials true s session r) (handle_mode net dials s session r)
    unfolding quic_first_byte handle_mode handle_direct_connection_with_type
    first_byte-Agree (err e) = (refl, refl)
    first_byte-Agree (ok (first_byte, rest)) =
        let first = get_or first_byte 0 0 in
        elim (Bool-cases (first == 0x00)) [
          | inl tun ↦ rw tun (refl, refl)
          | inr not_tun ↦ elim (Bool-cases (direct first)) [
            | inl directly ↦
                rw (not_tun, directly)
                  (target-Agree (read_address_header_with_first_byte net first rest))
            | inr other ↦ rw (not_tun, other, not_direct first rest other) (refl, refl)
          ]
        ]

    -- For a user with no upstream, a stream over QUIC ends as a connection over TLS with the same
    -- bytes does, and leaves the firewall in the same state, if its status can be written.
    pub handle_quic_stream-handle_smart_connection :
        (input : Bytes)
        → Agree
            (handle_quic_stream net dials true s session input)
            (handle_smart_connection net dials s session input)
    unfolding handle_quic_stream handle_smart_connection
    handle_quic_stream-handle_smart_connection input = first_byte-Agree (read_full 1 input)
