-- ===== src/Server/Quic.antt =====
-- QUIC connections and their streams in server.go: the stream that authenticates, then streams
-- that are each a session of frames or a connection to a target. `dials` is as for TLS; over QUIC
-- a target is dialled from the server itself, also for a user with an upstream.
pub mod Equivalence
use stealthlink.Prelude.{
  Bool, Bytes, ReadError, Result, String, [], err, false, get_or, if◌then◌else◌, not, ok, read_full,
  some, ℕ, ◌==◌, ◌∷◌,
}
use stealthlink.Wire.Frames.{frame_auth, Frame}
use stealthlink.Wire.Stream.{read_address_header_with_first_byte, HeaderError}
use stealthlink.Firewall.Connections.{on_disconnect, check_connection, on_connect}
use stealthlink.Wire.Address.{Decoded}
use stealthlink.Wire.Reader.{FrameReadError, read_typed_frame}
use stealthlink.Wire.Net.{IpText}
use stealthlink.Auth.Manager.{
  auth_status_denied, auth_status_ok, encode_auth_response, AuthError, validate_auth, Crypto,
  AuthSession,
}
use stealthlink.Wire.Writer.{new_frame_writer, Sink, flush, write_typed_frame, done, write_failed}
use stealthlink.Server.{Ending, Server, closed, tun_session, relay}

-- What has become of a QUIC connection: authStream was closed, CloseWithError gave a code, or its
-- streams are accepted.
pub data QuicEnding : Type 0 where
  auth_closed : QuicEnding
  closed_with : ℕ → QuicEnding
  accepts : AuthSession → QuicEnding

-- A new FrameWriter with one frame, flushed. The errors of both are ignored.
unfoldable pub respond : Sink → Frame → Sink
unfolding write_typed_frame flush new_frame_writer
respond sink f = (flush (write_typed_frame (new_frame_writer sink) f).0).0.sink

module _ (std : Crypto) where
  unfoldable pub answer_auth :
      Server → Result AuthError AuthSession → Sink → Server × Sink × QuicEnding
  unfolding respond
  answer_auth s (err e) sink =
      (s, respond sink (encode_auth_response auth_status_denied []), closed_with auth_status_denied)
  answer_auth s (ok session) sink =
      (s, respond sink (encode_auth_response auth_status_ok []), accepts session)

  unfoldable pub handle_auth_frame :
      Server → String → ℕ → ℕ → Result FrameReadError Frame → Sink → Server × Sink × QuicEnding
  unfolding answer_auth validate_auth
  handle_auth_frame s remote_ip rate_now now (err e) sink = (s, sink, auth_closed)
  handle_auth_frame s remote_ip rate_now now (ok f) sink =
      if not (f.frame_type == frame_auth)
      then (s, sink, auth_closed)
      else let (auth, result) = validate_auth std s.auth f.payload remote_ip rate_now now in
        answer_auth (record s { auth = auth }) result sink

  -- `input` is what the authenticating stream brings.
  unfoldable pub handle_quic_connection :
      Server → String → ℕ → ℕ → Bytes → Sink → Server × Sink × QuicEnding
  unfolding handle_auth_frame read_typed_frame
  handle_quic_connection s remote_ip rate_now now input sink =
      handle_auth_frame s remote_ip rate_now now
        (read_typed_frame (record { input = input; out = 0 })).0 sink

module _ (net : IpText) (dials : Bool → Decoded → Bool) where
  unfoldable pub quic_dial : Server → AuthSession → Decoded → Server × Bytes × Ending
  unfolding on_connect on_disconnect
  quic_dial s session d =
      let entered = record s { firewall = on_connect s.firewall session.user.id } in
      if dials false d then (entered, 0x00 ∷ [], relay session d) else (
        record s { firewall = on_disconnect entered.firewall session.user.id },
        0x02 ∷ [],
        closed,
      )

  unfoldable pub quic_target :
      Server → AuthSession → Result HeaderError Decoded → Server × Bytes × Ending
  unfolding quic_dial
  quic_target s session (err e) = (s, 0x01 ∷ [], closed)
  quic_target s session (ok d) =
      let (fw, allowed) =
        check_connection net s.firewall session.user.id d.addr d.port (some session.user) in
      if allowed
      then quic_dial (record s { firewall = fw }) session d
      else (record s { firewall = fw }, 0x01 ∷ [], closed)

  -- `writes` tells whether the write of the status of a session of frames succeeds.
  unfoldable pub quic_first_byte :
      Bool → Server → AuthSession → Result ReadError (Bytes × Bytes) → Server × Bytes × Ending
  unfolding quic_target
  quic_first_byte writes s session (err e) = (s, [], closed)
  quic_first_byte writes s session (ok (first_byte, rest)) =
      let first = get_or first_byte 0 0 in
      if first == 0x00
      then (if writes then (s, auth_status_ok ∷ [], tun_session session rest) else (s, [], closed))
      else quic_target s session (read_address_header_with_first_byte net first rest)

  unfoldable pub handle_quic_stream : Bool → Server → AuthSession → Bytes → Server × Bytes × Ending
  unfolding quic_first_byte
  handle_quic_stream writes s session input = quic_first_byte writes s session (read_full 1 input)
