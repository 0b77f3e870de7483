-- ===== src/Server/Frames.antt =====
-- A session of frames in the server of protocol/core/transport/server.go: handleTUNSession, and the
-- goroutines that it starts for connections and datagrams. A goroutine is a task of the session
-- that runs when an event says so, so that a list of events is an interleaving. `dials` gives the IP
-- address that a dial of a destination connects to, if any, `resolves` the one that a destination
-- is resolved to; both and whether listening succeeds are arguments, and the clock comes with each
-- event.
pub mod Steps
pub mod Sockets
pub mod Invariant
pub mod Preservation
pub mod Interleavings
pub mod Destinations
use stealthlink.Prelude.{
  Bool, Bytes, List, Option, Result, String, [], bytes_eq, delete, err, if◌then◌else◌, insert,
  length, lookup, nat_eq, none, ok, put_u16, some, string_eq, without, ℕ, ◌++◌, ◌+◌, ◌∷◌,
}
use stealthlink.Wire.Connect.{parse_connect}
use stealthlink.Auth.Manager.{UserRecord}
use stealthlink.Wire.Net.{IpText}
use stealthlink.Wire.Frames.{
  ConnectRequest, FrameError, decode_udp_frame, frame_conn_ack, Frame, UdpPayload,
}
use stealthlink.Firewall.Bandwidth.{Trackers, track_bandwidth}
use stealthlink.Firewall.Connections.{check_connection, Firewall}
use stealthlink.Wire.Writer.{WriteOutcome, flush, write_typed_frame, Writer, done, write_failed}

-- A goroutine that has not run yet: handleFrameConnect or handleFrameUDP with its payload, or
-- getOrCreateUDPAssociation between its two sections, with the socket that it has made.
pub data Task : Type 0 where
  connect_task udp_task : Bytes → Task
  register_task : ℕ → UdpPayload → Task

-- Connections and sockets are numbered. `relays` has the stream of each connection whose relay
-- runs, `udp_relays` the association of each socket whose relay runs, and `reached` what was
-- connected or sent to: the destination that was asked for, and the IP address.
pub record FrameSession : Type 0 where
  pub firewall : Firewall
  pub trackers : Trackers
  pub writer : Writer
  pub tasks : List Task
  pub relays : List (ℕ × ℕ)
  pub next_conn : ℕ
  pub udp_associations : List (ℕ × ℕ)
  pub udp_relays : List (ℕ × ℕ)
  pub sockets : List ℕ
  pub next_socket : ℕ
  pub reached : List (Bytes × ℕ × Bytes)
  pub finished : Bool

abbrev pub close_socket : FrameSession → ℕ → FrameSession
close_socket s socket = record s { sockets = without socket s.sockets }

abbrev pub then_flush : Writer × WriteOutcome → Writer
then_flush (w, outcome) = (flush w).0

abbrev pub conn_ack : ℕ → ℕ → Frame
conn_ack stream_id status = record {
  frame_type = frame_conn_ack;
  payload = put_u16 stream_id ++ (status ∷ []);
}

-- The errors of writing an acknowledgement are ignored.
unfoldable pub acknowledge : FrameSession → ℕ → ℕ → FrameSession
unfolding write_typed_frame flush
acknowledge s stream_id status = record s {
  writer = then_flush (write_typed_frame s.writer (conn_ack stream_id status));
}

unfoldable pub track : FrameSession → String → ℕ → ℕ → FrameSession
unfolding track_bandwidth
track s id bytes now = record s {
  trackers = (track_bandwidth s.firewall.max_bandwidth_default s.trackers id bytes now).0;
}

unfoldable pub close_udp_association : FrameSession → ℕ → FrameSession
close_udp_association s id = elim (lookup id s.udp_associations) [
  | none ↦ s
  | some socket ↦ close_socket (record s { udp_associations = delete id s.udp_associations }) socket
]

unfoldable pub close_all : List (ℕ × ℕ) → List ℕ → List ℕ
close_all [] sockets = sockets
close_all ((id, socket) ∷ rest) sockets = close_all rest (without socket sockets)

unfoldable pub close_udp_associations : FrameSession → FrameSession
unfolding close_all
close_udp_associations s = record s {
  udp_associations = [];
  sockets = close_all s.udp_associations s.sockets;
}

module _ (net : IpText) (dials resolves : Bytes → ℕ → Option Bytes) (listens : ℕ → Bool)
    (user : UserRecord) where
  abbrev pub check : FrameSession → Bytes → ℕ → Firewall × Bool
  check s addr port = check_connection net s.firewall user.id addr port (some user)

  -- The connection that is made is numbered, and its relay begins.
  unfoldable pub dial_request : FrameSession → ConnectRequest → FrameSession
  unfolding acknowledge
  dial_request s r = elim (dials r.addr r.port) [
    | some ip ↦
        acknowledge
          (record s {
            reached = (r.addr, r.port, ip) ∷ s.reached;
            relays = insert s.next_conn r.stream_id s.relays;
            next_conn = s.next_conn + 1;
          })
          r.stream_id 0x00
    | none ↦ acknowledge s r.stream_id 0x02
  ]

  unfoldable pub connect_request : FrameSession → Option ConnectRequest → FrameSession
  unfolding dial_request
  connect_request s none = s
  connect_request s (some r) =
      let (fw, allowed) = check s r.addr r.port in
      if allowed
      then dial_request (record s { firewall = fw }) r
      else acknowledge (record s { firewall = fw }) r.stream_id 0x01

  unfoldable pub handle_frame_connect : FrameSession → Bytes → FrameSession
  unfolding connect_request parse_connect
  handle_frame_connect s payload = connect_request s (parse_connect net payload)

  unfoldable pub send_datagram : FrameSession → UdpPayload → ℕ → FrameSession
  unfolding track
  send_datagram s p now = elim (resolves p.addr p.port) [
    | some ip ↦ record (track s user.id (length p.content) now) {
      reached = (p.addr, p.port, ip) ∷ s.reached;
    }
    | none ↦ s
  ]

  unfoldable pub register : FrameSession → ℕ → UdpPayload → ℕ → FrameSession
  unfolding send_datagram
  register s socket p now = elim (lookup p.assoc_id s.udp_associations) [
    | some existing ↦ send_datagram (close_socket s socket) p now
    | none ↦
        send_datagram
          (record s {
            udp_associations = insert p.assoc_id socket s.udp_associations;
            udp_relays = insert socket p.assoc_id s.udp_relays;
          })
          p now
  ]

  unfoldable pub listen : FrameSession → UdpPayload → FrameSession
  listen s p =
      if listens s.next_socket
      then record s {
        sockets = s.next_socket ∷ s.sockets;
        next_socket = s.next_socket + 1;
        tasks = s.tasks ++ (register_task s.next_socket p ∷ []);
      }
      else s

  unfoldable pub get_association : FrameSession → UdpPayload → ℕ → FrameSession
  unfolding listen send_datagram
  get_association s p now = elim (lookup p.assoc_id s.udp_associations) [
    | some socket ↦ send_datagram s p now
    | none ↦ listen s p
  ]

  unfoldable pub udp_request : FrameSession → Result FrameError UdpPayload → ℕ → FrameSession
  unfolding get_association
  udp_request s (err e) now = s
  udp_request s (ok p) now =
      let (fw, allowed) = check s p.addr p.port in
      if allowed
      then get_association (record s { firewall = fw }) p now
      else record s { firewall = fw }

  unfoldable pub handle_frame_udp : FrameSession → Bytes → ℕ → FrameSession
  unfolding udp_request
  handle_frame_udp s payload now = udp_request s (decode_udp_frame net payload) now
