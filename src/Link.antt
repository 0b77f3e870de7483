-- ===== src/Link.antt =====
-- The connections that the client of client.go holds: the fields behind its lock, and the methods
-- that set and clear them. A connection, a QUIC transport or a stream is a number, new for each
-- dial, and `open_conns` has those that are open; a writer or a reader is that of a connection. How
-- a dial and its handshake turn out is an argument. The UDP associations are those of udp_assoc.go.
pub mod Held
pub mod Ownership
use stealthlink.Prelude.{
  Bool, List, Option, String, [], false, if◌then◌else◌, none, not, some, str_eq, true, without, ℕ,
  ◌&&◌, ◌∷◌,
}
use stealthlink.Associations.{Client}
use stealthlink.Dialing.{is_none}
use stealthlink.Subscription.Transports.{ServerEntry}

pub record Link : Type 0 where
  pub quic_conn : Option ℕ
  pub quic_transport : Option ℕ
  pub transport_closer : Option ℕ
  pub writer : Option ℕ
  pub reader : Option ℕ
  pub active_server : Option ServerEntry
  pub active_psk : String
  pub udp : Client
  pub connected : Bool
  pub open_conns : List ℕ

abbrev pub closing : Option ℕ → List ℕ → List ℕ
closing none conns = conns
closing (some n) conns = without n conns

-- The channels of the associations and of the inbox are closed and made anew.
abbrev pub cleared : Client → Client
cleared c = record c { frame_loop_active = false; udp_handlers = []; inbox = some [] }

unfoldable pub reset_transport_state : Link → Link
reset_transport_state l = record {
  quic_conn = none;
  quic_transport = none;
  transport_closer = none;
  writer = none;
  reader = none;
  active_server = none;
  active_psk = "";
  udp = cleared l.udp;
  connected = false;
  open_conns =
      closing l.quic_transport (closing l.quic_conn (closing l.transport_closer l.open_conns));
}

unfoldable pub drop_persistent_channel : Link → Link
drop_persistent_channel l = record l {
  transport_closer = none;
  writer = none;
  reader = none;
  udp = cleared l.udp;
  open_conns = closing l.transport_closer l.open_conns;
}

abbrev pub set_active_server : Link → ServerEntry → String → Link
set_active_server l server psk = record l { active_server = some server; active_psk = psk }

-- connectTLSPersistent, when the handshake on connection `n` has succeeded; when it fails, the
-- connection is closed and nothing is set.
unfoldable pub connect_tls_persistent : Link → ServerEntry → String → ℕ → Link
connect_tls_persistent l server psk n = record (set_active_server l server psk) {
  transport_closer = some n;
  writer = some n;
  reader = some n;
  connected = true;
  open_conns = n ∷ l.open_conns;
}

-- connectTLS, which only probes the path: each target is dialled on its own later.
unfoldable pub connect_tls : Link → ServerEntry → String → Link
connect_tls l server psk = record (set_active_server l server psk) { connected = true }

-- How connectQUIC turns out, from its UDP socket on: the dial fails, or the stream or the
-- authentication behind it, or the server accepts. Before the socket nothing is made.
pub data QuicOutcome : Type 0 where
  dial_fails authentication_fails accepted : QuicOutcome

-- connectQUIC, on a UDP socket, a transport over it and a connection. A failed dial closes the
-- socket, and the transport ends with it; a later failure closes the connection only, and success
-- leaves the socket to nobody, since closing a transport does not close a socket that it was given.
unfoldable pub connect_quic : Link → ServerEntry → String → ℕ → ℕ → ℕ → QuicOutcome → Link
connect_quic l server psk udp_conn transport n dial_fails = l
connect_quic l server psk udp_conn transport n authentication_fails = record l {
  open_conns = without n (n ∷ transport ∷ udp_conn ∷ l.open_conns);
}
connect_quic l server psk udp_conn transport n accepted = record (set_active_server l server psk) {
  quic_conn = some n;
  quic_transport = some transport;
  connected = true;
  open_conns = n ∷ transport ∷ udp_conn ∷ l.open_conns;
}

-- connectWebRTC and connectQUICUTLS, whose session is the closer, with no writer and no reader.
unfoldable pub connect_session : Link → ServerEntry → String → ℕ → Link
connect_session l server psk n = record (set_active_server l server psk) {
  transport_closer = some n;
  connected = true;
  open_conns = n ∷ l.open_conns;
}

abbrev pub has_channel : Link → Bool
has_channel l = not (is_none l.writer) && not (is_none l.reader)

-- What the first section of EnsurePersistentChannel decides on.
pub data Plan : Type 0 where
  ready unavailable : Plan
  by_tls : ServerEntry → String → Plan
  by_stream : Plan

abbrev pub tls_plan : Option ServerEntry → String → Plan
tls_plan none psk = unavailable
tls_plan (some server) psk = if str_eq psk "" then unavailable else by_tls server psk

unfoldable pub plan_channel : Link → Plan
plan_channel l =
    if has_channel l
    then ready
    else if is_none l.quic_conn
    then tls_plan l.active_server l.active_psk
    else by_stream

-- The last section: a channel that was made in the meantime is kept, and the stream closed.
unfoldable pub take_stream : Link → ℕ → Link
take_stream l n = if has_channel l then l else record l {
  transport_closer = some n;
  writer = some n;
  reader = some n;
  open_conns = n ∷ l.open_conns;
}

abbrev pub follow : Link → ℕ → Plan → Link
follow l n ready = l
follow l n unavailable = l
follow l n (by_tls server psk) = connect_tls_persistent l server psk n
follow l n by_stream = take_stream l n

-- A call that no other call interrupts; `made` is the connection or stream that it would make, if
-- that succeeds.
unfoldable pub ensure_persistent_channel : Link → Option ℕ → Link
unfolding plan_channel connect_tls_persistent take_stream
ensure_persistent_channel l none = l
ensure_persistent_channel l (some n) = follow l n (plan_channel l)

-- What the client does to its link: the dial loop resets it before each attempt.
pub data LinkAct : Type 0 where
  tls : ServerEntry → String → LinkAct
  tls_persistent : ServerEntry → String → ℕ → LinkAct
  quic : ServerEntry → String → ℕ → ℕ → ℕ → QuicOutcome → LinkAct
  ensures : Option ℕ → LinkAct
  drops resets : LinkAct

unfoldable pub link_act : Link → LinkAct → Link
unfolding reset_transport_state drop_persistent_channel connect_tls connect_tls_persistent
    connect_quic ensure_persistent_channel
link_act l (tls server psk) = connect_tls (reset_transport_state l) server psk
link_act l (tls_persistent server psk n) =
    connect_tls_persistent (reset_transport_state l) server psk n
link_act l (quic server psk udp_conn transport n outcome) =
    connect_quic (reset_transport_state l) server psk udp_conn transport n outcome
link_act l (ensures made) = ensure_persistent_channel l made
link_act l drops = drop_persistent_channel l
link_act l resets = reset_transport_state l

unfoldable pub link_acts : Link → List LinkAct → Link
unfolding link_act
link_acts l [] = l
link_acts l (a ∷ acts) = link_acts (link_act l a) acts
