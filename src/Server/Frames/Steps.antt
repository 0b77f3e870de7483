-- ===== src/Server/Frames/Steps.antt =====
-- What happens to a session of frames of server.go: frames arrive, tasks run, targets and other
-- hosts answer, the flush timer fires, the session ends. Tasks may also run after the end.
use stealthlink.Prelude.{
  Bool, Bytes, List, Option, Result, String, [], bytes_eq, delete, err, false, get_elem?,
  if◌then◌else◌, is_open, length, lookup, nat_eq, none, not, ok, some, string_eq, suc, true, zero,
  ℕ, ◌++◌, ◌==◌, ◌∷◌,
}
use stealthlink.Firewall.Bandwidth.{Trackers}
use stealthlink.Auth.Manager.{UserRecord}
use stealthlink.Wire.Net.{to4, IpText}
use stealthlink.Wire.Frames.{
  frame_udp_close, frame_udp, frame_connect, frame_ip, decode_udp_close_frame, encode_udp_frame,
  FrameError, encode_data_frame, encode_close_frame, Frame,
}
use stealthlink.Wire.Address.{addr_ipv4, addr_ipv6}
use stealthlink.Firewall.Connections.{Firewall, on_disconnect, on_connect}
use stealthlink.Wire.Writer.{
  flush, close, auto_flush, WriteOutcome, write_typed_frame, Writer, done, write_failed,
}
use stealthlink.Server.Frames.{
  register, handle_frame_udp, close_udp_association, then_flush, handle_frame_connect, track,
  close_udp_associations, Task, FrameSession, connect_task, udp_task, register_task,
}

abbrev pub remove_at {ℓ} : {A : Type ℓ} → ℕ → List A → List A
remove_at i [] = []
remove_at zero (x ∷ xs) = xs
remove_at (suc i) (x ∷ xs) = x ∷ remove_at i xs

-- `task_runs i` runs the task at that place. The numbers of `target_sends` and `target_ends` are
-- connections, that of `host_sends` is a socket, and its bytes are the sender's IP address, then
-- its port and the datagram.
pub data SessionEvent : Type 0 where
  frame_arrives : Frame → SessionEvent
  task_runs target_ends : ℕ → SessionEvent
  target_sends : ℕ → Bytes → SessionEvent
  host_sends : ℕ → Bytes → ℕ → Bytes → SessionEvent
  timer_fires session_ends : SessionEvent

abbrev pub add_task : FrameSession → Task → FrameSession
add_task s t = record s { tasks = s.tasks ++ (t ∷ []) }

-- The state in which handleTUNSession begins to read.
unfoldable pub begin_session : Firewall → Trackers → Writer → String → FrameSession
unfolding on_connect
begin_session fw trackers writer id = record {
  firewall = on_connect fw id;
  trackers = trackers;
  writer = writer;
  tasks = [];
  relays = [];
  next_conn = 0;
  udp_associations = [];
  udp_relays = [];
  sockets = [];
  next_socket = 0;
  reached = [];
  finished = false;
}

-- What handleTUNSession defers, in the order in which it runs.
unfoldable pub end_session : FrameSession → String → FrameSession
unfolding on_disconnect close_udp_associations close
end_session s id =
    if s.finished
    then s
    else let cleared =
        close_udp_associations (record s { firewall = on_disconnect s.firewall id }) in
      record cleared { writer = (close cleared.writer).0; finished = true }

-- The relay from a target to the client: each Read that gives bytes is a data frame.
unfoldable pub relay_data : FrameSession → ℕ → Bytes → FrameSession
unfolding write_typed_frame encode_data_frame
relay_data s conn bytes = elim (lookup conn s.relays) [
  | none ↦ s
  | some stream_id ↦
      if length bytes == 0
      then s
      else record s { writer = (write_typed_frame s.writer (encode_data_frame stream_id bytes)).0 }
]

unfoldable pub relay_end : FrameSession → ℕ → FrameSession
unfolding write_typed_frame encode_close_frame flush
relay_end s conn = elim (lookup conn s.relays) [
  | none ↦ s
  | some stream_id ↦ record s {
    relays = delete conn s.relays;
    writer = then_flush (write_typed_frame s.writer (encode_close_frame stream_id));
  }
]

abbrev pub source_type : Option Bytes → ℕ
source_type none = addr_ipv6
source_type (some ipv4) = addr_ipv4

abbrev pub source_ip : Bytes → Option Bytes → Bytes
source_ip ip none = ip
source_ip ip (some ipv4) = ipv4

-- The relay of a socket returns when a write or a flush fails.
abbrev pub relay_after : FrameSession → ℕ → Writer × WriteOutcome → FrameSession
relay_after s socket (w, done) = record s { writer = w }
relay_after s socket (w, write_failed) = record s {
  writer = w;
  udp_relays = delete socket s.udp_relays;
}

abbrev pub flush_after : Writer × WriteOutcome → Writer × WriteOutcome
flush_after (w, done) = flush w
flush_after (w, write_failed) = (w, write_failed)

module _ (net : IpText) (user : UserRecord) where
  unfoldable pub relay_udp_response : FrameSession → ℕ → ℕ → Bytes → ℕ → Bytes → ℕ → FrameSession
  unfolding track write_typed_frame encode_udp_frame flush to4
  relay_udp_response s socket id ip port bytes now =
      if not (is_open socket s.sockets)
      then record s { udp_relays = delete socket s.udp_relays }
      else if length bytes == 0
      then s
      else relay_after (track s user.id (length bytes) now) socket (
          flush_after (
            write_typed_frame s.writer (
              encode_udp_frame net id (source_type (to4 ip)) (net.format (source_ip ip (to4 ip)))
                port bytes)))

  unfoldable pub relay_udp_responses : FrameSession → ℕ → Bytes → ℕ → Bytes → ℕ → FrameSession
  unfolding relay_udp_response
  relay_udp_responses s socket ip port bytes now = elim (lookup socket s.udp_relays) [
    | none ↦ s
    | some id ↦ relay_udp_response s socket id ip port bytes now
  ]

  abbrev pub close_named : FrameSession → Result FrameError ℕ → FrameSession
  close_named s (ok id) = close_udp_association s id
  close_named s (err e) = s

  -- One round of the loop of handleTUNSession.
  unfoldable pub handle_tun_frame : FrameSession → Frame → ℕ → FrameSession
  unfolding track close_udp_association decode_udp_close_frame
  handle_tun_frame s f now =
      if f.frame_type == frame_ip
      then track s user.id (length f.payload) now
      else if f.frame_type == frame_connect
      then add_task s (connect_task f.payload)
      else if f.frame_type == frame_udp
      then add_task s (udp_task f.payload)
      else if f.frame_type == frame_udp_close
      then close_named s (decode_udp_close_frame f.payload)
      else s

  module _ (dials resolves : Bytes → ℕ → Option Bytes) (listens : ℕ → Bool) where
    unfoldable pub run_task : FrameSession → Option Task → ℕ → FrameSession
    unfolding handle_frame_connect handle_frame_udp register
    run_task s none now = s
    run_task s (some (connect_task payload)) now =
        handle_frame_connect net dials resolves listens user s payload
    run_task s (some (udp_task payload)) now =
        handle_frame_udp net dials resolves listens user s payload now
    run_task s (some (register_task socket p)) now =
        register net dials resolves listens user s socket p now

    unfoldable pub session_step : FrameSession → SessionEvent → ℕ → FrameSession
    unfolding handle_tun_frame run_task relay_data relay_end relay_udp_responses end_session
        auto_flush
    session_step s (frame_arrives f) now = if s.finished then s else handle_tun_frame s f now
    session_step s (task_runs i) now =
        run_task (record s { tasks = remove_at i s.tasks }) (get_elem? s.tasks i) now
    session_step s (target_sends conn bytes) now = relay_data s conn bytes
    session_step s (target_ends conn) now = relay_end s conn
    session_step s (host_sends socket ip port bytes) now =
        relay_udp_responses s socket ip port bytes now
    session_step s timer_fires now = record s { writer = (auto_flush s.writer).0 }
    session_step s session_ends now = end_session s user.id

    unfoldable pub session_run : FrameSession → List (SessionEvent × ℕ) → FrameSession
    unfolding session_step
    session_run s [] = s
    session_run s ((e, now) ∷ es) = session_run (session_step s e now) es
