-- ===== src/Runs/Sessions.antt =====
-- Sessions of frames, and streams of QUIC.
use stealthlink.Firewall.Connections.{check_connection, is_blocked}
use stealthlink.Firewall.Ranges.{in_ranges}
use stealthlink.Wire.Frames.{decode_udp_frame}
use stealthlink.Wire.Address.{decode_address, decode_ip}
use stealthlink.Prelude.{
  Bool, Bytes, List, Option, [], false, get_u16, is_open, refl, some, true, ℕ, ◌∷◌, ◌≡◌,
}
use stealthlink.Server.{handle_smart_connection}
use stealthlink.Server.Quic.{handle_quic_stream}
use stealthlink.Runs.Connections.{idle, all_dial}
use stealthlink.Server.Frames.Sockets.{registering}
use stealthlink.Runs.Users.{some_user}
use stealthlink.Server.Frames.Interleavings.{count_of-session_run, sockets-end_session}
use stealthlink.Runs.Instances.{plain_text}
use stealthlink.Server.Frames.{FrameSession}
use stealthlink.Wire.Frames.{frame_udp, Frame}
use stealthlink.Server.Quic.Equivalence.{handle_quic_stream-handle_smart_connection, Agree}
use stealthlink.Auth.Manager.{AuthSession}
use stealthlink.Wire.Writer.{new_frame_writer, Writer}
use stealthlink.Firewall.Connections.{count_of}
use stealthlink.Server.Frames.Steps.{
  begin_session, SessionEvent, session_run, end_session, frame_arrives, task_runs, session_ends,
}

abbrev udp_frame : Frame
udp_frame = record {
  frame_type = frame_udp;
  payload = 0 ∷ 7 ∷ 1 ∷ 8 ∷ 8 ∷ 8 ∷ 8 ∷ 0 ∷ 53 ∷ 1 ∷ 2 ∷ [];
}

-- A datagram whose socket is made and registered.
abbrev two_tasks : List (SessionEvent × ℕ)
two_tasks = (frame_arrives udp_frame, 1) ∷ (task_runs 0, 2) ∷ (task_runs 0, 3) ∷ []

abbrev ended_session : List (SessionEvent × ℕ)
ended_session =
    (frame_arrives udp_frame, 1) ∷ (task_runs 0, 2) ∷ (session_ends, 3) ∷ (task_runs 0, 4) ∷ []

abbrev all_sockets : ℕ → Bool
all_sockets n = true

-- Each address is its own text, so it is found under itself.
abbrev all_targets : Bytes → ℕ → Option Bytes
all_targets addr port = some addr

abbrev some_writer : Writer
some_writer = new_frame_writer (record { written = []; answers = [] })

abbrev ran : List (SessionEvent × ℕ) → FrameSession
ran es =
    session_run plain_text some_user all_targets all_targets all_sockets
      (begin_session idle.firewall [] some_writer "u") es

over : (ran ended_session).finished ≡ true
unfolding session_run begin_session decode_udp_frame decode_address decode_ip check_connection
    is_blocked get_u16 in_ranges
over = refl

count_of-session_run_example :
    count_of (ran ended_session).firewall "u" ≡ count_of idle.firewall "u"
count_of-session_run_example =
    count_of-session_run plain_text idle.firewall some_user all_targets all_targets all_sockets []
      some_writer ended_session "u" over

lasting : (ran two_tasks).finished ≡ false
unfolding session_run begin_session decode_udp_frame decode_address decode_ip check_connection
    is_blocked get_u16 in_ranges
lasting = refl

registered : registering 0 (ran two_tasks).tasks ≡ false
unfolding session_run begin_session decode_udp_frame decode_address decode_ip check_connection
    is_blocked get_u16 in_ranges
registered = refl

sockets-end_session_example : is_open 0 (end_session (ran two_tasks) "u").sockets ≡ false
sockets-end_session_example =
    sockets-end_session plain_text idle.firewall some_user all_targets all_targets all_sockets []
      some_writer two_tasks 0 lasting registered

abbrev some_session : AuthSession
some_session = record { user = some_user; remote_ip = "h" }

abbrev some_target : Bytes
some_target = 1 ∷ 8 ∷ 8 ∷ 8 ∷ 8 ∷ 0 ∷ 80 ∷ []

handle_quic_stream-handle_smart_connection_example :
    Agree plain_text all_dial
      (handle_quic_stream plain_text all_dial true idle some_session some_target)
      (handle_smart_connection plain_text all_dial idle some_session some_target)
handle_quic_stream-handle_smart_connection_example =
    handle_quic_stream-handle_smart_connection plain_text all_dial idle some_session refl
      some_target
