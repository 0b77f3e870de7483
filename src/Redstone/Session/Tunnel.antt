-- ===== src/Redstone/Session/Tunnel.antt =====
-- A client that dials and the server that it reaches.
use stealthlink.Prelude.{
  Bytes, Result, [], ap, append_assoc, arith, length, refl, some, suc, ℕ, ◌++◌, ◌<◌, ◌∙◌, ◌∷◌, ◌≡◌,
  ◌≤◌,
}
use stealthlink.Redstone.Varint.{no_byte}
use stealthlink.Redstone.Handshake.{handshake_bytes}
use stealthlink.Wire.Writer.{Sink, write}
use stealthlink.Redstone.Conn.{McConn, conn_read, mc_tunnel_id, new_mc_conn, mc_chunk_size}
use stealthlink.Redstone.Packet.{bad_varint, packet_bytes}
use stealthlink.Redstone.Conn.Chunks.{unbroken, IsCarried, conn_write-IsCarried}
use stealthlink.Redstone.Conn.Transparency.{read_all-IsCarried, conn_read_packet, two_more}
use stealthlink.Redstone.Session.Serve.{serve_accepts, read_login_success, IsShort}
use stealthlink.Redstone.Session.{DialError, login_start_bytes}
use stealthlink.Redstone.Conn.Transparency.{read_all}
use stealthlink.Redstone.Session.{
  tunnelled, mc_default_proto, redstone_serve, RedstoneConfig, redstone_dial, status_result,
  send_auth, login_success_bytes, await_login, read_status,
}

-- What the server sends to a client that it lets in: the login, the status, and more.
abbrev pub reply : Bytes → Bytes → ℕ → Bytes → Bytes → Bytes
reply uuid username status more rest =
    login_success_bytes uuid username ++ (packet_bytes mc_tunnel_id (status ∷ more) ++ rest)

read_status-packet :
    (status : ℕ) (more rest : Bytes)
    → suc (length more) ≤ mc_chunk_size
    → read_status (new_mc_conn (packet_bytes mc_tunnel_id (status ∷ more) ++ rest))
      ≡ status_result status (record { input = rest; rbuf = more })
unfolding read_status
read_status-packet status more rest h =
    let all = packet_bytes mc_tunnel_id (status ∷ more) ++ rest in
    ground (
      arith,
      ap (λ (n : ℕ). conn_read n 1 (new_mc_conn all)) (two_more (length all)),
      conn_read_packet (length all) 1 (status ∷ more) rest (ground arith) h,
    )

await_login-reply :
    (combined uuid username written : Bytes) (status : ℕ) (more rest : Bytes)
    → length uuid ≡ 16
    → IsShort username
    → suc (length more) ≤ mc_chunk_size
    → (w : Bytes) × (await_login combined (reply uuid username status more rest) (unbroken written)
        ≡ (unbroken (written ++ w), status_result status (record { input = rest; rbuf = more })))
      × IsCarried w combined
unfolding await_login send_auth
await_login-reply combined uuid username written status more rest h k m =
    let (w, e, c) = conn_write-IsCarried written combined in
    (
      w,
      ground (
        arith,
        read_login_success uuid username (packet_bytes mc_tunnel_id (status ∷ more) ++ rest) h k,
        e,
        read_status-packet status more rest m,
      ),
      c,
    )

-- The two Writes before the server's answer.
redstone_dial-greets :
    (host : Bytes) (port : ℕ) (name combined input : Bytes)
    → redstone_dial host port name combined input (unbroken [])
      ≡ await_login combined input
          (unbroken (handshake_bytes mc_default_proto host port 2 ++ login_start_bytes name))
unfolding redstone_dial write
redstone_dial-greets host port name combined input = refl

-- A client that dials a server over a connection that breaks nowhere, and is answered by a login
-- and a status, ends as the status says. The server, given what the client wrote, answers with
-- its login and opens a tunnel, in which it reads the client's payload and target complete and
-- unchanged, with buffers of any size.
pub redstone_dial-redstone_serve :
    (status_json : RedstoneConfig → Bytes) (cfg : RedstoneConfig) (host : Bytes) (port : ℕ)
    (name combined uuid username : Bytes) (status : ℕ) (more rest : Bytes) (size fuel : ℕ)
    → IsShort host
    → IsShort name
    → IsShort username
    → length uuid ≡ 16
    → suc (length more) ≤ mc_chunk_size
    → 0 < size
    → length combined < fuel
    → let dialled =
        redstone_dial host port name combined
          (reply uuid username status more rest)
          (unbroken []) in
      (dialled.1 ≡ status_result status (record { input = rest; rbuf = more }))
      × (c : McConn) × (redstone_serve status_json cfg uuid username dialled.0.written (unbroken [])
          ≡ tunnelled (unbroken (login_success_bytes uuid username)) c)
      × (read_all fuel size c ≡ (combined, some (bad_varint no_byte)))
redstone_dial-redstone_serve status_json cfg host port name combined uuid username status more rest
      size fuel hh hn hu hi hm hs hf =
    let hello = handshake_bytes mc_default_proto host port 2 in
    let greeting = hello ++ login_start_bytes name in
    let (w, e, c) = await_login-reply combined uuid username greeting status more rest hi hu hm in
    let whole =
      redstone_dial-greets host port name combined (reply uuid username status more rest) ∙ e in
    (
      ap (λ (r : Sink × Result DialError McConn). r.1) whole,
      new_mc_conn w,
      ap
            (λ (r : Sink × Result DialError McConn).
              redstone_serve status_json cfg uuid username r.0.written (unbroken []))
            whole
          ∙ ap (λ (b : Bytes). redstone_serve status_json cfg uuid username b (unbroken []))
              (append_assoc hello (login_start_bytes name) w)
          ∙ serve_accepts status_json cfg uuid username mc_default_proto host port name w [] hh hn,
      read_all-IsCarried size hs fuel [] w combined c (omega arith),
    )
