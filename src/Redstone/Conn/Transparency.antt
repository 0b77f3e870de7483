-- ===== src/Redstone/Conn/Transparency.antt =====
-- The two ends of a tunnel of redstone.go: Write at one, Read at the other.
use stealthlink.Redstone.Conn.Chunks.{nothing, packet, conn_writes-IsCarried}
use stealthlink.Prelude.{
  Bytes, List, Option, [], ap, append_assoc, arith, drop, err, false, length, length-append,
  length-drop, none, ok, refl, some, suc, sym, take, take-append-drop, zero, ℕ, ◌++◌, ◌+◌, ◌<◌,
  ◌==◌, ◌∙◌, ◌∷◌, ◌≡◌, ◌≤◌,
}
use stealthlink.Wire.Writer.{Sink}
use stealthlink.Redstone.Conn.{mc_tunnel_id, new_mc_conn, conn_read, McConn, mc_chunk_size}
use stealthlink.Redstone.Conn.Chunks.{unbroken, conn_writes, packet, joined, IsCarried}
use stealthlink.Redstone.Packet.{packet_bytes, PacketError, read_packet, bad_varint}
use stealthlink.Redstone.Packet.RoundTrip.{read_packet-packet_bytes}
use stealthlink.Redstone.Varint.{read_loop, read_varint, no_byte}

-- A loop over Read until an error, as of io.Copy, with buffers of `size` bytes.
unfoldable pub read_all : ℕ → ℕ → McConn → Bytes × Option PacketError
unfolding conn_read
read_all zero size c = ([], none)
read_all (suc fuel) size c = elim (conn_read (length c.input + 2) size c) [
  | none ↦ ([], none)
  | some (ok bytes, c') ↦ let (more, ended) = read_all fuel size c' in (bytes ++ more, ended)
  | some (err e, c') ↦ ([], some e)
]

conn_read_buffered :
    (fuel size : ℕ) (input rbuf : Bytes)
    → (length rbuf == 0) ≡ false
    → conn_read (suc fuel) size (record { input = input; rbuf = rbuf })
      ≡ some (ok (take size rbuf), record { input = input; rbuf = drop size rbuf })
unfolding conn_read
conn_read_buffered fuel size input rbuf h = rw h

pub conn_read_packet :
    (fuel size : ℕ) (chunk input : Bytes)
    → (length chunk == 0) ≡ false
    → length chunk ≤ mc_chunk_size
    → conn_read (suc (suc fuel)) size (new_mc_conn (packet_bytes mc_tunnel_id chunk ++ input))
      ≡ some (ok (take size chunk), record { input = input; rbuf = drop size chunk })
unfolding conn_read
conn_read_packet fuel size chunk input h k =
    ground (arith, read_packet-packet_bytes mc_tunnel_id chunk input (omega arith) (omega arith))

read_all_end :
    (fuel size : ℕ) → read_all (suc fuel) size (new_mc_conn []) ≡ ([], some (bad_varint no_byte))
unfolding read_all read_packet read_varint read_loop
read_all_end fuel size = refl

-- A call of Read that returns some bytes, in a loop.
read_all_step :
    (fuel size : ℕ) (c : McConn) (bytes more : Bytes) (c' : McConn) (ended : Option PacketError)
    → conn_read (length c.input + 2) size c ≡ some (ok bytes, c')
    → read_all fuel size c' ≡ (more, ended)
    → read_all (suc fuel) size c ≡ (bytes ++ more, ended)
unfolding read_all
read_all_step fuel size c bytes more c' ended h k = rw (read_all, h, k)

pub two_more : (n : ℕ) → n + 2 ≡ suc (suc n)
two_more n = omega arith

module _ (size : ℕ) (some_room : 0 < size) where
  abbrev Drains : ℕ → Bytes → Bytes → Bytes → Type 0
  Drains fuel rbuf input content =
      read_all fuel size (record { input = input; rbuf = rbuf })
      ≡ (rbuf ++ content, some (bad_varint no_byte))

  drain_buffered :
      (fuel : ℕ) (rbuf input content : Bytes)
      → (length rbuf == 0) ≡ false
      → Drains fuel (drop size rbuf) input content
      → Drains (suc fuel) rbuf input content
  drain_buffered fuel rbuf input content h k =
      read_all_step fuel size _ (take size rbuf) (drop size rbuf ++ content) _ _
        (ap (λ (n : ℕ). conn_read n size (record { input = input; rbuf = rbuf }))
            (two_more (length input))
          ∙ conn_read_buffered (suc (length input)) size input rbuf h)
        k
      ∙ ap (λ (b : Bytes). (b, some (bad_varint no_byte)))
          (sym (append_assoc (take size rbuf) (drop size rbuf) content)
            ∙ ap (λ (b : Bytes). b ++ content) (take-append-drop size rbuf))

  drain_packet :
      (fuel : ℕ) (chunk input content : Bytes)
      → (length chunk == 0) ≡ false
      → length chunk ≤ mc_chunk_size
      → Drains fuel (drop size chunk) input content
      → Drains (suc fuel) [] (packet_bytes mc_tunnel_id chunk ++ input) (chunk ++ content)
  drain_packet fuel chunk input content h b k =
      let all = packet_bytes mc_tunnel_id chunk ++ input in
      read_all_step fuel size (new_mc_conn all) (take size chunk) (drop size chunk ++ content) _ _
        (ap (λ (n : ℕ). conn_read n size (new_mc_conn all)) (two_more (length all))
          ∙ conn_read_packet (length all) size chunk input h b)
        k
      ∙ ap (λ (b : Bytes). (b, some (bad_varint no_byte)))
          (sym (append_assoc (take size chunk) (drop size chunk) content)
            ∙ ap (λ (b : Bytes). b ++ content) (take-append-drop size chunk))

  pub read_all-IsCarried :
      (fuel : ℕ) (rbuf input content : Bytes)
      → IsCarried input content
      → length rbuf + length content < fuel
      → Drains fuel rbuf input content
  read_all-IsCarried zero rbuf input content v h = absurd (omega arith)
  read_all-IsCarried (suc fuel) (x ∷ rbuf) input content v h =
      drain_buffered fuel (x ∷ rbuf) input content (ground arith) (
        read_all-IsCarried fuel (drop size (x ∷ rbuf)) input content v
          (omega (arith, length-drop size (x ∷ rbuf))))
  read_all-IsCarried (suc fuel) [] _ _ nothing h = read_all_end fuel size
  read_all-IsCarried (suc fuel) [] _ _ (packet {input} {content} chunk lo hi v) h =
      drain_packet fuel chunk input content (ground arith) hi (
        read_all-IsCarried fuel (drop size chunk) input content v
          (omega (arith, length-drop size chunk, length-append chunk content)))

  -- What any calls of Write on one end of a tunnel were given, a loop over Read with buffers of
  -- at least a byte gets at the other end, in order and complete, and then the end of the
  -- stream, whatever the sizes of the calls and of the buffers.
  pub read_all-conn_writes :
      (ps : List Bytes) (fuel : ℕ)
      → length (joined ps) < fuel
      → read_all fuel size (new_mc_conn (conn_writes (unbroken []) ps).written)
        ≡ (joined ps, some (bad_varint no_byte))
  read_all-conn_writes ps fuel h =
      let (w, e, c) = conn_writes-IsCarried [] ps in
      ap (λ (s : Sink). read_all fuel size (new_mc_conn s.written)) e
      ∙ read_all-IsCarried fuel [] w (joined ps) c (omega arith)
