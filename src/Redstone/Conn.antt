-- ===== src/Redstone/Conn.antt =====
-- mc_conn of redstone.go: a byte stream over packets. Write cuts its bytes into chunks; Read gives
-- what a packet held, over as many calls as its buffers need.
pub mod Chunks
pub mod Transparency
pub mod Ending
use stealthlink.Prelude.{
  Bytes, Option, Result, [], drop, err, if◌then◌else◌, length, ltb, none, ok, some, suc, take, zero,
  ℕ, ◌*◌, ◌+◌, ◌==◌,
}
use stealthlink.Wire.Writer.{Sink, WriteOutcome, done, write_failed, write}
use stealthlink.Redstone.Packet.{PacketError, packet_bytes, read_packet}

abbrev pub mc_tunnel_id : ℕ
mc_tunnel_id = 0x17

abbrev pub mc_chunk_size : ℕ
mc_chunk_size = 16 * 1024

-- `input` is what the other end has sent and bufio.Reader has not yet given.
pub record McConn : Type 0 where
  pub input : Bytes
  pub rbuf : Bytes

abbrev pub new_mc_conn : Bytes → McConn
new_mc_conn input = record { input = input; rbuf = [] }

-- copy(p, rbuf), for a `p` of `size` bytes.
abbrev pub copy_out : ℕ → McConn → Result PacketError Bytes × McConn
copy_out size c = (ok (take size c.rbuf), record c { rbuf = drop size c.rbuf })

-- Each round of the loop takes a packet of at least a byte from the input.
unfoldable pub conn_read : ℕ → ℕ → McConn → Option (Result PacketError Bytes × McConn)
conn_read zero size c = none
conn_read (suc fuel) size c =
    if length c.rbuf == 0
    then elim (read_packet c.input) [
      | ok ((_, payload), rest) ↦ conn_read fuel size (record { input = rest; rbuf = payload })
      | err e ↦ some (err e, record c { input = [] })
    ]
    else some (copy_out size c)

unfoldable pub chunk_of : Bytes → Bytes
chunk_of p = if ltb mc_chunk_size (length p) then take mc_chunk_size p else p

-- Each round of the loop writes at least a byte, so that `length p` rounds are enough. The result
-- holds the bytes that were counted.
unfoldable pub write_loop : ℕ → Sink → ℕ → Bytes → Sink × ℕ × WriteOutcome
unfolding write packet_bytes chunk_of
write_loop zero sink total p = (sink, total, done)
write_loop (suc fuel) sink total p =
    let chunk = chunk_of p in
    let (sink', outcome) = write sink.answers sink.written (packet_bytes mc_tunnel_id chunk) in
    let rest = write_loop fuel sink' (total + length chunk) (drop (length chunk) p) in
    if length p == 0
    then (sink, total, done)
    else elim outcome [ done ↦ rest | write_failed ↦ (sink', total, write_failed) ]

unfoldable pub conn_write : Sink → Bytes → Sink × ℕ × WriteOutcome
unfolding write_loop
conn_write sink p = write_loop (length p) sink 0 p
