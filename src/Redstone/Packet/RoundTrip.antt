-- ===== src/Redstone/Packet/RoundTrip.antt =====
-- Packets that are read back.
use stealthlink.Prelude.{
  Bytes, ap, append_assoc, arith, drop-append, length, length-append, ok, read_full-append, refl, ℕ,
  ◌%◌, ◌++◌, ◌+◌, ◌<◌, ◌^◌, ◌∙◌, ◌≡◌, ◌≤◌,
}
use stealthlink.Redstone.Packet.{mc_max_packet, packet_bytes, read_body, read_packet, packet_of}
use stealthlink.Redstone.Varint.{read_varint, ℤ, as_int32, append_varint, pos}
use stealthlink.Redstone.Varint.RoundTrip.{
  read_varint-append_varint, decode_varint-append_varint, length-append_varint,
}

packet_of-append :
    (id : ℕ) (content rest : Bytes)
    → id < 2 ^ 31
    → packet_of (append_varint id ++ content) rest ≡ ok ((pos id, content), rest)
unfolding packet_of
packet_of-append id content rest h = ground (
  arith,
  decode_varint-append_varint id content,
  drop-append (length (append_varint id)) (append_varint id) content refl,
)

read_body-append :
    (id : ℕ) (content rest : Bytes)
    → id < 2 ^ 31
    → length content + 5 ≤ mc_max_packet
    → read_body (pos (length (append_varint id ++ content))) ((append_varint id ++ content) ++ rest)
      ≡ ok ((pos id, content), rest)
unfolding read_body
read_body-append id content rest h k = ground (
  arith,
  length-append_varint id,
  length-append (append_varint id) content,
  read_full-append (length (append_varint id ++ content)) (append_varint id ++ content) rest refl,
  packet_of-append id content rest h,
)

read_packet-ok :
    (s rest : Bytes) (len : ℤ) → read_varint s ≡ ok (len, rest) → read_packet s ≡ read_body len rest
unfolding read_packet
read_packet-ok s rest len h = rw (read_packet, h)

positive_length :
    (id : ℕ) (content : Bytes)
    → length content + 5 ≤ mc_max_packet
    → as_int32 (length (append_varint id ++ content) % 2 ^ 32)
      ≡ pos (length (append_varint id ++ content))
positive_length id content h =
    ground (arith, length-append_varint id, length-append (append_varint id) content)

-- A packet whose identifier fits in 31 bits and whose data leaves room for it within the largest
-- packet is read back, and what follows it is left.
pub read_packet-packet_bytes :
    (id : ℕ) (content rest : Bytes)
    → id < 2 ^ 31
    → length content + 5 ≤ mc_max_packet
    → read_packet (packet_bytes id content ++ rest) ≡ ok ((pos id, content), rest)
unfolding packet_bytes
read_packet-packet_bytes id content rest h k =
    let pkt = append_varint id ++ content in
    ap read_packet (append_assoc (append_varint (length pkt)) pkt rest)
    ∙ read_packet-ok _ (pkt ++ rest) (pos (length pkt)) (
        read_varint-append_varint (length pkt) (pkt ++ rest)
        ∙ ap (λ (z : ℤ). ok (z, pkt ++ rest)) (positive_length id content k))
    ∙ read_body-append id content rest h k
