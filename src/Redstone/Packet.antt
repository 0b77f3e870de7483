-- ===== src/Redstone/Packet.antt =====
-- The packets of redstone.go: a length, then an identifier and the data.
pub mod RoundTrip
use stealthlink.Prelude.{
  Bytes, ReadError, Result, drop, err, if◌then◌else◌, length, ltb, ok, read_full, ℕ, ◌*◌, ◌++◌,
  ◌==◌, ◌||◌,
}
use stealthlink.Redstone.Varint.{
  decode_varint, read_varint, append_varint, ℤ, VarintError, pos, negsuc,
}

abbrev pub mc_max_packet : ℕ
mc_max_packet = 2 * 1024 * 1024

pub data PacketError : Type 0 where
  bad_varint : VarintError → PacketError
  invalid_length : ℤ → PacketError
  read_failed : ReadError → PacketError

-- The bytes of one Write.
unfoldable pub packet_bytes : ℕ → Bytes → Bytes
packet_bytes packet_id content =
    let pkt = append_varint packet_id ++ content in append_varint (length pkt) ++ pkt

-- What io.ReadFull gave, taken apart.
unfoldable pub packet_of : Bytes → Bytes → Result PacketError ((ℤ × Bytes) × Bytes)
packet_of body rest = elim (decode_varint body) [
  | ok (id, n) ↦ ok ((id, drop n body), rest)
  | err e ↦ err (bad_varint e)
]

unfoldable pub read_body : ℤ → Bytes → Result PacketError ((ℤ × Bytes) × Bytes)
unfolding packet_of
read_body (negsuc n) s = err (invalid_length (negsuc n))
read_body (pos len) s =
    if len == 0 || ltb mc_max_packet len
    then err (invalid_length (pos len))
    else elim (read_full len s) [
      | ok (body, rest) ↦ packet_of body rest
      | err e ↦ err (read_failed e)
    ]

unfoldable pub read_packet : Bytes → Result PacketError ((ℤ × Bytes) × Bytes)
unfolding read_body
read_packet s = elim (read_varint s) [
  | ok (len, rest) ↦ read_body len rest
  | err e ↦ err (bad_varint e)
]
