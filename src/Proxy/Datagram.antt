-- ===== src/Proxy/Datagram.antt =====
-- EncodeSOCKSUDPDatagram and DecodeSOCKSUDPDatagram.
use stealthlink.Prelude.{
  Bytes, IsU16, Result, [], arith, drop, err, get_or, if◌then◌else◌, length, ltb, not, ok, ℕ, ◌++◌,
  ◌==◌, ◌||◌, ◌∷◌, ◌≡◌,
}
use stealthlink.Wire.Net.{IpText}
use stealthlink.Wire.Address.{AddressError, Decoded, encode_address, decode_address}
use stealthlink.Wire.Address.RoundTrip.{IsEncodable, decode_address-encode_address}

pub data DatagramError : Type 0 where
  packet_too_short invalid_reserved fragmented : DatagramError
  bad_address : AddressError → DatagramError

abbrev as_datagram : Result AddressError Decoded → Result DatagramError Decoded
as_datagram (ok d) = ok d
as_datagram (err e) = err (bad_address e)

module _ (net : IpText) where
  unfoldable pub encode_socks_udp_datagram : ℕ → Bytes → ℕ → Bytes → Bytes
  encode_socks_udp_datagram addr_type addr port content =
      (0 ∷ 0 ∷ 0 ∷ []) ++ (encode_address net addr_type addr port ++ content)

  -- The data is what DecodeAddress leaves.
  unfoldable pub decode_socks_udp_datagram : Bytes → Result DatagramError Decoded
  decode_socks_udp_datagram packet =
      if ltb (length packet) 4
      then err packet_too_short
      else if not (get_or packet 0 0 == 0) || not (get_or packet 1 0 == 0)
      then err invalid_reserved
      else if not (get_or packet 2 0 == 0)
      then err fragmented
      else as_datagram (decode_address net (drop 3 packet))

  -- A datagram of an encodable address and any content is read back field by field.
  pub decode_socks_udp_datagram-encode_socks_udp_datagram :
      (t : ℕ) (a : Bytes) (port : ℕ) (content : Bytes)
      → IsEncodable net t a
      → IsU16 port
      → decode_socks_udp_datagram (encode_socks_udp_datagram t a port content)
        ≡ ok (record { addr_type = t; addr = a; port = port; rest = content })
  unfolding decode_socks_udp_datagram encode_socks_udp_datagram encode_address
  decode_socks_udp_datagram-encode_socks_udp_datagram t a port content h p =
      ground (arith, decode_address-encode_address net t a port content h p)
