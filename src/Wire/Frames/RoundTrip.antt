-- ===== src/Wire/Frames/RoundTrip.antt =====
-- Each payload decoder against its encoder.
use stealthlink.Prelude.{
  Bytes, IsU16, [], append-nil, arith, drop, get_u16, length, length-append, ok, put_u16, refl, ℕ,
  ◌++◌, ◌≡◌, ◌≤◌,
}
use stealthlink.Wire.Net.{IpText}
use stealthlink.Wire.Address.{address_body, encode_address}
use stealthlink.Wire.Address.RoundTrip.{IsEncodable, decode_address-encode_address}
use stealthlink.Wire.Frames.{
  encode_data_frame, decode_data_frame, encode_udp_close_frame, decode_udp_close_frame,
  encode_connect_frame, decode_connect_frame, encode_udp_frame, decode_udp_frame,
}

after_id :
    (n : ℕ) (rest : Bytes)
    → IsU16 n
    → (get_u16 (put_u16 n ++ rest) ≡ n) × (drop 2 (put_u16 n ++ rest) ≡ rest)
unfolding put_u16 get_u16
after_id n rest h = (omega arith, refl)

-- The data frame of any stream id and content is read back.
pub decode_data_frame-encode_data_frame :
    (stream_id : ℕ) (content : Bytes)
    → IsU16 stream_id
    → decode_data_frame (encode_data_frame stream_id content).payload
      ≡ ok (record { stream_id = stream_id; content = content })
unfolding decode_data_frame encode_data_frame put_u16
decode_data_frame-encode_data_frame stream_id content h =
    ground (arith, after_id stream_id content h)

-- So is the close notice of any association id.
pub decode_udp_close_frame-encode_udp_close_frame :
    (assoc_id : ℕ)
    → IsU16 assoc_id
    → decode_udp_close_frame (encode_udp_close_frame assoc_id).payload ≡ ok assoc_id
unfolding decode_udp_close_frame encode_udp_close_frame put_u16
decode_udp_close_frame-encode_udp_close_frame assoc_id h = ground (arith, after_id assoc_id [] h)

module _ (net : IpText) where
  length-encode_address : (t : ℕ) (a : Bytes) (port : ℕ) → 3 ≤ length (encode_address net t a port)
  unfolding encode_address put_u16
  length-encode_address t a port =
      omega (arith, length-append (address_body net t a) (put_u16 port))

  -- A connect frame of an encodable address is read back field by field.
  pub decode_connect_frame-encode_connect_frame :
      (stream_id t : ℕ) (a : Bytes) (port : ℕ)
      → IsU16 stream_id
      → IsEncodable net t a
      → IsU16 port
      → decode_connect_frame net (encode_connect_frame net stream_id t a port).payload
        ≡ ok (record { stream_id = stream_id; addr_type = t; addr = a; port = port })
  unfolding decode_connect_frame encode_connect_frame put_u16
  decode_connect_frame-encode_connect_frame stream_id t a port hs ha hp = ground (
    arith,
    after_id stream_id (encode_address net t a port) hs,
    length-encode_address t a port,
    append-nil (encode_address net t a port),
    decode_address-encode_address net t a port [] ha hp,
  )

  -- A UDP frame of an encodable address and any content is read back field by field.
  pub decode_udp_frame-encode_udp_frame :
      (assoc_id t : ℕ) (a : Bytes) (port : ℕ) (content : Bytes)
      → IsU16 assoc_id
      → IsEncodable net t a
      → IsU16 port
      → decode_udp_frame net (encode_udp_frame net assoc_id t a port content).payload
        ≡ ok (record {
          assoc_id = assoc_id;
          addr_type = t;
          addr = a;
          port = port;
          content = content;
        })
  unfolding decode_udp_frame encode_udp_frame put_u16
  decode_udp_frame-encode_udp_frame assoc_id t a port content hs ha hp = ground (
    arith,
    after_id assoc_id (encode_address net t a port ++ content) hs,
    decode_address-encode_address net t a port content ha hp,
  )
