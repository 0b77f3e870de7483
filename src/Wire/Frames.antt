-- ===== src/Wire/Frames.antt =====
-- The frames of protocol/core/transport/framing.go and their payloads.
pub mod RoundTrip
use stealthlink.Prelude.{
  Bytes, Result, drop, err, get_u16, if◌then◌else◌, length, ltb, ok, put_u16, ℕ, ◌++◌, ◌==◌, ◌>>=◌,
}
use stealthlink.Wire.Net.{IpText}
use stealthlink.Wire.Address.{
  addr_ipv4, addr_ipv6, addr_domain, AddressError, Decoded, encode_address, decode_address,
}

abbrev pub frame_data : ℕ
frame_data = 0x00

abbrev pub frame_connect : ℕ
frame_connect = 0x01

abbrev pub frame_conn_ack : ℕ
frame_conn_ack = 0x02

abbrev pub frame_close : ℕ
frame_close = 0x03

abbrev pub frame_auth : ℕ
frame_auth = 0x04

abbrev pub frame_auth_resp : ℕ
frame_auth_resp = 0x05

abbrev pub frame_padding : ℕ
frame_padding = 0x06

abbrev pub frame_udp : ℕ
frame_udp = 0x07

abbrev pub frame_ip : ℕ
frame_ip = 0x09

abbrev pub frame_udp_close : ℕ
frame_udp_close = 0x0A

pub record Frame : Type 0 where
  pub frame_type : ℕ
  pub payload : Bytes

pub record ConnectRequest : Type 0 where
  pub stream_id : ℕ
  pub addr_type : ℕ
  pub addr : Bytes
  pub port : ℕ

pub record DataPayload : Type 0 where
  pub stream_id : ℕ
  pub content : Bytes

pub record UdpPayload : Type 0 where
  pub assoc_id : ℕ
  pub addr_type : ℕ
  pub addr : Bytes
  pub port : ℕ
  pub content : Bytes

pub data FrameError : Type 0 where
  connect_too_short data_too_short udp_too_short : FrameError
  udp_close_length : ℕ → FrameError
  bad_address : AddressError → FrameError

-- An error of DecodeAddress is returned as it is.
abbrev pub address_result : Result AddressError Decoded → Result FrameError Decoded
address_result (ok d) = ok d
address_result (err e) = err (bad_address e)

unfoldable pub encode_data_frame : ℕ → Bytes → Frame
encode_data_frame stream_id content = record {
  frame_type = frame_data;
  payload = put_u16 stream_id ++ content;
}

unfoldable pub decode_data_frame : Bytes → Result FrameError DataPayload
decode_data_frame payload =
    if ltb (length payload) 2
    then err data_too_short
    else ok (record { stream_id = get_u16 payload; content = drop 2 payload })

unfoldable pub encode_close_frame : ℕ → Frame
encode_close_frame stream_id = record { frame_type = frame_close; payload = put_u16 stream_id }

unfoldable pub encode_udp_close_frame : ℕ → Frame
encode_udp_close_frame assoc_id = record {
  frame_type = frame_udp_close;
  payload = put_u16 assoc_id;
}

unfoldable pub decode_udp_close_frame : Bytes → Result FrameError ℕ
decode_udp_close_frame payload =
    if length payload == 2 then ok (get_u16 payload) else err (udp_close_length (length payload))

module _ (net : IpText) where
  unfoldable pub encode_connect_frame : ℕ → ℕ → Bytes → ℕ → Frame
  encode_connect_frame stream_id addr_type addr port = record {
    frame_type = frame_connect;
    payload = put_u16 stream_id ++ encode_address net addr_type addr port;
  }

  unfoldable pub decode_connect_frame : Bytes → Result FrameError ConnectRequest
  decode_connect_frame payload = if ltb (length payload) 5 then err connect_too_short else do
    d ← address_result (decode_address net (drop 2 payload))
    ok (record {
      stream_id = get_u16 payload;
      addr_type = d.addr_type;
      addr = d.addr;
      port = d.port;
    })

  unfoldable pub encode_udp_frame : ℕ → ℕ → Bytes → ℕ → Bytes → Frame
  encode_udp_frame assoc_id addr_type addr port content = record {
    frame_type = frame_udp;
    payload = put_u16 assoc_id ++ encode_address net addr_type addr port ++ content;
  }

  unfoldable pub decode_udp_frame : Bytes → Result FrameError UdpPayload
  decode_udp_frame payload = if ltb (length payload) 2 then err udp_too_short else do
    d ← address_result (decode_address net (drop 2 payload))
    ok (record {
      assoc_id = get_u16 payload;
      addr_type = d.addr_type;
      addr = d.addr;
      port = d.port;
      content = d.rest;
    })
