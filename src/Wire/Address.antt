-- ===== src/Wire/Address.antt =====
-- EncodeAddress and DecodeAddress of protocol/core/transport/framing.go.
pub mod RoundTrip
pub mod Canonical
use stealthlink.Prelude.{
  Bytes, Option, Result, [], drop, err, get_u16, if◌then◌else◌, length, ltb, none, ok, put_u16,
  replicate, some, take, ℕ, ◌%◌, ◌++◌, ◌+◌, ◌==◌, ◌∷◌,
}
use stealthlink.Wire.Net.{IpText, to4, to16}

abbrev pub addr_ipv4 : ℕ
addr_ipv4 = 0x01

abbrev pub addr_domain : ℕ
addr_domain = 0x03

abbrev pub addr_ipv6 : ℕ
addr_ipv6 = 0x04

pub data AddressError : Type 0 where
  address_too_short ipv4_too_short ipv6_too_short domain_length_missing domain_too_short :
      AddressError
  unknown_address_type : ℕ → AddressError

pub record Decoded : Type 0 where
  pub addr_type : ℕ
  pub addr : Bytes
  pub port : ℕ
  pub rest : Bytes

-- The zero address that takes the place of a text which is no address of the family.
abbrev or_zero : ℕ → Option Bytes → Bytes
or_zero n none = replicate n 0
or_zero n (some ip) = ip

-- addr[:255]
abbrev pub cut_domain : Bytes → Bytes
cut_domain addr = if ltb 255 (length addr) then take 255 addr else addr

unfoldable pub decode_domain : ℕ → Bytes → Result AddressError Decoded
decode_domain addr_type [] = err domain_length_missing
decode_domain addr_type (d_len ∷ bytes) =
    if ltb (length bytes) (d_len + 2)
    then err domain_too_short
    else ok (record {
      addr_type = addr_type;
      addr = take d_len bytes;
      port = get_u16 (drop d_len bytes);
      rest = drop (d_len + 2) bytes;
    })

module _ (net : IpText) where
  open net use {format, parse}

  -- net.ParseIP(addr).To4() and .To16(), which are nil for a text that does not parse.
  abbrev parse_to : (Bytes → Option Bytes) → Bytes → Option Bytes
  parse_to to addr = elim (parse addr) [ none ↦ none | some ip ↦ to ip ]

  unfoldable pub address_body : ℕ → Bytes → Bytes
  unfolding to4 to16
  address_body addr_type addr =
      if addr_type == addr_ipv4
      then or_zero 4 (parse_to to4 addr)
      else if addr_type == addr_ipv6
      then or_zero 16 (parse_to to16 addr)
      else if addr_type == addr_domain
      then (length (cut_domain addr) % 256) ∷ cut_domain addr
      else []

  unfoldable pub encode_address : ℕ → Bytes → ℕ → Bytes
  encode_address addr_type addr port = addr_type ∷ (address_body addr_type addr ++ put_u16 port)

  -- The cases AddrIPv4 and AddrIPv6, which differ in the size and the error.
  unfoldable pub decode_ip : ℕ → AddressError → ℕ → Bytes → Result AddressError Decoded
  decode_ip size error addr_type bytes =
      if ltb (length bytes) (size + 2)
      then err error
      else ok (record {
        addr_type = addr_type;
        addr = format (take size bytes);
        port = get_u16 (drop size bytes);
        rest = drop (size + 2) bytes;
      })

  unfoldable pub decode_address : Bytes → Result AddressError Decoded
  decode_address [] = err address_too_short
  decode_address (addr_type ∷ bytes) =
      if addr_type == addr_ipv4
      then decode_ip 4 ipv4_too_short addr_type bytes
      else if addr_type == addr_ipv6
      then decode_ip 16 ipv6_too_short addr_type bytes
      else if addr_type == addr_domain
      then decode_domain addr_type bytes
      else err (unknown_address_type addr_type)
