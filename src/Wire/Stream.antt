-- ===== src/Wire/Stream.antt =====
-- ReadAddressHeader and ReadAddressHeaderWithFirstByte of protocol/core/transport/relay.go: an
-- address read from a connection, against DecodeAddress.
use stealthlink.Prelude.{
  Bool-cases, Bytes, ReadError, Result, [], arith, drop, err, get_or, get_u16,
  get_u16-drop-take_add, if◌then◌else◌, inl, inr, length, ltb, ok, read_full, read_full_long,
  read_full_short, refl, success, take, take-take_add, ℕ, ◌+◌, ◌==◌, ◌>>=◌, ◌∷◌, ◌≡◌,
}
use stealthlink.Wire.Net.{IpText}
use stealthlink.Wire.Address.{
  addr_ipv4, addr_ipv6, addr_domain, AddressError, ipv4_too_short, ipv6_too_short, Decoded,
  decode_ip, decode_domain, decode_address,
}

pub data HeaderError : Type 0 where
  read_failed : ReadError → HeaderError
  unknown_type : ℕ → HeaderError

abbrev read_header : ℕ → Bytes → Result HeaderError (Bytes × Bytes)
read_header n s = elim (read_full n s) [ ok r ↦ ok r | err e ↦ err (read_failed e) ]

-- The result holds what is left of the connection's bytes as `rest`.
module _ (net : IpText) where
  -- The cases AddrIPv4 and AddrIPv6.
  unfoldable pub read_ip : ℕ → ℕ → Bytes → Result HeaderError Decoded
  read_ip size addr_type s = do
    (buf, s') ← read_header (size + 2) s
    ok (record {
      addr_type = addr_type;
      addr = net.format (take size buf);
      port = get_u16 (drop size buf);
      rest = s';
    })

  unfoldable pub read_domain : ℕ → Bytes → Result HeaderError Decoded
  read_domain addr_type s = do
    (len_buf, s') ← read_header 1 s
    (domain_buf, s'') ← read_header (get_or len_buf 0 0 + 2) s'
    ok (record {
      addr_type = addr_type;
      addr = take (get_or len_buf 0 0) domain_buf;
      port = get_u16 (drop (get_or len_buf 0 0) domain_buf);
      rest = s'';
    })

  unfoldable pub read_address_header_with_first_byte : ℕ → Bytes → Result HeaderError Decoded
  read_address_header_with_first_byte addr_type s =
      if addr_type == addr_ipv4
      then read_ip 4 addr_type s
      else if addr_type == addr_ipv6
      then read_ip 16 addr_type s
      else if addr_type == addr_domain
      then read_domain addr_type s
      else err (unknown_type addr_type)

  unfoldable pub read_address_header : Bytes → Result HeaderError Decoded
  read_address_header s = do
    (header, s') ← read_header 1 s
    read_address_header_with_first_byte (get_or header 0 0) s'

  read_ip-decode_ip :
      (size : ℕ) (e : AddressError) (t : ℕ) (s : Bytes)
      → success (read_ip size t s) ≡ success (decode_ip net size e t s)
  unfolding read_ip decode_ip
  read_ip-decode_ip size e t s = elim (Bool-cases (ltb (length s) (size + 2))) [
    | inl short ↦ ground (arith, (read_full_short (size + 2) s short).1)
    | inr long ↦ ground (
      arith,
      read_full_long (size + 2) s long,
      long,
      take-take_add size 2 s,
      get_u16-drop-take_add size s,
    )
  ]

  read_domain-decode_domain :
      (t : ℕ) (s : Bytes) → success (read_domain t s) ≡ success (decode_domain t s)
  unfolding read_domain decode_domain
  read_domain-decode_domain t [] = unfold read_full in refl
  read_domain-decode_domain t (n ∷ s) =
      let e : read_full 1 (n ∷ s) ≡ ok (n ∷ [], s) = unfold read_full in ground arith in
      elim (Bool-cases (ltb (length s) (n + 2))) [
        | inl short ↦ ground (arith, e, (read_full_short (n + 2) s short).1)
        | inr long ↦ ground (
          arith,
          e,
          read_full_long (n + 2) s long,
          long,
          take-take_add n 2 s,
          get_u16-drop-take_add n s,
        )
      ]

  -- Reading an address from a connection and decoding it from a buffer agree on all inputs: they
  -- succeed on the same bytes, with the same address, and leave the same bytes.
  pub read_address_header-decode_address :
      (s : Bytes) → success (read_address_header s) ≡ success (decode_address net s)
  unfolding read_address_header read_address_header_with_first_byte decode_address
  read_address_header-decode_address [] = unfold read_full in refl
  read_address_header-decode_address (t ∷ s) =
      let e : read_full 1 (t ∷ s) ≡ ok (t ∷ [], s) = unfold read_full in ground arith in
      ground (
        arith,
        e,
        read_ip-decode_ip 4 ipv4_too_short t s,
        read_ip-decode_ip 16 ipv6_too_short t s,
        read_domain-decode_domain t s,
      )
