-- ===== src/Wire/Address/RoundTrip.antt =====
-- EncodeAddress against DecodeAddress.
use stealthlink.Prelude.{
  Bytes, IsU16, ap, append_assoc, arith, drop-append, get_u16, length, length-append, le→ltb, ok,
  put_u16, refl, take-append, ℕ, ◌++◌, ◌+◌, ◌∷◌, ◌≡◌, ◌≤◌,
}
use stealthlink.Wire.Net.{IpText}
use stealthlink.Wire.Address.{
  addr_ipv4, addr_ipv6, addr_domain, AddressError, cut_domain, address_body, encode_address,
  decode_ip, decode_domain, decode_address,
}

decode_domain-append :
    (t : ℕ) (a : Bytes) (port : ℕ) (rest : Bytes)
    → IsU16 port
    → decode_domain t (length a ∷ (a ++ put_u16 port ++ rest))
      ≡ ok (record { addr_type = t; addr = a; port = port; rest = rest })
unfolding decode_domain put_u16 get_u16
decode_domain-append t a port rest p = ground (
  arith,
  length-append a (put_u16 port ++ rest),
  take-append (length a) a (put_u16 port ++ rest) refl,
  drop-append (length a) a (put_u16 port ++ rest) refl,
  drop-append (length a + 2) (a ++ put_u16 port) rest,
  append_assoc a (put_u16 port) rest,
  length-append a (put_u16 port),
)

module _ (net : IpText) where
  -- An address that the encoder does not change: the text of four or sixteen bytes, or a domain
  -- of at most 255 bytes.
  pub data IsEncodable : ℕ → Bytes → Type 0 where
    ipv4 :
        {t : ℕ} {a : Bytes} (ip : Bytes)
        → t ≡ addr_ipv4
        → length ip ≡ 4
        → a ≡ net.format ip
        → IsEncodable t a
    ipv6 :
        {t : ℕ} {a : Bytes} (ip : Bytes)
        → t ≡ addr_ipv6
        → length ip ≡ 16
        → a ≡ net.format ip
        → IsEncodable t a
    domain : {t : ℕ} {a : Bytes} → t ≡ addr_domain → length a ≤ 255 → IsEncodable t a

  pub body_ipv4 : (ip : Bytes) → length ip ≡ 4 → address_body net addr_ipv4 (net.format ip) ≡ ip
  unfolding address_body
  body_ipv4 ip h = ground (arith, net.parse-format4 ip h)

  pub body_ipv6 : (ip : Bytes) → length ip ≡ 16 → address_body net addr_ipv6 (net.format ip) ≡ ip
  unfolding address_body
  body_ipv6 ip h = ground (arith, net.parse-format16 ip h)

  pub body_domain : (a : Bytes) → length a ≤ 255 → address_body net addr_domain a ≡ length a ∷ a
  unfolding address_body
  body_domain a h =
      let cut : cut_domain a ≡ a = rw (le→ltb 255 (length a) h) in
      rw cut (ap (λ (n : ℕ). n ∷ a) (omega arith))

  decode_ip-append :
      (size : ℕ) (e : AddressError) (t : ℕ) (ip : Bytes) (port : ℕ) (rest : Bytes)
      → length ip ≡ size
      → IsU16 port
      → decode_ip net size e t (ip ++ put_u16 port ++ rest)
        ≡ ok (record { addr_type = t; addr = net.format ip; port = port; rest = rest })
  unfolding decode_ip put_u16 get_u16
  decode_ip-append size e t ip port rest h p = ground (
    arith,
    length-append ip (put_u16 port ++ rest),
    take-append size ip (put_u16 port ++ rest) h,
    drop-append size ip (put_u16 port ++ rest) h,
    drop-append (size + 2) (ip ++ put_u16 port) rest,
    append_assoc ip (put_u16 port) rest,
    length-append ip (put_u16 port),
  )

  pub encoded :
      (t : ℕ) (a : Bytes) (port : ℕ) (rest : Bytes)
      → encode_address net t a port ++ rest ≡ t ∷ (address_body net t a ++ put_u16 port ++ rest)
  unfolding encode_address
  encoded t a port rest = refl

  -- What EncodeAddress writes for an encodable address and any port, DecodeAddress reads back,
  -- and it leaves the bytes that follow.
  pub decode_address-encode_address :
      (t : ℕ) (a : Bytes) (port : ℕ) (rest : Bytes)
      → IsEncodable t a
      → IsU16 port
      → decode_address net (encode_address net t a port ++ rest)
        ≡ ok (record { addr_type = t; addr = a; port = port; rest = rest })
  unfolding decode_address
  decode_address-encode_address t a port rest (ipv4 ip e n f) p =
      rw (e, f, encoded addr_ipv4 (net.format ip) port rest, body_ipv4 ip n)
        (decode_ip-append 4 _ addr_ipv4 ip port rest n p)
  decode_address-encode_address t a port rest (ipv6 ip e n f) p =
      rw (e, f, encoded addr_ipv6 (net.format ip) port rest, body_ipv6 ip n)
        (decode_ip-append 16 _ addr_ipv6 ip port rest n p)
  decode_address-encode_address t a port rest (domain e n) p =
      rw (e, encoded addr_domain a port rest, body_domain a n)
        (decode_domain-append addr_domain a port rest p)
