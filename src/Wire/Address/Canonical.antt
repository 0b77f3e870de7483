-- ===== src/Wire/Address/Canonical.antt =====
-- DecodeAddress against EncodeAddress: what was read, written again.
use stealthlink.Prelude.{
  ==_iff, All, All-drop, Bool-cases, Bytes, IsByte, OnOk, OnOk-apply, [], ap, append_assoc, arith,
  drop, drop-drop, get_u16, inl, inr, length, length-drop, length-take, ltb, ltb→le, ok, put_u16,
  put_u16-get_u16, refl, take, take-append-drop, ℕ, ◌++◌, ◌+◌, ◌<◌, ◌==◌, ◌∙◌, ◌∷◌, ◌≡◌, ◌≤◌,
}
use stealthlink.Wire.Net.{IpText}
use stealthlink.Wire.Address.{
  addr_ipv4, addr_ipv6, addr_domain, AddressError, Decoded, address_body, encode_address, decode_ip,
  decode_domain, decode_address,
}
use stealthlink.Wire.Address.RoundTrip.{
  IsEncodable, ipv4, ipv6, domain, encoded, body_ipv4, body_ipv6, body_domain,
}

-- A part of `n` bytes and a port, put together again.
join_port :
    (n : ℕ) (bytes : Bytes)
    → All IsByte bytes
    → n + 2 ≤ length bytes
    → take n bytes ++ put_u16 (get_u16 (drop n bytes)) ++ drop (n + 2) bytes ≡ bytes
join_port n bytes h k =
    let tail : put_u16 (get_u16 (drop n bytes)) ++ drop 2 (drop n bytes) ≡ drop n bytes =
      put_u16-get_u16 (drop n bytes) (All-drop IsByte n bytes h)
        (omega (arith, length-drop n bytes)) in
    append_assoc (take n bytes) (put_u16 (get_u16 (drop n bytes))) (drop (n + 2) bytes)
    ∙ rw (← drop-drop n 2 bytes, tail) (take-append-drop n bytes)

module _ (net : IpText) where
  -- The wire form of a decoded address and what follows it.
  abbrev pub encode_decoded : Decoded → Bytes
  encode_decoded d = encode_address net d.addr_type d.addr d.port ++ d.rest

  abbrev Rewrites : Bytes → Decoded → Type 0
  Rewrites bytes d =
      (encode_decoded d ≡ bytes)
      × IsEncodable net d.addr_type d.addr
      × (length d.rest < length bytes)

  decode_ip-Rewrites :
      (size : ℕ) (e : AddressError) (t : ℕ) (bytes : Bytes)
      → ((ip : Bytes)
          → length ip ≡ size
          → (address_body net t (net.format ip) ≡ ip) × IsEncodable net t (net.format ip))
      → All IsByte bytes
      → OnOk (Rewrites (t ∷ bytes)) (decode_ip net size e t bytes)
  decode_ip-Rewrites size e t bytes body h = elim (Bool-cases (ltb (length bytes) (size + 2))) [
    | inl short ↦ unfold decode_ip in rw short tt
    | inr long ↦
        let n : length (take size bytes) ≡ size =
          omega (arith, length-take size bytes, ltb→le _ _ long) in
        let (same, able) = body (take size bytes) n in
        unfold decode_ip in
        rw long (
          encoded net t (net.format (take size bytes)) (get_u16 (drop size bytes))
                (drop (size + 2) bytes)
              ∙ rw same (ap (◌∷◌ t) (join_port size bytes h (ltb→le _ _ long))),
          able,
          omega (arith, length-drop (size + 2) bytes),
        )
  ]

  decode_domain-Rewrites :
      (bytes : Bytes)
      → All IsByte bytes
      → OnOk (Rewrites (addr_domain ∷ bytes)) (decode_domain addr_domain bytes)
  decode_domain-Rewrites [] h = unfold decode_domain in tt
  decode_domain-Rewrites (n ∷ bytes) h = elim (Bool-cases (ltb (length bytes) (n + 2))) [
    | inl short ↦ unfold decode_domain in rw short tt
    | inr long ↦
        let name = take n bytes in
        let size : length (take n bytes) ≡ n =
          omega (arith, length-take n bytes, ltb→le _ _ long) in
        let fits : length (take n bytes) ≤ 255 = omega arith in
        unfold decode_domain in
        rw long (
          encoded net addr_domain (take n bytes) (get_u16 (drop n bytes)) (drop (n + 2) bytes)
              ∙ rw (body_domain net (take n bytes) fits, size)
                  (ap (λ (r : Bytes). addr_domain ∷ n ∷ r)
                    (join_port n bytes h.1 (ltb→le _ _ long))),
          domain refl fits,
          omega (arith, length-drop (n + 2) bytes),
        )
  ]

  decode_address-Rewrites :
      (t : ℕ) (bytes : Bytes)
      → All IsByte bytes
      → OnOk (Rewrites (t ∷ bytes)) (decode_address net (t ∷ bytes))
  unfolding decode_address
  decode_address-Rewrites t bytes h = elim (Bool-cases (t == addr_ipv4)) [
    | inl four ↦
        let e : t ≡ addr_ipv4 = (==_iff _ _).0 four in
        rw e (
          decode_ip-Rewrites 4 _ addr_ipv4 bytes (λ ip n. (body_ipv4 net ip n, ipv4 ip refl n refl))
            h)
    | inr not_four ↦ elim (Bool-cases (t == addr_ipv6)) [
      | inl six ↦
          let e : t ≡ addr_ipv6 = (==_iff _ _).0 six in
          rw e (
            decode_ip-Rewrites 16 _ addr_ipv6 bytes
              (λ ip n. (body_ipv6 net ip n, ipv6 ip refl n refl)) h)
      | inr not_six ↦ elim (Bool-cases (t == addr_domain)) [
        | inl name ↦
            let e : t ≡ addr_domain = (==_iff _ _).0 name in rw e (decode_domain-Rewrites bytes h)
        | inr other ↦ rw (not_four, not_six, other) tt
      ]
    ]
  ]

  -- A successful DecodeAddress of bytes returns an encodable address and a shorter rest, and
  -- EncodeAddress of that address followed by the rest is the input again.
  pub encode_address-decode_address :
      (bytes : Bytes) (d : Decoded)
      → All IsByte bytes
      → decode_address net bytes ≡ ok d
      → (encode_address net d.addr_type d.addr d.port ++ d.rest ≡ bytes)
        × IsEncodable net d.addr_type d.addr
        × (length d.rest < length bytes)
  encode_address-decode_address [] d h k = unfold decode_address in cc k
  encode_address-decode_address (t ∷ bytes) d h k =
      OnOk-apply (Rewrites (t ∷ bytes)) _ d (decode_address-Rewrites t bytes h.1) k
