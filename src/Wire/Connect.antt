-- ===== src/Wire/Connect.antt =====
-- The connect payload as handleFrameConnect of protocol/core/transport/server.go takes it apart,
-- by its own code, against DecodeConnectFrame.
use stealthlink.Prelude.{
  Bool-cases, Bytes, Option, [], arith, drop, false, get_or, get_u16, if◌then◌else◌, inl, inr,
  length, ltb, none, refl, some, suc, success, take, true, ℕ, ◌+◌, ◌==◌, ◌∷◌, ◌≡◌,
}
use mathlib.Core.Option
use stealthlink.Wire.Net.{IpText}
use stealthlink.Wire.Address.{
  addr_ipv4, addr_ipv6, addr_domain, AddressError, ipv4_too_short, ipv6_too_short, Decoded,
  decode_ip, decode_domain, decode_address,
}
use stealthlink.Wire.Frames.{ConnectRequest, decode_connect_frame}

module _ (net : IpText) where
  -- The cases AddrIPv4 and AddrIPv6; `none` where the handler returns.
  unfoldable pub target_ip : ℕ → Bytes → Option (Bytes × ℕ)
  target_ip size remaining =
      if ltb (length remaining) (size + 2)
      then none
      else some (net.format (take size remaining), get_u16 (drop size remaining))

  unfoldable pub target_domain : Bytes → Option (Bytes × ℕ)
  target_domain remaining =
      if ltb (length remaining) 1
      then none
      else let d_len = get_or remaining 0 0 in
        if ltb (length remaining) (1 + d_len + 2)
        then none
        else some (take d_len (drop 1 remaining), get_u16 (drop (1 + d_len) remaining))

  unfoldable pub connect_target : ℕ → Bytes → Option (Bytes × ℕ)
  connect_target addr_type remaining =
      if addr_type == addr_ipv4
      then target_ip 4 remaining
      else if addr_type == addr_domain
      then target_domain remaining
      else if addr_type == addr_ipv6
      then target_ip 16 remaining
      else none

  unfoldable pub parse_connect : Bytes → Option ConnectRequest
  parse_connect payload =
      if ltb (length payload) 4
      then none
      else let addr_type = get_or payload 2 0 in
        Option.map
          (λ (target : Bytes × ℕ). record {
            stream_id = get_u16 payload;
            addr_type = addr_type;
            addr = target.0;
            port = target.1;
          })
          (connect_target addr_type (drop 3 payload))

  abbrev as_request : ℕ → ℕ → Option (Bytes × ℕ) → Option ConnectRequest
  as_request id t none = none
  as_request id t (some (a, p)) =
      some (record { stream_id = id; addr_type = t; addr = a; port = p })

  abbrev of_decoded : ℕ → Option Decoded → Option ConnectRequest
  of_decoded id none = none
  of_decoded id (some d) =
      some (record { stream_id = id; addr_type = d.addr_type; addr = d.addr; port = d.port })

  ip-decode :
      (id t size : ℕ) (e : AddressError) (s : Bytes)
      → as_request id t (target_ip size s) ≡ of_decoded id (success (decode_ip net size e t s))
  unfolding target_ip decode_ip
  ip-decode id t size e s = ground arith

  domain-decode :
      (id t : ℕ) (s : Bytes)
      → as_request id t (target_domain s) ≡ of_decoded id (success (decode_domain t s))
  unfolding target_domain decode_domain
  domain-decode id t [] = refl
  domain-decode id t (n ∷ s) =
      let e : 1 + n ≡ suc n = omega arith in
      let some_byte : ltb (suc (length s)) 1 ≡ false = ground arith in
      elim (Bool-cases (ltb (length s) (n + 2))) [
        | inl short ↦
            let long' : ltb (suc (length s)) (1 + n + 2) ≡ true = ground arith in
            rw (some_byte, long', short)
        | inr long ↦
            let long' : ltb (suc (length s)) (1 + n + 2) ≡ false = ground arith in
            rw (some_byte, long', long, e)
      ]

  target-decode :
      (id t : ℕ) (s : Bytes)
      → as_request id t (connect_target t s) ≡ of_decoded id (success (decode_address net (t ∷ s)))
  unfolding connect_target decode_address
  target-decode id t s = ground (
    arith,
    ip-decode id t 4 ipv4_too_short s,
    ip-decode id t 16 ipv6_too_short s,
    domain-decode id t s,
  )

  one_byte : (t x : ℕ) → connect_target t (x ∷ []) ≡ none
  unfolding connect_target target_ip target_domain
  one_byte t x = ground arith

  map-as_request :
      (id t : ℕ) (r : Option (Bytes × ℕ))
      → Option.map
          (λ (target : Bytes × ℕ). record {
            stream_id = id;
            addr_type = t;
            addr = target.0;
            port = target.1;
          })
          r
        ≡ as_request id t r
  map-as_request id t none = refl
  map-as_request id t (some r) = refl

  -- The server's handler and DecodeConnectFrame agree on all payloads: both refuse a payload, or
  -- both read the same request from it.
  pub parse_connect-decode_connect_frame :
      (payload : Bytes) → parse_connect payload ≡ success (decode_connect_frame net payload)
  unfolding parse_connect decode_connect_frame
  parse_connect-decode_connect_frame [] = refl
  parse_connect-decode_connect_frame (a ∷ []) = refl
  parse_connect-decode_connect_frame (a ∷ b ∷ []) = refl
  parse_connect-decode_connect_frame (a ∷ b ∷ t ∷ []) = refl
  parse_connect-decode_connect_frame (a ∷ b ∷ t ∷ x ∷ []) = rw (one_byte t x)
  parse_connect-decode_connect_frame (a ∷ b ∷ t ∷ x ∷ y ∷ s) = ground (
    arith,
    map-as_request (get_u16 (a ∷ b ∷ t ∷ x ∷ y ∷ s)) t (connect_target t (x ∷ y ∷ s)),
    target-decode (get_u16 (a ∷ b ∷ t ∷ x ∷ y ∷ s)) t (x ∷ y ∷ s),
  )
