-- ===== src/Proxy/Negotiation/Laws.antt =====
-- A client that speaks the protocol.
use stealthlink.Prelude.{
  Bytes, IsU16, Result, [], ap, arith, err, false, if◌then◌else◌, length, ok, put_u16, read_full,
  read_full-append, refl, some, success, sym, ℕ, ◌++◌, ◌<◌, ◌==◌, ◌∙◌, ◌∷◌, ◌≡◌,
}
use stealthlink.Proxy.Negotiation.{
  Outcome, after_choice, supports_no_auth, handle_socks, handle_methods, run_command, Proxy,
  handle_request,
}
use stealthlink.Wire.Net.{IpText}
use stealthlink.Wire.Address.{encode_address, decode_address, address_body}
use stealthlink.Wire.Address.RoundTrip.{IsEncodable, decode_address-encode_address, encoded}
use stealthlink.Proxy.Negotiation.{hung_up}
use stealthlink.Wire.Stream.{
  read_address_header, read_address_header-decode_address, read_address_header_with_first_byte,
}

module _ (net : IpText) where
  first_byte-read_address_header :
      (t : ℕ) (s : Bytes)
      → read_address_header_with_first_byte net t s ≡ read_address_header net (t ∷ s)
  unfolding read_address_header read_full
  first_byte-read_address_header t s = ground arith

  succeeded : {E : Type 0} {A : Type 0} (r : Result E A) (a : A) → success r ≡ some a → r ≡ ok a
  succeeded (ok b) a h = ground (arith, h)
  succeeded (err e) a h = cc h

  read_target :
      (t : ℕ) (a : Bytes) (port : ℕ) (rest : Bytes)
      → IsEncodable net t a
      → IsU16 port
      → read_address_header_with_first_byte net t (address_body net t a ++ put_u16 port ++ rest)
        ≡ ok (record { addr_type = t; addr = a; port = port; rest = rest })
  read_target t a port rest h p =
      first_byte-read_address_header t _
      ∙ succeeded _ _ (
          read_address_header-decode_address net _
          ∙ ap (λ (b : Bytes). success (decode_address net b)) (sym (encoded net t a port rest))
          ∙ ap success (decode_address-encode_address net t a port rest h p))

  request_of :
      (sp : Proxy) (cmd rsv t : ℕ) (a : Bytes) (port : ℕ) (rest : Bytes)
      → IsEncodable net t a
      → IsU16 port
      → handle_request net sp (5 ∷ cmd ∷ rsv ∷ (encode_address net t a port ++ rest))
        ≡ run_command sp cmd (ok (record { addr_type = t; addr = a; port = port; rest = rest }))
  unfolding handle_request read_full encode_address
  request_of sp cmd rsv t a port rest h p = ground (arith, read_target t a port rest h p)

  methods_of :
      (sp : Proxy) (methods s : Bytes)
      → handle_methods net sp (length methods) (methods ++ s) ≡ (
          if supports_no_auth methods
          then after_choice net sp (handle_request net sp s)
          else (0x05 ∷ 0xFF ∷ [], hung_up))
  unfolding handle_methods
  methods_of sp methods s = ground (arith, read_full-append (length methods) methods s refl)

  greeting_of :
      (sp : Proxy) (n : ℕ) (s : Bytes)
      → (n == 0) ≡ false
      → handle_socks net sp (5 ∷ n ∷ s) ≡ handle_methods net sp n s
  unfolding handle_socks read_full
  greeting_of sp n s h = ground (arith, h)

  -- A client that offers some methods and asks for an encodable target is answered so: if none of
  -- its methods is the one without authentication, with 5 and 255 and no more; else with 5 and 0,
  -- and its command is run with exactly that target, what it sent behind the request left.
  pub handle_socks-run_command :
      (sp : Proxy) (methods : Bytes) (cmd rsv t : ℕ) (a : Bytes) (port : ℕ) (rest : Bytes)
      → 0 < length methods
      → IsEncodable net t a
      → IsU16 port
      → handle_socks net sp (
          5 ∷ length methods ∷ (methods ++ (5 ∷ cmd ∷ rsv ∷ (encode_address net t a port ++ rest))))
        ≡ (if supports_no_auth methods
            then after_choice net sp (
                run_command sp cmd
                  (ok (record { addr_type = t; addr = a; port = port; rest = rest })))
            else (0x05 ∷ 0xFF ∷ [], hung_up))
  handle_socks-run_command sp methods cmd rsv t a port rest n h p =
      greeting_of sp (length methods) _ (ground (arith, n))
      ∙ methods_of sp methods (5 ∷ cmd ∷ rsv ∷ (encode_address net t a port ++ rest))
      ∙ ap
          (λ (r : Bytes × Outcome).
            if supports_no_auth methods then after_choice net sp r else (0x05 ∷ 0xFF ∷ [], hung_up))
          (request_of sp cmd rsv t a port rest h p)
