-- ===== src/Proxy/Negotiation.antt =====
-- handleSOCKS: what the proxy answers to the bytes of a client, and what it then does. The errors
-- of its Writes are ignored, as in the source.
pub mod Laws
use stealthlink.Prelude.{
  Bool, Bytes, Result, [], err, false, get_or, if◌then◌else◌, not, ok, read_full, ℕ, ◌++◌, ◌==◌,
  ◌||◌, ◌∷◌,
}
use stealthlink.Wire.Net.{IpText}
use stealthlink.Wire.Address.{Decoded}
use stealthlink.Wire.Stream.{HeaderError, read_address_header_with_first_byte}

-- What handleSOCKS ends in: nothing, the relay of datagrams, or a connection to the target that
-- was read, whose `rest` is what the client has sent since.
pub data Outcome : Type 0 where
  hung_up udp_associate : Outcome
  over_quic over_dialer : Decoded → Outcome

pub record Proxy : Type 0 where
  pub has_quic : Bool
  pub has_dialer : Bool

unfoldable pub supports_no_auth : Bytes → Bool
supports_no_auth [] = false
supports_no_auth (m ∷ methods) = m == 0x00 || supports_no_auth methods

-- A reply of ten bytes with the status `rep`.
abbrev pub reply : ℕ → Bytes
reply rep = 0x05 ∷ rep ∷ 0x00 ∷ 0x01 ∷ 0 ∷ 0 ∷ 0 ∷ 0 ∷ 0 ∷ 0 ∷ []

abbrev pub no_auth_chosen : Bytes
no_auth_chosen = 0x05 ∷ 0x00 ∷ []

unfoldable pub connect_to : Proxy → Decoded → Bytes × Outcome
connect_to sp d =
    if sp.has_quic
    then ([], over_quic d)
    else if sp.has_dialer
    then ([], over_dialer d)
    else (reply 0x01, hung_up)

unfoldable pub run_command : Proxy → ℕ → Result HeaderError Decoded → Bytes × Outcome
unfolding connect_to
run_command sp cmd (err e) = (reply 0x08, hung_up)
run_command sp cmd (ok d) =
    if cmd == 0x01
    then connect_to sp d
    else if cmd == 0x03
    then ([], udp_associate)
    else (reply 0x07, hung_up)

module _ (net : IpText) (sp : Proxy) where
  abbrev pub after_choice : Bytes × Outcome → Bytes × Outcome
  after_choice (written, outcome) = (no_auth_chosen ++ written, outcome)

  unfoldable pub handle_request : Bytes → Bytes × Outcome
  unfolding run_command
  handle_request s = elim (read_full 4 s) [
    | err e ↦ ([], hung_up)
    | ok (header, s') ↦
        if not (get_or header 0 0 == 0x05)
        then (reply 0x07, hung_up)
        else run_command sp (get_or header 1 0)
            (read_address_header_with_first_byte net (get_or header 3 0) s')
  ]

  unfoldable pub handle_methods : ℕ → Bytes → Bytes × Outcome
  unfolding handle_request supports_no_auth
  handle_methods method_count s = elim (read_full method_count s) [
    | err e ↦ ([], hung_up)
    | ok (methods, s') ↦
        if supports_no_auth methods
        then after_choice (handle_request s')
        else (0x05 ∷ 0xFF ∷ [], hung_up)
  ]

  unfoldable pub handle_socks : Bytes → Bytes × Outcome
  unfolding handle_methods
  handle_socks s = elim (read_full 2 s) [
    | err e ↦ ([], hung_up)
    | ok (header, s') ↦
        if not (get_or header 0 0 == 0x05)
        then ([], hung_up)
        else if get_or header 1 0 == 0
        then ([], hung_up)
        else handle_methods (get_or header 1 0) s'
  ]
