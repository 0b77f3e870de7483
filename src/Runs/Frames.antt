-- ===== src/Runs/Frames.antt =====
-- Addresses and frames.
use stealthlink.Prelude.{Bytes, [], arith, get_u16, ok, refl, success, ◌++◌, ◌<◌, ◌∷◌, ◌≡◌}
use stealthlink.Wire.Address.Canonical.{encode_address-decode_address}
use stealthlink.Wire.Connect.{parse_connect-decode_connect_frame, parse_connect}
use stealthlink.Wire.Stream.{read_address_header-decode_address, read_address_header}
use stealthlink.Wire.Frames.{decode_connect_frame}
use stealthlink.Runs.Instances.{plain_text}
use stealthlink.Wire.Address.RoundTrip.{IsEncodable, decode_address-encode_address, ipv4}
use stealthlink.Wire.Address.{decode_domain, decode_address, encode_address, addr_ipv4, addr_domain}

abbrev some_ip : Bytes
some_ip = 8 ∷ 8 ∷ 4 ∷ 4 ∷ []

-- "a.io"
abbrev some_name : Bytes
some_name = 97 ∷ 46 ∷ 105 ∷ 111 ∷ []

decode_address-encode_address_example :
    decode_address plain_text (encode_address plain_text addr_ipv4 some_ip 53 ++ (7 ∷ []))
    ≡ ok (record { addr_type = addr_ipv4; addr = some_ip; port = 53; rest = 7 ∷ [] })
decode_address-encode_address_example =
    decode_address-encode_address plain_text addr_ipv4 some_ip 53 (7 ∷ [])
      (ipv4 some_ip refl refl refl) (omega arith)

abbrev named_target : Bytes
named_target = 3 ∷ 4 ∷ 97 ∷ 46 ∷ 105 ∷ 111 ∷ 1 ∷ 187 ∷ 9 ∷ []

encode_address-decode_address_example :
    (encode_address plain_text addr_domain some_name 443 ++ (9 ∷ []) ≡ named_target)
    × IsEncodable plain_text addr_domain some_name
    × (1 < 9)
encode_address-decode_address_example =
    encode_address-decode_address plain_text named_target
      (record { addr_type = addr_domain; addr = some_name; port = 443; rest = 9 ∷ [] })
      (
        omega arith,
        (
          omega arith,
          (
            omega arith,
            (
              omega arith,
              (omega arith, (omega arith, (omega arith, (omega arith, (omega arith, tt))))),
            ),
          ),
        ),
      )
      (unfold decode_address decode_domain get_u16 in refl)

read_address_header-decode_address_example :
    success (read_address_header plain_text named_target)
    ≡ success (decode_address plain_text named_target)
read_address_header-decode_address_example =
    read_address_header-decode_address plain_text named_target

parse_connect-decode_connect_frame_example :
    parse_connect plain_text (0 ∷ 5 ∷ named_target)
    ≡ success (decode_connect_frame plain_text (0 ∷ 5 ∷ named_target))
parse_connect-decode_connect_frame_example =
    parse_connect-decode_connect_frame plain_text (0 ∷ 5 ∷ named_target)
