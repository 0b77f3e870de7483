-- ===== src/Runs/Client.antt =====
-- The client's local proxy and its associations.
use stealthlink.Prelude.{
  All, Bytes, List, [], arith, bytes_eq, false, get_u16, if◌then◌else◌, lookup, nat_eq, none, ok,
  refl, some, string_eq, take, true, ◌++◌, ◌∷◌, ◌≡◌,
}
use stealthlink.Proxy.Negotiation.Laws.{handle_socks-run_command}
use stealthlink.Wire.Frames.{decode_udp_close_frame, Frame}
use stealthlink.Associations.Delivery.{run_frame_loop-Waits, all_arrived, is_close_of}
use stealthlink.Associations.{handler_capacity, run_frame_loop, Client}
use stealthlink.Runs.Instances.{plain_text}
use stealthlink.Wire.Address.{encode_address, addr_ipv4}
use stealthlink.Wire.Address.RoundTrip.{ipv4}
use stealthlink.Proxy.Negotiation.{
  run_command, after_choice, supports_no_auth, Proxy, handle_socks, hung_up,
}

abbrev some_ip : Bytes
some_ip = 8 ∷ 8 ∷ 4 ∷ 4 ∷ []

abbrev dialling : Proxy
dialling = record { has_quic = false; has_dialer = true }

handle_socks-run_command_example :
    handle_socks plain_text dialling (
      5
      ∷ 2
      ∷ ((2 ∷ 0 ∷ [])
          ++ (5 ∷ 1 ∷ 0 ∷ (encode_address plain_text addr_ipv4 some_ip 80 ++ (9 ∷ [])))))
    ≡ (if supports_no_auth (2 ∷ 0 ∷ [])
        then after_choice plain_text dialling (
            run_command dialling 1
              (ok (record { addr_type = addr_ipv4; addr = some_ip; port = 80; rest = 9 ∷ [] })))
        else (0x05 ∷ 0xFF ∷ [], hung_up))
handle_socks-run_command_example =
    handle_socks-run_command plain_text dialling (2 ∷ 0 ∷ []) 1 0 addr_ipv4 some_ip 80 (9 ∷ [])
      (omega arith) (ipv4 some_ip refl refl refl) (omega arith)

abbrev one_association : Client
one_association = record {
  next_udp_assoc_id = 65535;
  udp_handlers = (7, []) ∷ [];
  frame_loop_active = true;
  inbox = none;
}

abbrev some_frames : List Frame
some_frames =
    record { frame_type = 7; payload = 0 ∷ 7 ∷ 1 ∷ 8 ∷ 8 ∷ 4 ∷ 4 ∷ 0 ∷ 53 ∷ 1 ∷ [] }
    ∷ record { frame_type = 10; payload = 0 ∷ 8 ∷ [] }
    ∷ []

no_close : All (λ f. is_close_of plain_text 7 f ≡ false) some_frames
unfolding is_close_of decode_udp_close_frame get_u16
no_close = (refl, (refl, tt))

run_frame_loop-Waits_example :
    lookup 7 (run_frame_loop plain_text one_association some_frames).udp_handlers
    ≡ some (take handler_capacity ([] ++ all_arrived plain_text 7 some_frames))
run_frame_loop-Waits_example =
    run_frame_loop-Waits plain_text one_association 7 [] some_frames refl (omega arith) no_close
