-- ===== src/Runs/Guards.antt =====
-- The replay filter and the firewall.
use stealthlink.Prelude.{Bytes, List, [], arith, false, none, refl, true, ℕ, ◌↔◌, ◌∷◌, ◌≡◌}
use stealthlink.Firewall.Connections.Rules.{check_connection-MayPass, MayPass}
use stealthlink.Replay.Hash.{fnv_write, hash}
use stealthlink.Wire.Net.{to4}
use stealthlink.Firewall.Connections.Limit.{
  check_then_connect_exceeds, disconnects, connects, looks, CountEvent,
}
use stealthlink.Replay.Bloom.{position, test_bit, contains_loop, new_bloom_filter, contains}
use stealthlink.Firewall.Connections.{
  at, is_blocked, on_connect, get_conn_count, new_firewall, count_of, default_firewall_config,
  check_connection, Firewall,
}
use stealthlink.Replay.Filter.Detection.{new_replay_filter-IsReady, replay_refused}
use stealthlink.Firewall.Ranges.{masked_equal, net_contains, in_ranges}
use stealthlink.Runs.Instances.{plain_text}
use stealthlink.Replay.Filter.{
  new_replay_filter, seen, acts, check_and_add, check_and_add_locked, adds, rotates,
}

abbrev some_key : Bytes
some_key = 1 ∷ 2 ∷ 3 ∷ []

abbrev other_key : Bytes
other_key = 4 ∷ 5 ∷ []

fresh : (check_and_add_locked (new_replay_filter 100 3) some_key).1 ≡ false
unfolding check_and_add_locked seen contains contains_loop test_bit position hash fnv_write
    new_replay_filter new_bloom_filter
fresh = refl

replay_refused_example :
    ((check_and_add
        (acts
          (check_and_add_locked (new_replay_filter 100 3) some_key).0
          (adds other_key ∷ rotates ∷ []))
        some_key).1
      ≡ true)
    × ((check_and_add_locked
          (acts
            (check_and_add_locked (new_replay_filter 100 3) some_key).0
            (adds other_key ∷ rotates ∷ []))
          some_key).1
        ≡ true)
replay_refused_example =
    replay_refused (new_replay_filter 100 3) some_key (adds other_key ∷ rotates ∷ [])
      (new_replay_filter-IsReady 100 3 (omega arith)) fresh (omega arith)

abbrev public_ip : Bytes
public_ip = 8 ∷ 8 ∷ 8 ∷ 8 ∷ []

check_connection-MayPass_example :
    ((check_connection plain_text (new_firewall default_firewall_config) "u" public_ip 443 none).1
      ≡ true)
    ↔ MayPass plain_text (new_firewall default_firewall_config) "u" public_ip 443 none
check_connection-MayPass_example =
    check_connection-MayPass plain_text (new_firewall default_firewall_config) "u" public_ip 443
      none

abbrev some_counts : List CountEvent
some_counts = looks "u" ∷ connects "u" ∷ connects "v" ∷ disconnects "u" ∷ disconnects "u" ∷ []

abbrev fresh_firewall : Firewall
fresh_firewall = record { config = default_firewall_config; user_conn_counts = [] }

abbrev one_place : Firewall
one_place = record {
  config = record default_firewall_config { max_connections_per_user = 1 };
  user_conn_counts = [];
}

admitted : (check_connection plain_text one_place "u" public_ip 443 none).1 ≡ true
unfolding check_connection get_conn_count is_blocked in_ranges net_contains masked_equal to4
admitted = refl

check_then_connect_exceeds_example :
    ((check_connection plain_text
        (check_connection plain_text one_place "u" public_ip 443 none).0
        "u"
        public_ip
        443
        none).1
      ≡ true)
    × (count_of
          (on_connect
            (on_connect
              (check_connection plain_text
                (check_connection plain_text one_place "u" public_ip 443 none).0
                "u"
                public_ip
                443
                none).0
              "u")
            "u")
          "u"
        ≡ at 2)
check_then_connect_exceeds_example =
    check_then_connect_exceeds plain_text one_place "u" public_ip 443 none admitted (omega arith)
      refl

abbrev some_limit : ℕ
some_limit = 100
