-- ===== src/Firewall/Connections.antt =====
-- Firewall.CheckConnection, OnConnect and OnDisconnect of firewall.go. A count is an int64 that
-- OnDisconnect may take below 0. A MaxConnectionsPerUser that is not positive is 0 here, since
-- the code treats all such values alike.
pub mod Limit
pub mod Rules
use stealthlink.Prelude.{
  Bool, Bytes, List, Option, String, [], bytes_eq, false, if◌then◌else◌, insert, leb, lookup, ltb,
  nat_eq, none, not, some, string_eq, suc, true, zero, ℕ, ◌&&◌, ◌*◌, ◌+◌, ◌==◌, ◌||◌, ◌∷◌,
}
use stealthlink.Wire.Net.{IpText}
use stealthlink.Auth.Manager.{UserRecord, PortRange}
use stealthlink.Firewall.Ranges.{private_ranges, in_ranges}

-- `below n` is -(n + 1).
pub data Count : Type 0 where
  at : ℕ → Count
  below : ℕ → Count

abbrev pub increment : Count → Count
increment (at n) = at (n + 1)
increment (below zero) = at 0
increment (below (suc n)) = below n

abbrev pub decrement : Count → Count
decrement (at zero) = below 0
decrement (at (suc n)) = at n
decrement (below n) = below (n + 1)

-- count >= max, for a max that is positive.
abbrev pub reaches : Count → ℕ → Bool
reaches (at n) max_count = leb max_count n
reaches (below n) max_count = false

pub record FirewallConfig : Type 0 where
  pub blocked_ports : List ℕ
  pub max_connections_per_user : ℕ
  pub max_bandwidth_default : ℕ
  pub allow_private_ranges : Bool

abbrev pub default_firewall_config : FirewallConfig
default_firewall_config = record {
  blocked_ports = 25 ∷ 465 ∷ 587 ∷ 137 ∷ 138 ∷ 139 ∷ 445 ∷ [];
  max_connections_per_user = 2000;
  max_bandwidth_default = 0;
  allow_private_ranges = false;
}

pub record Firewall : Type 0 where
  pub config : FirewallConfig
  pub open config use *
  pub user_conn_counts : List (String × Count)

unfoldable pub new_firewall : FirewallConfig → Firewall
new_firewall config = record { config = config; user_conn_counts = [] }

-- The map blockedPorts, made of the list.
unfoldable pub is_blocked : List ℕ → ℕ → Bool
is_blocked [] port = false
is_blocked (p ∷ ps) port = p == port || is_blocked ps port

unfoldable pub in_port_ranges : List PortRange → ℕ → Bool
in_port_ranges [] port = false
in_port_ranges (r ∷ rs) port =
    (leb r.from_port port && leb port r.to_port) || in_port_ranges rs port

abbrev no_ports : List PortRange → Bool
no_ports [] = true
no_ports (r ∷ rs) = false

-- The case that no user is given does not reach the limits of ports.
abbrev pub ports_allow : Option UserRecord → ℕ → Bool
ports_allow none port = true
ports_allow (some u) port = no_ports u.allowed_ports || in_port_ranges u.allowed_ports port

abbrev count_or_zero : Option Count → Count
count_or_zero none = at 0
count_or_zero (some c) = c

abbrev pub count_of : Firewall → String → Count
count_of fw id = count_or_zero (lookup id fw.user_conn_counts)

-- getConnCount: the first look at a user makes a counter.
unfoldable pub get_conn_count : Firewall → String → Firewall
get_conn_count fw id = elim (lookup id fw.user_conn_counts) [
  | some c ↦ fw
  | none ↦ record fw { user_conn_counts = insert id (at 0) fw.user_conn_counts }
]

unfoldable pub on_connect : Firewall → String → Firewall
on_connect fw id = record fw {
  user_conn_counts = insert id (increment (count_of fw id)) fw.user_conn_counts;
}

unfoldable pub on_disconnect : Firewall → String → Firewall
on_disconnect fw id = record fw {
  user_conn_counts = insert id (decrement (count_of fw id)) fw.user_conn_counts;
}

module _ (net : IpText) where
  abbrev pub in_private : Bytes → Bool
  in_private dest_addr = elim (net.parse dest_addr) [
    | none ↦ false
    | some ip ↦ in_ranges private_ranges ip
  ]

  unfoldable pub check_connection :
      Firewall → String → Bytes → ℕ → Option UserRecord → Firewall × Bool
  unfolding get_conn_count
  check_connection fw id dest_addr dest_port user =
      if is_blocked fw.blocked_ports dest_port
      then (fw, false)
      else if not (ports_allow user dest_port)
      then (fw, false)
      else if not fw.allow_private_ranges && in_private dest_addr
      then (fw, false)
      else if ltb 0 fw.max_connections_per_user
      then (
        get_conn_count fw id,
        not (reaches (count_of (get_conn_count fw id) id) fw.max_connections_per_user),
      )
      else (fw, true)
