-- ===== src/Firewall/Connections/Limit.antt =====
-- What a connection is checked against, and how the counts follow the connections.
use stealthlink.Prelude.{
  Bytes, List, Option, String, [], ap, arith, beq_refl, bytes_eq, eq_iff, false, if◌then◌else◌,
  lookup-insert, nat_eq, refl, str_eq, string_eq, suc, true, zero, ℕ, ◌+◌, ◌-◌, ◌<◌, ◌↔◌, ◌∙◌, ◌∷◌,
  ◌≡◌, ◌⊎◌,
}
use stealthlink.Wire.Net.{IpText}
use stealthlink.Auth.Manager.{UserRecord}
use stealthlink.Firewall.Connections.{
  below, FirewallConfig, increment, decrement, Count, on_disconnect, on_connect, at, reaches,
  Firewall, is_blocked, ports_allow, count_of, get_conn_count, in_private, check_connection,
}

count_of-get_conn_count :
    (fw : Firewall) (id : String) → count_of (get_conn_count fw id) id ≡ count_of fw id
unfolding get_conn_count
count_of-get_conn_count fw id =
    ground (arith, lookup-insert id id (at 0) fw.user_conn_counts, beq_refl id)

-- The four conditions on a connection.
pub record IsAllowed (net : IpText) (fw : Firewall) (id : String) (dest_addr : Bytes)
    (dest_port : ℕ) (user : Option UserRecord) : Type 0 where
  pub open_port : is_blocked fw.blocked_ports dest_port ≡ false
  pub own_port : ports_allow user dest_port ≡ true
  pub public_dest : (fw.allow_private_ranges ≡ true) ⊎ (in_private net dest_addr ≡ false)
  pub within_limit :
      (fw.max_connections_per_user ≡ 0)
      ⊎ (reaches (count_of fw id) fw.max_connections_per_user ≡ false)

-- CheckConnection answers true exactly if the port is not blocked, the user's own port ranges
-- allow it, the destination is no address of a private range or those are allowed, and the user
-- has not reached the limit or there is none.
pub check_connection-IsAllowed :
    (net : IpText) (fw : Firewall) (id : String) (dest_addr : Bytes) (dest_port : ℕ)
    (user : Option UserRecord)
    → ((check_connection net fw id dest_addr dest_port user).1 ≡ true)
      ↔ IsAllowed net fw id dest_addr dest_port user
unfolding check_connection
check_connection-IsAllowed net fw id dest_addr dest_port user = (
  (λ h. ground (arith, h, count_of-get_conn_count fw id)),
  λ v. ground (arith, v, count_of-get_conn_count fw id),
)

-- What the handlers of connections do to the counts.
pub data CountEvent : Type 0 where
  looks connects disconnects : String → CountEvent

abbrev count_step : Firewall → CountEvent → Firewall
count_step fw (looks id) = get_conn_count fw id
count_step fw (connects id) = on_connect fw id
count_step fw (disconnects id) = on_disconnect fw id

unfoldable pub count_run : Firewall → List CountEvent → Firewall
count_run fw [] = fw
count_run fw (e ∷ es) = count_run (count_step fw e) es

abbrev pub connects_of : String → List CountEvent → ℕ
connects_of id [] = 0
connects_of id (connects j ∷ es) = (if str_eq j id then 1 else 0) + connects_of id es
connects_of id (_ ∷ es) = connects_of id es

abbrev pub disconnects_of : String → List CountEvent → ℕ
disconnects_of id [] = 0
disconnects_of id (disconnects j ∷ es) = (if str_eq j id then 1 else 0) + disconnects_of id es
disconnects_of id (_ ∷ es) = disconnects_of id es

-- The two sides of a count, of which one is 0.
abbrev pub above_zero : Count → ℕ
above_zero (at n) = n
above_zero (below n) = 0

abbrev pub under_zero : Count → ℕ
under_zero (at n) = 0
under_zero (below n) = suc n

pub decrement-increment : (c : Count) → decrement (increment c) ≡ c
decrement-increment (at n) = let e : n + 1 ≡ suc n = omega arith in rw e refl
decrement-increment (below zero) = refl
decrement-increment (below (suc n)) = let e : n + 1 ≡ suc n = omega arith in rw e refl

increment_sides :
    (c : Count)
    → above_zero (increment c) + under_zero c ≡ above_zero c + under_zero (increment c) + 1
increment_sides (at n) = omega arith
increment_sides (below zero) = omega arith
increment_sides (below (suc n)) = omega arith

decrement_sides :
    (c : Count)
    → above_zero (decrement c) + under_zero c + 1 ≡ above_zero c + under_zero (decrement c)
decrement_sides (at zero) = omega arith
decrement_sides (at (suc n)) = omega arith
decrement_sides (below n) = omega arith

pub count-looks :
    (fw : Firewall) (id j : String) → count_of (get_conn_count fw j) id ≡ count_of fw id
unfolding get_conn_count
count-looks fw id j = ground (arith, lookup-insert j id (at 0) fw.user_conn_counts, eq_iff j id)

pub count-connect :
    (fw : Firewall) (id j : String)
    → count_of (on_connect fw j) id
      ≡ (if str_eq j id then increment (count_of fw id) else count_of fw id)
unfolding on_connect
count-connect fw id j =
    ground (arith, lookup-insert j id (increment (count_of fw j)) fw.user_conn_counts, eq_iff j id)

pub count-disconnect :
    (fw : Firewall) (id j : String)
    → count_of (on_disconnect fw j) id
      ≡ (if str_eq j id then decrement (count_of fw id) else count_of fw id)
unfolding on_disconnect
count-disconnect fw id j =
    ground (arith, lookup-insert j id (decrement (count_of fw j)) fw.user_conn_counts, eq_iff j id)

-- After any calls for any users, a user's count has moved by his connects less his disconnects,
-- also below zero.
pub count_of-count_run :
    (fw : Firewall) (id : String) (es : List CountEvent)
    → above_zero (count_of (count_run fw es) id)
        + under_zero (count_of fw id)
        + disconnects_of id es
      ≡ above_zero (count_of fw id) + under_zero (count_of (count_run fw es) id) + connects_of id es
unfolding count_run
count_of-count_run fw id [] = omega arith
count_of-count_run fw id (looks j ∷ es) =
    rw (← count-looks fw id j) (count_of-count_run (get_conn_count fw j) id es)
count_of-count_run fw id (connects j ∷ es) = ground (
  arith,
  count-connect fw id j,
  increment_sides (count_of fw id),
  count_of-count_run (on_connect fw j) id es,
)
count_of-count_run fw id (disconnects j ∷ es) = ground (
  arith,
  count-disconnect fw id j,
  decrement_sides (count_of fw id),
  count_of-count_run (on_disconnect fw j) id es,
)

-- A check leaves the configuration and the counts as they read.
pub count-check :
    (net : IpText) (fw : Firewall) (id : String) (dest_addr : Bytes) (dest_port : ℕ)
    (user : Option UserRecord) (other : String)
    → ((check_connection net fw id dest_addr dest_port user).0.config ≡ fw.config)
      × (count_of (check_connection net fw id dest_addr dest_port user).0 other ≡ count_of fw other)
unfolding check_connection get_conn_count
count-check net fw id dest_addr dest_port user other = ground (arith, count-looks fw other id)

count-two_connects :
    (fw : Firewall) (id : String) (n : ℕ)
    → count_of fw id ≡ at n
    → count_of (on_connect (on_connect fw id) id) id ≡ at (n + 1 + 1)
count-two_connects fw id n h =
    ground (arith, h, count-connect fw id id, count-connect (on_connect fw id) id id, beq_refl id)

-- The check and the count are two steps: of two handlers that both check before either counts,
-- both are admitted by the last free place, and the user ends above the limit.
pub check_then_connect_exceeds :
    (net : IpText) (fw : Firewall) (id : String) (dest_addr : Bytes) (dest_port : ℕ)
    (user : Option UserRecord)
    → (check_connection net fw id dest_addr dest_port user).1 ≡ true
    → 0 < fw.max_connections_per_user
    → count_of fw id ≡ at (fw.max_connections_per_user - 1)
    → let first = (check_connection net fw id dest_addr dest_port user).0 in
      ((check_connection net first id dest_addr dest_port user).1 ≡ true)
      × (count_of
            (on_connect
              (on_connect (check_connection net first id dest_addr dest_port user).0 id)
              id)
            id
          ≡ at (fw.max_connections_per_user + 1))
check_then_connect_exceeds net fw id dest_addr dest_port user h pos free =
    let first = (check_connection net fw id dest_addr dest_port user).0 in
    let (conf, same) = count-check net fw id dest_addr dest_port user id in
    let (conf', same') = count-check net first id dest_addr dest_port user id in
    let v = (check_connection-IsAllowed net fw id dest_addr dest_port user).0 h in
    let v' : IsAllowed net first id dest_addr dest_port user = record {
      open_port =
          ap (λ (c : FirewallConfig). is_blocked c.blocked_ports dest_port) conf ∙ v.open_port;
      own_port = v.own_port;
      public_dest =
          ground (arith, v.public_dest, ap (λ (c : FirewallConfig). c.allow_private_ranges) conf);
      within_limit = ground (
        arith,
        v.within_limit,
        same,
        ap (λ (c : FirewallConfig). c.max_connections_per_user) conf,
      );
    } in
    (
      (check_connection-IsAllowed net first id dest_addr dest_port user).1 v',
      count-two_connects _ id (fw.max_connections_per_user - 1) (same' ∙ same ∙ free)
          ∙ ap at (omega arith),
    )
