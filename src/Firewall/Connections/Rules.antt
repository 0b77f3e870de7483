-- ===== src/Firewall/Connections/Rules.antt =====
-- What CheckConnection of firewall.go lets through, in terms of numbers and of the entries of its
-- lists.
use stealthlink.Firewall.Connections.{
  count_of, check_connection, ports_allow, in_private, reaches, Firewall, is_blocked,
  in_port_ranges, Count, at, below,
}
use stealthlink.Prelude.{
  ==_iff, All, Bool-cases, Bytes, List, Option, String, [], arith, false, inl, inr, leb, none, refl,
  some, true, ℕ, ◌&&◌, ◌<◌, ◌==◌, ◌↔◌, ◌∷◌, ◌≡◌, ◌≢◌, ◌≤◌, ◌⊎◌,
}
use stealthlink.Firewall.Connections.Limit.{check_connection-IsAllowed}
use stealthlink.Wire.Net.{IpText}
use stealthlink.Firewall.Ranges.{private_ranges, net_contains, IpNet, in_ranges}
use stealthlink.Auth.Manager.{UserRecord, PortRange}

-- A range of the list has the port between its ends, both included.
pub data Covers (port : ℕ) : List PortRange → Type 0 where
  here :
      {r : PortRange} {rs : List PortRange}
      → r.from_port ≤ port
      → port ≤ r.to_port
      → Covers port (r ∷ rs)
  there : {r : PortRange} {rs : List PortRange} → Covers port rs → Covers port (r ∷ rs)

-- The user's own ranges: without any, or without a user, all ports.
pub data OwnPort (port : ℕ) : Option UserRecord → Type 0 where
  no_user : OwnPort port none
  no_ranges : {u : UserRecord} → u.allowed_ports ≡ [] → OwnPort port (some u)
  covered : {u : UserRecord} → Covers port u.allowed_ports → OwnPort port (some u)

-- Fewer than `most` connections.
abbrev pub IsUnder : ℕ → Count → Type 0
IsUnder most (at n) = n < most
IsUnder most (below n) = Unit {0}

-- A name, which has no address here, or an address outside all private ranges.
abbrev pub IsPublic : Option Bytes → Type 0
IsPublic none = Unit {0}
IsPublic (some ip) = All (λ (range : IpNet). net_contains range ip ≡ false) private_ranges

pub record MayPass (net : IpText) (fw : Firewall) (id : String) (dest_addr : Bytes) (dest_port : ℕ)
    (user : Option UserRecord) : Type 0 where
  pub open_port : All (λ (p : ℕ). p ≢ dest_port) fw.blocked_ports
  pub own_port : OwnPort dest_port user
  pub public_dest : (fw.allow_private_ranges ≡ true) ⊎ IsPublic (net.parse dest_addr)
  pub within_limit :
      (fw.max_connections_per_user ≡ 0) ⊎ IsUnder fw.max_connections_per_user (count_of fw id)

is_blocked_iff :
    (ps : List ℕ) (port : ℕ) → (is_blocked ps port ≡ false) ↔ All (λ (p : ℕ). p ≢ port) ps
unfolding is_blocked
is_blocked_iff [] port = ((λ h. tt), λ h. refl)
is_blocked_iff (p ∷ ps) port = elim (Bool-cases (p == port)) [
  | inl same ↦ ((λ h. absurd (ground (arith, h, same))), λ h. absurd (h.0 ((==_iff p port).0 same)))
  | inr differs ↦ (
    (λ h. (
      (λ e. ground (arith, e, differs)),
      (is_blocked_iff ps port).0 (ground (arith, h, differs)),
    )),
    λ h. ground (arith, differs, (is_blocked_iff ps port).1 h.1),
  )
]

in_port_ranges-Covers :
    (rs : List PortRange) (port : ℕ) → in_port_ranges rs port ≡ true → Covers port rs
unfolding in_port_ranges
in_port_ranges-Covers [] port h = absurd (ground (arith, h))
in_port_ranges-Covers (r ∷ rs) port h =
    elim (Bool-cases (leb r.from_port port && leb port r.to_port)) [
      | inl within ↦ here (ground (arith, within)) (ground (arith, within))
      | inr outside ↦ there (in_port_ranges-Covers rs port (ground (arith, h, outside)))
    ]

Covers-in_port_ranges :
    (rs : List PortRange) (port : ℕ) → Covers port rs → in_port_ranges rs port ≡ true
unfolding in_port_ranges
Covers-in_port_ranges [] port v = elim v [ ]
Covers-in_port_ranges (r ∷ rs) port (here from to) = ground (arith, from, to)
Covers-in_port_ranges (r ∷ rs) port (there later) =
    ground (arith, Covers-in_port_ranges rs port later)

ports_allow-OwnPort :
    (user : Option UserRecord) (port : ℕ) → ports_allow user port ≡ true → OwnPort port user
ports_allow-OwnPort none port h = no_user
ports_allow-OwnPort (some u) port h = go u.allowed_ports refl
  where
    go : (rs : List PortRange) → u.allowed_ports ≡ rs → OwnPort port (some u)
    go [] e = no_ranges e
    go (r ∷ rs) e = covered (in_port_ranges-Covers u.allowed_ports port (ground (arith, h, e)))

OwnPort-ports_allow :
    (user : Option UserRecord) (port : ℕ) → OwnPort port user → ports_allow user port ≡ true
OwnPort-ports_allow none port v = refl
OwnPort-ports_allow (some u) port (no_ranges e) = rw e refl
OwnPort-ports_allow (some u) port (covered c) =
    ground (arith, Covers-in_port_ranges u.allowed_ports port c)

in_ranges_iff :
    (nets : List IpNet) (ip : Bytes)
    → (in_ranges nets ip ≡ false) ↔ All (λ (range : IpNet). net_contains range ip ≡ false) nets
unfolding in_ranges
in_ranges_iff [] ip = ((λ h. tt), λ h. refl)
in_ranges_iff (r ∷ rs) ip = (
  (λ h. (ground (arith, h), (in_ranges_iff rs ip).0 (ground (arith, h)))),
  λ h. ground (arith, h.0, (in_ranges_iff rs ip).1 h.1),
)

in_private_iff :
    (net : IpText) (addr : Bytes) → (in_private net addr ≡ false) ↔ IsPublic (net.parse addr)
in_private_iff net addr = go (net.parse addr)
  where
    go :
        (o : Option Bytes)
        → (elim o [ none ↦ false | some ip ↦ in_ranges private_ranges ip ] ≡ false) ↔ IsPublic o
    go none = ((λ h. tt), λ h. refl)
    go (some ip) = in_ranges_iff private_ranges ip

reaches-IsUnder : (c : Count) (most : ℕ) → reaches c most ≡ false → IsUnder most c
reaches-IsUnder (at k) most h = ground (arith, h)
reaches-IsUnder (below k) most h = tt

IsUnder-reaches : (c : Count) (most : ℕ) → IsUnder most c → reaches c most ≡ false
IsUnder-reaches (at k) most h = ground (arith, h)
IsUnder-reaches (below k) most h = refl

-- CheckConnection answers true exactly if the port is not in the blocked list, lies in one of the
-- user's own ranges or the user has none, the destination is a name or the text of an address
-- outside all private ranges unless those are allowed, and the user's count of connections is
-- below the limit unless there is none.
pub check_connection-MayPass :
    (net : IpText) (fw : Firewall) (id : String) (dest_addr : Bytes) (dest_port : ℕ)
    (user : Option UserRecord)
    → ((check_connection net fw id dest_addr dest_port user).1 ≡ true)
      ↔ MayPass net fw id dest_addr dest_port user
check_connection-MayPass net fw id dest_addr dest_port user =
    let (sound, complete) = check_connection-IsAllowed net fw id dest_addr dest_port user in
    (
      (λ h.
          let v = sound h in
          record {
            open_port = (is_blocked_iff fw.blocked_ports dest_port).0 v.open_port;
            own_port = ports_allow-OwnPort user dest_port v.own_port;
            public_dest = elim v.public_dest [
              | inl allowed ↦ inl allowed
              | inr public ↦ inr ((in_private_iff net dest_addr).0 public)
            ];
            within_limit = elim v.within_limit [
              | inl no_limit ↦ inl no_limit
              | inr below_it ↦
                  inr (reaches-IsUnder (count_of fw id) fw.max_connections_per_user below_it)
            ];
          }),
      λ v. complete (record {
        open_port = (is_blocked_iff fw.blocked_ports dest_port).1 v.open_port;
        own_port = OwnPort-ports_allow user dest_port v.own_port;
        public_dest = elim v.public_dest [
          | inl allowed ↦ inl allowed
          | inr public ↦ inr ((in_private_iff net dest_addr).1 public)
        ];
        within_limit = elim v.within_limit [
          | inl no_limit ↦ inl no_limit
          | inr below_it ↦
              inr (IsUnder-reaches (count_of fw id) fw.max_connections_per_user below_it)
        ];
      }),
    )
