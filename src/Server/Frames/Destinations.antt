-- ===== src/Server/Frames/Destinations.antt =====
-- The addresses that a session of frames in server.go connects and sends to.
use stealthlink.Prelude.{
  All, Bool, Bytes, Option, bytes_eq, false, nat_eq, none, some, string_eq, true, ℕ, ◌≡◌, ◌⊎◌,
}
use stealthlink.Firewall.Ranges.{private_ranges, in_ranges}
use stealthlink.Firewall.Connections.{ports_allow, is_blocked, Firewall, FirewallConfig}
use stealthlink.Auth.Manager.{UserRecord}
use stealthlink.Wire.Net.{IpText}
use stealthlink.Wire.Writer.{Writer}
use stealthlink.Server.Frames.{FrameSession}

module _ (net : IpText) (user : UserRecord) (dials resolves : Bytes → ℕ → Option Bytes)
    (listens : ℕ → Bool) where
  -- The address is what a dial or a resolution of the destination gave.
  abbrev pub Found : Bytes × ℕ × Bytes → Type 0
  Found (addr, port, ip) = (dials addr port ≡ some ip) ⊎ (resolves addr port ≡ some ip)

  abbrev AllFound : FrameSession → Type 0
  AllFound s = All Found s.reached

  -- A destination with an open port, which the user's own ports allow. The IP address is outside
  -- the private ranges, unless those are allowed or the destination is a name.
  abbrev pub IsPermitted : FirewallConfig → Bytes × ℕ × Bytes → Type 0
  IsPermitted cfg (addr, port, ip) =
      (is_blocked cfg.blocked_ports port ≡ false)
      × (ports_allow (some user) port ≡ true)
      × ((cfg.allow_private_ranges ≡ true)
          ⊎ ((net.parse addr ≡ none) ⊎ (in_ranges private_ranges ip ≡ false)))
