-- ===== src/Server/Frames/Invariant.antt =====
-- What holds at every moment of a session of frames in server.go.
use stealthlink.Prelude.{
  All, All-append, Bool, Bool-cases, Bytes, Option, Option-cases, Result, String, [], bytes_eq, err,
  false, inl, inr, lookup, nat_eq, none, ok, some, string_eq, true, ℕ, ◌∙◌, ◌∷◌, ◌≡◌, ◌⊎◌,
}
use stealthlink.Wire.Frames.{ConnectRequest, FrameError, UdpPayload}
use mathlib.Core.Path.{subst}
use stealthlink.Server.Frames.Sockets.{
  register_old-Tidy, register_new-Tidy, listen-Tidy, TidyBut, Tidy,
}
use stealthlink.Firewall.Connections.Limit.{count-check, check_connection-IsAllowed}
use stealthlink.Auth.Manager.{UserRecord}
use stealthlink.Firewall.Connections.{
  in_private, check_connection, count_of, ports_allow, Count, Firewall, is_blocked, FirewallConfig,
}
use stealthlink.Wire.Net.{IpText}
use stealthlink.Server.Frames.{
  acknowledge, track, get_association, register, udp_request, send_datagram, connect_request,
  listen, dial_request, FrameSession, Task, connect_task, udp_task, register_task,
}

module _ (net : IpText) (cfg : FirewallConfig) (user : UserRecord) where
  -- What the firewall checks of a destination, but for the number of connections.
  abbrev pub MayReach : Bytes → ℕ → Type 0
  MayReach addr port =
      (is_blocked cfg.blocked_ports port ≡ false)
      × (ports_allow (some user) port ≡ true)
      × ((cfg.allow_private_ranges ≡ true) ⊎ (in_private net addr ≡ false))

  abbrev pub Permitted : Bytes × ℕ × Bytes → Type 0
  Permitted (addr, port, ip) = MayReach addr port

  abbrev pub TaskPermitted : Task → Type 0
  TaskPermitted (register_task socket p) = MayReach p.addr p.port
  TaskPermitted (connect_task payload) = Unit {0}
  TaskPermitted (udp_task payload) = Unit {0}

  abbrev pub Counts : Firewall → (String → Count) → Type 0
  Counts fw counts = (fw.config ≡ cfg) × ((id : String) → count_of fw id ≡ counts id)

  -- The firewall is configured as it was and counts as told, before and after the end, all that
  -- was reached was permitted, and the open sockets are accounted for.
  abbrev pub Sound : (Bool → String → Count) → FrameSession → Type 0
  Sound counts s =
      Counts s.firewall (counts s.finished)
      × All Permitted s.reached
      × All TaskPermitted s.tasks
      × Tidy s.udp_associations s.tasks s.sockets

  check_permits :
      (fw : Firewall) (counts : String → Count) (addr : Bytes) (port : ℕ)
      → Counts fw counts
      → (check_connection net fw user.id addr port (some user)).1 ≡ true
      → MayReach addr port
  check_permits fw counts addr port (same, _) h =
      let v = (check_connection-IsAllowed net fw user.id addr port (some user)).0 h in
      subst
        (λ (c : FirewallConfig).
          (is_blocked c.blocked_ports port ≡ false)
          × (ports_allow (some user) port ≡ true)
          × ((c.allow_private_ranges ≡ true) ⊎ (in_private net addr ≡ false)))
        same (v.open_port, v.own_port, v.public_dest)

  check-Counts :
      (fw : Firewall) (counts : String → Count) (addr : Bytes) (port : ℕ)
      → Counts fw counts
      → Counts (check_connection net fw user.id addr port (some user)).0 counts
  check-Counts fw counts addr port (same, counted) = (
    (count-check net fw user.id addr port (some user) user.id).0 ∙ same,
    λ id. (count-check net fw user.id addr port (some user) id).1 ∙ counted id,
  )

  module _ (dials resolves : Bytes → ℕ → Option Bytes) (listens : ℕ → Bool)
      (counts : Bool → String → Count) where
    dial_request-Sound :
        (s : FrameSession) (r : ConnectRequest)
        → Sound counts s
        → MayReach r.addr r.port
        → Sound counts (dial_request net dials resolves listens user s r)
    unfolding dial_request acknowledge
    dial_request-Sound s r (fw, reached, tasks, tidy) permitted =
        elim (Option-cases (dials r.addr r.port)) [
          | inl failed ↦ rw (dial_request, failed) (fw, reached, tasks, tidy)
          | inr (ip, dialled) ↦ rw (dial_request, dialled) (fw, (permitted, reached), tasks, tidy)
        ]

    pub connect_request-Sound :
        (s : FrameSession) (r : Option ConnectRequest)
        → Sound counts s
        → Sound counts (connect_request net dials resolves listens user s r)
    unfolding connect_request acknowledge
    connect_request-Sound s none sound = sound
    connect_request-Sound s (some r) (fw, reached, tasks, tidy) =
        let kept = check-Counts s.firewall (counts s.finished) r.addr r.port fw in
        let answer = check_connection net s.firewall user.id r.addr r.port (some user) in
        elim (Bool-cases answer.1) [
          | inl allowed ↦
              rw (connect_request, allowed)
                (dial_request-Sound (record s { firewall = answer.0 }) r
                  (kept, reached, tasks, tidy)
                  (check_permits s.firewall (counts s.finished) r.addr r.port fw allowed))
          | inr refused ↦ rw (connect_request, refused) (kept, reached, tasks, tidy)
        ]

    send_datagram-Sound :
        (s : FrameSession) (p : UdpPayload) (now : ℕ)
        → Sound counts s
        → MayReach p.addr p.port
        → Sound counts (send_datagram net dials resolves listens user s p now)
    unfolding send_datagram track
    send_datagram-Sound s p now (fw, reached, tasks, tidy) permitted =
        elim (Option-cases (resolves p.addr p.port)) [
          | inl failed ↦ rw (send_datagram, failed) (fw, reached, tasks, tidy)
          | inr (ip, resolved) ↦
              rw (send_datagram, resolved) (fw, (permitted, reached), tasks, tidy)
        ]

    listen-Sound :
        (s : FrameSession) (p : UdpPayload)
        → Sound counts s
        → MayReach p.addr p.port
        → Sound counts (listen net dials resolves listens user s p)
    unfolding listen
    listen-Sound s p (fw, reached, tasks, tidy) permitted =
        elim (Bool-cases (listens s.next_socket)) [
          | inl listening ↦
              rw (listen, listening)
                (
                  fw,
                  reached,
                  All-append TaskPermitted s.tasks (register_task s.next_socket p ∷ []) tasks
                      (permitted, tt),
                  listen-Tidy s.udp_associations s.tasks s.sockets tidy s.next_socket p,
                )
          | inr failed ↦ rw (listen, failed) (fw, reached, tasks, tidy)
        ]

    pub udp_request-Sound :
        (s : FrameSession) (r : Result FrameError UdpPayload) (now : ℕ)
        → Sound counts s
        → Sound counts (udp_request net dials resolves listens user s r now)
    unfolding udp_request get_association
    udp_request-Sound s (err e) now sound = sound
    udp_request-Sound s (ok p) now (fw, reached, tasks, tidy) =
        let kept = check-Counts s.firewall (counts s.finished) p.addr p.port fw in
        let answer = check_connection net s.firewall user.id p.addr p.port (some user) in
        let checked = record s { firewall = answer.0 } in
        elim (Bool-cases answer.1) [
          | inl allowed ↦
              let permitted =
                check_permits s.firewall (counts s.finished) p.addr p.port fw allowed in
              elim (Option-cases (lookup p.assoc_id s.udp_associations)) [
                | inl free ↦
                    rw (udp_request, allowed, get_association, free)
                      (listen-Sound checked p (kept, reached, tasks, tidy) permitted)
                | inr (socket, held) ↦
                    rw (udp_request, allowed, get_association, held)
                      (send_datagram-Sound checked p now (kept, reached, tasks, tidy) permitted)
              ]
          | inr refused ↦ rw (udp_request, refused) (kept, reached, tasks, tidy)
        ]

    pub register-Sound :
        (s : FrameSession) (socket : ℕ) (p : UdpPayload) (now : ℕ)
        → Counts s.firewall (counts s.finished)
        → All Permitted s.reached
        → All TaskPermitted s.tasks
        → TidyBut socket s.udp_associations s.tasks s.sockets
        → MayReach p.addr p.port
        → Sound counts (register net dials resolves listens user s socket p now)
    unfolding register
    register-Sound s socket p now fw reached tasks tidy permitted =
        elim (Option-cases (lookup p.assoc_id s.udp_associations)) [
          | inl free ↦
              rw (register, free)
                (send_datagram-Sound _ p now
                  (
                    fw,
                    reached,
                    tasks,
                    register_new-Tidy s.udp_associations s.tasks s.sockets socket p.assoc_id tidy
                        free,
                  )
                  permitted)
          | inr (existing, held) ↦
              rw (register, held)
                (send_datagram-Sound _ p now
                  (
                    fw,
                    reached,
                    tasks,
                    register_old-Tidy s.udp_associations s.tasks s.sockets socket tidy,
                  )
                  permitted)
        ]
