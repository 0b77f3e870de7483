-- ===== src/Server/Frames/Preservation.antt =====
-- Every step of a session of frames in server.go, but its end, keeps what holds of it.
use stealthlink.Prelude.{
  All, All-append, Bool, Bool-cases, Bytes, List, OnSome, OnSome-apply, Option, Option-cases,
  Result, String, [], bytes_eq, err, get_elem?, inl, inr, is_open, length, lookup, nat_eq, none,
  not, ok, some, string_eq, suc, sym, zero, ℕ, ◌==◌, ◌∙◌, ◌∷◌, ◌≡◌, ◌≢◌,
}
use stealthlink.Wire.Connect.{parse_connect}
use stealthlink.Server.Frames.Sockets.{take_register-Tidy, take_other-Tidy, add-Tidy, close-Tidy}
use stealthlink.Server.Frames.Invariant.{
  register-Sound, udp_request-Sound, connect_request-Sound, TaskPermitted, Sound,
}
use stealthlink.Wire.Frames.{
  decode_udp_frame, UdpPayload, decode_udp_close_frame, frame_udp_close, frame_udp, frame_connect,
  frame_ip, Frame, FrameError,
}
use stealthlink.Auth.Manager.{UserRecord}
use stealthlink.Firewall.Connections.{Count, FirewallConfig}
use stealthlink.Wire.Net.{IpText}
use stealthlink.Wire.Writer.{WriteOutcome, Writer, done, write_failed}
use stealthlink.Server.Frames.{
  handle_frame_udp, handle_frame_connect, Task, track, close_udp_association, FrameSession,
  connect_task, udp_task, register_task,
}
use stealthlink.Server.Frames.Steps.{
  close_named, run_task, add_task, relay_after, relay_udp_response, relay_data, handle_tun_frame,
  relay_end, relay_udp_responses, remove_at,
}

All-remove_at {ℓ κ} :
    {A : Type ℓ} (P : A → Type κ) (i : ℕ) (xs : List A) → All P xs → All P (remove_at i xs)
All-remove_at P i [] h = tt
All-remove_at P zero (x ∷ xs) h = h.1
All-remove_at P (suc i) (x ∷ xs) h = (h.0, All-remove_at P i xs h.1)

All-get_elem? {ℓ κ} :
    {A : Type ℓ} (P : A → Type κ) (i : ℕ) (xs : List A) → All P xs → OnSome P (get_elem? xs i)
All-get_elem? P i [] h = tt
All-get_elem? P zero (x ∷ xs) h = h.0
All-get_elem? P (suc i) (x ∷ xs) h = All-get_elem? P i xs h.1

module _ (net : IpText) (cfg : FirewallConfig) (user : UserRecord)
    (counts : Bool → String → Count) where
  add_task-Sound :
      (s : FrameSession) (t : Task)
      → TaskPermitted net cfg user t
      → Sound net cfg user counts s
      → Sound net cfg user counts (add_task s t)
  add_task-Sound s t permitted (fw, reached, tasks, tidy) = (
    fw,
    reached,
    All-append (TaskPermitted net cfg user) s.tasks (t ∷ []) tasks (permitted, tt),
    add-Tidy s.udp_associations s.tasks s.sockets tidy t,
  )

  close_named-Sound :
      (s : FrameSession) (r : Result FrameError ℕ)
      → Sound net cfg user counts s
      → Sound net cfg user counts (close_named net user s r)
  unfolding close_udp_association
  close_named-Sound s (err e) sound = sound
  close_named-Sound s (ok id) (fw, reached, tasks, tidy) =
      elim (Option-cases (lookup id s.udp_associations)) [
        | inl free ↦ rw (close_udp_association, free) (fw, reached, tasks, tidy)
        | inr (socket, held) ↦
            rw (close_udp_association, held)
              (
                fw,
                reached,
                tasks,
                close-Tidy s.udp_associations s.tasks s.sockets tidy id socket held,
              )
      ]

  pub handle_tun_frame-Sound :
      (s : FrameSession) (f : Frame) (now : ℕ)
      → Sound net cfg user counts s
      → Sound net cfg user counts (handle_tun_frame net user s f now)
  unfolding handle_tun_frame track
  handle_tun_frame-Sound s f now sound = elim (Bool-cases (f.frame_type == frame_ip)) [
    | inl ip ↦ rw ip sound
    | inr not_ip ↦ elim (Bool-cases (f.frame_type == frame_connect)) [
      | inl connect ↦ rw (not_ip, connect) (add_task-Sound s (connect_task f.payload) tt sound)
      | inr not_connect ↦ elim (Bool-cases (f.frame_type == frame_udp)) [
        | inl udp ↦ rw (not_ip, not_connect, udp) (add_task-Sound s (udp_task f.payload) tt sound)
        | inr not_udp ↦ elim (Bool-cases (f.frame_type == frame_udp_close)) [
          | inl closing ↦
              rw (not_ip, not_connect, not_udp, closing)
                (close_named-Sound s (decode_udp_close_frame f.payload) sound)
          | inr other ↦ rw (not_ip, not_connect, not_udp, other) sound
        ]
      ]
    ]
  ]

  pub relay_data-Sound :
      (s : FrameSession) (conn : ℕ) (bytes : Bytes)
      → Sound net cfg user counts s
      → Sound net cfg user counts (relay_data s conn bytes)
  unfolding relay_data
  relay_data-Sound s conn bytes sound = elim (Option-cases (lookup conn s.relays)) [
    | inl gone ↦ rw (relay_data, gone) sound
    | inr (id, running) ↦ elim (Bool-cases (length bytes == 0)) [
      | inl nothing ↦ rw (relay_data, running, nothing) sound
      | inr some_bytes ↦ rw (relay_data, running, some_bytes) sound
    ]
  ]

  pub relay_end-Sound :
      (s : FrameSession) (conn : ℕ)
      → Sound net cfg user counts s
      → Sound net cfg user counts (relay_end s conn)
  unfolding relay_end
  relay_end-Sound s conn sound = elim (Option-cases (lookup conn s.relays)) [
    | inl gone ↦ rw (relay_end, gone) sound
    | inr (id, running) ↦ rw (relay_end, running) sound
  ]

  relay_after-Sound :
      (s : FrameSession) (socket : ℕ) (r : Writer × WriteOutcome)
      → Sound net cfg user counts s
      → Sound net cfg user counts (relay_after s socket r)
  relay_after-Sound s socket (w, done) sound = sound
  relay_after-Sound s socket (w, write_failed) sound = sound

  pub relay_udp_responses-Sound :
      (s : FrameSession) (socket : ℕ) (ip : Bytes) (port : ℕ) (bytes : Bytes) (now : ℕ)
      → Sound net cfg user counts s
      → Sound net cfg user counts (relay_udp_responses net user s socket ip port bytes now)
  unfolding relay_udp_responses relay_udp_response track
  relay_udp_responses-Sound s socket ip port bytes now sound =
      elim (Option-cases (lookup socket s.udp_relays)) [
        | inl gone ↦ rw (relay_udp_responses, gone) sound
        | inr (id, running) ↦ elim (Bool-cases (not (is_open socket s.sockets))) [
          | inl closed ↦ rw (relay_udp_responses, running, relay_udp_response, closed) sound
          | inr open_socket ↦ elim (Bool-cases (length bytes == 0)) [
            | inl nothing ↦
                rw (relay_udp_responses, running, relay_udp_response, open_socket, nothing) sound
            | inr some_bytes ↦
                rw (relay_udp_responses, running, relay_udp_response, open_socket, some_bytes)
                  (relay_after-Sound (track s user.id (length bytes) now) socket _ sound)
          ]
        ]
      ]

  module _ (dials resolves : Bytes → ℕ → Option Bytes) (listens : ℕ → Bool) where
    pub run_task-Sound :
        (s : FrameSession) (i now : ℕ) (o : Option Task)
        → get_elem? s.tasks i ≡ o
        → Sound net cfg user counts s
        → Sound net cfg user counts (
            run_task net user dials resolves listens
              (record s { tasks = remove_at i s.tasks })
              o
              now)
    unfolding run_task handle_frame_connect handle_frame_udp
    run_task-Sound s i now o e (fw, reached, tasks, tidy) = go o e
      where
        fewer : All (TaskPermitted net cfg user) (remove_at i s.tasks)
        fewer = All-remove_at (TaskPermitted net cfg user) i s.tasks tasks

        other :
            (o : Option Task)
            → get_elem? s.tasks i ≡ o
            → ((n : ℕ) (p : UdpPayload) → o ≢ some (register_task n p))
            → Sound net cfg user counts (record s { tasks = remove_at i s.tasks })
        other o e differs = (
          fw,
          reached,
          fewer,
          take_other-Tidy s.udp_associations s.tasks s.sockets i tidy
              (λ n p taken. differs n p (sym e ∙ taken)),
        )

        go :
            (o : Option Task)
            → get_elem? s.tasks i ≡ o
            → Sound net cfg user counts (
                run_task net user dials resolves listens
                  (record s { tasks = remove_at i s.tasks })
                  o
                  now)
        go none e = other none e (λ n p h. cc)
        go (some (connect_task payload)) e =
            connect_request-Sound net cfg user dials resolves listens counts _
              (parse_connect net payload) (other _ e (λ n p h. cc))
        go (some (udp_task payload)) e =
            udp_request-Sound net cfg user dials resolves listens counts _
              (decode_udp_frame net payload) now (other _ e (λ n p h. cc))
        go (some (register_task socket p)) e =
            register-Sound net cfg user dials resolves listens counts
              (record s { tasks = remove_at i s.tasks }) socket p now fw reached fewer
              (take_register-Tidy s.udp_associations s.tasks s.sockets i socket p tidy e)
              (OnSome-apply (TaskPermitted net cfg user) (get_elem? s.tasks i)
                (register_task socket p)
                (All-get_elem? (TaskPermitted net cfg user) i s.tasks tasks) e)
