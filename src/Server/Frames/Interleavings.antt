-- ===== src/Server/Frames/Interleavings.antt =====
-- All interleavings of a session of frames in server.go.
use stealthlink.Prelude.{
  All, Bool, Bool-cases, Bytes, List, Option, String, [], ap, arith, both_branches, false,
  get_elem?, inl, inr, is_open, refl, true, ℕ, ◌∙◌, ◌∷◌, ◌≡◌,
}
use stealthlink.Firewall.Connections.Limit.{decrement-increment}
use stealthlink.Server.Frames.Preservation.{
  relay_udp_responses-Sound, relay_end-Sound, relay_data-Sound, run_task-Sound,
  handle_tun_frame-Sound,
}
use stealthlink.Server.Frames.Sockets.{clear-Tidy, registering}
use mathlib.Core.Path.{subst}
use stealthlink.Firewall.Connections.Limit.{count-connect, count-disconnect}
use stealthlink.Server.Frames.Invariant.{Counts, Sound, Permitted}
use stealthlink.Server.Frames.{close_all, FrameSession, close_udp_associations}
use stealthlink.Wire.Writer.{Writer}
use stealthlink.Firewall.Bandwidth.{Trackers}
use stealthlink.Auth.Manager.{UserRecord}
use stealthlink.Firewall.Connections.{on_disconnect, on_connect, Count, count_of, Firewall}
use stealthlink.Wire.Net.{IpText}
use stealthlink.Server.Frames.Steps.{
  handle_tun_frame, begin_session, SessionEvent, session_step, session_run, end_session,
  frame_arrives, task_runs, target_ends, target_sends, host_sends, timer_fires, session_ends,
}

module _ (net : IpText) (fw : Firewall) (user : UserRecord) where
  -- The counts of connections while the session lasts, and after its end.
  abbrev counts_at : Bool → String → Count
  counts_at true id = count_of fw id
  counts_at false id = count_of (on_connect fw user.id) id

  counts_after :
      (now : Firewall) (id : String)
      → count_of now id ≡ count_of (on_connect fw user.id) id
      → count_of (on_disconnect now user.id) id ≡ count_of fw id
  counts_after now id h = ground (
    arith,
    count-disconnect now id user.id,
    count-connect fw id user.id,
    h,
    decrement-increment (count_of fw id),
  )

  end_session-Sound :
      (s : FrameSession)
      → Sound net fw.config user counts_at s
      → Sound net fw.config user counts_at (end_session s user.id)
  unfolding end_session close_udp_associations on_disconnect
  end_session-Sound s (kept, reached, tasks, tidy) = elim (Bool-cases s.finished) [
    | inl over ↦
        rw (end_session, over)
          (
            subst (λ (b : Bool). Counts net fw.config user s.firewall (counts_at b)) over kept,
            reached,
            tasks,
            tidy,
          )
    | inr lasting ↦
        let (same, during) =
          subst (λ (b : Bool). Counts net fw.config user s.firewall (counts_at b)) lasting kept in
        rw (end_session, lasting)
          (
            (same, λ id. counts_after s.firewall id (during id)),
            reached,
            tasks,
            clear-Tidy s.udp_associations s.tasks s.sockets tidy,
          )
  ]

  is_over : (s : FrameSession) → (end_session s user.id).finished ≡ true
  unfolding end_session
  is_over s = elim (Bool-cases s.finished) [
    | inl over ↦ rw (end_session, over) refl
    | inr lasting ↦ rw (end_session, lasting) refl
  ]

  module _ (dials resolves : Bytes → ℕ → Option Bytes) (listens : ℕ → Bool) where
    session_step-Sound :
        (s : FrameSession) (e : SessionEvent) (now : ℕ)
        → Sound net fw.config user counts_at s
        → Sound net fw.config user counts_at (session_step net user dials resolves listens s e now)
    unfolding session_step
    session_step-Sound s (frame_arrives f) now sound =
        both_branches (Sound net fw.config user counts_at) s.finished s
          (handle_tun_frame net user s f now) sound
          (handle_tun_frame-Sound net fw.config user counts_at s f now sound)
    session_step-Sound s (task_runs i) now sound =
        run_task-Sound net fw.config user counts_at dials resolves listens s i now
          (get_elem? s.tasks i) refl sound
    session_step-Sound s (target_sends conn bytes) now sound =
        relay_data-Sound net fw.config user counts_at s conn bytes sound
    session_step-Sound s (target_ends conn) now sound =
        relay_end-Sound net fw.config user counts_at s conn sound
    session_step-Sound s (host_sends socket ip port bytes) now sound =
        relay_udp_responses-Sound net fw.config user counts_at s socket ip port bytes now sound
    session_step-Sound s timer_fires now sound = sound
    session_step-Sound s session_ends now sound = end_session-Sound s sound

    pub session_run-Sound :
        (s : FrameSession) (es : List (SessionEvent × ℕ))
        → Sound net fw.config user counts_at s
        → Sound net fw.config user counts_at (session_run net user dials resolves listens s es)
    unfolding session_run
    session_run-Sound s [] sound = sound
    session_run-Sound s ((e, now) ∷ es) sound =
        session_run-Sound (session_step net user dials resolves listens s e now) es
          (session_step-Sound s e now sound)

    module _ (trackers : Trackers) (writer : Writer) (es : List (SessionEvent × ℕ)) where
      begin-Sound : Sound net fw.config user counts_at (begin_session fw trackers writer user.id)
      unfolding begin_session on_connect
      begin-Sound = ((refl, λ id. refl), tt, tt, λ n h. cc)

      abbrev after : FrameSession
      after =
          session_run net user dials resolves listens (begin_session fw trackers writer user.id) es

      after-Sound : Sound net fw.config user counts_at after
      after-Sound = session_run-Sound (begin_session fw trackers writer user.id) es begin-Sound

      -- What was asked for was permitted.
      pub Permitted-session_run :
          All
            (Permitted net fw.config user)
            (session_run net user dials resolves listens
              (begin_session fw trackers writer user.id)
              es).reached
      Permitted-session_run = let (_, reached, _, _) = after-Sound in reached

      -- However they interleave, once the session has ended every user's count of connections
      -- reads as before it began.
      pub count_of-session_run :
          (id : String)
          → (session_run net user dials resolves listens
              (begin_session fw trackers writer user.id)
              es).finished
            ≡ true
          → count_of
              (session_run net user dials resolves listens
                (begin_session fw trackers writer user.id)
                es).firewall
              id
            ≡ count_of fw id
      count_of-session_run id h =
          let ((_, counted), _, _, _) = after-Sound in
          counted id ∙ ap (λ (b : Bool). counts_at b id) h

      -- The end of a session gives every count back.
      pub count_of-end_session :
          (id : String)
          → count_of
              (end_session
                (session_run net user dials resolves listens
                  (begin_session fw trackers writer user.id)
                  es)
                user.id).firewall
              id
            ≡ count_of fw id
      unfolding end_session
      count_of-end_session id =
          let ((_, counted), _, _, _) = end_session-Sound after after-Sound in
          counted id ∙ ap (λ (b : Bool). counts_at b id) (is_over after)

      -- However they interleave, if no task is registering a socket when the session ends, then
      -- no socket is open after it.
      pub sockets-end_session :
          (n : ℕ)
          → (session_run net user dials resolves listens
              (begin_session fw trackers writer user.id)
              es).finished
            ≡ false
          → registering n
              (session_run net user dials resolves listens
                (begin_session fw trackers writer user.id)
                es).tasks
            ≡ false
          → is_open n
              (end_session
                (session_run net user dials resolves listens
                  (begin_session fw trackers writer user.id)
                  es)
                user.id).sockets
            ≡ false
      unfolding end_session close_udp_associations
      sockets-end_session n lasting none_registering =
          let (_, _, _, tidy) = after-Sound in
          elim (Bool-cases (is_open n (close_all after.udp_associations after.sockets))) [
            | inl left ↦
                absurd
                  (elim (clear-Tidy after.udp_associations after.tasks after.sockets tidy n left) [
                    | inl (id, held) ↦ cc
                    | inr soon ↦ cc
                  ])
            | inr closed ↦ rw (end_session, lasting) closed
          ]
