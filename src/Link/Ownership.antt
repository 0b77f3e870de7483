-- ===== src/Link/Ownership.antt =====
-- Which open connections the client of client.go still holds.
use stealthlink.Link.{QuicOutcome, dial_fails, authentication_fails, accepted}
use stealthlink.Link.{
  ready, unavailable, quic, by_tls, by_stream, tls, tls_persistent, ensures, drops, resets,
}
use stealthlink.Prelude.{
  ==_iff, Bool-cases, List, Option, String, [], ap, arith, both_branches, false, inl, inr, is_open,
  is_open-without, none, refl, some, str_eq, true, without, ℕ, ◌==◌, ◌∷◌, ◌≡◌, ◌⊎◌,
}
use stealthlink.Link.Held.{
  is_open-right, is_open-append, no_closer_left, left_by, is_open-left, is_open-closing,
  left_behind, IsOwned,
}
use stealthlink.Dialing.{is_none}
use stealthlink.Subscription.Transports.{ServerEntry}
use stealthlink.Link.{
  tls_persistent, by_stream, tls, follow, connect_tls, unavailable, by_tls, link_act,
  connect_session, LinkAct, tls_plan, Plan, plan_channel, link_acts, ensure_persistent_channel,
  drop_persistent_channel, connect_quic, take_stream, connect_tls_persistent, has_channel,
  reset_transport_state, Link,
}

module _ (lost : List ℕ) where
  -- A reset closes everything that is held.
  only_lost :
      (l : Link) (n : ℕ)
      → IsOwned lost l
      → is_open n (reset_transport_state l).open_conns ≡ true
      → is_open n lost ≡ true
  unfolding reset_transport_state
  only_lost l n v h =
      let (a, no_transport) = is_open-closing n l.quic_transport _ h in
      let (b, no_quic) = is_open-closing n l.quic_conn _ a in
      let (c, no_closer) = is_open-closing n l.transport_closer _ b in
      elim (v.held n c) [
        | inl (inl e) ↦ absurd (no_closer e)
        | inl (inr (inl e)) ↦ absurd (no_quic e)
        | inl (inr (inr e)) ↦ absurd (no_transport e)
        | inr gone ↦ gone
      ]

  -- A new connection that becomes the closer, over one that had no closer.
  replaced :
      (l : Link) (k n : ℕ)
      → IsOwned lost l
      → l.transport_closer ≡ none
      → is_open n (k ∷ l.open_conns) ≡ true
      → ((some k ≡ some n) ⊎ ((l.quic_conn ≡ some n) ⊎ (l.quic_transport ≡ some n)))
        ⊎ (is_open n lost ≡ true)
  replaced l k n v free h = elim (Bool-cases (k == n)) [
    | inl same ↦ inl (inl (ap some ((==_iff k n).0 same)))
    | inr differs ↦ elim (v.held n (ground (arith, h, differs))) [
      | inl (inl e) ↦ absurd (ground (arith, free, e))
      | inl (inr e) ↦ inl (inr e)
      | inr gone ↦ inr gone
    ]
  ]

  reset-IsOwned : (l : Link) → IsOwned lost l → IsOwned lost (reset_transport_state l)
  unfolding reset_transport_state
  reset-IsOwned l v = record { held = λ n h. inr (only_lost l n v h); no_closer = inr refl }

  drop-IsOwned : (l : Link) → IsOwned lost l → IsOwned lost (drop_persistent_channel l)
  unfolding drop_persistent_channel
  drop-IsOwned l v = record {
    held = λ n h.
        let (still, no_closer) = is_open-closing n l.transport_closer l.open_conns h in
        elim (v.held n still) [
          | inl (inl e) ↦ absurd (no_closer e)
          | inl (inr e) ↦ inl (inr e)
          | inr gone ↦ inr gone
        ];
    no_closer = inr refl;
  }

  tls_persistent-IsOwned :
      (l : Link) (server : ServerEntry) (psk : String) (k : ℕ)
      → IsOwned lost l
      → l.transport_closer ≡ none
      → IsOwned lost (connect_tls_persistent l server psk k)
  unfolding connect_tls_persistent
  tls_persistent-IsOwned l server psk k v free = record {
    held = λ n h. replaced l k n v free h;
    no_closer = inl refl;
  }

  stream-IsOwned : (l : Link) (k : ℕ) → IsOwned lost l → IsOwned lost (take_stream l k)
  unfolding take_stream
  stream-IsOwned l k v = elim (Bool-cases (has_channel l)) [
    | inl channel ↦ rw (take_stream, channel) v
    | inr none_there ↦
        rw (take_stream, none_there)
          (record {
            held = λ n h. replaced l k n v (no_closer_left lost l v none_there) h;
            no_closer = inl refl;
          })
  ]

-- TLS is only planned for where there is no closer.
abbrev Fits : Link → Plan → Type 0
Fits l (by_tls server psk) = l.transport_closer ≡ none
Fits l _ = Unit {0}

tls_plan-Fits :
    (l : Link) (server : Option ServerEntry) (psk : String)
    → l.transport_closer ≡ none
    → Fits l (tls_plan server psk)
tls_plan-Fits l none psk free = tt
tls_plan-Fits l (some server) psk free =
    both_branches (Fits l) (str_eq psk "") unavailable (by_tls server psk) tt free

module _ (lost : List ℕ) where
  plan_channel-Fits : (l : Link) → IsOwned lost l → Fits l (plan_channel l)
  unfolding plan_channel
  plan_channel-Fits l v = elim (Bool-cases (has_channel l)) [
    | inl channel ↦ rw (plan_channel, channel) tt
    | inr none_there ↦
        rw (plan_channel, none_there)
          (both_branches (Fits l) (is_none l.quic_conn) (tls_plan l.active_server l.active_psk)
            by_stream
            (tls_plan-Fits l l.active_server l.active_psk (no_closer_left lost l v none_there)) tt)
  ]

  follow-IsOwned :
      (l : Link) (k : ℕ) (p : Plan) → IsOwned lost l → Fits l p → IsOwned lost (follow l k p)
  follow-IsOwned l k ready v h = v
  follow-IsOwned l k unavailable v h = v
  follow-IsOwned l k (by_tls server psk) v h = tls_persistent-IsOwned lost l server psk k v h
  follow-IsOwned l k by_stream v h = stream-IsOwned lost l k v

  ensure-IsOwned :
      (l : Link) (made : Option ℕ)
      → IsOwned lost l
      → IsOwned lost (ensure_persistent_channel l made)
  unfolding ensure_persistent_channel
  ensure-IsOwned l none v = v
  ensure-IsOwned l (some k) v = follow-IsOwned l k (plan_channel l) v (plan_channel-Fits l v)

  quic-IsOwned :
      (l : Link) (server : ServerEntry) (psk : String) (udp_conn transport k : ℕ)
      (outcome : QuicOutcome)
      → IsOwned lost l
      → ((n : ℕ)
          → is_open n (left_by (quic server psk udp_conn transport k outcome)) ≡ true
          → is_open n lost ≡ true)
      → IsOwned lost
          (connect_quic (reset_transport_state l) server psk udp_conn transport k outcome)
  unfolding connect_quic reset_transport_state
  quic-IsOwned l server psk udp_conn transport k dial_fails v gone = reset-IsOwned lost l v
  quic-IsOwned l server psk udp_conn transport k authentication_fails v gone = record {
    held = λ n h.
        let conns = transport ∷ udp_conn ∷ (reset_transport_state l).open_conns in
        let (still, _) = is_open-closing n (some k) (k ∷ conns) h in
        inr
          (elim (is_open-append n (k ∷ transport ∷ udp_conn ∷ [])
            (reset_transport_state l).open_conns still) [
              | inl new ↦ gone n (ground (arith, new, h, is_open-without n k (k ∷ conns)))
              | inr old ↦ only_lost lost l n v old
            ]);
    no_closer = inr refl;
  }
  quic-IsOwned l server psk udp_conn transport k accepted v gone = record {
    held = λ n h. elim (Bool-cases (k == n)) [
      | inl same ↦ inl (inr (inl (ap some ((==_iff k n).0 same))))
      | inr differs ↦ elim (Bool-cases (transport == n)) [
        | inl same ↦ inl (inr (inr (ap some ((==_iff transport n).0 same))))
        | inr other ↦ elim (Bool-cases (udp_conn == n)) [
          | inl same ↦ inr (gone n (ground (arith, same)))
          | inr old ↦ inr (only_lost lost l n v (ground (arith, h, differs, other, old)))
        ]
      ]
    ];
    no_closer = inr refl;
  }

  act-IsOwned :
      (l : Link) (a : LinkAct)
      → IsOwned lost l
      → ((n : ℕ) → is_open n (left_by a) ≡ true → is_open n lost ≡ true)
      → IsOwned lost (link_act l a)
  unfolding link_act connect_tls reset_transport_state
  act-IsOwned l (tls server psk) v gone =
      let v' = reset-IsOwned lost l v in record { held = v'.held; no_closer = inr refl }
  act-IsOwned l (tls_persistent server psk n) v gone =
      tls_persistent-IsOwned lost (reset_transport_state l) server psk n (reset-IsOwned lost l v)
        refl
  act-IsOwned l (quic server psk udp_conn transport n outcome) v gone =
      quic-IsOwned l server psk udp_conn transport n outcome v gone
  act-IsOwned l (ensures made) v gone = ensure-IsOwned l made v
  act-IsOwned l drops v gone = drop-IsOwned lost l v
  act-IsOwned l resets v gone = reset-IsOwned lost l v

  acts-IsOwned :
      (l : Link) (acts : List LinkAct)
      → IsOwned lost l
      → ((n : ℕ) → is_open n (left_behind acts) ≡ true → is_open n lost ≡ true)
      → IsOwned lost (link_acts l acts)
  unfolding link_acts left_behind
  acts-IsOwned l [] v gone = v
  acts-IsOwned l (a ∷ acts) v gone =
      acts-IsOwned (link_act l a) acts
        (act-IsOwned l a v (λ n h. gone n (is_open-left n (left_by a) (left_behind acts) h)))
        (λ n h. gone n (is_open-right n (left_by a) (left_behind acts) h))

-- Over TLS and QUIC the client loses no connection but the UDP sockets of QUIC dials that did not
-- fail, and the transports of those whose authentication failed: after any connects, channels,
-- losses of the channel and resets, one after the other, a reset, as of Stop, leaves no other open
-- that the client has opened.
pub reset-closes_all :
    (l : Link) (acts : List LinkAct) (n : ℕ)
    → IsOwned [] l
    → is_open n (left_behind acts) ≡ false
    → is_open n (reset_transport_state (link_acts l acts)).open_conns ≡ false
reset-closes_all l acts n v kept =
    let start : IsOwned (left_behind acts) l = record {
      held = λ m h. elim (v.held m h) [
        | inl holds ↦ inl holds
        | inr gone ↦ absurd (ground (arith, gone))
      ];
      no_closer = v.no_closer;
    } in
    let after = acts-IsOwned (left_behind acts) l acts start (λ m h. h) in
    elim (Bool-cases (is_open n (reset_transport_state (link_acts l acts)).open_conns)) [
      | inl left ↦
          absurd
            (ground (arith, kept, only_lost (left_behind acts) (link_acts l acts) n after left))
      | inr closed ↦ closed
    ]

-- A session of WebRTC or of QUIC with a fingerprint is lost when a persistent channel is made
-- over it, for IP frames or for a UDP association: the channel's connection takes its place, and
-- no reset closes the session.
pub connect_session-is_lost :
    (l : Link) (server : ServerEntry) (psk : String) (n m : ℕ)
    → (m == n) ≡ false
    → str_eq psk "" ≡ false
    → let lost =
        ensure_persistent_channel
          (connect_session (reset_transport_state l) server psk n)
          (some m) in
      (lost.transport_closer ≡ some m) × (is_open n (reset_transport_state lost).open_conns ≡ true)
unfolding ensure_persistent_channel connect_session reset_transport_state plan_channel
    connect_tls_persistent
connect_session-is_lost l server psk n m differs some_psk =
    let before = (reset_transport_state l).open_conns in
    let e : is_open n (without m (m ∷ n ∷ before)) ≡ true =
      ground (arith, is_open-without n m (m ∷ n ∷ before), differs) in
    rw some_psk (refl, e)
