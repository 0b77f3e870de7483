-- ===== src/Associations/Delivery.antt =====
-- What the handler of an association gets.
use mathlib.Core.Path.{subst}
use stealthlink.Prelude.{
  ==_iff, All, Bool, Bool-cases, List, Option-cases, Result, [], ap, append-nil, append_assoc,
  arith, bytes_eq, err, false, if◌then◌else◌, inl, inr, length, length-take, lookup, lookup-delete,
  lookup-insert, lookup-insert_ne, lookup-insert_self, ltb, nat_eq, ok, refl, some, string_eq, suc,
  sym, take, take_all, true, zero, ℕ, ◌++◌, ◌<◌, ◌==◌, ◌∙◌, ◌∷◌, ◌≡◌, ◌≤◌,
}
use stealthlink.Associations.{
  next_id, close_result, run_frame_loop, open_udp_association, udp_result, handler_capacity, Client,
  handle_frame, unregister_udp_association, offer, dispatch_udp_frame, enqueue_frame,
}
use stealthlink.Wire.Net.{IpText}
use stealthlink.Wire.Frames.{
  FrameError, Frame, UdpPayload, frame_udp, frame_udp_close, decode_udp_frame,
  decode_udp_close_frame,
}

module _ {ℓ} {A : Type ℓ} where
  take-take_append : (n : ℕ) (xs ys : List A) → take n (take n xs ++ ys) ≡ take n (xs ++ ys)
  take-take_append zero xs ys = refl
  take-take_append (suc n) [] ys = refl
  take-take_append (suc n) (x ∷ xs) ys = ap (◌∷◌ x) (take-take_append n xs ys)

  take-nil : (n : ℕ) → take {A = A} n [] ≡ []
  take-nil zero = refl
  take-nil (suc n) = refl

  offer-take :
      (n : ℕ) (waiting : List A) (x : A)
      → length waiting ≤ n
      → offer n waiting x ≡ take n (waiting ++ (x ∷ []))
  offer-take zero [] x h = refl
  offer-take (suc n) [] x h =
      let room : ltb 0 (suc n) ≡ true = ground arith in rw (room, take-nil n)
  offer-take zero (y ∷ ys) x h = absurd (omega arith)
  offer-take (suc n) (y ∷ ys) x h =
      let same : ltb (suc (length ys)) (suc n) ≡ ltb (length ys) n = ground arith in
      ground (arith, same, offer-take n ys x (omega arith))

abbrev if_for : ℕ → UdpPayload → List UdpPayload
if_for id p = if p.assoc_id == id then p ∷ [] else []

abbrev payload_for {ℓ} : {E : Type ℓ} → ℕ → Result E UdpPayload → List UdpPayload
payload_for id (ok p) = if_for id p
payload_for id (err e) = []

abbrev is_ok_of {ℓ} : {E : Type ℓ} → ℕ → Result E ℕ → Bool
is_ok_of id (ok j) = j == id
is_ok_of id (err e) = false

module _ (net : IpText) where
  -- The payloads of some frames that are for the association `id`.
  unfoldable pub arrived : ℕ → Frame → List UdpPayload
  arrived id f =
      if f.frame_type == frame_udp then payload_for id (decode_udp_frame net f.payload) else []

  unfoldable pub all_arrived : ℕ → List Frame → List UdpPayload
  all_arrived id [] = []
  all_arrived id (f ∷ fs) = arrived id f ++ all_arrived id fs

  unfoldable pub is_close_of : ℕ → Frame → Bool
  is_close_of id f =
      if f.frame_type == frame_udp_close
      then is_ok_of id (decode_udp_close_frame f.payload)
      else false

  abbrev Waits : ℕ → List UdpPayload → Client → Type 0
  Waits id q c = lookup id c.udp_handlers ≡ some q

  dispatch_own :
      (c : Client) (q : List UdpPayload) (p : UdpPayload)
      → Waits p.assoc_id q c
      → length q ≤ handler_capacity
      → Waits p.assoc_id (take handler_capacity (q ++ (p ∷ []))) (dispatch_udp_frame c p)
  unfolding dispatch_udp_frame
  dispatch_own c q p h n = ground (
    arith,
    h,
    offer-take handler_capacity q p n,
    lookup-insert_self p.assoc_id (offer handler_capacity q p) c.udp_handlers,
  )

  dispatch_other :
      (c : Client) (id : ℕ) (p : UdpPayload)
      → (p.assoc_id == id) ≡ false
      → lookup id (dispatch_udp_frame c p).udp_handlers ≡ lookup id c.udp_handlers
  unfolding dispatch_udp_frame
  dispatch_other c id p h = elim (Option-cases (lookup p.assoc_id c.udp_handlers)) [
    | inl e ↦ ground (arith, e)
    | inr (q, e) ↦
        ground
          (arith, e, lookup-insert_ne p.assoc_id id (offer handler_capacity q p) c.udp_handlers h)
  ]

  dispatch-Waits :
      (c : Client) (id : ℕ) (q : List UdpPayload) (p : UdpPayload)
      → Waits id q c
      → length q ≤ handler_capacity
      → Waits id (take handler_capacity (q ++ if_for id p)) (dispatch_udp_frame c p)
  dispatch-Waits c id q p h n = elim (Bool-cases (p.assoc_id == id)) [
    | inl same ↦
        let e : p.assoc_id ≡ id = (==_iff _ _).0 same in
        rw same (
          subst
            (λ (j : ℕ).
              Waits j q c
              → Waits j (take handler_capacity (q ++ (p ∷ []))) (dispatch_udp_frame c p))
            e (λ w. dispatch_own c q p w n) h)
    | inr other ↦
        rw (other, append-nil q, take_all handler_capacity q n) (dispatch_other c id p other ∙ h)
  ]

  unregister-Waits :
      (c : Client) (id j : ℕ) (q : List UdpPayload)
      → Waits id q c
      → (j == id) ≡ false
      → Waits id q (unregister_udp_association c j)
  unfolding unregister_udp_association
  unregister-Waits c id j q h e = ground (arith, lookup-delete j id c.udp_handlers, h)

  enqueue_keeps : (c : Client) (f : Frame) → (enqueue_frame c f).udp_handlers ≡ c.udp_handlers
  unfolding enqueue_frame
  enqueue_keeps c f = ground arith

  udp_result-Waits :
      (c : Client) (id : ℕ) (q : List UdpPayload) (r : Result FrameError UdpPayload)
      → Waits id q c
      → length q ≤ handler_capacity
      → Waits id (take handler_capacity (q ++ payload_for id r)) (udp_result c r)
  udp_result-Waits c id q (ok p) h n = dispatch-Waits c id q p h n
  udp_result-Waits c id q (err e) h n = rw (append-nil q, take_all handler_capacity q n) h

  close_result-Waits :
      (c : Client) (id : ℕ) (q : List UdpPayload) (r : Result FrameError ℕ)
      → Waits id q c
      → is_ok_of id r ≡ false
      → Waits id q (close_result c r)
  close_result-Waits c id q (ok j) h e = unregister-Waits c id j q h e
  close_result-Waits c id q (err x) h e = h

  handle_frame-Waits :
      (c : Client) (id : ℕ) (q : List UdpPayload) (f : Frame)
      → Waits id q c
      → length q ≤ handler_capacity
      → is_close_of id f ≡ false
      → Waits id (take handler_capacity (q ++ arrived id f)) (handle_frame net c f)
  unfolding handle_frame arrived is_close_of
  handle_frame-Waits c id q f h n e = elim (Bool-cases (f.frame_type == frame_udp)) [
    | inl udp ↦ rw udp (udp_result-Waits c id q (decode_udp_frame net f.payload) h n)
    | inr not_udp ↦
        let all : take handler_capacity (q ++ []) ≡ q =
          ap (take handler_capacity) (append-nil q) ∙ take_all handler_capacity q n in
        elim (Bool-cases (f.frame_type == frame_udp_close)) [
          | inl closes ↦
              rw (not_udp, closes, all)
                (close_result-Waits c id q (decode_udp_close_frame f.payload) h
                  (ground (arith, e, closes)))
          | inr other ↦ rw (not_udp, other, all) (ap (lookup id) (enqueue_keeps c f) ∙ h)
        ]
  ]

  -- While nothing is received from an association's channel and no frame closes it, its channel
  -- holds, after any frames, what waited in it and then the payloads of the frames that are for
  -- it, in order and up to the 64 that it has room for, whatever frames are for others.
  pub run_frame_loop-Waits :
      (c : Client) (id : ℕ) (q : List UdpPayload) (fs : List Frame)
      → lookup id c.udp_handlers ≡ some q
      → length q ≤ handler_capacity
      → All (λ f. is_close_of id f ≡ false) fs
      → lookup id (run_frame_loop net c fs).udp_handlers
        ≡ some (take handler_capacity (q ++ all_arrived id fs))
  unfolding run_frame_loop all_arrived
  run_frame_loop-Waits c id q [] h n e =
      h ∙ ap some (sym (ap (take handler_capacity) (append-nil q) ∙ take_all handler_capacity q n))
  run_frame_loop-Waits c id q (f ∷ fs) h n e =
      run_frame_loop-Waits (handle_frame net c f) id (take handler_capacity (q ++ arrived id f)) fs
        (handle_frame-Waits c id q f h n e.0)
        (omega (arith, length-take handler_capacity (q ++ arrived id f))) e.1
      ∙ ap some (
          take-take_append handler_capacity (q ++ arrived id f) (all_arrived id fs)
          ∙ ap (take handler_capacity) (append_assoc q (arrived id f) (all_arrived id fs)))

-- A new association has a number from 1 to 65535 and an empty channel. The other channels are as
-- they were; a channel that stood under the number, as may be once all have been given out, is
-- no longer reached.
pub open_udp_association_lem :
    (c : Client) (other : ℕ)
    → let (opened, id, _) = open_udp_association c in
      (0 < id)
      × (id < 65536)
      × (lookup other opened.udp_handlers
          ≡ (if id == other then some [] else lookup other c.udp_handlers))
unfolding open_udp_association next_id
open_udp_association_lem c other = (
  ground arith,
  ground arith,
  lookup-insert (next_id c.next_udp_assoc_id) other [] c.udp_handlers,
)
