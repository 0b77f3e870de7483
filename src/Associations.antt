-- ===== src/Associations.antt =====
-- The UDP associations of a client, of protocol/core/transport/udp_assoc.go: the handlers by
-- number, and the loop that hands out the frames of the persistent channel. A Go channel is the
-- list of what waits in it; closing it is leaving the table. EnsurePersistentChannel and the
-- writes of close notices are not modelled.
pub mod Delivery
use stealthlink.Prelude.{
  Bool, List, Option, Result, [], bytes_eq, delete, err, if◌then◌else◌, insert, length, lookup, ltb,
  nat_eq, none, not, ok, some, string_eq, true, ℕ, ◌%◌, ◌++◌, ◌+◌, ◌==◌, ◌∷◌,
}
use stealthlink.Wire.Net.{IpText}
use stealthlink.Wire.Frames.{
  Frame, UdpPayload, FrameError, frame_udp, frame_udp_close, decode_udp_frame,
  decode_udp_close_frame,
}

-- `inbox` is frameInbox, `none` when it is nil.
pub record Client : Type 0 where
  pub next_udp_assoc_id : ℕ
  pub udp_handlers : List (ℕ × List UdpPayload)
  pub frame_loop_active : Bool
  pub inbox : Option (List Frame)

abbrev pub handler_capacity : ℕ
handler_capacity = 64

abbrev pub inbox_capacity : ℕ
inbox_capacity = 128

-- nextUDPAssocID++ on a uint16, twice if the first gives 0.
unfoldable pub next_id : ℕ → ℕ
next_id id = let n = (id + 1) % 65536 in if n == 0 then (n + 1) % 65536 else n

-- OpenUDPAssociation, behind EnsurePersistentChannel. The flag tells whether the loop is to be
-- started.
unfoldable pub open_udp_association : Client → Client × ℕ × Bool
unfolding next_id
open_udp_association c =
    let id = next_id c.next_udp_assoc_id in
    (
      record c {
        next_udp_assoc_id = id;
        udp_handlers = insert id [] c.udp_handlers;
        frame_loop_active = true;
      },
      id,
      not c.frame_loop_active,
    )

unfoldable pub unregister_udp_association : Client → ℕ → Client
unregister_udp_association c id = record c { udp_handlers = delete id c.udp_handlers }

-- A send that does not wait: what finds no room is dropped.
abbrev pub offer {ℓ} : {A : Type ℓ} → ℕ → List A → A → List A
offer capacity waiting x = if ltb (length waiting) capacity then waiting ++ (x ∷ []) else waiting

unfoldable pub dispatch_udp_frame : Client → UdpPayload → Client
dispatch_udp_frame c payload = elim (lookup payload.assoc_id c.udp_handlers) [
  | none ↦ c
  | some waiting ↦ record c {
    udp_handlers = insert payload.assoc_id (offer handler_capacity waiting payload) c.udp_handlers;
  }
]

unfoldable pub enqueue_frame : Client → Frame → Client
enqueue_frame c f = elim c.inbox [
  | none ↦ c
  | some waiting ↦ record c { inbox = some (offer inbox_capacity waiting f) }
]

abbrev pub udp_result : Client → Result FrameError UdpPayload → Client
udp_result c (ok payload) = dispatch_udp_frame c payload
udp_result c (err e) = c

abbrev pub close_result : Client → Result FrameError ℕ → Client
close_result c (ok id) = unregister_udp_association c id
close_result c (err e) = c

module _ (net : IpText) where
  -- One round of runFrameLoop on a frame that was read.
  unfoldable pub handle_frame : Client → Frame → Client
  unfolding enqueue_frame
  handle_frame c f =
      if f.frame_type == frame_udp
      then udp_result c (decode_udp_frame net f.payload)
      else if f.frame_type == frame_udp_close
      then close_result c (decode_udp_close_frame f.payload)
      else enqueue_frame c f

  unfoldable pub run_frame_loop : Client → List Frame → Client
  unfolding handle_frame
  run_frame_loop c [] = c
  run_frame_loop c (f ∷ fs) = run_frame_loop (handle_frame c f) fs
