-- ===== src/Wire/Reader.antt =====
-- FrameReader and the buffer pool of protocol/core/transport/framing.go. The reader's state holds
-- the bytes that its io.Reader has still to give and the number of pooled buffers that are out.
pub mod Leases
use stealthlink.Prelude.{
  Bool, Bytes, ReadError, Result, [], err, false, get_or, get_u16, if◌then◌else◌, length, ltb, ok,
  read_full, true, ℕ, ◌+◌, ◌-◌, ◌/◌, ◌==◌, ◌||◌, ◌∷◌,
}
use stealthlink.Wire.Frames.{Frame}
use stealthlink.Wire.Writer.{max_frame_size}

pub record Reader : Type 0 where
  pub input : Bytes
  pub out : ℕ

-- `buf` tells whether the packet holds a pooled buffer.
pub record PooledPacket : Type 0 where
  pub content : Bytes
  pub buf : Bool

pub record PooledFrame : Type 0 where
  pub frame_type : ℕ
  pub payload : Bytes
  pub pkt : PooledPacket

pub data FrameReadError : Type 0 where
  io_error : ReadError → FrameReadError
  too_large : ℕ → FrameReadError

abbrev pub Call : Type 0 → Type 0
Call A = Result FrameReadError A × Reader

abbrev pub no_packet : PooledPacket
no_packet = record { content = []; buf = false }

abbrev pub get_buffer : Reader → Reader
get_buffer fr = record fr { out = fr.out + 1 }

abbrev pub put_buffer : Reader → Reader
put_buffer fr = record fr { out = fr.out - 1 }

-- The buffer goes back once: the second call finds none.
unfoldable pub release : PooledPacket → Reader → PooledPacket × Reader
release p fr = if p.buf then (record p { buf = false }, put_buffer fr) else (p, fr)

-- A failed io.ReadFull has used up what was left.
abbrev read_body : ℕ → Reader → Call PooledPacket
read_body len fr = elim (read_full len fr.input) [
  | ok (body, rest) ↦ (ok (record { content = body; buf = true }), record fr { input = rest })
  | err e ↦ (err (io_error e), put_buffer (record fr { input = [] }))
]

unfoldable pub read_sized : ℕ → Reader → Call PooledPacket
read_sized len fr =
    if len == 0
    then (ok no_packet, fr)
    else if ltb max_frame_size len
    then (err (too_large len), fr)
    else read_body len (get_buffer fr)

unfoldable pub read_frame : Reader → Call PooledPacket
unfolding read_sized
read_frame fr = elim (read_full 2 fr.input) [
  | ok (header, rest) ↦ read_sized (get_u16 header) (record fr { input = rest })
  | err e ↦ (err (io_error e), record fr { input = [] })
]

abbrev pub no_frame : PooledFrame
no_frame = record { frame_type = 0; payload = []; pkt = no_packet }

abbrev typed_packet : PooledPacket → Bytes → Reader → Call PooledFrame
typed_packet pkt [] fr = (ok no_frame, (release pkt fr).1)
typed_packet pkt (t ∷ payload) fr =
    (ok (record { frame_type = t; payload = payload; pkt = pkt }), fr)

unfoldable pub read_typed_frame_pooled : Reader → Call PooledFrame
unfolding read_frame release
read_typed_frame_pooled fr = elim (read_frame fr).0 [
  | ok pkt ↦ typed_packet pkt pkt.content (read_frame fr).1
  | err e ↦ (err e, (read_frame fr).1)
]

-- ReadTypedFrame copies the payload and gives the buffer back; of an empty packet it makes the
-- zero frame, as the copy of no payload would.
unfoldable pub read_typed_frame : Reader → Call Frame
unfolding read_typed_frame_pooled
read_typed_frame fr = elim (read_typed_frame_pooled fr).0 [
  | ok pf ↦ (
    ok (record { frame_type = pf.frame_type; payload = pf.payload }),
    (release pf.pkt (read_typed_frame_pooled fr).1).1,
  )
  | err e ↦ (err e, (read_typed_frame_pooled fr).1)
]

-- IsValidIPPacket: at least a header of 20 bytes, of version 4 or 6.
unfoldable pub is_valid_ip_packet : Bytes → Bool
is_valid_ip_packet bytes =
    if ltb (length bytes) 20 then false else let v = get_or bytes 0 0 / 16 in v == 4 || v == 6
