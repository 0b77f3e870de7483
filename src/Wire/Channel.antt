-- ===== src/Wire/Channel.antt =====
-- A FrameWriter at one end of a connection and a FrameReader at the other.
use stealthlink.Prelude.{
  Bool-cases, Bytes, List, [], ap, append-nil, append_assoc, arith, eof, err, false, get_u16,
  get_u16-put_u16, if◌then◌else◌, inl, inr, length, length-put_u16, ltb, ltb→le, ok, put_u16,
  read_full, read_full-append, refl, suc, sym, true, zero, ℕ, ◌%◌, ◌++◌, ◌+◌, ◌<◌, ◌==◌, ◌∙◌, ◌∷◌,
  ◌≡◌, ◌≤◌, ◌⊎◌,
}
use stealthlink.Wire.Writer.Delivery.{written-flush-run, wire}
use stealthlink.Wire.Writer.Batching.{IsBatched, wire_bytes}
use stealthlink.Wire.Frames.{Frame}
use stealthlink.Wire.Writer.{
  Sink, flushes, timer, closes, typed, raw, run, flush, Writer, max_frame_size, with_header, Event,
  typed, raw,
}
use stealthlink.Wire.Reader.{
  io_error, PooledPacket, Reader, FrameReadError, read_sized, read_frame, read_typed_frame,
}

-- How a loop over ReadTypedFrame ends: by the first error, or, in the model only, with its fuel.
pub data Ended : Type 0 where
  by_error : FrameReadError → Ended
  no_fuel : Ended

-- The loop of the readers, as in handleTUNSession: the frames read up to the first error.
unfoldable pub read_frames : ℕ → Reader → List Frame × Ended
read_frames zero fr = ([], no_fuel)
read_frames (suc fuel) fr = elim (read_typed_frame fr).0 [
  | ok f ↦ let (fs, ended) = read_frames fuel (read_typed_frame fr).1 in (f ∷ fs, ended)
  | err e ↦ ([], by_error e)
]

-- The frame that an event sends. A raw frame's first byte is read as its type.
unfoldable pub sent : Event → List Frame
sent (typed f) = if ltb max_frame_size (1 + length f.payload) then [] else f ∷ []
sent (raw []) = []
sent (raw (t ∷ bytes)) =
    if ltb max_frame_size (suc (length bytes))
    then []
    else record { frame_type = t; payload = bytes } ∷ []
sent _ = []

unfoldable pub frames_of : List Event → List Frame
unfolding sent
frames_of [] = []
frames_of (e ∷ es) = sent e ++ frames_of es

-- The packet of a frame that was written under its header.
abbrev packet : ℕ → Bytes → PooledPacket
packet t bytes = record { content = t ∷ bytes; buf = true }

read_sized-append :
    (t : ℕ) (bytes rest : Bytes) (out : ℕ)
    → suc (length bytes) ≤ max_frame_size
    → read_sized (suc (length bytes)) (record { input = t ∷ (bytes ++ rest); out = out })
      ≡ (ok (packet t bytes), record { input = rest; out = out + 1 })
unfolding read_sized
read_sized-append t bytes rest out h =
    ground (arith, read_full-append (suc (length bytes)) (t ∷ bytes) rest refl)

read_frame-with_header :
    (t : ℕ) (bytes rest : Bytes) (out : ℕ)
    → suc (length bytes) ≤ max_frame_size
    → read_frame (record { input = with_header (t ∷ bytes) ++ rest; out = out })
      ≡ (ok (packet t bytes), record { input = rest; out = out + 1 })
unfolding read_frame
read_frame-with_header t bytes rest out h =
    let n : suc (length bytes) % 65536 ≡ suc (length bytes) = omega arith in
    let header : read_full 2 (with_header (t ∷ bytes) ++ rest)
        ≡ ok (put_u16 (suc (length bytes) % 65536), t ∷ (bytes ++ rest)) =
      ap (read_full 2) (append_assoc (put_u16 (suc (length bytes) % 65536)) (t ∷ bytes) rest)
      ∙ read_full-append 2 _ _ (length-put_u16 (suc (length bytes) % 65536)) in
    let number : get_u16 (put_u16 (suc (length bytes) % 65536)) ≡ suc (length bytes) =
      ap get_u16 (sym (append-nil (put_u16 (suc (length bytes) % 65536))))
      ∙ get_u16-put_u16 _ [] (omega arith)
      ∙ n in
    ground (arith, header, number, read_sized-append t bytes rest out h)

-- A frame that was written under its header is read back, and nothing behind it is touched.
read_typed_frame-with_header :
    (t : ℕ) (bytes rest : Bytes) (out : ℕ)
    → suc (length bytes) ≤ max_frame_size
    → read_typed_frame (record { input = with_header (t ∷ bytes) ++ rest; out = out })
      ≡ (ok (record { frame_type = t; payload = bytes }), record { input = rest; out = out })
unfolding read_typed_frame
read_typed_frame-with_header t bytes rest out h =
    ground (arith, read_frame-with_header t bytes rest out h)

-- An event sends nothing, or one frame that fits.
sent_cases :
    (e : Event)
    → ((sent e ≡ []) × (wire_bytes e ≡ []))
      ⊎ ((t : ℕ) × (bytes : Bytes) × (sent e ≡ record { frame_type = t; payload = bytes } ∷ [])
          × (wire_bytes e ≡ with_header (t ∷ bytes))
          × (suc (length bytes) ≤ max_frame_size))
unfolding sent wire_bytes
sent_cases (typed f) =
    let e : 1 + length f.payload ≡ suc (length f.payload) = omega arith in
    elim (Bool-cases (ltb max_frame_size (1 + length f.payload))) [
      | inl long ↦ inl (rw long, rw long)
      | inr fits ↦ inr (f.frame_type, f.payload, rw fits, rw fits, omega (arith, ltb→le _ _ fits))
    ]
sent_cases (raw []) = inl (refl, refl)
sent_cases (raw (t ∷ bytes)) =
    let some_byte : (suc (length bytes) == 0) ≡ false = ground arith in
    elim (Bool-cases (ltb max_frame_size (suc (length bytes)))) [
      | inl long ↦ inl (rw long, rw (some_byte, long))
      | inr fits ↦ inr (t, bytes, rw fits, rw (some_byte, fits), ltb→le _ _ fits)
    ]
sent_cases flushes = inl (refl, refl)
sent_cases timer = inl (refl, refl)
sent_cases closes = inl (refl, refl)

end_of_input :
    (out : ℕ)
    → read_typed_frame (record { input = []; out = out })
      ≡ (err (io_error eof), record { input = []; out = out })
unfolding read_typed_frame read_full
end_of_input out = refl

read_frames_step :
    (fuel out t : ℕ) (bytes rest : Bytes) (fs : List Frame) (ended : Ended)
    → suc (length bytes) ≤ max_frame_size
    → read_frames fuel (record { input = rest; out = out }) ≡ (fs, ended)
    → read_frames (suc fuel) (record { input = with_header (t ∷ bytes) ++ rest; out = out })
      ≡ (record { frame_type = t; payload = bytes } ∷ fs, ended)
unfolding read_frames
read_frames_step fuel out t bytes rest fs ended fits h =
    ground (arith, read_typed_frame-with_header t bytes rest out fits, h)

read_frames-wire :
    (es : List Event) (fuel out : ℕ)
    → length es < fuel
    → read_frames fuel (record { input = wire es; out = out })
      ≡ (frames_of es, by_error (io_error eof))
read_frames-wire es zero out h = absurd (omega arith)
read_frames-wire [] (suc fuel) out h =
    unfold read_frames frames_of wire in ground (arith, end_of_input out)
read_frames-wire (e ∷ es) (suc fuel) out h = elim (sent_cases e) [
  | inl (none_sent, none_written) ↦
      let same : wire (e ∷ es) ≡ wire es =
        unfold wire in ap (λ (b : Bytes). b ++ wire es) none_written in
      let alike : frames_of (e ∷ es) ≡ frames_of es =
        unfold frames_of in ap (λ (fs : List Frame). fs ++ frames_of es) none_sent in
      rw (same, alike) (read_frames-wire es (suc fuel) out (omega arith))
  | inr (t, bytes, one_sent, one_written, fits) ↦
      let more : wire (e ∷ es) ≡ with_header (t ∷ bytes) ++ wire es =
        unfold wire in ap (λ (b : Bytes). b ++ wire es) one_written in
      let one_more : frames_of (e ∷ es)
          ≡ record { frame_type = t; payload = bytes } ∷ frames_of es =
        unfold frames_of in ap (λ (fs : List Frame). fs ++ frames_of es) one_sent in
      rw (more, one_more)
        (read_frames_step fuel out t bytes (wire es) (frames_of es) _ fits
          (read_frames-wire es fuel out (omega arith)))
]

-- The two ends together: after any calls and timer events on a fresh batching or direct writer
-- whose Writes succeed, and a Flush, the reader's loop returns the frames that were sent and not
-- too long, in order, unchanged, and then sees the end of the stream.
pub read_frames-flush-run :
    (fw : Writer) (es : List Event) (fuel out : ℕ)
    → IsBatched fw
    → fw.batch_size ≡ 0
    → fw.sink ≡ record { written = []; answers = [] }
    → length es < fuel
    → read_frames fuel (record { input = (flush (run fw es)).0.sink.written; out = out })
      ≡ (frames_of es, by_error (io_error eof))
read_frames-flush-run fw es fuel out v e h k =
    let bytes : (flush (run fw es)).0.sink.written ≡ wire es =
      written-flush-run fw es v e (ap (λ (s : Sink). s.answers) h)
      ∙ ap (λ (s : Sink). s.written ++ wire es) h in
    rw bytes (read_frames-wire es fuel out k)
