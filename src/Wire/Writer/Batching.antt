-- ===== src/Wire/Writer/Batching.antt =====
-- What each method of a FrameWriter adds to the bytes that were written and that wait.
use stealthlink.Prelude.{
  Bool, Bool-cases, Bytes, [], ap, append-nil, append_assoc, arith, eq-nil_of_length, false,
  if◌then◌else◌, inl, inr, length, length-append, length-put_u16, ltb, ltb→le, put_u16, refl, sym,
  take, take_all, true, ◌%◌, ◌++◌, ◌+◌, ◌==◌, ◌||◌, ◌∙◌, ◌∷◌, ◌≡◌, ◌≤◌, ◌⊎◌,
}
use stealthlink.Wire.Frames.{Frame}
use stealthlink.Wire.Writer.{
  max_frame_size, WriteOutcome, done, Writer, write, flush_locked, with_header, write_direct,
  append_batch, finish_batch, write_batched, write_typed_frame, write_frame, Event, typed, raw,
}

-- The batch buffer is as long as its count says and within its limit; in direct mode nothing
-- waits, and otherwise the limit has room for the longest frame.
pub record IsBatched (fw : Writer) : Type 0 where
  pub counted : length fw.batch_buf ≡ fw.batch_size
  pub bounded : fw.batch_size ≤ fw.max_batch_size
  pub mode :
      ((fw.direct_mode ≡ true) × (fw.batch_size ≡ 0))
      ⊎ ((fw.direct_mode ≡ false) × (max_frame_size + 2 ≤ fw.max_batch_size))

-- The bytes that were written and those that wait behind them.
abbrev pub stream : Writer → Bytes
stream fw = fw.sink.written ++ fw.batch_buf

-- What an event adds to that stream: its frame under a header, unless the frame is dropped.
unfoldable pub wire_bytes : Event → Bytes
wire_bytes (typed f) =
    if ltb max_frame_size (1 + length f.payload) then [] else with_header (f.frame_type ∷ f.payload)
wire_bytes (raw bytes) =
    if length bytes == 0 || ltb max_frame_size (length bytes) then [] else with_header bytes
wire_bytes _ = []

-- A call on `fw` that fails at no Write, and that adds `bytes` to the stream.
abbrev pub Adds : Writer → Bytes → Writer × WriteOutcome → Type 0
Adds fw bytes r =
    (stream r.0 ≡ stream fw ++ bytes) × IsBatched r.0 × (r.0.sink.answers ≡ []) × (r.1 ≡ done)

take_batch : (fw : Writer) → IsBatched fw → take fw.batch_size fw.batch_buf ≡ fw.batch_buf
take_batch fw v = take_all fw.batch_size fw.batch_buf (omega arith)

pub flush_locked-Adds :
    (fw : Writer)
    → IsBatched fw
    → fw.sink.answers ≡ []
    → Adds fw [] (flush_locked fw)
      × ((flush_locked fw).0.batch_size ≡ 0)
      × ((flush_locked fw).0.direct_mode ≡ fw.direct_mode)
      × ((flush_locked fw).0.max_batch_size ≡ fw.max_batch_size)
unfolding flush_locked write
flush_locked-Adds fw v h =
    ground
      (arith, take_batch fw v, append-nil (stream fw), append-nil (fw.sink.written ++ fw.batch_buf))

length-with_header : (bytes : Bytes) → length (with_header bytes) ≡ 2 + length bytes
length-with_header bytes = omega (
  arith,
  length-append (put_u16 (length bytes % 65536)) bytes,
  length-put_u16 (length bytes % 65536),
)

write_direct-Adds :
    (fw : Writer) (bytes : Bytes)
    → IsBatched fw
    → fw.sink.answers ≡ []
    → fw.direct_mode ≡ true
    → Adds fw (with_header bytes) (write_direct fw bytes)
unfolding write_direct write
write_direct-Adds fw bytes v h d = ground (
  arith,
  eq-nil_of_length fw.batch_buf,
  append-nil fw.sink.written,
  append-nil (fw.sink.written ++ with_header bytes),
)

append_batch-Adds :
    (fw : Writer) (bytes : Bytes)
    → IsBatched fw
    → fw.sink.answers ≡ []
    → fw.direct_mode ≡ false
    → fw.batch_size + 2 + length bytes ≤ fw.max_batch_size
    → Adds fw (with_header bytes) (append_batch fw bytes, done)
unfolding append_batch
append_batch-Adds fw bytes v h d room = ground (
  arith,
  append_assoc fw.sink.written fw.batch_buf (with_header bytes),
  length-append fw.batch_buf (with_header bytes),
  length-with_header bytes,
)

-- The end of either writing method, after `fw` became `gw` by an append.
finish_batch-Adds :
    (eager : Bool) (fw gw : Writer) (bytes : Bytes)
    → Adds fw bytes (gw, done)
    → Adds fw bytes (finish_batch eager gw)
unfolding finish_batch
finish_batch-Adds eager fw gw bytes (same, v, healthy, _) =
    ground (arith, flush_locked-Adds gw v healthy, append-nil (stream gw))

-- An append to `gw`, which adds nothing to `fw`, and the end of the method.
append_finish-Adds :
    (eager : Bool) (fw gw : Writer) (bytes : Bytes)
    → Adds fw [] (gw, done)
    → gw.direct_mode ≡ false
    → gw.batch_size + 2 + length bytes ≤ gw.max_batch_size
    → Adds fw (with_header bytes) (finish_batch eager (append_batch gw bytes))
append_finish-Adds eager fw gw bytes (same, v, healthy, _) d room =
    let (more, v', healthy', fine) =
      finish_batch-Adds eager gw (append_batch gw bytes) (with_header bytes)
        (append_batch-Adds gw bytes v healthy d room) in
    (
      more ∙ ap (λ (s : Bytes). s ++ with_header bytes) (same ∙ append-nil (stream fw)),
      v',
      healthy',
      fine,
    )

write_batched-Adds :
    (eager : Bool) (fw : Writer) (bytes : Bytes)
    → IsBatched fw
    → fw.sink.answers ≡ []
    → fw.direct_mode ≡ false
    → length bytes ≤ max_frame_size
    → Adds fw (with_header bytes) (write_batched eager fw bytes)
unfolding write_batched
write_batched-Adds eager fw bytes v h d fits =
    elim (Bool-cases (ltb fw.max_batch_size (fw.batch_size + 2 + length bytes))) [
      | inr room ↦ rw room (
          append_finish-Adds eager fw fw bytes (sym (append-nil (stream fw)), v, h, refl) d
            (ltb→le _ _ room))
      | inl full ↦
          let (adds, empty, d', m) = flush_locked-Adds fw v h in
          let small : 0 + 2 + length bytes ≤ fw.max_batch_size = ground (arith, d, v.mode) in
          rw (full, adds.3)
            (append_finish-Adds eager fw (flush_locked fw).0 bytes (adds.0, adds.1, adds.2, refl)
              (d' ∙ d) (rw (empty, m) small))
    ]

-- Both methods send a frame that is not dropped by the mode of the writer.
sent-Adds :
    (mode eager : Bool) (fw : Writer) (bytes : Bytes)
    → fw.direct_mode ≡ mode
    → IsBatched fw
    → fw.sink.answers ≡ []
    → length bytes ≤ max_frame_size
    → Adds fw
        (with_header bytes)
        (if mode then write_direct fw bytes else write_batched eager fw bytes)
sent-Adds true eager fw bytes d v h fits = write_direct-Adds fw bytes v h d
sent-Adds false eager fw bytes d v h fits = write_batched-Adds eager fw bytes v h d fits

pub unchanged-Adds : (fw : Writer) → IsBatched fw → fw.sink.answers ≡ [] → Adds fw [] (fw, done)
unchanged-Adds fw v h = (sym (append-nil (stream fw)), v, h, refl)

pub write_typed_frame-Adds :
    (fw : Writer) (f : Frame)
    → IsBatched fw
    → fw.sink.answers ≡ []
    → Adds fw (wire_bytes (typed f)) (write_typed_frame fw f)
unfolding write_typed_frame wire_bytes
write_typed_frame-Adds fw f v h =
    let some_byte : (1 + length f.payload == 0) ≡ false = ground arith in
    elim (Bool-cases (ltb max_frame_size (1 + length f.payload))) [
      | inl long ↦ rw (some_byte, long) (unchanged-Adds fw v h)
      | inr fits ↦
          rw (some_byte, fits)
            (sent-Adds fw.direct_mode true fw (f.frame_type ∷ f.payload) refl v h
              (omega (arith, ltb→le _ _ fits)))
    ]

pub write_frame-Adds :
    (fw : Writer) (bytes : Bytes)
    → IsBatched fw
    → fw.sink.answers ≡ []
    → Adds fw (wire_bytes (raw bytes)) (write_frame fw bytes)
unfolding write_frame wire_bytes
write_frame-Adds fw bytes v h =
    elim (Bool-cases (length bytes == 0 || ltb max_frame_size (length bytes))) [
      | inl dropped ↦ rw dropped (unchanged-Adds fw v h)
      | inr kept ↦ rw kept (sent-Adds fw.direct_mode false fw bytes refl v h (ground (arith, kept)))
    ]
