-- ===== src/Wire/Writer.antt =====
-- FrameWriter of protocol/core/transport/framing.go. The io.Writer behind it is a list of the
-- bytes that it took and of the answers that it will give. The flush timer is the flag
-- `flush_pending`: the timer, when it fires, makes autoFlusher call Flush.
pub mod Batching
pub mod Delivery
use stealthlink.Prelude.{
  Bool, Bytes, List, [], false, if◌then◌else◌, leb, length, ltb, not, put_u16, take, true, ℕ, ◌%◌,
  ◌&&◌, ◌*◌, ◌++◌, ◌+◌, ◌/◌, ◌==◌, ◌||◌, ◌∷◌,
}
use stealthlink.Wire.Frames.{Frame}

abbrev pub max_frame_size : ℕ
max_frame_size = 65535

-- One Write: all bytes taken, or the first `n` of them and an error.
pub data Answer : Type 0 where
  taken : Answer
  broken : ℕ → Answer

pub record Sink : Type 0 where
  pub written : Bytes
  pub answers : List Answer

-- A nil error, or the error of a Write.
pub data WriteOutcome : Type 0 where
  done write_failed : WriteOutcome

pub record Writer : Type 0 where
  pub sink : Sink
  pub batch_buf : Bytes
  pub batch_size : ℕ
  pub max_batch_size : ℕ
  pub direct_mode : Bool
  pub flush_pending : Bool
  pub closed : Bool

-- A writer with no more answers listed takes everything.
unfoldable pub write : List Answer → Bytes → Bytes → Sink × WriteOutcome
write [] written p = (record { written = written ++ p; answers = [] }, done)
write (taken ∷ answers) written p = (record { written = written ++ p; answers = answers }, done)
write (broken n ∷ answers) written p =
    (record { written = written ++ take n p; answers = answers }, write_failed)

unfoldable pub new_frame_writer : Sink → Writer
new_frame_writer sink = record {
  sink = sink;
  batch_buf = [];
  batch_size = 0;
  max_batch_size = 128 * 1024;
  direct_mode = false;
  flush_pending = false;
  closed = false;
}

unfoldable pub new_frame_writer_direct : Sink → Writer
new_frame_writer_direct sink = record {
  sink = sink;
  batch_buf = [];
  batch_size = 0;
  max_batch_size = 0;
  direct_mode = true;
  flush_pending = false;
  closed = false;
}

unfoldable pub flush_locked : Writer → Writer × WriteOutcome
unfolding write
flush_locked fw =
    if fw.batch_size == 0
    then (fw, done)
    else let (sink, outcome) =
        write fw.sink.answers fw.sink.written (take fw.batch_size fw.batch_buf) in
      (record fw { sink = sink; batch_buf = []; batch_size = 0 }, outcome)

unfoldable pub flush : Writer → Writer × WriteOutcome
unfolding flush_locked
flush fw = if fw.direct_mode then (fw, done) else flush_locked fw

abbrev schedule_flush : Writer → Writer
schedule_flush fw = record fw { flush_pending = true }

-- The two bytes of the length and the frame's bytes, as both writing methods lay them out.
abbrev pub with_header : Bytes → Bytes
with_header bytes = put_u16 (length bytes % 65536) ++ bytes

-- directBuf holds 3 + MaxFrameSize bytes, so the frame fits, and only its bytes are written.
unfoldable pub write_direct : Writer → Bytes → Writer × WriteOutcome
unfolding write
write_direct fw bytes =
    let (sink, outcome) = write fw.sink.answers fw.sink.written (with_header bytes) in
    (record fw { sink = sink }, outcome)

unfoldable pub append_batch : Writer → Bytes → Writer
append_batch fw bytes = record fw {
  batch_buf = fw.batch_buf ++ with_header bytes;
  batch_size = fw.batch_size + (2 + length bytes);
}

-- What follows the first flush of the two methods: `eager` is WriteTypedFrame's flush of a batch
-- that is half full.
unfoldable pub finish_batch : Bool → Writer → Writer × WriteOutcome
unfolding flush_locked
finish_batch eager fw =
    if eager && leb (fw.max_batch_size / 2) fw.batch_size
    then flush_locked fw
    else (schedule_flush fw, done)

unfoldable pub write_batched : Bool → Writer → Bytes → Writer × WriteOutcome
unfolding flush_locked append_batch finish_batch
write_batched eager fw bytes =
    if ltb fw.max_batch_size (fw.batch_size + 2 + length bytes)
    then elim (flush_locked fw).1 [
      | done ↦ finish_batch eager (append_batch (flush_locked fw).0 bytes)
      | write_failed ↦ ((flush_locked fw).0, write_failed)
    ]
    else finish_batch eager (append_batch fw bytes)

-- A frame of one type byte and its payload. One that is too long is dropped, with no error.
unfoldable pub write_typed_frame : Writer → Frame → Writer × WriteOutcome
unfolding write_direct write_batched
write_typed_frame fw f =
    let bytes = f.frame_type ∷ f.payload in
    let frame_len = 1 + length f.payload in
    if frame_len == 0 || ltb max_frame_size frame_len
    then (fw, done)
    else if fw.direct_mode
    then write_direct fw bytes
    else write_batched true fw bytes

unfoldable pub write_frame : Writer → Bytes → Writer × WriteOutcome
unfolding write_direct write_batched
write_frame fw bytes =
    if length bytes == 0 || ltb max_frame_size (length bytes)
    then (fw, done)
    else if fw.direct_mode
    then write_direct fw bytes
    else write_batched false fw bytes

unfoldable pub close : Writer → Writer × WriteOutcome
unfolding flush
close fw = flush (record fw { closed = true; flush_pending = false })

-- What happens to a writer: a call of a method, or autoFlusher's answer to the timer.
pub data Event : Type 0 where
  typed : Frame → Event
  raw : Bytes → Event
  flushes timer closes : Event

unfoldable pub auto_flush : Writer → Writer × WriteOutcome
unfolding flush
auto_flush fw =
    if fw.flush_pending && not fw.closed
    then flush (record fw { flush_pending = false })
    else (fw, done)

unfoldable pub step : Writer → Event → Writer × WriteOutcome
unfolding write_typed_frame write_frame flush auto_flush close
step fw (typed f) = write_typed_frame fw f
step fw (raw bytes) = write_frame fw bytes
step fw flushes = flush fw
step fw timer = auto_flush fw
step fw closes = close fw

unfoldable pub run : Writer → List Event → Writer
unfolding step
run fw [] = fw
run fw (e ∷ es) = run (step fw e).0 es
