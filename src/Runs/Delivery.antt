-- ===== src/Runs/Delivery.antt =====
-- The frame writer and reader.
use stealthlink.Wire.Channel.{read_frames-flush-run, by_error}
use stealthlink.Wire.Writer.Delivery.{
  new_frame_writer_direct-IsBatched, new_frame_writer-IsBatched, written-flush-run,
}
use stealthlink.Prelude.{List, [], arith, eof, refl, ◌++◌, ◌∷◌, ◌≡◌}
use stealthlink.Wire.Writer.Delivery.{wire}
use stealthlink.Wire.Reader.Leases.{out-read_typed_frame}
use stealthlink.Wire.Channel.{frames_of, read_frames}
use stealthlink.Wire.Reader.{io_error, read_typed_frame}
use stealthlink.Wire.Writer.{
  closes, new_frame_writer_direct, new_frame_writer, run, timer, Sink, flush, Event, typed, raw,
}

abbrev new_sink : Sink
new_sink = record { written = []; answers = [] }

abbrev some_events : List Event
some_events =
    typed (record { frame_type = 7; payload = 1 ∷ 2 ∷ [] }) ∷ timer ∷ raw (9 ∷ []) ∷ closes ∷ []

written-flush-run_example :
    (flush (run (new_frame_writer new_sink) some_events)).0.sink.written ≡ [] ++ wire some_events
unfolding new_frame_writer
written-flush-run_example =
    written-flush-run (new_frame_writer new_sink) some_events (new_frame_writer-IsBatched new_sink)
      (unfold new_frame_writer in refl) (unfold new_frame_writer in refl)

read_frames-flush-run_example :
    read_frames 5 (record {
      input = (flush (run (new_frame_writer_direct new_sink) some_events)).0.sink.written;
      out = 0;
    })
    ≡ (frames_of some_events, by_error (io_error eof))
read_frames-flush-run_example =
    read_frames-flush-run (new_frame_writer_direct new_sink) some_events 5 0
      (new_frame_writer_direct-IsBatched new_sink) (unfold new_frame_writer_direct in refl)
      (unfold new_frame_writer_direct in refl) (omega arith)

out-read_typed_frame_example :
    (read_typed_frame (record { input = 0 ∷ 2 ∷ 7 ∷ 1 ∷ 0 ∷ []; out = 3 })).1.out ≡ 3
out-read_typed_frame_example =
    out-read_typed_frame (record { input = 0 ∷ 2 ∷ 7 ∷ 1 ∷ 0 ∷ []; out = 3 })
