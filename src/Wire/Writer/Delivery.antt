-- ===== src/Wire/Writer/Delivery.antt =====
-- What a FrameWriter delivers over a sequence of events, and the state of its batch throughout.
use stealthlink.Prelude.{
  Bool, Bool-cases, Bytes, List, [], ap, append-nil, append_assoc, arith, eq-nil_of_length, false,
  inl, inr, not, refl, sym, true, ◌&&◌, ◌++◌, ◌∙◌, ◌∷◌, ◌≡◌,
}
use stealthlink.Wire.Writer.{
  Sink, Writer, write, flush_locked, flush, close, Event, typed, raw, flushes, timer, closes,
  auto_flush, step, run, new_frame_writer, new_frame_writer_direct,
}
use stealthlink.Wire.Writer.Batching.{
  IsBatched, stream, wire_bytes, Adds, flush_locked-Adds, unchanged-Adds, write_typed_frame-Adds,
  write_frame-Adds,
}

pub flush-Adds : (fw : Writer) → IsBatched fw → fw.sink.answers ≡ [] → Adds fw [] (flush fw)
unfolding flush
flush-Adds fw v h = ground (arith, unchanged-Adds fw v h, flush_locked-Adds fw v h)

-- The two flags take no part in it.
flags-IsBatched :
    (fw : Writer) (pending shut : Bool)
    → IsBatched fw
    → IsBatched (record fw { flush_pending = pending; closed = shut })
flags-IsBatched fw pending shut v = record {
  counted = v.counted;
  bounded = v.bounded;
  mode = v.mode;
}

auto_flush-Adds : (fw : Writer) → IsBatched fw → fw.sink.answers ≡ [] → Adds fw [] (auto_flush fw)
unfolding auto_flush
auto_flush-Adds fw v h = elim (Bool-cases (fw.flush_pending && not fw.closed)) [
  | inl due ↦
      rw due
        (flush-Adds (record fw { flush_pending = false }) (flags-IsBatched fw false fw.closed v) h)
  | inr idle ↦ rw idle (unchanged-Adds fw v h)
]

close-Adds : (fw : Writer) → IsBatched fw → fw.sink.answers ≡ [] → Adds fw [] (close fw)
unfolding close
close-Adds fw v h =
    flush-Adds (record fw { closed = true; flush_pending = false })
      (flags-IsBatched fw false true v) h

pub step-Adds :
    (fw : Writer) (e : Event)
    → IsBatched fw
    → fw.sink.answers ≡ []
    → Adds fw (wire_bytes e) (step fw e)
unfolding step
step-Adds fw (typed f) v h = write_typed_frame-Adds fw f v h
step-Adds fw (raw bytes) v h = write_frame-Adds fw bytes v h
step-Adds fw flushes v h = unfold wire_bytes in flush-Adds fw v h
step-Adds fw timer v h = unfold wire_bytes in auto_flush-Adds fw v h
step-Adds fw closes v h = unfold wire_bytes in close-Adds fw v h

-- The frames of a sequence of events, as they go over the wire.
unfoldable pub wire : List Event → Bytes
unfolding wire_bytes
wire [] = []
wire (e ∷ es) = wire_bytes e ++ wire es

pub run-stream :
    (fw : Writer) (es : List Event)
    → IsBatched fw
    → fw.sink.answers ≡ []
    → (stream (run fw es) ≡ stream fw ++ wire es)
      × IsBatched (run fw es)
      × ((run fw es).sink.answers ≡ [])
unfolding run wire
run-stream fw [] v h = (sym (append-nil (stream fw)), v, h)
run-stream fw (e ∷ es) v h =
    let (adds, v', h', _) = step-Adds fw e v h in
    let (more, v'', h'') = run-stream (step fw e).0 es v' h' in
    (
      more
          ∙ ap (λ (s : Bytes). s ++ wire es) adds
          ∙ append_assoc (stream fw) (wire_bytes e) (wire es),
      v'',
      h'',
    )

flush_empties : (fw : Writer) → IsBatched fw → (flush fw).0.batch_buf ≡ []
unfolding flush flush_locked write
flush_empties fw v = ground (arith, eq-nil_of_length fw.batch_buf)

pub new_frame_writer-IsBatched : (sink : Sink) → IsBatched (new_frame_writer sink)
unfolding new_frame_writer
new_frame_writer-IsBatched sink = record {
  counted = refl;
  bounded = omega arith;
  mode = inr (refl, omega arith);
}

pub new_frame_writer_direct-IsBatched : (sink : Sink) → IsBatched (new_frame_writer_direct sink)
unfolding new_frame_writer_direct
new_frame_writer_direct-IsBatched sink = record {
  counted = refl;
  bounded = omega arith;
  mode = inl (refl, refl);
}

-- After any calls and timer events on a writer with nothing waiting, on a connection that fails
-- at no Write, a Flush has written exactly the frames that were not dropped, in order, once each.
pub written-flush-run :
    (fw : Writer) (es : List Event)
    → IsBatched fw
    → fw.batch_size ≡ 0
    → fw.sink.answers ≡ []
    → (flush (run fw es)).0.sink.written ≡ fw.sink.written ++ wire es
written-flush-run fw es v e h =
    let (all, v', h') = run-stream fw es v h in
    let (same, _, _, _) = flush-Adds (run fw es) v' h' in
    let waits : fw.batch_buf ≡ [] = eq-nil_of_length fw.batch_buf (v.counted ∙ e) in
    sym (append-nil (flush (run fw es)).0.sink.written)
    ∙ ap (◌++◌ (flush (run fw es)).0.sink.written) (sym (flush_empties (run fw es) v'))
    ∙ same
    ∙ append-nil (stream (run fw es))
    ∙ all
    ∙ ap (λ (b : Bytes). (fw.sink.written ++ b) ++ wire es) waits
    ∙ ap (λ (b : Bytes). b ++ wire es) (append-nil fw.sink.written)
