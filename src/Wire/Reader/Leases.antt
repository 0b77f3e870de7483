-- ===== src/Wire/Reader/Leases.antt =====
-- The buffer pool of framing.go under ReadTypedFrame.
use stealthlink.Prelude.{arith, ◌≡◌}
use stealthlink.Wire.Reader.{Reader, read_typed_frame}

-- Whatever the connection holds, ReadTypedFrame leaves as many pooled buffers out as before: on
-- an empty packet, on a frame and on every error.
pub out-read_typed_frame : (fr : Reader) → (read_typed_frame fr).1.out ≡ fr.out
unfolding read_typed_frame
out-read_typed_frame fr = ground arith
