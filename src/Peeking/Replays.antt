-- ===== src/Peeking/Replays.antt =====
-- A ClientHello that is sent again, to any of the listeners.
use stealthlink.Prelude.{Bytes, List, Option, Result, ok, true, ◌≡◌}
use stealthlink.Replay.Filter.{ReplayFilter}
use stealthlink.Peeking.{
  reality_peek, new_peeking_conn, Arrival, admit_reality, admit_tls, Fault, PeekingConn,
  hello_random, is_hello,
}

-- What a listener has read ahead holds the hello as far as its random bytes, and these.
abbrev pub Shows : Bytes → Result Fault PeekingConn → Type 0
Shows random r =
    (c : PeekingConn) × (r ≡ ok c)
    × (is_hello c.peek_buf ≡ true)
    × (hello_random c.peek_buf ≡ random)

pub data Listener : Type 0 where
  over_tls over_reality : Listener

abbrev pub peek_of : Listener → List Arrival → Result Fault PeekingConn
peek_of over_tls conn = new_peeking_conn conn 64
peek_of over_reality conn = reality_peek conn 76 128

abbrev pub admit_of : Listener → ReplayFilter → List Arrival → ReplayFilter × Option PeekingConn
admit_of over_tls rf conn = admit_tls rf conn
admit_of over_reality rf conn = admit_reality rf conn
