-- ===== src/Peeking.antt =====
-- The connections of peeking_conn.go, reality.go and camouflage.go whose first bytes were read
-- ahead, and the check of those bytes against replays. A net.Conn is the list of what arrives on
-- it: Read gives bytes of one arrival at most, and a deadline that passes is an arrival too.
pub mod Transparency
pub mod Replays
use stealthlink.Prelude.{
  Bool, Bytes, List, Option, Result, [], drop, err, false, get_or, if◌then◌else◌, leb, length, ltb,
  none, not, ok, some, take, true, ℕ, ◌&&◌, ◌++◌, ◌+◌, ◌-◌, ◌==◌, ◌∷◌,
}
use stealthlink.Replay.Filter.{check_and_add, ReplayFilter}

pub data Arrival : Type 0 where
  arrives : Bytes → Arrival
  times_out : Arrival

pub data Fault : Type 0 where
  ended timed_out empty_read : Fault

abbrev pub given : Result Fault Bytes → Bytes
given (ok bytes) = bytes
given (err e) = []

abbrev pub bytes_of : List Arrival → Bytes
bytes_of [] = []
bytes_of (arrives bytes ∷ conn) = bytes ++ bytes_of conn
bytes_of (times_out ∷ conn) = bytes_of conn

-- What one arrival leaves after a Read of `size` bytes.
abbrev pub put_back : Bytes → List Arrival → List Arrival
put_back [] conn = conn
put_back (b ∷ bytes) conn = arrives (b ∷ bytes) ∷ conn

unfoldable pub net_read : ℕ → List Arrival → Result Fault Bytes × List Arrival
net_read size [] = (err ended, [])
net_read size (times_out ∷ conn) = (err timed_out, conn)
net_read size (arrives bytes ∷ conn) = (ok (take size bytes), put_back (drop size bytes) conn)

pub record PeekingConn : Type 0 where
  pub conn : List Arrival
  pub peek_buf : Bytes
  pub read_idx : ℕ

abbrev pub peeked : Bytes → List Arrival → PeekingConn
peeked buf conn = record { conn = conn; peek_buf = buf; read_idx = 0 }

abbrev first_read : Result Fault Bytes × List Arrival → Result Fault PeekingConn
first_read (ok buf, conn) = ok (peeked buf conn)
first_read (err e, conn) = err e

unfoldable pub new_peeking_conn : List Arrival → ℕ → Result Fault PeekingConn
unfolding net_read
new_peeking_conn conn peek_size = first_read (net_read peek_size conn)

unfoldable pub peeking_read : ℕ → PeekingConn → Result Fault Bytes × PeekingConn
unfolding net_read
peeking_read size c =
    let ahead = take size (drop c.read_idx c.peek_buf) in
    let (r, conn) = net_read size c.conn in
    if ltb c.read_idx (length c.peek_buf)
    then (ok ahead, record c { read_idx = c.read_idx + length ahead })
    else (r, record c { conn = conn })

-- The loop of reality_peek, with what it has read so far.
unfoldable pub peek_loop : ℕ → ℕ → Bytes → List Arrival → Bytes × List Arrival
peek_loop min_size max_size buf [] = (buf, [])
peek_loop min_size max_size buf (times_out ∷ conn) =
    if leb min_size (length buf) then (buf, times_out ∷ conn) else (buf, conn)
peek_loop min_size max_size buf (arrives bytes ∷ conn) =
    let more = take (max_size - length buf) bytes in
    let left = put_back (drop (max_size - length buf) bytes) conn in
    let rest = peek_loop min_size max_size (buf ++ more) conn in
    if leb min_size (length buf)
    then (buf, arrives bytes ∷ conn)
    else if leb max_size (length (buf ++ more))
    then (buf ++ more, left)
    else rest

unfoldable pub reality_peek : List Arrival → ℕ → ℕ → Result Fault PeekingConn
unfolding peek_loop
reality_peek conn min_size max_size =
    let (buf, left) = peek_loop min_size max_size [] conn in
    if length buf == 0 then err empty_read else ok (peeked buf left)

pub record PrefixConn : Type 0 where
  pub conn : List Arrival
  pub prefix : Bytes
  pub prefix_read : Bool

-- After `n` bytes of the prefix were given.
unfoldable pub after_prefix : PrefixConn → ℕ → PrefixConn
after_prefix c n =
    if leb (length c.prefix) n
    then record c { prefix_read = true; prefix = [] }
    else record c { prefix = drop n c.prefix }

unfoldable pub prefix_conn_read : ℕ → PrefixConn → Result Fault Bytes × PrefixConn
unfolding net_read after_prefix
prefix_conn_read size c =
    let (r, conn) = net_read size c.conn in
    if not c.prefix_read && ltb 0 (length c.prefix)
    then (ok (take size c.prefix), after_prefix c (length (take size c.prefix)))
    else (r, record c { conn = conn })

-- The 32 random bytes of a ClientHello, behind the headers of record and handshake.
abbrev pub hello_random : Bytes → Bytes
hello_random peek = take 32 (drop 11 peek)

abbrev pub is_hello : Bytes → Bool
is_hello peek = ltb 43 (length peek) && get_or peek 0 0 == 0x16

-- The check of all three listeners, which says whether the connection is dropped.
unfoldable pub check_replay : ReplayFilter → Bytes → ReplayFilter × Bool
unfolding check_and_add
check_replay rf peek = if is_hello peek then check_and_add rf (hello_random peek) else (rf, false)

abbrev pub admit : ReplayFilter → Result Fault PeekingConn → ReplayFilter × Option PeekingConn
admit rf (err e) = (rf, none)
admit rf (ok c) =
    let (rf', dropped) = check_replay rf c.peek_buf in (rf', if dropped then none else some c)

-- What handleTLSConnectionWrapped and handleConnectionWrapped put behind TLS, if anything.
unfoldable pub admit_tls : ReplayFilter → List Arrival → ReplayFilter × Option PeekingConn
unfolding check_replay new_peeking_conn
admit_tls rf conn = admit rf (new_peeking_conn conn 64)

-- What handleRealityConnection gives to the dispatcher.
unfoldable pub admit_reality : ReplayFilter → List Arrival → ReplayFilter × Option PeekingConn
unfolding check_replay reality_peek
admit_reality rf conn = admit rf (reality_peek conn 76 128)

-- ReplayProtectedPacketConn.ReadFrom: the first packet that was not seen before, and the packets
-- behind it. A packet is what the caller's buffer of `size` bytes holds of it.
unfoldable pub read_from : ℕ → ReplayFilter → List Bytes → ReplayFilter × Option Bytes × List Bytes
unfolding check_and_add
read_from size rf [] = (rf, none, [])
read_from size rf (packet ∷ packets) =
    let (rf', replayed) = check_and_add rf (take size packet) in
    let rest = read_from size rf' packets in
    if replayed then rest else (rf', some (take size packet), packets)
