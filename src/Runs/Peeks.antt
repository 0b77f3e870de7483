-- ===== src/Runs/Peeks.antt =====
-- Connections that are read ahead.
use stealthlink.Prelude.{Bytes, List, OnSome, [], arith, replicate, some, ℕ, ◌++◌, ◌∷◌, ◌≡◌}
use stealthlink.Redstone.Conn.Ending.{read_all_ends}
use stealthlink.Redstone.Conn.Transparency.{read_all}
use stealthlink.Redstone.Packet.{PacketError}
use stealthlink.Peeking.Transparency.{admit-GivesAll, GivesAll}
use stealthlink.Peeking.{admit_reality, admit_tls, Arrival, arrives, times_out}
use stealthlink.Replay.Filter.{new_replay_filter, ReplayFilter}

abbrev hello : ℕ → Bytes
hello more = 22 ∷ (replicate 50 7 ++ replicate more 1)

abbrev arriving : List Arrival
arriving = arrives (hello 30) ∷ times_out ∷ arrives (1 ∷ 2 ∷ []) ∷ []

abbrev some_filter : ReplayFilter
some_filter = new_replay_filter 64 1

admit-GivesAll_example :
    OnSome (GivesAll arriving (10 ∷ 5 ∷ 100 ∷ [])) (admit_tls some_filter arriving).1
    × OnSome (GivesAll arriving (10 ∷ 5 ∷ 100 ∷ [])) (admit_reality some_filter arriving).1
admit-GivesAll_example = admit-GivesAll some_filter arriving (10 ∷ 5 ∷ 100 ∷ [])

-- The same random bytes in another connection, in two pieces.
abbrev again : List Arrival
again = arrives (hello 3) ∷ arrives (hello 60) ∷ []

read_all_ends_example :
    (e : PacketError) × ((read_all 9 3 (record { input = 1 ∷ 2 ∷ 3 ∷ []; rbuf = 4 ∷ 5 ∷ [] })).1
      ≡ some e)
read_all_ends_example =
    read_all_ends 9 3 (record { input = 1 ∷ 2 ∷ 3 ∷ []; rbuf = 4 ∷ 5 ∷ [] }) (omega arith)
      (omega arith)
