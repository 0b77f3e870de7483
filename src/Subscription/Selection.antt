-- ===== src/Subscription/Selection.antt =====
-- SelectServer of subscription.go: a server at random, by weight. The random number below the
-- total is an argument.
pub mod Laws
use stealthlink.Prelude.{List, Option, [], if◌then◌else◌, ltb, none, some, ℕ, ◌+◌, ◌∷◌}
use stealthlink.Subscription.Transports.{ServerEntry}

unfoldable pub total_weight : List ServerEntry → ℕ
total_weight [] = 0
total_weight (s ∷ servers) = s.weight + total_weight servers

-- The loop: the first server whose cumulated weight is above `r`.
unfoldable pub select_loop : ℕ → ℕ → List ServerEntry → Option ServerEntry
select_loop r cumulative [] = none
select_loop r cumulative (s ∷ servers) =
    let rest = select_loop r (cumulative + s.weight) servers in
    if ltb r (cumulative + s.weight) then some s else rest

abbrev or_first : Option ServerEntry → List ServerEntry → Option ServerEntry
or_first (some s) servers = some s
or_first none [] = none
or_first none (s ∷ servers) = some s

unfoldable pub select_server : List ServerEntry → ℕ → Option ServerEntry
unfolding select_loop
select_server servers r = or_first (select_loop r 0 servers) servers
