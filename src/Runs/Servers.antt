-- ===== src/Runs/Servers.antt =====
-- The servers of a subscription.
use mathlib.Core.List.{Perm}
use stealthlink.Prelude.{List, String, [], false, map, refl, true, ℕ, ◌∷◌}
use stealthlink.Subscription.Ranking.Order.{Pairwise}
use stealthlink.Subscription.Ranking.Laws.{Precedes, rank_server_groups-IsRanking}
use stealthlink.Subscription.Stats.Laws.{DialResult}
use stealthlink.Subscription.Ranking.{rank_server_groups, AttemptGroup}
use stealthlink.Subscription.Transports.{ServerEntry, Tidy}

abbrev pub plain_names : Tidy
plain_names = record { tidy = λ s. s; tidy-known = λ s h. refl; tidy-empty = refl }

abbrev pub some_server : String → ℕ → String → ServerEntry
some_server address weight transport = record {
  address = address;
  psk = "k";
  sni = "";
  weight = weight;
  transport = transport;
  secret_path = "";
  fingerprint = "";
}

abbrev three_servers : List ServerEntry
three_servers = some_server "a" 2 "tls" ∷ some_server "b" 1 "quic" ∷ some_server "c" 5 "auto" ∷ []

abbrev some_results : List DialResult
some_results =
    record { server = some_server "a" 2 "tls"; latency = 30; succeeded = true; at_time = 5 }
    ∷ record { server = some_server "a" 2 "tls"; latency = 50; succeeded = false; at_time = 6 }
    ∷ []

rank_server_groups-IsRanking_example :
    Perm
      (map (λ (g : AttemptGroup). g.base) (rank_server_groups plain_names [] 9 three_servers ""))
      three_servers
    × Pairwise (Precedes plain_names [] 9) (rank_server_groups plain_names [] 9 three_servers "")
rank_server_groups-IsRanking_example =
    rank_server_groups-IsRanking plain_names [] 9 three_servers ""
