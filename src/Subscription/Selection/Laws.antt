-- ===== src/Subscription/Selection/Laws.antt =====
-- How the random number decides.
use stealthlink.Prelude.{
  List, [], ap, arith, length, refl, some, suc, ℕ, ◌++◌, ◌+◌, ◌<◌, ◌∷◌, ◌≡◌, ◌≤◌,
}
use stealthlink.Subscription.Selection.{total_weight, select_server, select_loop}
use stealthlink.Subscription.Transports.{normalize_server_entries, Tidy, ServerEntry}

select_loop_after :
    (r cumulative : ℕ) (before : List ServerEntry) (s : ServerEntry) (after : List ServerEntry)
    → cumulative + total_weight before ≤ r
    → r < cumulative + total_weight before + s.weight
    → select_loop r cumulative (before ++ (s ∷ after)) ≡ some s
unfolding select_loop total_weight
select_loop_after r cumulative [] s after lo hi = ground arith
select_loop_after r cumulative (t ∷ before) s after lo hi =
    ground (arith, select_loop_after r (cumulative + t.weight) before s after)

-- A server is selected by the numbers from the weights before it up to its own, so by as many of
-- the numbers below the total as its weight says.
pub select_server_weighted :
    (before : List ServerEntry) (s : ServerEntry) (after : List ServerEntry) (r : ℕ)
    → total_weight before ≤ r
    → r < total_weight before + s.weight
    → select_server (before ++ (s ∷ after)) r ≡ some s
unfolding select_server
select_server_weighted before s after r lo hi =
    ground (arith, select_loop_after r 0 before s after (omega arith) (omega arith))

module _ (text : Tidy) where
  -- The entries of a selector have been normalized: they are as many as before, and their total
  -- weight, below which the random number is drawn, is at least their number.
  pub total_weight-normalize_server_entries :
      (servers : List ServerEntry)
      → (length (normalize_server_entries text servers) ≡ length servers)
        × (length servers ≤ total_weight (normalize_server_entries text servers))
  unfolding normalize_server_entries total_weight
  total_weight-normalize_server_entries [] = (refl, omega arith)
  total_weight-normalize_server_entries (s ∷ servers) =
      let (same, most) = total_weight-normalize_server_entries servers in
      (ap suc same, ground (arith, most))
