-- ===== src/Dialing/Waits.antt =====
-- How long the client of client.go waits between rounds of attempts.
use stealthlink.Prelude.{arith, min, refl, suc, zero, ℕ, ◌*◌, ◌^◌, ◌≡◌}
use stealthlink.Subscription.Stats.{millisecond}
use stealthlink.Dialing.{next_backoff, backoff_after}

-- The waits of connectLoop double from half a second on and stay at 30 seconds from the sixth
-- failed round on.
pub backoff_after_lem :
    (rounds : ℕ)
    → backoff_after rounds ≡ min (30000 * millisecond) (2 ^ rounds * (500 * millisecond))
unfolding backoff_after next_backoff
backoff_after_lem zero = refl
backoff_after_lem (suc rounds) =
    let e : 2 ^ suc rounds ≡ 2 ^ rounds * 2 = omega arith in
    ground (arith, backoff_after_lem rounds, e)
