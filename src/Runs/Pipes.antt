-- ===== src/Runs/Pipes.antt =====
-- The uplink of a session over HTTP.
use stealthlink.Prelude.{
  Bytes, Option, [], arith, bytes_eq, false, lookup, nat_eq, none, refl, some, string_eq, true, ℕ,
  ◌∷◌, ◌≡◌,
}
use stealthlink.Mirage.Uplink.{mirage_uplink_loop-post_to}
use stealthlink.Runs.Users.{one_user}
use stealthlink.Runs.Instances.{plain_crypto}
use stealthlink.Mirage.{mirage_uplink_loop, post_to, MirageHandler}

abbrev one_digit : ℕ → Bytes
one_digit n = 48 ∷ []

abbrev one_session : MirageHandler
one_session = record {
  auth = one_user;
  path = 47 ∷ 118 ∷ [];
  sessions = (97 ∷ 98 ∷ [], record { content = 1 ∷ []; is_closed = false }) ∷ [];
}

abbrev no_base64 : Bytes → Option Bytes
no_base64 token = none

mirage_uplink_loop-post_to_example :
    lookup
      (97 ∷ 98 ∷ [])
      (mirage_uplink_loop one_digit
        (47 ∷ 118 ∷ [])
        (97 ∷ 98 ∷ [])
        []
        "h"
        (post_to no_base64 plain_crypto 5 3 true)
        one_session
        0
        ((2 ∷ 3 ∷ []) ∷ [] ∷ (4 ∷ []) ∷ [])).sessions
    ≡ some (record { content = 1 ∷ 2 ∷ 3 ∷ 4 ∷ []; is_closed = false })
mirage_uplink_loop-post_to_example =
    mirage_uplink_loop-post_to no_base64 plain_crypto 5 3 true one_digit (λ n. (refl, tt))
      (λ n. omega arith) 97 (98 ∷ []) [] "h" (refl, (refl, tt)) one_session 0
      ((2 ∷ 3 ∷ []) ∷ [] ∷ (4 ∷ []) ∷ []) (1 ∷ []) refl
      (omega arith, (omega arith, (omega arith, tt)))
