-- ===== src/Runs/Users.antt =====
-- The users and their payloads.
use stealthlink.Auth.Manager.{RateEntry, remove_user, mac_at}
use stealthlink.Prelude.{
  Bytes, List, String, [], arith, bytes_eq, drop, false, inr, length, nat_eq, none, ok, put_u64,
  refl, replicate, string_eq, take, true, ◌∷◌, ◌≡◌, ◌≤◌,
}
use stealthlink.Auth.Manager.Rate.{window_limit, attempts}
use stealthlink.Auth.Manager.Validation.{
  validate_auth_sound, here, Admits, validate_auth-generate_auth_payload, IsUser,
}
use stealthlink.Auth.Manager.{
  is_expired, matches, find_user, generate_auth_payload, check_rate_limit, UserRecord,
  validate_auth, AuthSession, AuthManager,
}
use stealthlink.Runs.Instances.{plain_crypto}

-- An address whose window ended at time 4, with more attempts than pass.
abbrev old_rates : List (String × RateEntry)
old_rates = ("h", record { count = 1200; reset_at = 4 }) ∷ []

window_limit_example :
    (check_rate_limit
      (attempts (check_rate_limit old_rates "h" 5).0 (("g", 6) ∷ ("h", 7) ∷ []))
      "h"
      8).1
    ≡ true
window_limit_example =
    window_limit old_rates "h" 5 8 (("g", 6) ∷ ("h", 7) ∷ [])
      (inr (record { count = 1200; reset_at = 4 }, refl, omega arith))
      ((λ _. omega arith), ((λ _. omega arith), tt)) (omega arith)

abbrev pub some_user : UserRecord
some_user = record {
  id = "u";
  psk = 5 ∷ [];
  max_bandwidth = 0;
  allowed_ports = [];
  expires_at = "";
  has_upstream = false;
  psk_bytes = 5 ∷ [];
  expiry = none;
}

abbrev pub one_user : AuthManager
one_user = record { users = ("u", some_user) ∷ []; psk_map = []; auth_rates = [] }

abbrev some_nonce : Bytes
some_nonce = replicate 24 9

allowed : (check_rate_limit [] "h" 5).1 ≡ true
unfolding check_rate_limit
allowed = refl

validate_auth-generate_auth_payload_example :
    (s : AuthSession) × ((validate_auth plain_crypto one_user
        (generate_auth_payload plain_crypto (5 ∷ []) some_nonce 3)
        "h"
        5
        60000000004).1
      ≡ ok s)
validate_auth-generate_auth_payload_example =
    validate_auth-generate_auth_payload plain_crypto one_user some_user (5 ∷ []) some_nonce "h" 3 5
      60000000004 here refl refl (unfold is_expired in refl) allowed (omega arith)
      (inr (omega arith))

abbrev pub some_payload : Bytes
some_payload = generate_auth_payload plain_crypto (5 ∷ []) some_nonce 3

pub opened :
    (validate_auth plain_crypto one_user some_payload "h" 5 3).1
    ≡ ok (record { user = some_user; remote_ip = "h" })
unfolding validate_auth generate_auth_payload check_rate_limit find_user matches is_expired mac_at
    put_u64
opened = refl

validate_auth_sound_example :
    (56 ≤ length some_payload)
    × ((check_rate_limit [] "h" 5).1 ≡ true)
    × IsUser some_user one_user.users
    × Admits plain_crypto some_user (take 32 some_payload) (take 24 (drop 32 some_payload)) 3
validate_auth_sound_example =
    validate_auth_sound plain_crypto one_user some_payload "h" 5 3
      (record { user = some_user; remote_ip = "h" }) opened

abbrev other_user : UserRecord
other_user = record some_user { id = "v"; psk = 6 ∷ []; psk_bytes = 6 ∷ [] }

abbrev two_users : AuthManager
two_users = record {
  users = ("v", other_user) ∷ ("u", some_user) ∷ [];
  psk_map = [];
  auth_rates = [];
}

still_opened :
    (validate_auth plain_crypto (remove_user two_users other_user.id) some_payload "h" 5 3).1
    ≡ ok (record { user = some_user; remote_ip = "h" })
unfolding validate_auth generate_auth_payload check_rate_limit find_user matches is_expired mac_at
    put_u64 remove_user
still_opened = refl
