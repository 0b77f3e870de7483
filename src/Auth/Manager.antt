-- ===== src/Auth/Manager.antt =====
-- AuthManager of auth.go. SHA-256, HMAC and the parser of times come from Go's standard library;
-- of HMAC the code uses the length of its result. The maps are association lists; the order in
-- which Go visits the users is the order of the list, which may be any.
pub mod Users
pub mod Rate
pub mod Validation
use stealthlink.Prelude.{
  Bool, Bytes, List, Option, Result, String, [], bytes_beq, bytes_eq, delete, drop, err, false,
  if◌then◌else◌, insert, leb, length, lookup, ltb, min, nat_eq, none, not, ok, put_u64, some,
  str_eq, string_eq, take, true, ℕ, ◌%◌, ◌*◌, ◌++◌, ◌+◌, ◌-◌, ◌/◌, ◌^◌, ◌∷◌, ◌≡◌,
}
use stealthlink.Wire.Frames.{frame_auth, frame_auth_resp, Frame}
use mathlib.Core.List.{foldl}

pub record Crypto : Type 0 where
  pub sha256 : Bytes → Bytes
  pub hmac : Bytes → Bytes → Bytes
  -- time.Parse(time.RFC3339, _), in nanoseconds since 1970.
  pub parse_time : String → Option ℕ
  pub length-hmac : (key message : Bytes) → length (hmac key message) ≡ 32

pub record PortRange : Type 0 where
  pub from_port : ℕ
  pub to_port : ℕ

-- `expiry` is expiresAt, `none` its zero value. `has_upstream` tells whether Upstream is set.
pub record UserRecord : Type 0 where
  pub id : String
  pub psk : Bytes
  pub max_bandwidth : ℕ
  pub allowed_ports : List PortRange
  pub expires_at : String
  pub has_upstream : Bool
  pub psk_bytes : Bytes
  pub expiry : Option ℕ

pub record RateEntry : Type 0 where
  pub count : ℕ
  pub reset_at : ℕ

pub record AuthManager : Type 0 where
  pub users : List (String × UserRecord)
  pub psk_map : List (Bytes × UserRecord)
  pub auth_rates : List (String × RateEntry)

pub record AuthSession : Type 0 where
  pub user : UserRecord
  pub remote_ip : String

pub data AuthError : Type 0 where
  rate_limited auth_data_too_short invalid_credentials : AuthError

-- A minute, in nanoseconds.
abbrev pub minute : ℕ
minute = 60 * 1000000000

abbrev or_else : Option ℕ → Option ℕ → Option ℕ
or_else none d = d
or_else (some t) d = some t

-- checkRateLimit: the first call of a window opens it, and 1000 pass in it.
unfoldable pub check_rate_limit :
    List (String × RateEntry) → String → ℕ → List (String × RateEntry) × Bool
check_rate_limit rates ip now = elim (lookup ip rates) [
  | none ↦ (insert ip (record { count = 1; reset_at = now + minute }) rates, true)
  | some entry ↦
      if ltb entry.reset_at now
      then (insert ip (record { count = 1; reset_at = now + minute }) rates, true)
      else (insert ip (record entry { count = entry.count + 1 }) rates, leb (entry.count + 1) 1000)
]

unfoldable pub clean_rate_limits : List (String × RateEntry) → ℕ → List (String × RateEntry)
clean_rate_limits [] now = []
clean_rate_limits ((ip, entry) ∷ rates) now =
    if ltb entry.reset_at now
    then clean_rate_limits rates now
    else (ip, entry) ∷ clean_rate_limits rates now

unfoldable pub remove_user : AuthManager → String → AuthManager
remove_user am id = elim (lookup id am.users) [
  | none ↦ am
  | some u ↦ record am { psk_map = delete u.psk_bytes am.psk_map; users = delete id am.users }
]

abbrev pub session_for : String → Option UserRecord → Result AuthError AuthSession
session_for ip none = err invalid_credentials
session_for ip (some u) = ok (record { user = u; remote_ip = ip })

module _ (std : Crypto) where
  open std use {sha256, hmac, parse_time}

  -- A time that does not parse leaves the field as it was.
  abbrev pub with_expiry : UserRecord → UserRecord
  with_expiry u =
      if str_eq u.expires_at ""
      then u
      else record u { expiry = or_else (parse_time u.expires_at) u.expiry }

  abbrev pub prepared : UserRecord → UserRecord
  prepared u = with_expiry (record u { psk_bytes = sha256 u.psk })

  unfoldable pub add_user : AuthManager → UserRecord → AuthManager
  add_user am u = record am {
    users = insert u.id (prepared u) am.users;
    psk_map = insert (sha256 u.psk) (prepared u) am.psk_map;
  }

  unfoldable pub new_auth_manager : List UserRecord → AuthManager
  unfolding add_user
  new_auth_manager us = foldl add_user (record { users = []; psk_map = []; auth_rates = [] }) us

  -- binary.BigEndian.PutUint64(timeBuf, uint64(minute))
  unfoldable pub mac_at : Bytes → ℕ → Bytes → Bytes
  unfolding put_u64
  mac_at key min nonce = hmac key (put_u64 min ++ nonce)

  unfoldable pub is_expired : UserRecord → ℕ → Bool
  is_expired u now = elim u.expiry [ none ↦ false | some t ↦ ltb t now ]

  -- The two minutes whose codes are accepted; the one before minute 0 is uint64(-1).
  unfoldable pub matches : UserRecord → Bytes → Bytes → ℕ → Bool
  unfolding mac_at
  matches u client_hmac nonce current =
      if bytes_beq client_hmac (mac_at u.psk_bytes current nonce)
      then true
      else bytes_beq client_hmac (mac_at u.psk_bytes ((current + 2 ^ 64 - 1) % 2 ^ 64) nonce)

  -- The loop over the users.
  unfoldable pub find_user : List (String × UserRecord) → Bytes → Bytes → ℕ → Option UserRecord
  unfolding is_expired matches
  find_user [] client_hmac nonce now = none
  find_user ((id, u) ∷ us) client_hmac nonce now =
      let rest = find_user us client_hmac nonce now in
      if is_expired u now
      then rest
      else if matches u client_hmac nonce (now / minute)
      then some u
      else rest

  -- The clock is read once for the rate limit and once for the rest.
  unfoldable pub validate_auth :
      AuthManager → Bytes → String → ℕ → ℕ → AuthManager × Result AuthError AuthSession
  unfolding check_rate_limit find_user
  validate_auth am auth_data remote_ip rate_now now =
      let (rates, allowed) = check_rate_limit am.auth_rates remote_ip rate_now in
      let am' = record am { auth_rates = rates } in
      if not allowed
      then (am', err rate_limited)
      else if ltb (length auth_data) 56
      then (am', err auth_data_too_short)
      else (
        am',
        session_for remote_ip
            (find_user am.users (take 32 auth_data) (take 24 (drop 32 auth_data)) now),
      )

  -- GenerateAuthPayload, with the 24 random bytes of its nonce as an argument.
  unfoldable pub generate_auth_payload : Bytes → Bytes → ℕ → Bytes
  unfolding mac_at
  generate_auth_payload psk nonce now = mac_at (sha256 psk) (now / minute) nonce ++ nonce

  -- EncodeAuthFrame of auth.go.
  unfoldable pub encode_auth_frame : Bytes → Bytes → ℕ → Frame
  unfolding generate_auth_payload
  encode_auth_frame psk nonce now = record {
    frame_type = frame_auth;
    payload = generate_auth_payload psk nonce now;
  }

abbrev pub auth_status_ok : ℕ
auth_status_ok = 0x00

abbrev pub auth_status_denied : ℕ
auth_status_denied = 0x01

unfoldable pub encode_auth_response : ℕ → Bytes → Frame
encode_auth_response status config = record {
  frame_type = frame_auth_resp;
  payload = status ∷ config;
}
