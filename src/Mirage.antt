-- ===== src/Mirage.antt =====
-- The sessions of mirage.go over HTTP requests: a GET opens a session and streams to the client, a
-- POST carries bytes to the server, and all else gets a decoy. A pipe has the bytes that the uplink
-- has put in, and may be closed while its session is still in the table: the other end or the end
-- of the downlink's request closes it. A Write on a closed pipe takes nothing. Base64 is an
-- argument, and requests come one after the other, in the order in which they take the lock.
pub mod Uplink
use stealthlink.Prelude.{
  Bool, Bytes, List, Option, String, [], bytes_eq, delete, drop, false, if◌then◌else◌, insert,
  length, lookup, ltb, nat_eq, none, some, string_eq, success, take, true, ℕ, ◌&&◌, ◌*◌, ◌++◌, ◌+◌,
  ◌==◌, ◌∷◌,
}
use stealthlink.Auth.Manager.{validate_auth, AuthManager, AuthSession, Crypto}
use stealthlink.Camouflage.{bearer, trim_prefix, has_prefix}

-- "/v2/media/segments"
abbrev mirage_default_path : Bytes
mirage_default_path =
    47 ∷ 118 ∷ 50 ∷ 47 ∷ 109 ∷ 101 ∷ 100 ∷ 105 ∷ 97 ∷ 47 ∷ 115 ∷ 101 ∷ 103 ∷ 109 ∷ 101 ∷ 110 ∷ 116
    ∷ 115 ∷ []

abbrev pub mirage_max_body : ℕ
mirage_max_body = 2 * 1024 * 1024

-- 47 is '/'.
abbrev starts_with_slash : Bytes → Bool
starts_with_slash [] = false
starts_with_slash (b ∷ p) = b == 47

-- strings.TrimRight and strings.Trim, of '/'.
abbrev pub trim_right : Bytes → Bytes
trim_right [] = []
trim_right (b ∷ p) = let rest = trim_right p in if b == 47 && length rest == 0 then [] else b ∷ rest

abbrev pub trim_left : Bytes → Bytes
trim_left [] = []
trim_left (b ∷ p) = if b == 47 then trim_left p else b ∷ p

abbrev pub add_to_part : ℕ → List Bytes → List Bytes
add_to_part b [] = if b == 47 then [] ∷ [] else (b ∷ []) ∷ []
add_to_part b (part ∷ parts) = if b == 47 then [] ∷ part ∷ parts else (b ∷ part) ∷ parts

-- strings.Split at "/".
unfoldable pub split_path : Bytes → List Bytes
split_path [] = [] ∷ []
split_path (b ∷ p) = add_to_part b (split_path p)

unfoldable pub mirage_normalize_path : Bytes → Bytes
mirage_normalize_path p =
    if length p == 0
    then mirage_default_path
    else trim_right (if starts_with_slash p then p else 47 ∷ p)

pub data Method : Type 0 where
  get post other_method : Method

-- `body` is `none` where reading it fails.
pub record Request : Type 0 where
  pub method : Method
  pub path : Bytes
  pub authorization : Bytes
  pub body : Option Bytes
  pub remote_ip : String

pub record Pipe : Type 0 where
  pub content : Bytes
  pub is_closed : Bool

pub record MirageHandler : Type 0 where
  pub auth : AuthManager
  pub path : Bytes
  pub sessions : List (Bytes × Pipe)

-- The answer to a request. `streams` is 200 and the stream of a session, which is handed to
-- onSession.
pub data Reply : Type 0 where
  decoy bad_request gone accepted : Reply
  streams : AuthSession → Reply

unfoldable pub status_code : Reply → ℕ
status_code decoy = 404
status_code bad_request = 400
status_code gone = 410
status_code accepted = 200
status_code (streams session) = 200

-- Where a request is routed to.
pub data Route : Type 0 where
  to_decoy : Route
  downlink uplink : Bytes → Route

unfoldable pub new_mirage_handler : AuthManager → Bytes → MirageHandler
unfolding mirage_normalize_path
new_mirage_handler auth path = record {
  auth = auth;
  path = mirage_normalize_path path;
  sessions = [];
}

abbrev pub route_parts : Method → List Bytes → Route
route_parts get ((b ∷ part) ∷ []) = downlink (b ∷ part)
route_parts post ((b ∷ part) ∷ seq ∷ []) = uplink (b ∷ part)
route_parts _ _ = to_decoy

unfoldable pub route : Bytes → Method → Bytes → Route
unfolding split_path
route prefix method path =
    if has_prefix (prefix ++ (47 ∷ [])) path
    then route_parts method (split_path (trim_right (trim_left (drop (length prefix) path))))
    else to_decoy

module _ (base64 : Bytes → Option Bytes) (std : Crypto) (rate_now now : ℕ) where
  abbrev checked : AuthManager → String → Option Bytes → AuthManager × Option AuthSession
  checked am ip none = (am, none)
  checked am ip (some content) =
      let (am', result) = validate_auth std am (take 56 content) ip rate_now now in
      if ltb (length content) 56 then (am, none) else (am', success result)

  unfoldable pub authenticate : AuthManager → Request → AuthManager × Option AuthSession
  unfolding validate_auth
  authenticate am r =
      let token = trim_prefix bearer r.authorization in
      if length token == 0 then (am, none) else checked am r.remote_ip (base64 token)

  -- A session that is there already is left alone.
  abbrev pub open_session : MirageHandler → Bytes → Option AuthSession → MirageHandler × Reply
  open_session h id none = (h, decoy)
  open_session h id (some session) = elim (lookup id h.sessions) [
    | some pipe ↦ (h, decoy)
    | none ↦ (
      record h { sessions = insert id (record { content = []; is_closed = false }) h.sessions },
      streams session,
    )
  ]

  -- `flushes` tells whether the response can be flushed as it goes.
  unfoldable pub handle_downlink : Bool → MirageHandler → Request → Bytes → MirageHandler × Reply
  unfolding authenticate
  handle_downlink flushes h r id =
      let (am, session) = authenticate h.auth r in
      let h' = record h { auth = am } in if flushes then open_session h' id session else (h', decoy)

  -- At most mirage_max_body bytes of a body are read.
  abbrev pub put_body : MirageHandler → Bytes → Pipe → Option Bytes → MirageHandler × Reply
  put_body h id pipe none = (h, bad_request)
  put_body h id pipe (some body) =
      let kept = take mirage_max_body body in
      if length kept == 0 then (h, accepted) else if pipe.is_closed then (h, gone) else (
        record h {
          sessions = insert id (record pipe { content = pipe.content ++ kept }) h.sessions;
        },
        accepted,
      )

  unfoldable pub handle_uplink : MirageHandler → Request → Bytes → MirageHandler × Reply
  handle_uplink h r id = elim (lookup id h.sessions) [
    | none ↦ (h, decoy)
    | some pipe ↦ put_body h id pipe r.body
  ]

  abbrev pub serve_route : Bool → MirageHandler → Request → Route → MirageHandler × Reply
  serve_route flushes h r to_decoy = (h, decoy)
  serve_route flushes h r (downlink id) = handle_downlink flushes h r id
  serve_route flushes h r (uplink id) = handle_uplink h r id

  unfoldable pub serve_http : Bool → MirageHandler → Request → MirageHandler × Reply
  unfolding route handle_downlink handle_uplink
  serve_http flushes h r = serve_route flushes h r (route h.path r.method r.path)

module _ (base64 : Bytes → Option Bytes) (std : Crypto) (rate_now now : ℕ) (flushes : Bool) where
  -- A request that comes to the handler, with the status of the answer.
  unfoldable pub post_to : MirageHandler → Request → MirageHandler × Option ℕ
  unfolding serve_http status_code
  post_to h r =
      let (h', reply) = serve_http base64 std rate_now now flushes h r in
      (h', some (status_code reply))

-- The end of a downlink: the session leaves the table.
unfoldable pub end_downlink : MirageHandler → Bytes → MirageHandler
end_downlink h id = record h { sessions = delete id h.sessions }

-- The other end of a session, or the end of its request, closes the pipe.
unfoldable pub close_pump : MirageHandler → Bytes → MirageHandler
close_pump h id = elim (lookup id h.sessions) [
  | none ↦ h
  | some pipe ↦ record h { sessions = insert id (record pipe { is_closed = true }) h.sessions }
]

-- resp.StatusCode == http.StatusOK, of an answer that came.
abbrev pub is_ok : Option ℕ → Bool
is_ok none = false
is_ok (some status) = status == 200

-- mirage_uplink_loop, on the Reads of the pump: one request for each that gave bytes, numbered.
-- `number` writes a sequence number in decimals, and `do_post` makes a request and does it: `none`
-- where one of these fails, else the status. A Read that fails ends the list.
module _ (number : ℕ → Bytes) (base session authorization : Bytes) (ip : String) where
  abbrev pub uplink_request : ℕ → Bytes → Request
  uplink_request seq chunk = record {
    method = post;
    path = base ++ (47 ∷ (session ++ (47 ∷ number seq)));
    authorization = authorization;
    body = some chunk;
    remote_ip = ip;
  }

  module _ {S : Type 0} (do_post : S → Request → S × Option ℕ) where
    unfoldable pub mirage_uplink_loop : S → ℕ → List Bytes → S
    mirage_uplink_loop s seq [] = s
    mirage_uplink_loop s seq (chunk ∷ chunks) =
        let (s', status) = do_post s (uplink_request seq chunk) in
        let idle = mirage_uplink_loop s seq chunks in
        let next = mirage_uplink_loop s' (seq + 1) chunks in
        if length chunk == 0 then idle else if is_ok status then next else s'
