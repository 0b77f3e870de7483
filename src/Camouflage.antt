-- ===== src/Camouflage.antt =====
-- The connections of camouflage.go, behind TLS: HTTP requests, payloads of the protocol, and all
-- else, which gets an answer as of a web server. The functions of Go's packages strings and base64
-- are arguments. The server's state is that of server.go, whose handleSmartConnection is the
-- handler that startTLSFallback sets.
pub mod Admission
pub mod Equivalence
use stealthlink.Prelude.{
  Bool, Bytes, List, Option, Result, String, [], bytes_beq, drop, err, false, if◌then◌else◌, leb,
  length, ltb, none, not, ok, some, take, ℕ, ◌&&◌, ◌++◌, ◌==◌, ◌||◌, ◌∷◌,
}
use stealthlink.Peeking.Transparency.{prefix_held}
use stealthlink.Wire.Address.{Decoded}
use stealthlink.Wire.Net.{IpText}
use stealthlink.Server.{handle_smart_connection, Ending, Server}
use stealthlink.Auth.Manager.{AuthSession, AuthError, validate_auth, Crypto}
use stealthlink.Peeking.{bytes_of, PrefixConn, Fault, net_read, Arrival, arrives, times_out}

pub record HttpText : Type 0 where
  pub fields : Bytes → List Bytes
  pub to_lower : Bytes → Bytes
  pub trim_space : Bytes → Bytes
  -- base64.StdEncoding.DecodeString, `none` for an error.
  pub base64 : Bytes → Option Bytes

pub record CamouflageServer : Type 0 where
  pub secret_path : Bytes
  pub has_handler : Bool
  pub server : Server

-- How a connection ends: closed with no answer, with the answer to a bad request, with the page of
-- a path, or with what the handler makes of it, the last two behind bytes that were written.
pub data CamouflageEnding : Type 0 where
  dropped fake_response : CamouflageEnding
  web_content : Bytes → Bytes → CamouflageEnding
  handed_over : Bytes → Ending → CamouflageEnding

abbrev pub has_prefix : Bytes → Bytes → Bool
has_prefix p bytes = bytes_beq (take (length p) bytes) p

-- "GET ", "POST", "PUT ", "HEAD", "DELE", "OPTI", "PATC"
abbrev http_methods : List Bytes
http_methods =
    (71 ∷ 69 ∷ 84 ∷ 32 ∷ [])
    ∷ (80 ∷ 79 ∷ 83 ∷ 84 ∷ [])
    ∷ (80 ∷ 85 ∷ 84 ∷ 32 ∷ [])
    ∷ (72 ∷ 69 ∷ 65 ∷ 68 ∷ [])
    ∷ (68 ∷ 69 ∷ 76 ∷ 69 ∷ [])
    ∷ (79 ∷ 80 ∷ 84 ∷ 73 ∷ [])
    ∷ (80 ∷ 65 ∷ 84 ∷ 67 ∷ [])
    ∷ []

abbrev is_one_of : Bytes → List Bytes → Bool
is_one_of p [] = false
is_one_of p (m ∷ methods) = bytes_beq p m || is_one_of p methods

unfoldable pub is_http_request : Bytes → Bool
is_http_request content =
    if ltb (length content) 4 then false else is_one_of (take 4 content) http_methods

-- strings.Split at "\r\n", from the right: a '\r' that stands before a '\n' ends a line.
abbrev add_byte : ℕ → List Bytes → List Bytes
add_byte b [] = (b ∷ []) ∷ []
add_byte b ([] ∷ lines) = (b ∷ []) ∷ lines
add_byte b ((c ∷ line) ∷ lines) =
    if b == 13 && c == 10 then [] ∷ line ∷ lines else (b ∷ c ∷ line) ∷ lines

unfoldable pub split_lines : Bytes → List Bytes
split_lines [] = [] ∷ []
split_lines (b ∷ request) = add_byte b (split_lines request)

-- "authorization:" and "Bearer "
abbrev authorization : Bytes
authorization = 97 ∷ 117 ∷ 116 ∷ 104 ∷ 111 ∷ 114 ∷ 105 ∷ 122 ∷ 97 ∷ 116 ∷ 105 ∷ 111 ∷ 110 ∷ 58 ∷ []

abbrev pub bearer : Bytes
bearer = 66 ∷ 101 ∷ 97 ∷ 114 ∷ 101 ∷ 114 ∷ 32 ∷ []

abbrev pub trim_prefix : Bytes → Bytes → Bytes
trim_prefix p bytes = if has_prefix p bytes then drop (length p) bytes else bytes

-- `response` is the answer to a request that authenticates.
module _ (text : HttpText) (response : Bytes) (std : Crypto) (net : IpText)
    (dials : Bool → Decoded → Bool) where
  open text use {fields, to_lower, trim_space, base64}

  unfoldable pub auth_header : List Bytes → Bytes
  auth_header [] = []
  auth_header (line ∷ lines) =
      let rest = auth_header lines in
      if has_prefix authorization (to_lower line)
      then trim_space (drop (length authorization) line)
      else rest

  abbrev or_token : Bytes → Option Bytes → Bytes
  or_token token none = token
  or_token token (some content) = content

  abbrev pub with_server : CamouflageServer → Server → CamouflageServer
  with_server cs s = record cs { server = s }

  -- The handler, on the bytes that the connection has still to give.
  unfoldable pub hand_over :
      CamouflageServer → AuthSession → Bytes → Bytes → CamouflageServer × CamouflageEnding
  unfolding handle_smart_connection
  hand_over cs session written input =
      let (s, answer, ending) = handle_smart_connection net dials cs.server session input in
      (with_server cs s, handed_over (written ++ answer) ending)

  -- What follows ValidateAuth: `otherwise` is how the connection ends without a session, and
  -- `unhandled` with one but no handler.
  abbrev pub after_auth :
      CamouflageServer
      → CamouflageEnding
      → CamouflageEnding
      → Bytes
      → Bytes
      → Result AuthError AuthSession
      → CamouflageServer × CamouflageEnding
  after_auth cs otherwise unhandled written input (err e) = (cs, otherwise)
  after_auth cs otherwise unhandled written input (ok session) =
      if cs.has_handler then hand_over cs session written input else (cs, unhandled)

  unfoldable pub authenticate_then :
      CamouflageServer
      → String
      → ℕ
      → ℕ
      → Bytes
      → CamouflageEnding
      → CamouflageEnding
      → Bytes
      → Bytes
      → CamouflageServer × CamouflageEnding
  unfolding hand_over validate_auth
  authenticate_then cs ip rate_now now auth_data otherwise unhandled written input =
      if leb 56 (length auth_data)
      then (let (auth, result) =
            validate_auth std cs.server.auth (take 56 auth_data) ip rate_now now in
          after_auth (with_server cs (record cs.server { auth = auth })) otherwise unhandled written
            input result)
      else (cs, otherwise)

  -- A token that base64 does not decode is taken as it is.
  abbrev pub token_data : Bytes → Bytes
  token_data header = let token = trim_prefix bearer header in or_token token (base64 token)

  abbrev pub presented : CamouflageServer → Bytes → Bytes → Bool
  presented cs path header = bytes_beq path cs.secret_path && not (length header == 0)

  abbrev pub serve_path :
      CamouflageServer
      → String
      → ℕ
      → ℕ
      → Bytes
      → Bytes
      → Bytes
      → CamouflageServer × CamouflageEnding
  serve_path cs ip rate_now now path header input =
      if presented cs path header
      then authenticate_then cs ip rate_now now (token_data header) (web_content [] path)
          (web_content response path) response input
      else (cs, web_content [] path)

  abbrev pub request_line :
      CamouflageServer
      → String
      → ℕ
      → ℕ
      → List Bytes
      → List Bytes
      → Bytes
      → CamouflageServer × CamouflageEnding
  request_line cs ip rate_now now (method ∷ path ∷ more) headers input =
      serve_path cs ip rate_now now path (auth_header headers) input
  request_line cs ip rate_now now _ headers input = (cs, fake_response)

  abbrev pub request_lines :
      CamouflageServer → String → ℕ → ℕ → List Bytes → Bytes → CamouflageServer × CamouflageEnding
  request_lines cs ip rate_now now [] input = (cs, fake_response)
  request_lines cs ip rate_now now (line ∷ headers) input =
      request_line cs ip rate_now now (fields line) headers input

  unfoldable pub handle_http_request :
      CamouflageServer → String → ℕ → ℕ → Bytes → List Arrival → CamouflageServer × CamouflageEnding
  unfolding split_lines auth_header authenticate_then
  handle_http_request cs ip rate_now now content conn =
      request_lines cs ip rate_now now (split_lines content) (bytes_of conn)

  -- What is left of the first Read is put before the connection; with nothing left, it is the
  -- connection.
  abbrev pub with_remainder : Bytes → List Arrival → PrefixConn
  with_remainder remainder conn = record { conn = conn; prefix = remainder; prefix_read = false }

  abbrev pub first_data :
      CamouflageServer
      → String
      → ℕ
      → ℕ
      → Result Fault Bytes × List Arrival
      → CamouflageServer × CamouflageEnding
  first_data cs ip rate_now now (err e, conn) = (cs, dropped)
  first_data cs ip rate_now now (ok content, conn) =
      if is_http_request content
      then handle_http_request cs ip rate_now now content conn
      else authenticate_then cs ip rate_now now content fake_response fake_response []
          (prefix_held (with_remainder (drop 56 content) conn))

  unfoldable pub handle_connection :
      CamouflageServer → String → ℕ → ℕ → List Arrival → CamouflageServer × CamouflageEnding
  unfolding net_read is_http_request handle_http_request authenticate_then
  handle_connection cs ip rate_now now conn = first_data cs ip rate_now now (net_read 4096 conn)
