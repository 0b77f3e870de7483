-- ===== src/Camouflage/Admission.antt =====
-- Who gets past the web server of camouflage.go.
use stealthlink.Prelude.{
  Bool, Bool-cases, Bytes, List, OnOk, Result, String, [], arith, both_branches, bytes_beq, drop,
  err, false, inl, inr, leb, length, ok, refl, take, true, ℕ, ◌∷◌, ◌≡◌, ◌⊎◌,
}
use stealthlink.Peeking.Transparency.{prefix_held}
use stealthlink.Server.Safety.{Grants, handle_smart_connection-Grants}
use stealthlink.Firewall.Connections.{Firewall}
use stealthlink.Auth.Manager.Validation.{validate_auth_sound, Admits, IsUser}
use stealthlink.Wire.Address.{Decoded}
use stealthlink.Wire.Net.{IpText}
use stealthlink.Auth.Manager.{
  validate_auth, AuthError, UserRecord, AuthManager, AuthSession, Crypto,
}
use stealthlink.Camouflage.{
  token_data, with_remainder, auth_header, presented, split_lines, is_http_request, first_data,
  request_line, handle_connection, handle_http_request, serve_path, request_lines,
  authenticate_then, after_auth, CamouflageEnding, CamouflageServer, hand_over, HttpText, dropped,
  fake_response, web_content, handed_over,
}
use stealthlink.Peeking.{given, bytes_of, net_read, Fault, Arrival}

module _ (text : HttpText) (response : Bytes) (std : Crypto) (net : IpText)
    (dials : Bool → Decoded → Bool) where
  -- A connection is handed over only if someone is known, and then grants what the server grants
  -- to the known.
  abbrev pub Lets : (AuthSession → Type 0) → Firewall → CamouflageServer × CamouflageEnding → Type 0
  Lets Known fw (cs, dropped) = Unit {0}
  Lets Known fw (cs, fake_response) = Unit {0}
  Lets Known fw (cs, web_content written path) = Unit {0}
  Lets Known fw (cs, handed_over written ending) =
      ((session : AuthSession) × Known session) × Grants net dials Known fw ending

  -- The lines behind the first.
  abbrev pub headers_of : List Bytes → List Bytes
  headers_of [] = []
  headers_of (line ∷ headers) = headers

  abbrev pub request_words : List Bytes → List Bytes
  request_words [] = []
  request_words (line ∷ headers) = text.fields line

  -- The second word of a request is the path.
  abbrev pub asks_for : Bytes → List Bytes → Bool
  asks_for secret (method ∷ path ∷ more) = bytes_beq path secret
  asks_for secret _ = false

  -- What a connection sends as a payload: the first 56 bytes of its first Read, or those of the
  -- token in the headers of this Read, if it is a request for the secret path.
  abbrev pub Sends : Bytes → Bytes → Bytes → Type 0
  Sends secret content auth_data =
      (auth_data ≡ take 56 content)
      ⊎ ((asks_for secret (request_words (split_lines content)) ≡ true)
          × (auth_data
              ≡ take 56 (
                  token_data text response std net dials
                    (auth_header text response std net dials (headers_of (split_lines content))))))

  -- A user of the table, who has not expired, and whose code for this minute or the one before
  -- was among the data that were shown.
  abbrev pub HasCode : (Bytes → Type 0) → List (String × UserRecord) → ℕ → AuthSession → Type 0
  HasCode Shown users now session =
      IsUser session.user users
      × ((auth_data : Bytes) × Shown auth_data
          × Admits std session.user (take 32 auth_data) (take 24 (drop 32 auth_data)) now)

  has_code :
      (Shown : Bytes → Type 0) (am : AuthManager) (auth_data : Bytes) (ip : String)
      (rate_now now : ℕ) (r : Result AuthError AuthSession)
      → Shown auth_data
      → (validate_auth std am auth_data ip rate_now now).1 ≡ r
      → OnOk (HasCode Shown am.users now) r
  has_code Shown am auth_data ip rate_now now (ok session) shown h =
      let (_, _, user, admitted) = validate_auth_sound std am auth_data ip rate_now now session h in
      (user, (auth_data, shown, admitted))
  has_code Shown am auth_data ip rate_now now (err e) shown h = tt

  hand_over-Lets :
      (Known : AuthSession → Type 0) (cs : CamouflageServer) (session : AuthSession)
      (written input : Bytes)
      → Known session
      → Lets Known cs.server.firewall
          (hand_over text response std net dials cs session written input)
  unfolding hand_over
  hand_over-Lets Known cs session written input known = (
    (session, known),
    handle_smart_connection-Grants net dials Known cs.server session known input,
  )

  after_auth-Lets :
      (Known : AuthSession → Type 0) (cs : CamouflageServer)
      (otherwise unhandled : CamouflageEnding) (written input : Bytes)
      (r : Result AuthError AuthSession)
      → Lets Known cs.server.firewall (cs, otherwise)
      → Lets Known cs.server.firewall (cs, unhandled)
      → OnOk Known r
      → Lets Known cs.server.firewall
          (after_auth text response std net dials cs otherwise unhandled written input r)
  after_auth-Lets Known cs otherwise unhandled written input (err e) h k known = h
  after_auth-Lets Known cs otherwise unhandled written input (ok session) h k known =
      both_branches (Lets Known cs.server.firewall) cs.has_handler _ (cs, unhandled)
        (hand_over-Lets Known cs session written input known) k

  module _ (cs : CamouflageServer) (ip : String) (rate_now now : ℕ) where
    -- No connection is handed over but for a user whose code was shown.
    abbrev AdmittedBy : (Bytes → Type 0) → CamouflageServer × CamouflageEnding → Type 0
    AdmittedBy Shown = Lets (HasCode Shown cs.server.auth.users now) cs.server.firewall

    -- The same, and it was in what the connection has sent first.
    abbrev pub Admitted : List Arrival → CamouflageServer × CamouflageEnding → Type 0
    Admitted conn = AdmittedBy (Sends cs.secret_path (given (net_read 4096 conn).0))

    module _ (Shown : Bytes → Type 0) where
      authenticate_then-Admitted :
          (auth_data : Bytes) (otherwise unhandled : CamouflageEnding) (written input : Bytes)
          → Shown (take 56 auth_data)
          → AdmittedBy Shown (cs, otherwise)
          → AdmittedBy Shown (cs, unhandled)
          → AdmittedBy Shown (
              authenticate_then text response std net dials cs ip rate_now now auth_data otherwise
                unhandled written input)
      unfolding authenticate_then
      authenticate_then-Admitted auth_data otherwise unhandled written input shown h k =
          let (auth, result) =
            validate_auth std cs.server.auth (take 56 auth_data) ip rate_now now in
          both_branches (AdmittedBy Shown) (leb 56 (length auth_data)) _ (cs, otherwise)
            (after_auth-Lets (HasCode Shown cs.server.auth.users now)
              (record cs { server = record cs.server { auth = auth } }) otherwise unhandled written
              input result h k
              (has_code Shown cs.server.auth (take 56 auth_data) ip rate_now now result shown refl))
            h

      serve_path-Admitted :
          (path header input : Bytes)
          → (bytes_beq path cs.secret_path ≡ true
              → Shown (take 56 (token_data text response std net dials header)))
          → AdmittedBy Shown
              (serve_path text response std net dials cs ip rate_now now path header input)
      serve_path-Admitted path header input shown =
          elim (Bool-cases (presented text response std net dials cs path header)) [
            | inl asked ↦ rw asked (
                authenticate_then-Admitted (token_data text response std net dials header)
                  (web_content [] path) (web_content response path) response input
                  (shown (ground (arith, asked))) tt tt)
            | inr other ↦ rw other tt
          ]

      request_line-Admitted :
          (words headers : List Bytes) (input : Bytes)
          → (asks_for cs.secret_path words ≡ true
              → Shown (
                  take 56 (
                    token_data text response std net dials
                      (auth_header text response std net dials headers))))
          → AdmittedBy Shown
              (request_line text response std net dials cs ip rate_now now words headers input)
      request_line-Admitted [] headers input shown = tt
      request_line-Admitted (method ∷ []) headers input shown = tt
      request_line-Admitted (method ∷ path ∷ more) headers input shown =
          serve_path-Admitted path (auth_header text response std net dials headers) input shown

      request_lines-Admitted :
          (lines : List Bytes) (input : Bytes)
          → (asks_for cs.secret_path (request_words lines) ≡ true
              → Shown (
                  take 56 (
                    token_data text response std net dials
                      (auth_header text response std net dials (headers_of lines)))))
          → AdmittedBy Shown
              (request_lines text response std net dials cs ip rate_now now lines input)
      request_lines-Admitted [] input shown = tt
      request_lines-Admitted (line ∷ headers) input shown =
          request_line-Admitted (text.fields line) headers input shown

    first_data-Admitted :
        (r : Result Fault Bytes × List Arrival)
        → AdmittedBy
            (Sends cs.secret_path (given r.0))
            (first_data text response std net dials cs ip rate_now now r)
    unfolding handle_http_request
    first_data-Admitted (err e, conn) = tt
    first_data-Admitted (ok content, conn) =
        let left =
          prefix_held (with_remainder text response std net dials (drop 56 content) conn) in
        both_branches (AdmittedBy (Sends cs.secret_path content)) (is_http_request content)
          (handle_http_request text response std net dials cs ip rate_now now content conn)
          (authenticate_then text response std net dials cs ip rate_now now content fake_response
            fake_response [] left)
          (request_lines-Admitted (Sends cs.secret_path content) (split_lines content)
            (bytes_of conn) (λ asked. inr (asked, refl)))
          (authenticate_then-Admitted (Sends cs.secret_path content) content fake_response
            fake_response [] left (inl refl) tt tt)

    -- Whatever a connection brings, as HTTP or not, the disguise hands it over only if a code of a
    -- user of the table who has not expired is in the first 56 bytes of its first Read, or, in a
    -- request for the secret path, in those of the token in its headers, and the handler then goes
    -- on only for such a user and to a target that the firewall, as it stood, allows and that was
    -- dialled.
    pub handle_connection-Admitted :
        (conn : List Arrival)
        → Admitted conn (handle_connection text response std net dials cs ip rate_now now conn)
    unfolding handle_connection
    handle_connection-Admitted conn = first_data-Admitted (net_read 4096 conn)
