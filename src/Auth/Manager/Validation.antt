-- ===== src/Auth/Manager/Validation.antt =====
-- ValidateAuth and GenerateAuthPayload of auth.go.
use stealthlink.Prelude.{
  Bool-cases, Bytes, List, OnOk, OnOk-apply, OnSome, OnSome-mono, Option, Option-cases, String, [],
  ap, arith, bytes_beq_iff, bytes_eq, drop, drop-append, false, inl, inr, length, length-append,
  le→ltb, ltb, ltb→le, nat_eq, none, ok, put_u64, some, string_eq, sym, take, take-append, take_all,
  true, ℕ, ◌%◌, ◌++◌, ◌+◌, ◌-◌, ◌/◌, ◌<◌, ◌^◌, ◌↔◌, ◌∙◌, ◌∷◌, ◌≡◌, ◌≢◌, ◌≤◌, ◌⊎◌,
}
use stealthlink.Auth.Manager.{
  Crypto, UserRecord, AuthManager, AuthSession, minute, mac_at, is_expired, matches, find_user,
  check_rate_limit, validate_auth, generate_auth_payload, session_for,
}

-- A user of the table.
pub data IsUser (u : UserRecord) : List (String × UserRecord) → Type 0 where
  here : {id : String} {us : List (String × UserRecord)} → IsUser u ((id, u) ∷ us)
  there :
      {p : String × UserRecord} {us : List (String × UserRecord)} → IsUser u us → IsUser u (p ∷ us)

module _ (std : Crypto) where
  -- A user who may be let in by a code: not expired, and the code is the user's for this minute
  -- or the one before.
  pub record Admits (u : UserRecord) (client_hmac nonce : Bytes) (now : ℕ) : Type 0 where
    pub unexpired : is_expired std u now ≡ false
    pub coded :
        (client_hmac ≡ mac_at std u.psk_bytes (now / minute) nonce)
        ⊎ (client_hmac ≡ mac_at std u.psk_bytes ((now / minute + 2 ^ 64 - 1) % 2 ^ 64) nonce)

  matches-coded :
      (u : UserRecord) (client_hmac nonce : Bytes) (current : ℕ)
      → (matches std u client_hmac nonce current ≡ true) ↔ (
          (client_hmac ≡ mac_at std u.psk_bytes current nonce)
          ⊎ (client_hmac ≡ mac_at std u.psk_bytes ((current + 2 ^ 64 - 1) % 2 ^ 64) nonce))
  unfolding matches
  matches-coded u client_hmac nonce current = (
    λ h. ground (
      arith,
      h,
      bytes_beq_iff client_hmac (mac_at std u.psk_bytes current nonce),
      bytes_beq_iff client_hmac (mac_at std u.psk_bytes ((current + 2 ^ 64 - 1) % 2 ^ 64) nonce),
    ),
    λ h. ground (
      arith,
      h,
      bytes_beq_iff client_hmac (mac_at std u.psk_bytes current nonce),
      bytes_beq_iff client_hmac (mac_at std u.psk_bytes ((current + 2 ^ 64 - 1) % 2 ^ 64) nonce),
    ),
  )

  abbrev Found : List (String × UserRecord) → Bytes → Bytes → ℕ → UserRecord → Type 0
  Found us client_hmac nonce now u = IsUser u us × Admits u client_hmac nonce now

  find_user-Found :
      (us : List (String × UserRecord)) (client_hmac nonce : Bytes) (now : ℕ)
      → OnSome (Found us client_hmac nonce now) (find_user std us client_hmac nonce now)
  unfolding find_user
  find_user-Found [] client_hmac nonce now = tt
  find_user-Found ((id, v) ∷ us) client_hmac nonce now =
      let later =
        OnSome-mono (Found us client_hmac nonce now) (Found ((id, v) ∷ us) client_hmac nonce now) _
          (λ u f. (there f.0, f.1)) (find_user-Found us client_hmac nonce now) in
      elim (Bool-cases (is_expired std v now)) [
        | inl gone ↦ rw gone later
        | inr alive ↦ elim (Bool-cases (matches std v client_hmac nonce (now / minute))) [
          | inl fits ↦
              rw (alive, fits)
                (
                  here,
                  record {
                    unexpired = alive;
                    coded = (matches-coded v client_hmac nonce (now / minute)).0 fits;
                  },
                )
          | inr other ↦ rw (alive, other) later
        ]
      ]

  find_user_complete :
      (u : UserRecord) (us : List (String × UserRecord)) (client_hmac nonce : Bytes) (now : ℕ)
      → IsUser u us
      → Admits u client_hmac nonce now
      → find_user std us client_hmac nonce now ≢ none
  unfolding find_user
  find_user_complete u us client_hmac nonce now here a =
      rw (a.unexpired, (matches-coded u client_hmac nonce (now / minute)).1 a.coded) (λ e. cc e)
  find_user_complete u us client_hmac nonce now (there {p = (id, v)} {us = rest} m) a =
      let later = find_user_complete u rest client_hmac nonce now m a in ground (arith, later)

  session_for-OnOk :
      (P : UserRecord → Type 0) (ip : String) (o : Option UserRecord)
      → OnSome P o
      → OnOk (λ (s : AuthSession). P s.user) (session_for ip o)
  session_for-OnOk P ip none h = tt
  session_for-OnOk P ip (some u) h = h

  abbrev LetIn : AuthManager → Bytes → String → ℕ → ℕ → UserRecord → Type 0
  LetIn am auth_data ip rate_now now u =
      (56 ≤ length auth_data)
      × ((check_rate_limit am.auth_rates ip rate_now).1 ≡ true)
      × IsUser u am.users
      × Admits u (take 32 auth_data) (take 24 (drop 32 auth_data)) now

  validate_auth-OnOk :
      (P : UserRecord → Type 0) (am : AuthManager) (auth_data : Bytes) (ip : String)
      (rate_now now : ℕ)
      → ((u : UserRecord)
          → 56 ≤ length auth_data
          → (check_rate_limit am.auth_rates ip rate_now).1 ≡ true
          → Found am.users (take 32 auth_data) (take 24 (drop 32 auth_data)) now u
          → P u)
      → OnOk (λ (s : AuthSession). P s.user) (validate_auth std am auth_data ip rate_now now).1
  unfolding validate_auth
  validate_auth-OnOk P am auth_data ip rate_now now f =
      elim (Bool-cases (check_rate_limit am.auth_rates ip rate_now).1) [
        | inr limited ↦ rw limited tt
        | inl passed ↦ elim (Bool-cases (ltb (length auth_data) 56)) [
          | inl short ↦ rw (passed, short) tt
          | inr long ↦
              rw (passed, long)
                (session_for-OnOk P ip _ (
                  OnSome-mono (Found am.users (take 32 auth_data) (take 24 (drop 32 auth_data)) now)
                    P _ (λ u found. f u (ltb→le _ _ long) passed found)
                    (find_user-Found am.users _ _ now)))
        ]
      ]

  -- A session is only given for a payload of at least 56 bytes, within the rate limit, to a user
  -- of the table who has not expired and whose code for the present minute or the one before is
  -- the payload's first 32 bytes, over the 24 bytes that follow.
  pub validate_auth_sound :
      (am : AuthManager) (auth_data : Bytes) (ip : String) (rate_now now : ℕ) (s : AuthSession)
      → (validate_auth std am auth_data ip rate_now now).1 ≡ ok s
      → (56 ≤ length auth_data)
        × ((check_rate_limit am.auth_rates ip rate_now).1 ≡ true)
        × IsUser s.user am.users
        × Admits s.user (take 32 auth_data) (take 24 (drop 32 auth_data)) now
  unfolding validate_auth
  validate_auth_sound am auth_data ip rate_now now s h =
      OnOk-apply (λ (t : AuthSession). LetIn am auth_data ip rate_now now t.user) _ s
        (validate_auth-OnOk (LetIn am auth_data ip rate_now now) am auth_data ip rate_now now
          (λ u long passed found. (long, passed, found.0, found.1)))
        h

  length-payload :
      (psk nonce : Bytes) (sent : ℕ)
      → length nonce ≡ 24
      → length (generate_auth_payload std psk nonce sent) ≡ 56
  unfolding generate_auth_payload
  length-payload psk nonce sent h = omega (
    arith,
    length-append (mac_at std (std.sha256 psk) (sent / minute) nonce) nonce,
    std.length-hmac (std.sha256 psk) (put_u64 (sent / minute) ++ nonce),
  )

  payload_parts :
      (psk nonce : Bytes) (sent : ℕ)
      → length nonce ≡ 24
      → (take 32 (generate_auth_payload std psk nonce sent)
          ≡ mac_at std (std.sha256 psk) (sent / minute) nonce)
        × (take 24 (drop 32 (generate_auth_payload std psk nonce sent)) ≡ nonce)
  unfolding generate_auth_payload
  payload_parts psk nonce sent h =
      let n = std.length-hmac (std.sha256 psk) (put_u64 (sent / minute) ++ nonce) in
      (
        take-append 32 _ nonce n,
        ap (take 24) (drop-append 32 _ nonce n) ∙ take_all 24 nonce (omega arith),
      )

  -- A payload that GenerateAuthPayload made with a user's secret is accepted in the minute in
  -- which it was made and in the next one, if the user is in the table under the hash of that
  -- secret and has not expired, and the address is within its rate limit.
  pub validate_auth-generate_auth_payload :
      (am : AuthManager) (u : UserRecord) (psk nonce : Bytes) (ip : String) (sent rate_now now : ℕ)
      → IsUser u am.users
      → u.psk_bytes ≡ std.sha256 psk
      → length nonce ≡ 24
      → is_expired std u now ≡ false
      → (check_rate_limit am.auth_rates ip rate_now).1 ≡ true
      → sent / minute < 2 ^ 64
      → (now / minute ≡ sent / minute) ⊎ (now / minute ≡ sent / minute + 1)
      → (s : AuthSession) × ((validate_auth std am
            (generate_auth_payload std psk nonce sent)
            ip
            rate_now
            now).1
          ≡ ok s)
  unfolding validate_auth
  validate_auth-generate_auth_payload am u psk nonce ip sent rate_now now m key n alive passed small
        near =
      let p = generate_auth_payload std psk nonce sent in
      let (code, rest) = payload_parts psk nonce sent n in
      let same : mac_at std (std.sha256 psk) (sent / minute) nonce
          ≡ mac_at std u.psk_bytes (sent / minute) (take 24 (drop 32 p)) =
        cc (key, rest) in
      let previous : now / minute ≡ sent / minute + 1
          → (now / minute + 2 ^ 64 - 1) % 2 ^ 64 ≡ sent / minute =
        λ e. omega arith in
      let at_minute = λ (t : ℕ). mac_at std u.psk_bytes t (take 24 (drop 32 p)) in
      let admitted : Admits u (take 32 p) (take 24 (drop 32 p)) now = record {
        unexpired = alive;
        coded = elim near [
          | inl e ↦ inl (code ∙ same ∙ ap at_minute (sym e))
          | inr e ↦ inr (code ∙ same ∙ ap at_minute (sym (previous e)))
        ];
      } in
      let long : ltb (length p) 56 ≡ false =
        le→ltb _ _ (omega (arith, length-payload psk nonce sent n)) in
      elim (Option-cases (find_user std am.users (take 32 p) (take 24 (drop 32 p)) now)) [
        | inl missing ↦
            absurd (
              find_user_complete u am.users (take 32 p) (take 24 (drop 32 p)) now m admitted
                missing)
        | inr (v, found) ↦ (record { user = v; remote_ip = ip }, rw (passed, long, found))
      ]
