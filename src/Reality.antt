-- ===== src/Reality.antt =====
-- The dispatcher of reality.go: a ClientHello whose random bytes hold a sealed short identifier and
-- the hour, under a key that the session identifier of the hello shares with the server. X25519,
-- AES-GCM and HKDF with the program's information string come from other packages.
pub mod Matching
use stealthlink.Prelude.{
  Bool, Bytes, List, Option, [], bytes_beq, drop, false, get_or, get_u64, if◌then◌else◌, leb,
  length, map, none, put_u64, replicate, some, take, ℕ, ◌&&◌, ◌++◌, ◌+◌, ◌/◌, ◌==◌, ◌||◌, ◌∷◌, ◌≡◌,
}
use stealthlink.Replay.Filter.{ReplayFilter}
use mathlib.Core.Option
use stealthlink.Peeking.{Arrival, PeekingConn, admit_reality, hello_random}

pub record RealityCrypto : Type 0 where
  pub public_key : Bytes → Bytes
  -- ECDH of a private and a public key, `none` for an error.
  pub ecdh : Bytes → Bytes → Option Bytes
  -- The first bytes that HKDF makes of a secret.
  pub hkdf : Bytes → ℕ → Bytes
  -- AES-GCM with a key and a nonce.
  pub gcm_seal : Bytes → Bytes → Bytes → Bytes
  pub gcm_open : Bytes → Bytes → Bytes → Option Bytes
  pub length-public_key : (key : Bytes) → length (public_key key) ≡ 32
  pub ecdh_comm : (a b : Bytes) → ecdh a (public_key b) ≡ ecdh b (public_key a)
  pub length-gcm_seal :
      (key nonce plain : Bytes) → length (gcm_seal key nonce plain) ≡ length plain + 16
  pub gcm_open-gcm_seal :
      (key nonce plain : Bytes) → gcm_open key nonce (gcm_seal key nonce plain) ≡ some plain

pub record Dispatcher : Type 0 where
  pub priv : Bytes
  pub allowed : List Bytes

-- What the dispatcher does with a connection: TLS with its own certificate, or a relay to the
-- real site.
pub data Route : Type 0 where
  to_tls to_dest : PeekingConn → Route

abbrev pub reality_short_id_len : ℕ
reality_short_id_len = 8

abbrev pub is_allowed : Bytes → List Bytes → Bool
is_allowed sid [] = false
is_allowed sid (a ∷ ids) = bytes_beq a sid || is_allowed sid ids

-- new_reality_dispatcher: with no identifier configured, the one of zeros is allowed.
unfoldable pub allowed_ids : List Bytes → List Bytes
allowed_ids [] = replicate reality_short_id_len 0 ∷ []
allowed_ids (sid ∷ ids) = sid ∷ ids

unfoldable pub is_reality_client_hello : Bytes → Bool
is_reality_client_hello peek =
    leb 76 (length peek)
    && get_or peek 0 0 == 0x16
    && get_or peek 5 0 == 0x01
    && get_or peek 43 0 == 32

-- `now` is in seconds. An hour of 2 ^ 63 and more, which is negative as an int64, is not fresh
-- either way.
unfoldable pub reality_hour_fresh : ℕ → ℕ → Bool
reality_hour_fresh hour now = hour == now / 3600 || hour + 1 == now / 3600 || hour == now / 3600 + 1

module _ (std : RealityCrypto) where
  open std use {ecdh, hkdf, gcm_seal, gcm_open}

  unfoldable pub reality_derive : Bytes → Bytes × Bytes
  reality_derive shared = let r = hkdf shared 44 in (take 32 r, take 12 (drop 32 r))

  unfoldable pub reality_seal : Bytes → Bytes → ℕ → Option Bytes
  unfolding reality_derive
  reality_seal shared sid hour =
      let (key, nonce) = reality_derive shared in
      let ct = gcm_seal key nonce (sid ++ put_u64 hour) in if length ct == 32 then some ct else none

  abbrev sid_and_hour : Option Bytes → Option (Bytes × ℕ)
  sid_and_hour none = none
  sid_and_hour (some pt) =
      if length pt == 16
      then some (take reality_short_id_len pt, get_u64 (drop reality_short_id_len pt))
      else none

  unfoldable pub reality_open : Bytes → Bytes → Option (Bytes × ℕ)
  unfolding reality_derive
  reality_open shared box =
      let (key, nonce) = reality_derive shared in sid_and_hour (gcm_open key nonce box)

  abbrev pub match_opened : List Bytes → ℕ → Option (Bytes × ℕ) → Bool
  match_opened allowed now none = false
  match_opened allowed now (some (sid, hour)) =
      is_allowed sid allowed && reality_hour_fresh hour now

  abbrev pub match_shared : List Bytes → ℕ → Bytes → Option Bytes → Bool
  match_shared allowed now box none = false
  match_shared allowed now box (some shared) = match_opened allowed now (reality_open shared box)

  -- NewPublicKey takes any 32 bytes.
  unfoldable pub matches_hello : Dispatcher → ℕ → Bytes → Bool
  unfolding is_reality_client_hello reality_open reality_hour_fresh
  matches_hello d now peek =
      is_reality_client_hello peek
      && match_shared d.allowed now (hello_random peek) (ecdh d.priv (take 32 (drop 44 peek)))

  unfoldable pub accept : Dispatcher → ℕ → PeekingConn → Route
  unfolding matches_hello
  accept d now c = if matches_hello d now c.peek_buf then to_tls c else to_dest c

  -- `none` is a connection that was closed.
  unfoldable pub handle_reality_connection :
      Dispatcher → ℕ → ReplayFilter → List Arrival → ReplayFilter × Option Route
  unfolding admit_reality accept
  handle_reality_connection d now rf conn =
      let (rf', admitted) = admit_reality rf conn in (rf', Option.map (accept d now) admitted)
