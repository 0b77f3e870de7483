-- ===== src/Runs/Sealed.antt =====
-- Hellos that the dispatcher takes for its own, under functions that hide nothing.
use stealthlink.Prelude.{
  Bytes, [], ap, arith, drop, get_u64, length, length-append, put_u64, refl, replicate, some, take,
  take-append, true, ℕ, ◌++◌, ◌-◌, ◌∷◌, ◌≡◌,
}
use stealthlink.Peeking.{hello_random}
use stealthlink.Reality.Matching.{matches_hello_sound, Fresh, matches_hello-reality_seal, hello_of}
use stealthlink.Reality.{
  is_allowed, reality_open, reality_seal, Dispatcher, is_reality_client_hello, RealityCrypto,
  matches_hello,
}

abbrev shown : Bytes → Bytes
shown box = take (length box - 16) box

shown-append : (plain : Bytes) → some (shown (plain ++ replicate 16 0)) ≡ some plain
shown-append plain = ap some (
    take-append (length (plain ++ replicate 16 0) - 16) plain (replicate 16 0)
      (omega (arith, length-append plain (replicate 16 0))))

abbrev open_crypto : RealityCrypto
open_crypto = record {
  public_key = λ key. replicate 32 9;
  ecdh = λ a b. some (1 ∷ []);
  hkdf = λ secret n. replicate n 5;
  gcm_seal = λ key nonce plain. plain ++ replicate 16 0;
  gcm_open = λ key nonce box. some (shown box);
  length-public_key = λ key. refl;
  ecdh_comm = λ a b. refl;
  length-gcm_seal = λ key nonce plain. length-append plain (replicate 16 0);
  gcm_open-gcm_seal = λ key nonce plain. shown-append plain;
}

abbrev some_sid : Bytes
some_sid = replicate 8 3

abbrev some_dispatcher : Dispatcher
some_dispatcher = record { priv = 2 ∷ []; allowed = some_sid ∷ [] }

abbrev some_box : Bytes
some_box = some_sid ++ (replicate 7 0 ++ (5 ∷ replicate 16 0))

abbrev some_head : Bytes
some_head = 22 ∷ 3 ∷ 1 ∷ 0 ∷ 80 ∷ 1 ∷ 0 ∷ 0 ∷ 76 ∷ 3 ∷ 3 ∷ []

sealed : reality_seal open_crypto (1 ∷ []) some_sid 5 ≡ some some_box
unfolding reality_seal put_u64
sealed = refl

abbrev some_hello : Bytes
some_hello = hello_of open_crypto some_head some_box (replicate 32 9) (7 ∷ [])

matches_hello-reality_seal_example :
    matches_hello open_crypto some_dispatcher 18000 some_hello ≡ true
matches_hello-reality_seal_example =
    matches_hello-reality_seal open_crypto some_dispatcher 18000 5 (4 ∷ []) some_sid (1 ∷ [])
      some_box some_head (7 ∷ []) refl sealed refl refl (omega arith) (omega arith, omega arith)
      refl refl refl

taken : matches_hello open_crypto some_dispatcher 18000 some_hello ≡ true
unfolding matches_hello get_u64
taken = refl

matches_hello_sound_example :
    (is_reality_client_hello some_hello ≡ true)
    × ((shared : Bytes) × (open_crypto.ecdh some_dispatcher.priv (take 32 (drop 44 some_hello))
          ≡ some shared)
        × ((sid : Bytes) × ((hour : ℕ) × (reality_open open_crypto shared (hello_random some_hello)
                ≡ some (sid, hour))
              × (is_allowed sid some_dispatcher.allowed ≡ true)
              × Fresh open_crypto hour 18000)))
matches_hello_sound_example = matches_hello_sound open_crypto some_dispatcher 18000 some_hello taken
