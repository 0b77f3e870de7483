-- ===== src/Runs/Instances.antt =====
-- A text form of addresses and a set of hashes that keep what the models ask of them: an address
-- is its own text, a hash is its message, and a code is the first 32 bytes of the key and message.
use stealthlink.Prelude.{
  Bytes, arith, length, length-append, length-take, none, refl, replicate, some, take, ◌++◌, ◌≡◌,
}
use stealthlink.Wire.Net.{IpText, to4, to16}
use stealthlink.Auth.Manager.{Crypto}

pub plain-format4 :
    (ip : Bytes) → length ip ≡ 4 → (p : Bytes) × (some ip ≡ some p) × (to4 p ≡ some ip)
unfolding to4
plain-format4 ip h = (ip, refl, ground (arith, h))

pub plain-format16 :
    (ip : Bytes) → length ip ≡ 16 → (p : Bytes) × (some ip ≡ some p) × (to16 p ≡ some ip)
unfolding to16
plain-format16 ip h = (ip, refl, ground (arith, h))

abbrev pub plain_text : IpText
plain_text = record {
  format = λ ip. ip;
  parse = some;
  parse-format4 = plain-format4;
  parse-format16 = plain-format16;
}

abbrev code : Bytes → Bytes → Bytes
code key message = take 32 (key ++ message ++ replicate 32 0)

length-padded :
    (key message zeros : Bytes)
    → length zeros ≡ 32
    → length (take 32 (key ++ message ++ zeros)) ≡ 32
length-padded key message zeros h = omega (
  arith,
  length-take 32 (key ++ message ++ zeros),
  length-append (key ++ message) zeros,
  length-append key message,
)

pub length-code : (key message : Bytes) → length (code key message) ≡ 32
length-code key message = length-padded key message (replicate 32 0) refl

abbrev pub plain_crypto : Crypto
plain_crypto = record {
  sha256 = λ bytes. bytes;
  hmac = code;
  parse_time = λ text. none;
  length-hmac = length-code;
}
