-- ===== src/Camouflage/Equivalence.antt =====
-- The payloads that camouflage.go finds in a first Read, against handleTLSConnection of server.go.
use stealthlink.Prelude.{Bool, Bytes, String, ℕ}
use stealthlink.Server.{Ending, Server}
use stealthlink.Wire.Address.{Decoded}
use stealthlink.Wire.Net.{IpText}
use stealthlink.Auth.Manager.{Crypto}
use stealthlink.Camouflage.{CamouflageEnding, CamouflageServer, HttpText, handed_over}

module _ (text : HttpText) (response : Bytes) (std : Crypto) (net : IpText)
    (dials : Bool → Decoded → Bool) (cs : CamouflageServer) (ip : String) (rate_now now : ℕ) where
  -- How handleTLSConnection ends, as an ending of the disguise.
  abbrev pub as_handed_over : Server × Bytes × Ending → CamouflageServer × CamouflageEnding
  as_handed_over (s, answer, ending) = (record cs { server = s }, handed_over answer ending)
