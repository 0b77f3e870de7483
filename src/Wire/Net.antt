-- ===== src/Wire/Net.antt =====
-- What the transport uses of Go's package net: the text of an IP address, and the two forms of one.
use stealthlink.Prelude.{
  Bool, Bytes, Option, [], drop, if◌then◌else◌, length, none, replicate, some, ◌&&◌, ◌++◌, ◌==◌,
  ◌∷◌, ◌≡◌,
}

-- net.IP.To4: four bytes as they are, or the end of an IPv4-mapped address of sixteen.
unfoldable pub mapped_prefix : Bytes → Bool
mapped_prefix (a ∷ b ∷ c ∷ d ∷ e ∷ f ∷ g ∷ h ∷ i ∷ j ∷ k ∷ l ∷ rest) =
    a == 0
    && b == 0
    && c == 0
    && d == 0
    && e == 0
    && f == 0
    && g == 0
    && h == 0
    && i == 0
    && j == 0
    && k == 0xff
    && l == 0xff
mapped_prefix _ = Bool.false

unfoldable pub to4 : Bytes → Option Bytes
unfolding mapped_prefix
to4 ip =
    if length ip == 4
    then some ip
    else if length ip == 16 && mapped_prefix ip
    then some (drop 12 ip)
    else none

-- net.IP.To16.
unfoldable pub to16 : Bytes → Option Bytes
to16 ip =
    if length ip == 4
    then some (replicate 10 0 ++ (0xff ∷ 0xff ∷ []) ++ ip)
    else if length ip == 16
    then some ip
    else none

-- net.IP.String and net.ParseIP, by what the package documents: the text of an address of four
-- or of sixteen bytes is parsed back to that address. Texts are the bytes of Go strings.
pub record IpText : Type 0 where
  pub format : Bytes → Bytes
  pub parse : Bytes → Option Bytes
  pub parse-format4 :
      (ip : Bytes) → length ip ≡ 4 → (p : Bytes) × (parse (format ip) ≡ some p) × (to4 p ≡ some ip)
  pub parse-format16 :
      (ip : Bytes)
      → length ip ≡ 16
      → (p : Bytes) × (parse (format ip) ≡ some p) × (to16 p ≡ some ip)
