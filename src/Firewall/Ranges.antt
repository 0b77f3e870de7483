-- ===== src/Firewall/Ranges.antt =====
-- The private ranges of NewFirewall in firewall.go, and net.IPNet.Contains over them.
use Prim.Native.Nat.{bit_and}
use stealthlink.Prelude.{
  ==_iff, Bool, Bytes, List, Option, [], arith, false, leb, ltb, none, refl, replicate, some, suc,
  true, zero, ℕ, ◌&&◌, ◌*◌, ◌++◌, ◌/◌, ◌<◌, ◌==◌, ◌||◌, ◌∷◌, ◌≡◌,
}
use stealthlink.Wire.Net.{to4}

pub record IpNet : Type 0 where
  pub network : Bytes
  pub mask : Bytes

abbrev zeros : ℕ → Bytes
zeros n = replicate n 0

-- What net.ParseCIDR makes of the eight texts of the source.
abbrev pub private_ranges : List IpNet
private_ranges =
    record { network = 10 ∷ 0 ∷ 0 ∷ 0 ∷ []; mask = 255 ∷ 0 ∷ 0 ∷ 0 ∷ [] }
    ∷ record { network = 172 ∷ 16 ∷ 0 ∷ 0 ∷ []; mask = 255 ∷ 240 ∷ 0 ∷ 0 ∷ [] }
    ∷ record { network = 192 ∷ 168 ∷ 0 ∷ 0 ∷ []; mask = 255 ∷ 255 ∷ 0 ∷ 0 ∷ [] }
    ∷ record { network = 127 ∷ 0 ∷ 0 ∷ 0 ∷ []; mask = 255 ∷ 0 ∷ 0 ∷ 0 ∷ [] }
    ∷ record { network = 169 ∷ 254 ∷ 0 ∷ 0 ∷ []; mask = 255 ∷ 255 ∷ 0 ∷ 0 ∷ [] }
    ∷ record { network = 0xfc ∷ zeros 15; mask = 0xfe ∷ zeros 15 }
    ∷ record { network = 0xfe ∷ 0x80 ∷ zeros 14; mask = 0xff ∷ 0xc0 ∷ zeros 14 }
    ∷ record { network = zeros 15 ++ (1 ∷ []); mask = replicate 16 0xff }
    ∷ []

-- net.IPNet.Contains: an address of the other family is outside.
unfoldable pub masked_equal : Bytes → Bytes → Bytes → Bool
masked_equal (n ∷ ns) (m ∷ ms) (b ∷ bs) = (bit_and n m == bit_and b m) && masked_equal ns ms bs
masked_equal [] [] [] = true
masked_equal _ _ _ = false

abbrev shortened : Bytes → Option Bytes → Bytes
shortened ip none = ip
shortened ip (some four) = four

unfoldable pub net_contains : IpNet → Bytes → Bool
unfolding masked_equal
net_contains net ip = masked_equal net.network net.mask (shortened ip (to4 ip))

unfoldable pub in_ranges : List IpNet → Bytes → Bool
unfolding net_contains
in_ranges [] ip = false
in_ranges (net ∷ nets) ip = net_contains net ip || in_ranges nets ip

-- The IPv4 ranges, as arithmetic on the four bytes.
unfoldable pub is_private_ipv4 : ℕ → ℕ → Bool
is_private_ipv4 a b =
    a == 10
    || a == 127
    || (a == 172 && leb 16 b && ltb b 32)
    || (a == 192 && b == 168)
    || (a == 169 && b == 254)

-- Over a byte each mask is a table.
all_bytes : ℕ → (ℕ → Bool) → Bool
all_bytes zero p = true
all_bytes (suc n) p = p n && all_bytes n p

all_bytes-apply : (n : ℕ) (p : ℕ → Bool) (x : ℕ) → all_bytes n p ≡ true → x < n → p x ≡ true
unfolding all_bytes
all_bytes-apply zero p x h lt = absurd (omega arith)
all_bytes-apply (suc n) p x h lt = ground (arith, all_bytes-apply n p x)

full_mask : (b : ℕ) → b < 256 → bit_and b 255 ≡ b
full_mask b h =
    (==_iff _ b).0 (all_bytes-apply 256 (λ x. bit_and x 255 == x) b (unfold all_bytes in refl) h)

no_mask : (b : ℕ) → b < 256 → bit_and b 0 ≡ 0
no_mask b h =
    (==_iff _ _).0 (all_bytes-apply 256 (λ x. bit_and x 0 == 0) b (unfold all_bytes in refl) h)

upper_mask : (b : ℕ) → b < 256 → bit_and b 240 ≡ b / 16 * 16
upper_mask b h =
    (==_iff _ _).0
      (all_bytes-apply 256 (λ x. bit_and x 240 == x / 16 * 16) b (unfold all_bytes in refl) h)

-- The masks of the source block exactly the five IPv4 ranges 10/8, 127/8, 172.16/12, 192.168/16
-- and 169.254/16, written as arithmetic.
pub in_ranges-is_private_ipv4 :
    (a b c d : ℕ)
    → a < 256
    → b < 256
    → c < 256
    → d < 256
    → in_ranges private_ranges (a ∷ b ∷ c ∷ d ∷ []) ≡ is_private_ipv4 a b
unfolding in_ranges is_private_ipv4 to4
in_ranges-is_private_ipv4 a b c d ha hb hc hd = ground (
  arith,
  full_mask a ha,
  full_mask b hb,
  upper_mask b hb,
  no_mask b hb,
  no_mask c hc,
  no_mask d hd,
)
