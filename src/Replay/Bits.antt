-- ===== src/Replay/Bits.antt =====
-- Single bits of a word under `|` and `&`, from the digit-wise meaning of the native operations.
use Prim.Native.Nat.{digits, bitwise, bit_and, bit_or, bit_and-bitwise, bit_or-bitwise}
use native.Mathlib.Nat.{pow-suc}
use stealthlink.Prelude.{
  Bool, ap, arith, max, min, not, refl, suc, true, zero, ℕ, ◌%◌, ◌*◌, ◌+◌, ◌/◌, ◌<◌, ◌==◌, ◌^◌, ◌≡◌,
  ◌≤◌,
}

-- Any fuel that covers the first number gives the same digits.
module _ (z : ℕ → ℕ) (f : ℕ → ℕ → ℕ) where
  enough_fuel : (n m a b : ℕ) → a ≤ n → a ≤ m → digits z f n a b ≡ digits z f m a b
  enough_fuel zero zero zero b p q = refl
  enough_fuel zero zero (suc a) b p q = absurd (omega arith)
  enough_fuel zero (suc m) zero b p q = refl
  enough_fuel zero (suc m) (suc a) b p q = absurd (omega arith)
  enough_fuel (suc n) zero zero b p q = refl
  enough_fuel (suc n) zero (suc a) b p q = absurd (omega arith)
  enough_fuel (suc n) (suc m) zero b p q = refl
  enough_fuel (suc n) (suc m) (suc a) b p q =
      ap (λ (d : ℕ). d * 2 + f (suc a % 2) (b % 2))
        (enough_fuel n m (suc a / 2) (b / 2) (omega arith) (omega arith))

  lowest_digit :
      (a b : ℕ)
      → bitwise z f (suc a) b ≡ bitwise z f (suc a / 2) (b / 2) * 2 + f (suc a % 2) (b % 2)
  lowest_digit a b =
      ap (λ (d : ℕ). d * 2 + f (suc a % 2) (b % 2))
        (enough_fuel a (suc a / 2) (suc a / 2) (b / 2) (omega arith) (omega arith))

or_digit : (a b : ℕ) → bit_or a b ≡ bit_or (a / 2) (b / 2) * 2 + max (a % 2) (b % 2)
or_digit zero b = simp bit_or-bitwise (omega arith)
or_digit (suc a) b = simp bit_or-bitwise (lowest_digit (λ y. y) max a b)

and_digit : (a b : ℕ) → bit_and a b ≡ bit_and (a / 2) (b / 2) * 2 + min (a % 2) (b % 2)
and_digit zero b = simp bit_and-bitwise (omega arith)
and_digit (suc a) b = simp bit_and-bitwise (lowest_digit (λ y. 0) min a b)

-- The test of the source, `w & (1 << i) == 0`, negated.
abbrev pub has_bit : ℕ → ℕ → Bool
has_bit w i = not (bit_and w (2 ^ i) == 0)

bit_and-zero : (n a : ℕ) → a ≤ n → bit_and a 0 ≡ 0
bit_and-zero zero zero h = refl
bit_and-zero zero (suc a) h = absurd (omega arith)
bit_and-zero (suc n) zero h = refl
bit_and-zero (suc n) (suc a) h =
    omega (arith, and_digit (suc a) 0, bit_and-zero n (suc a / 2) (omega arith))

half_of_power : (i : ℕ) → (2 ^ suc i / 2 ≡ 2 ^ i) × (2 ^ suc i % 2 ≡ 0)
half_of_power i = omega (arith, pow-suc 2 i)

-- A bit above the lowest is a bit of the half.
and_next : (w i : ℕ) → bit_and w (2 ^ suc i) ≡ bit_and (w / 2) (2 ^ i) * 2
and_next w i = ground (arith, and_digit w (2 ^ suc i), half_of_power i)

and_lowest : (w : ℕ) → bit_and w 1 ≡ w % 2
and_lowest w = omega (arith, and_digit w 1, bit_and-zero (w / 2) (w / 2) (omega arith))

or_half :
    (a b : ℕ) → (bit_or a b / 2 ≡ bit_or (a / 2) (b / 2)) × (bit_or a b % 2 ≡ max (a % 2) (b % 2))
or_half a b = omega (arith, or_digit a b)

-- A bit that is set stays set when more are.
and-or_mono : (i w x : ℕ) → 0 < bit_and w (2 ^ i) → 0 < bit_and (bit_or w x) (2 ^ i)
and-or_mono zero w x h = omega (arith, and_lowest w, and_lowest (bit_or w x), or_half w x)
and-or_mono (suc i) w x h =
    ground
      (arith, and_next w i, and_next (bit_or w x) i, or_half w x, and-or_mono i (w / 2) (x / 2))

and-or_self : (i w : ℕ) → 0 < bit_and (bit_or w (2 ^ i)) (2 ^ i)
and-or_self zero w = omega (arith, and_lowest (bit_or w 1), or_half w 1)
and-or_self (suc i) w = ground (
  arith,
  and_next (bit_or w (2 ^ suc i)) i,
  or_half w (2 ^ suc i),
  half_of_power i,
  and-or_self i (w / 2),
)

pub has_bit-or_mono : (w x i : ℕ) → has_bit w i ≡ true → has_bit (bit_or w x) i ≡ true
has_bit-or_mono w x i h = ground (arith, and-or_mono i w x)

pub has_bit-or_self : (w i : ℕ) → has_bit (bit_or w (2 ^ i)) i ≡ true
has_bit-or_self w i = ground (arith, and-or_self i w)

-- A word of `n` bits stays one.
pub bit_or-lt : (n a b : ℕ) → a < 2 ^ n → b < 2 ^ n → bit_or a b < 2 ^ n
bit_or-lt zero zero zero h k = omega arith
bit_or-lt zero (suc a) b h k = absurd (omega arith)
bit_or-lt zero zero (suc b) h k = absurd (omega arith)
bit_or-lt (suc n) a b h k = omega (
  arith,
  pow-suc 2 n,
  or_digit a b,
  bit_or-lt n (a / 2) (b / 2) (omega (arith, pow-suc 2 n)) (omega (arith, pow-suc 2 n)),
)
