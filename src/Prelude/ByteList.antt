-- ===== src/Prelude/ByteList.antt =====
-- Bytes, big-endian 16-bit numbers (encoding/binary), and a stream of bytes that ends (io.ReadFull).
use Prim.Native.Nat.{ℕ, zero, suc, ◌+◌, ◌*◌, ◌/◌, ◌%◌, ◌^◌, ◌<◌, ◌≤◌}
use mathlib.Core.Path.{◌≡◌, refl, ap}
use mathlib.Core.Bool.{true, false}
use mathlib.Core.Logic.{inl, inr}
use mathlib.Core.List.{List, [], ◌∷◌, ◌++◌}
use native.Mathlib.Omega.{arith}
use package.stealthlink.Prelude.Tests.{Bool-cases, ltb, ◌==◌, if◌then◌else◌}
use package.stealthlink.Prelude.Lists.{
  length, length-append, take, drop, take-append, drop-append, All,
}
use package.stealthlink.Prelude.Outcome.{Result, ok, err}

abbrev pub Bytes : Type 0
Bytes = List ℕ

abbrev pub IsByte : ℕ → Type 0
IsByte b = b < 256

abbrev pub IsU16 : ℕ → Type 0
IsU16 n = n < 65536

-- binary.BigEndian.PutUint16 into two fresh bytes, of a number that was converted to uint16.
unfoldable pub put_u16 : ℕ → Bytes
put_u16 n = (n / 256 % 256) ∷ (n % 256) ∷ []

-- binary.BigEndian.Uint16. The callers check that two bytes are there.
unfoldable pub get_u16 : Bytes → ℕ
get_u16 [] = 0
get_u16 (a ∷ []) = 0
get_u16 (a ∷ b ∷ rest) = a * 256 + b

pub get_u16-put_u16 : (n : ℕ) (rest : Bytes) → IsU16 n → get_u16 (put_u16 n ++ rest) ≡ n
unfolding get_u16 put_u16
get_u16-put_u16 n rest h = omega arith

pub length-put_u16 : (n : ℕ) → length (put_u16 n) ≡ 2
unfolding put_u16
length-put_u16 n = refl

pub put_u16-IsByte : (n : ℕ) → All IsByte (put_u16 n)
unfolding put_u16
put_u16-IsByte n = omega arith

-- Two bytes are what their number is written as.
pub put_u16-get_u16 :
    (xs : Bytes) → All IsByte xs → 2 ≤ length xs → put_u16 (get_u16 xs) ++ drop 2 xs ≡ xs
unfolding put_u16 get_u16
put_u16-get_u16 [] h k = absurd (omega arith)
put_u16-get_u16 (a ∷ []) h k = absurd (omega arith)
put_u16-get_u16 (a ∷ b ∷ xs) h k = ground arith

-- io.EOF: nothing was left. io.ErrUnexpectedEOF: less than asked for was left.
pub data ReadError : Type 0 where
  eof unexpected_eof : ReadError

-- io.ReadFull of `n` bytes from a stream whose remaining bytes are `s`.
unfoldable pub read_full : ℕ → Bytes → Result ReadError (Bytes × Bytes)
read_full n s =
    if ltb (length s) n
    then (if length s == 0 then err eof else err unexpected_eof)
    else ok (take n s, drop n s)

pub read_full-append : (n : ℕ) (xs s : Bytes) → length xs ≡ n → read_full n (xs ++ s) ≡ ok (xs, s)
unfolding read_full
read_full-append n xs s h =
    ground (arith, length-append xs s, take-append n xs s h, drop-append n xs s h)

pub read_full_short :
    (n : ℕ) (s : Bytes) → ltb (length s) n ≡ true → (e : ReadError) × (read_full n s ≡ err e)
unfolding read_full
read_full_short n s h = elim (Bool-cases (length s == 0)) [
  | inl none_left ↦ (eof, rw (h, none_left))
  | inr some_left ↦ (unexpected_eof, rw (h, some_left))
]

pub read_full_long :
    (n : ℕ) (s : Bytes) → ltb (length s) n ≡ false → read_full n s ≡ ok (take n s, drop n s)
unfolding read_full
read_full_long n s h = rw h

-- The first `n` of the first `n + k` bytes, and the number behind them.
pub take-take_add : (n k : ℕ) (s : Bytes) → take n (take (n + k) s) ≡ take n s
take-take_add zero k s = refl
take-take_add (suc n) k [] = let e : suc n + k ≡ suc (n + k) = omega arith in rw e
take-take_add (suc n) k (x ∷ s) =
    let e : suc n + k ≡ suc (n + k) = omega arith in rw e (ap (◌∷◌ x) (take-take_add n k s))

pub get_u16-drop-take_add :
    (n : ℕ) (s : Bytes) → get_u16 (drop n (take (n + 2) s)) ≡ get_u16 (drop n s)
unfolding get_u16
get_u16-drop-take_add zero [] = refl
get_u16-drop-take_add zero (a ∷ []) = refl
get_u16-drop-take_add zero (a ∷ b ∷ s) = refl
get_u16-drop-take_add (suc n) [] = let e : suc n + 2 ≡ suc (n + 2) = omega arith in rw e
get_u16-drop-take_add (suc n) (x ∷ s) =
    let e : suc n + 2 ≡ suc (n + 2) = omega arith in rw e (get_u16-drop-take_add n s)

-- binary.BigEndian.PutUint64.
unfoldable pub put_u64 : ℕ → Bytes
put_u64 n =
    (n / 2 ^ 56 % 256)
    ∷ (n / 2 ^ 48 % 256)
    ∷ (n / 2 ^ 40 % 256)
    ∷ (n / 2 ^ 32 % 256)
    ∷ (n / 2 ^ 24 % 256)
    ∷ (n / 2 ^ 16 % 256)
    ∷ (n / 2 ^ 8 % 256)
    ∷ (n % 256)
    ∷ []

-- The number that the bytes are the digits of, behind those of `high`.
abbrev pub big_endian : ℕ → Bytes → ℕ
big_endian high [] = high
big_endian high (b ∷ bytes) = big_endian (high * 256 + b) bytes

-- binary.BigEndian.Uint64. The callers check that eight bytes are there.
unfoldable pub get_u64 : Bytes → ℕ
get_u64 bytes = big_endian 0 (take 8 bytes)

pub get_u64-put_u64 : (n : ℕ) → n < 2 ^ 64 → get_u64 (put_u64 n) ≡ n
unfolding get_u64 put_u64
get_u64-put_u64 n h =
    let a : 0 * 256 + n / 2 ^ 56 % 256 ≡ n / 2 ^ 56 = omega arith in
    let b : n / 2 ^ 56 * 256 + n / 2 ^ 48 % 256 ≡ n / 2 ^ 48 = omega arith in
    let c : n / 2 ^ 48 * 256 + n / 2 ^ 40 % 256 ≡ n / 2 ^ 40 = omega arith in
    let d : n / 2 ^ 40 * 256 + n / 2 ^ 32 % 256 ≡ n / 2 ^ 32 = omega arith in
    let e : n / 2 ^ 32 * 256 + n / 2 ^ 24 % 256 ≡ n / 2 ^ 24 = omega arith in
    let f : n / 2 ^ 24 * 256 + n / 2 ^ 16 % 256 ≡ n / 2 ^ 16 = omega arith in
    let g : n / 2 ^ 16 * 256 + n / 2 ^ 8 % 256 ≡ n / 2 ^ 8 = omega arith in
    let i : n / 2 ^ 8 * 256 + n % 256 ≡ n = omega arith in rw (a, b, c, d, e, f, g, i) refl

pub length-put_u64 : (n : ℕ) → length (put_u64 n) ≡ 8
unfolding put_u64
length-put_u64 n = refl
