-- ===== src/Redstone/Varint.antt =====
-- The 32-bit variable-length integers of redstone.go: seven bits in a byte, lowest first, and at
-- most five bytes. An int that is written is taken as a uint32, and one that is read is an int32.
pub mod RoundTrip
use stealthlink.Prelude.{
  Bytes, Result, [], err, if◌then◌else◌, length, ltb, ok, suc, zero, ℕ, ◌%◌, ◌*◌, ◌++◌, ◌+◌, ◌-◌,
  ◌/◌, ◌==◌, ◌^◌, ◌∷◌,
}

pub data ℤ : Type 0 where
  pos : ℕ → ℤ
  negsuc : ℕ → ℤ

pub data VarintError : Type 0 where
  no_byte varint_too_long decode_failed : VarintError

-- int(int32(u)) of a uint32; `negsuc n` is -(n + 1).
abbrev pub as_int32 : ℕ → ℤ
as_int32 u = if ltb u (2 ^ 31) then pos u else negsuc (2 ^ 32 - 1 - u)

-- The loop of mc_append_varint; a uint32 has no more than five groups of seven bits.
unfoldable pub append_loop : ℕ → ℕ → Bytes
append_loop zero u = []
append_loop (suc left) u =
    let rest = append_loop left (u / 128) in
    if u / 128 == 0 then (u % 128) ∷ [] else (u % 128 + 128) ∷ rest

unfoldable pub append_varint : ℕ → Bytes
unfolding append_loop
append_varint v = append_loop 5 (v % 2 ^ 32)

-- The two loops. `scale` is 1 << shift, and the bits of `result` are below it, so that the code's
-- bitwise or is a sum.
unfoldable pub read_loop : ℕ → ℕ → ℕ → Bytes → Result VarintError (ℤ × Bytes)
read_loop zero scale result s = err varint_too_long
read_loop (suc left) scale result [] = err no_byte
read_loop (suc left) scale result (b ∷ s) =
    let more = read_loop left (scale * 128) (result + b % 128 * scale % 2 ^ 32) s in
    if ltb b 128 then ok (as_int32 (result + b % 128 * scale % 2 ^ 32), s) else more

unfoldable pub read_varint : Bytes → Result VarintError (ℤ × Bytes)
unfolding read_loop
read_varint s = read_loop 5 1 0 s

-- `i` bytes are behind the loop. It returns the value and the number of bytes that it takes.
unfoldable pub decode_loop : ℕ → ℕ → ℕ → ℕ → Bytes → Result VarintError (ℤ × ℕ)
decode_loop zero i scale result bytes = err decode_failed
decode_loop (suc left) i scale result [] = err decode_failed
decode_loop (suc left) i scale result (b ∷ bytes) =
    let more = decode_loop left (i + 1) (scale * 128) (result + b % 128 * scale % 2 ^ 32) bytes in
    if ltb b 128 then ok (as_int32 (result + b % 128 * scale % 2 ^ 32), i + 1) else more

unfoldable pub decode_varint : Bytes → Result VarintError (ℤ × ℕ)
unfolding decode_loop
decode_varint bytes = decode_loop 5 0 1 0 bytes

unfoldable pub append_string : Bytes → Bytes
unfolding append_varint
append_string s = append_varint (length s) ++ s
