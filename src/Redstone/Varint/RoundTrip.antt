-- ===== src/Redstone/Varint/RoundTrip.antt =====
-- The readers of variable-length integers against the writer.
use stealthlink.Prelude.{
  Bytes, Option, Result, [], ap, arith, drop, err, length, none, ok, refl, some, success, sym, ℕ,
  ◌%◌, ◌++◌, ◌<◌, ◌^◌, ◌∙◌, ◌∷◌, ◌≡◌, ◌≤◌,
}
use stealthlink.Redstone.Varint.{
  VarintError, decode_loop, as_int32, ℤ, read_loop, append_loop, append_varint, read_varint,
  decode_varint,
}

-- Every integer is read back from a connection as the int32 of its lowest 32 bits, and what
-- follows it is left.
pub read_varint-append_varint :
    (v : ℕ) (rest : Bytes)
    → read_varint (append_varint v ++ rest) ≡ ok (as_int32 (v % 2 ^ 32), rest)
unfolding read_varint append_varint append_loop read_loop
read_varint-append_varint v rest = ground arith

-- A written integer takes one to five bytes.
pub length-append_varint : (v : ℕ) → (0 < length (append_varint v)) × (length (append_varint v) ≤ 5)
unfolding append_varint append_loop
length-append_varint v = ground arith

abbrev pub advance : Bytes → Option (ℤ × ℕ) → Option (ℤ × Bytes)
advance s none = none
advance s (some (v, n)) = some (v, drop n s)

-- The reader of a connection and the decoder of a buffer agree on all bytes: they succeed on the
-- same ones, with the same value, and leave the same bytes.
pub read_varint-decode_varint :
    (s : Bytes) → success (read_varint s) ≡ advance s (success (decode_varint s))
unfolding read_varint decode_varint read_loop decode_loop
read_varint-decode_varint [] = refl
read_varint-decode_varint (a ∷ []) = ground arith
read_varint-decode_varint (a ∷ b ∷ []) = ground arith
read_varint-decode_varint (a ∷ b ∷ c ∷ []) = ground arith
read_varint-decode_varint (a ∷ b ∷ c ∷ d ∷ []) = ground arith
read_varint-decode_varint (a ∷ b ∷ c ∷ d ∷ e ∷ s) = ground arith

decoded :
    (s : Bytes) (r : Result VarintError (ℤ × ℕ)) (v : ℤ) (rest : Bytes)
    → some (v, rest) ≡ advance s (success r)
    → (n : ℕ) × (r ≡ ok (v, n)) × (drop n s ≡ rest)
decoded s (ok (w, n)) v rest h = (n, ground (arith, h), ground (arith, h))
decoded s (err e) v rest h = cc h

-- Every integer is decoded from a buffer as the int32 of its lowest 32 bits, and what is behind
-- the bytes that the decoder took is what followed.
pub decode_varint-append_varint :
    (v : ℕ) (rest : Bytes)
    → (n : ℕ) × (decode_varint (append_varint v ++ rest) ≡ ok (as_int32 (v % 2 ^ 32), n))
      × (drop n (append_varint v ++ rest) ≡ rest)
decode_varint-append_varint v rest =
    decoded (append_varint v ++ rest) _ (as_int32 (v % 2 ^ 32)) rest (
      ap success (sym (read_varint-append_varint v rest))
      ∙ read_varint-decode_varint (append_varint v ++ rest))
