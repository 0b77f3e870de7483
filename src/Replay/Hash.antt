-- ===== src/Replay/Hash.antt =====
-- The two hashes of a key, as replay.go takes them from hash/fnv (64-bit FNV-1a of the standard
-- library): of the data, and of the data and one more byte.
use Prim.Native.Nat.{bit_xor}
use stealthlink.Prelude.{Bytes, [], ℕ, ◌%◌, ◌*◌, ◌^◌, ◌∷◌}

abbrev fnv_offset : ℕ
fnv_offset = 14695981039346656037

abbrev fnv_prime : ℕ
fnv_prime = 1099511628211

-- h.Write: each byte is xored in, then the state is multiplied, in 64 bits.
unfoldable pub fnv_write : ℕ → Bytes → ℕ
fnv_write h [] = h
fnv_write h (b ∷ bytes) = fnv_write (bit_xor h b * fnv_prime % 2 ^ 64) bytes

unfoldable pub hash : Bytes → ℕ × ℕ
unfolding fnv_write
hash bytes = let h1 = fnv_write fnv_offset bytes in (h1, fnv_write h1 (1 ∷ []))
