-- ===== src/Redstone/Conn/Ending.antt =====
-- Reading a tunnel of redstone.go to its end: each packet uses up more bytes than it gives.
use stealthlink.Prelude.{
  Bool-cases, Bytes, OnOk, OnOk-apply, OnOk-mono, Option, Result, Result-cases, [], arith, drop,
  err, inl, inr, length, length-drop, length-take, ltb, none, ok, read_full_long, read_full_short,
  refl, some, suc, take, zero, ℕ, ◌%◌, ◌*◌, ◌+◌, ◌<◌, ◌==◌, ◌^◌, ◌||◌, ◌∷◌, ◌≡◌, ◌≤◌,
}
use stealthlink.Redstone.Conn.Transparency.{read_all}
use stealthlink.Redstone.Conn.{McConn, conn_read}
use stealthlink.Redstone.Packet.{mc_max_packet, read_body, read_packet, packet_of, PacketError}
use stealthlink.Redstone.Varint.{ℤ, decode_varint, read_varint, read_loop, pos, negsuc}

read_loop_shrinks :
    (left scale result : ℕ) (s : Bytes)
    → OnOk (λ (r : ℤ × Bytes). length r.1 < length s) (read_loop left scale result s)
unfolding read_loop
read_loop_shrinks zero scale result s = tt
read_loop_shrinks (suc left) scale result [] = tt
read_loop_shrinks (suc left) scale result (b ∷ s) = elim (Bool-cases (ltb b 128)) [
  | inl last ↦ rw last (omega arith)
  | inr more ↦ rw more (
      OnOk-mono _ _ (read_loop left (scale * 128) (result + b % 128 * scale % 2 ^ 32) s)
        (λ r h. omega arith)
        (read_loop_shrinks left (scale * 128) (result + b % 128 * scale % 2 ^ 32) s))
]

-- What a packet gives and what it leaves are less than what was there.
abbrev Shrinks : Bytes → Result PacketError ((ℤ × Bytes) × Bytes) → Type 0
Shrinks s r = OnOk (λ (p : (ℤ × Bytes) × Bytes). length p.0.1 + length p.1 < length s) r

packet_of-Shrinks :
    (s body rest : Bytes) → length body + length rest < length s → Shrinks s (packet_of body rest)
unfolding packet_of
packet_of-Shrinks s body rest h = elim (Result-cases (decode_varint body)) [
  | inl ((id, n), e) ↦ rw (packet_of, e) (let k = length-drop n body in omega arith)
  | inr (e, failed) ↦ rw (packet_of, failed) tt
]

read_body-Shrinks :
    (s rest : Bytes) (len : ℤ) → length rest < length s → Shrinks s (read_body len rest)
unfolding read_body
read_body-Shrinks s rest (negsuc n) h = tt
read_body-Shrinks s rest (pos len) h = elim (Bool-cases (len == 0 || ltb mc_max_packet len)) [
  | inl refused ↦ rw refused tt
  | inr fits ↦ elim (Bool-cases (ltb (length rest) len)) [
    | inl short ↦ let (e, failed) = read_full_short len rest short in rw (fits, failed) tt
    | inr long ↦
        rw (fits, read_full_long len rest long)
          (packet_of-Shrinks s (take len rest) (drop len rest)
            (let a = length-take len rest in let b = length-drop len rest in ground arith))
  ]
]

pub read_packet-Shrinks : (s : Bytes) → Shrinks s (read_packet s)
unfolding read_packet read_varint
read_packet-Shrinks s = elim (Result-cases (read_loop 5 1 0 s)) [
  | inl ((len, rest), e) ↦
      rw (read_packet, e)
        (read_body-Shrinks s rest len (OnOk-apply _ _ (len, rest) (read_loop_shrinks 5 1 0 s) e))
  | inr (e, failed) ↦ rw (read_packet, failed) tt
]

-- What a connection still holds.
abbrev left_of : McConn → ℕ
left_of c = length c.rbuf + length c.input

-- Read returns, and bytes that it gives are not what it still holds.
abbrev Returns : McConn → Option (Result PacketError Bytes × McConn) → Type 0
Returns c none = ⊥
Returns c (some (ok bytes, c')) = left_of c' < left_of c
Returns c (some (err e, c')) = Unit

conn_read-Returns :
    (fuel size : ℕ) (c : McConn)
    → 0 < size
    → length c.input < fuel
    → Returns c (conn_read fuel size c)
unfolding conn_read
conn_read-Returns zero size c h k = absurd (omega arith)
conn_read-Returns (suc fuel) size c h k = elim (Bool-cases (length c.rbuf == 0)) [
  | inl empty ↦ elim (Result-cases (read_packet c.input)) [
    | inl (((id, payload), rest), e) ↦
        let less =
          OnOk-apply (λ (p : (ℤ × Bytes) × Bytes). length p.0.1 + length p.1 < length c.input)
            (read_packet c.input) ((id, payload), rest) (read_packet-Shrinks c.input) e in
        rw (conn_read, empty, e)
          (Returns-mono c (record { input = rest; rbuf = payload }) _ (omega arith)
            (conn_read-Returns fuel size (record { input = rest; rbuf = payload }) h (omega arith)))
    | inr (e, failed) ↦ rw (conn_read, empty, failed) tt
  ]
  | inr holds ↦ rw (conn_read, holds) (let k = length-drop size c.rbuf in ground arith)
]
  where
    Returns-mono :
        (c d : McConn) (o : Option (Result PacketError Bytes × McConn))
        → left_of d ≤ left_of c
        → Returns d o
        → Returns c o
    Returns-mono c d none h k = k
    Returns-mono c d (some (ok bytes, c')) h k = omega arith
    Returns-mono c d (some (err e, c')) h k = tt

abbrev Ends : Bytes × Option PacketError → Type 0
Ends r = (e : PacketError) × (r.1 ≡ some e)

read_all_round :
    (fuel size : ℕ) (c : McConn) (o : Option (Result PacketError Bytes × McConn))
    → conn_read (length c.input + 2) size c ≡ o
    → Returns c o
    → ((c' : McConn) → left_of c' < left_of c → Ends (read_all fuel size c'))
    → Ends (read_all (suc fuel) size c)
unfolding read_all
read_all_round fuel size c none e r more = absurd r
read_all_round fuel size c (some (ok bytes, c')) e r more =
    let (ended, h) = more c' r in (ended, rw (read_all, e) h)
read_all_round fuel size c (some (err failed, c')) e r more = (failed, rw (read_all, e) refl)

-- A loop that calls Read with room for some bytes, as of io.Copy, comes to an error at last,
-- whatever the other end sent: as many rounds as there are bytes in the input and the buffer, and
-- one more, are enough.
pub read_all_ends :
    (fuel size : ℕ) (c : McConn)
    → 0 < size
    → length c.rbuf + length c.input < fuel
    → (e : PacketError) × ((read_all fuel size c).1 ≡ some e)
read_all_ends zero size c h k = absurd (omega arith)
read_all_ends (suc fuel) size c h k =
    read_all_round fuel size c (conn_read (length c.input + 2) size c) refl
      (conn_read-Returns (length c.input + 2) size c h (omega arith))
      (λ c' less. read_all_ends fuel size c' h (omega arith))
