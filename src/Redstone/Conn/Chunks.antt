-- ===== src/Redstone/Conn/Chunks.antt =====
-- What the calls of Write leave on a connection that takes everything.
use stealthlink.Prelude.{
  Bool-cases, Bytes, List, [], ap, append-nil, append_assoc, arith, drop, false, inl, inr, length,
  length-drop, length-take, ltb, ltb→le, ltb→lt, suc, sym, take, take-append-drop, take_all, zero,
  ℕ, ◌++◌, ◌+◌, ◌<◌, ◌==◌, ◌∙◌, ◌∷◌, ◌≡◌, ◌≤◌,
}
use stealthlink.Redstone.Conn.{write_loop, conn_write, mc_tunnel_id, mc_chunk_size, chunk_of}
use mathlib.Core.Path.{subst}
use stealthlink.Wire.Writer.{WriteOutcome, Sink, done, write}
use stealthlink.Redstone.Packet.{packet_bytes}

-- `input` is packets that hold `content`, none of them empty or too long.
pub data IsCarried : Bytes → Bytes → Type 0 where
  nothing : IsCarried [] []
  packet :
      {input content : Bytes} (chunk : Bytes)
      → 0 < length chunk
      → length chunk ≤ mc_chunk_size
      → IsCarried input content
      → IsCarried (packet_bytes mc_tunnel_id chunk ++ input) (chunk ++ content)

pub IsCarried-append :
    (a b s t : Bytes) → IsCarried a s → IsCarried b t → IsCarried (a ++ b) (s ++ t)
IsCarried-append a b s t nothing w = w
IsCarried-append a b s t (packet {input} {content} chunk lo hi v) w =
    rw (append_assoc (packet_bytes mc_tunnel_id chunk) input b, append_assoc chunk content t)
      (packet chunk lo hi (IsCarried-append input b content t v w))

-- The chunk of a round is not empty, not too long, and the start of what is left.
record IsChunk (p chunk : Bytes) : Type 0 where
  pub some_byte : 0 < length chunk
  pub bounded : length chunk ≤ mc_chunk_size
  pub starts : chunk ++ drop (length chunk) p ≡ p
  pub leaves : length (drop (length chunk) p) + length chunk ≡ length p

take-IsChunk : (n : ℕ) (p : Bytes) → 0 < n → n ≤ mc_chunk_size → n ≤ length p → IsChunk p (take n p)
take-IsChunk n p lo hi h =
    let len : length (take n p) ≡ n = omega (arith, length-take n p) in
    record {
      some_byte = omega arith;
      bounded = omega arith;
      starts = rw len (take-append-drop n p);
      leaves = rw len (omega (arith, length-drop n p));
    }

chunk_of-IsChunk : (p : Bytes) → 0 < length p → IsChunk p (chunk_of p)
unfolding chunk_of
chunk_of-IsChunk p h = elim (Bool-cases (ltb mc_chunk_size (length p))) [
  | inl long ↦
      rw long
        (take-IsChunk mc_chunk_size p (omega arith) (omega arith) (omega (arith, ltb→lt _ _ long)))
  | inr short ↦ rw short (
      subst (IsChunk p) (take_all (length p) p (omega arith))
        (take-IsChunk (length p) p h (ltb→le _ _ short) (omega arith)))
]

abbrev pub unbroken : Bytes → Sink
unbroken written = record { written = written; answers = [] }

write_loop_step :
    (fuel : ℕ) (written : Bytes) (total : ℕ) (p : Bytes)
    → (length p == 0) ≡ false
    → write_loop (suc fuel) (unbroken written) total p
      ≡ write_loop fuel
          (unbroken (written ++ packet_bytes mc_tunnel_id (chunk_of p)))
          (total + length (chunk_of p))
          (drop (length (chunk_of p)) p)
unfolding write_loop write
write_loop_step fuel written total p h = rw h

Written : Bytes → ℕ → Bytes → Sink × ℕ × WriteOutcome → Type 0
Written written total p r =
    (w : Bytes) × (r ≡ (unbroken (written ++ w), total + length p, done)) × IsCarried w p

write_loop_empty :
    (fuel : ℕ) (written : Bytes) (total : ℕ)
    → Written written total [] (write_loop fuel (unbroken written) total [])
unfolding write_loop Written
write_loop_empty zero written total =
    let e : total + 0 ≡ total = omega arith in ([], rw (append-nil written, e), nothing)
write_loop_empty (suc fuel) written total =
    let e : total + 0 ≡ total = omega arith in ([], rw (append-nil written, e), nothing)

Written-cons :
    (written : Bytes) (total : ℕ) (p chunk : Bytes) (r : Sink × ℕ × WriteOutcome)
    → IsChunk p chunk
    → Written
        (written ++ packet_bytes mc_tunnel_id chunk)
        (total + length chunk)
        (drop (length chunk) p)
        r
    → Written written total p r
unfolding Written
Written-cons written total p chunk r v (w, e, c) =
    let sum : total + length chunk + length (drop (length chunk) p) ≡ total + length p =
      omega (arith, v.leaves) in
    (
      packet_bytes mc_tunnel_id chunk ++ w,
      e
          ∙ ap
              (λ (b : Bytes).
                (unbroken b, total + length chunk + length (drop (length chunk) p), done))
              (append_assoc written (packet_bytes mc_tunnel_id chunk) w)
          ∙ ap (λ (n : ℕ). (unbroken (written ++ (packet_bytes mc_tunnel_id chunk ++ w)), n, done))
              sum,
      subst (IsCarried (packet_bytes mc_tunnel_id chunk ++ w)) v.starts
          (packet chunk v.some_byte v.bounded c),
    )

write_loop-Written :
    (fuel : ℕ) (written : Bytes) (total : ℕ) (p : Bytes)
    → length p ≤ fuel
    → Written written total p (write_loop fuel (unbroken written) total p)
write_loop-Written fuel written total [] h = write_loop_empty fuel written total
write_loop-Written zero written total (x ∷ p) h = absurd (omega arith)
write_loop-Written (suc fuel) written total (x ∷ p) h =
    let v = chunk_of-IsChunk (x ∷ p) (omega arith) in
    Written-cons written total (x ∷ p) (chunk_of (x ∷ p)) _ v (
      subst
        (Written (written ++ packet_bytes mc_tunnel_id (chunk_of (x ∷ p)))
          (total + length (chunk_of (x ∷ p))) (drop (length (chunk_of (x ∷ p))) (x ∷ p)))
        (sym (write_loop_step fuel written total (x ∷ p) (ground arith)))
        (write_loop-Written fuel (written ++ packet_bytes mc_tunnel_id (chunk_of (x ∷ p)))
          (total + length (chunk_of (x ∷ p))) (drop (length (chunk_of (x ∷ p))) (x ∷ p))
          (omega (arith, v.leaves, v.some_byte))))

pub conn_write-IsCarried :
    (written p : Bytes)
    → (w : Bytes) × (conn_write (unbroken written) p ≡ (unbroken (written ++ w), length p, done))
      × IsCarried w p
unfolding conn_write Written
conn_write-IsCarried written p =
    let (w, e, c) = write_loop-Written (length p) written 0 p (omega arith) in
    let sum : 0 + length p ≡ length p = omega arith in
    (w, e ∙ ap (λ (n : ℕ). (unbroken (written ++ w), n, done)) sum, c)

-- The calls of Write, one after the other.
unfoldable pub conn_writes : Sink → List Bytes → Sink
unfolding conn_write
conn_writes sink [] = sink
conn_writes sink (p ∷ ps) = conn_writes (conn_write sink p).0 ps

abbrev pub joined : List Bytes → Bytes
joined [] = []
joined (p ∷ ps) = p ++ joined ps

pub conn_writes-IsCarried :
    (written : Bytes) (ps : List Bytes)
    → (w : Bytes) × (conn_writes (unbroken written) ps ≡ unbroken (written ++ w))
      × IsCarried w (joined ps)
unfolding conn_writes
conn_writes-IsCarried written [] = ([], ap unbroken (sym (append-nil written)), nothing)
conn_writes-IsCarried written (p ∷ ps) =
    let (w, e, c) = conn_write-IsCarried written p in
    let (w', e', c') = conn_writes-IsCarried (written ++ w) ps in
    (
      w ++ w',
      ap (λ (r : Sink × ℕ × WriteOutcome). conn_writes r.0 ps) e
          ∙ e'
          ∙ ap unbroken (append_assoc written w w'),
      IsCarried-append w w' p (joined ps) c c',
    )
