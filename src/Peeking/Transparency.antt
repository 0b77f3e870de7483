-- ===== src/Peeking/Transparency.antt =====
-- Reading ahead loses nothing: what the wrapped connections give is what arrived.
use stealthlink.Prelude.{
  Bool, Bool-cases, Bytes, List, OnOk, OnSome, OnSome-mono, Result, [], ap, append_assoc, arith,
  both_branches, drop, drop-drop, drop_all, err, false, if◌then◌else◌, inl, inr, leb, leb→le,
  length, length-append, length-take, ltb, ltb→le, none, ok, refl, some, sym, take,
  take-append-drop, take-append-drop-length, take_all, true, ℕ, ◌++◌, ◌-◌, ◌==◌, ◌∙◌, ◌∷◌, ◌≡◌,
}
use stealthlink.Replay.Filter.{ReplayFilter}
use stealthlink.Peeking.{
  check_replay, admit, admit_reality, new_peeking_conn, reality_peek, admit_tls, peek_loop,
  after_prefix, put_back, bytes_of, given, Arrival, PeekingConn, PrefixConn, peeking_read, net_read,
  Fault, prefix_conn_read, arrives, times_out,
}

-- A connection with a Read that gives bytes of what it holds, and keeps the others.
pub record Stream {ℓ} (C : Type ℓ) : Type ℓ where
  pub read : ℕ → C → Result Fault Bytes × C
  pub held : C → Bytes
  pub read_held : (size : ℕ) (c : C) → given (read size c).0 ++ held (read size c).1 ≡ held c

module _ {ℓ} {C : Type ℓ} (stream : Stream C) where
  open stream use {read, held, read_held}

  -- Calls of Read with buffers of these sizes, errors included.
  pub reads : List ℕ → C → Bytes × C
  reads [] c = ([], c)
  reads (size ∷ sizes) c =
      let (r, c') = read size c in let (more, c'') = reads sizes c' in (given r ++ more, c'')

  reads_held : (sizes : List ℕ) (c : C) → (reads sizes c).0 ++ held (reads sizes c).1 ≡ held c
  unfolding reads
  reads_held [] c = refl
  reads_held (size ∷ sizes) c =
      let (r, c') = read size c in
      append_assoc (given r) _ _ ∙ ap (◌++◌ (given r)) (reads_held sizes c') ∙ read_held size c

bytes_of-put_back :
    (bytes : Bytes) (conn : List Arrival) → bytes_of (put_back bytes conn) ≡ bytes ++ bytes_of conn
bytes_of-put_back [] conn = refl
bytes_of-put_back (b ∷ bytes) conn = refl

-- Some bytes are given, and the others put back.
bytes_of-cut :
    (n : ℕ) (bytes : Bytes) (conn : List Arrival)
    → take n bytes ++ bytes_of (put_back (drop n bytes) conn) ≡ bytes ++ bytes_of conn
bytes_of-cut n bytes conn =
    ap (◌++◌ (take n bytes)) (bytes_of-put_back (drop n bytes) conn)
    ∙ sym (append_assoc (take n bytes) (drop n bytes) (bytes_of conn))
    ∙ ap (λ xs. xs ++ bytes_of conn) (take-append-drop n bytes)

net_held :
    (size : ℕ) (conn : List Arrival)
    → given (net_read size conn).0 ++ bytes_of (net_read size conn).1 ≡ bytes_of conn
unfolding net_read
net_held size [] = refl
net_held size (times_out ∷ conn) = refl
net_held size (arrives bytes ∷ conn) = bytes_of-cut size bytes conn

-- Some of the bytes ahead are given, and `rest` are the others.
ahead_held :
    (size : ℕ) (ahead behind rest : Bytes)
    → drop (length (take size ahead)) ahead ≡ rest
    → take size ahead ++ (rest ++ behind) ≡ ahead ++ behind
ahead_held size ahead behind rest e = rw (← e) (
    sym (append_assoc (take size ahead) (drop (length (take size ahead)) ahead) behind)
    ∙ ap (λ xs. xs ++ behind) (take-append-drop-length size ahead))

abbrev pub peeking_held : PeekingConn → Bytes
peeking_held c = drop c.read_idx c.peek_buf ++ bytes_of c.conn

peeking_read_held :
    (size : ℕ) (c : PeekingConn)
    → given (peeking_read size c).0 ++ peeking_held (peeking_read size c).1 ≡ peeking_held c
unfolding peeking_read
peeking_read_held size c = elim (Bool-cases (ltb c.read_idx (length c.peek_buf))) [
  | inl ahead ↦
      rw (peeking_read, ahead)
        (ahead_held size (drop c.read_idx c.peek_buf) (bytes_of c.conn) _
          (drop-drop c.read_idx (length (take size (drop c.read_idx c.peek_buf))) c.peek_buf))
  | inr behind ↦
      let e : drop c.read_idx c.peek_buf ≡ [] =
        drop_all c.read_idx c.peek_buf (ltb→le _ _ behind) in
      rw (peeking_read, behind) (rw e (net_held size c.conn))
]

abbrev pub prefix_held : PrefixConn → Bytes
prefix_held c = (if c.prefix_read then [] else c.prefix) ++ bytes_of c.conn

abbrev unread : List Arrival → Bytes → PrefixConn
unread conn prefix = record { conn = conn; prefix = prefix; prefix_read = false }

after_prefix_held :
    (conn : List Arrival) (prefix : Bytes) (n : ℕ)
    → prefix_held (after_prefix (unread conn prefix) n) ≡ drop n prefix ++ bytes_of conn
unfolding after_prefix
after_prefix_held conn prefix n = elim (Bool-cases (leb (length prefix) n)) [
  | inl all ↦ rw (after_prefix, all, drop_all n prefix (leb→le _ _ all)) refl
  | inr some_left ↦ rw (after_prefix, some_left) refl
]

prefix_parts_held :
    (size : ℕ) (conn : List Arrival) (prefix : Bytes) (gone : Bool)
    → let c : PrefixConn = record { conn = conn; prefix = prefix; prefix_read = gone } in
      given (prefix_conn_read size c).0 ++ prefix_held (prefix_conn_read size c).1 ≡ prefix_held c
unfolding prefix_conn_read
prefix_parts_held size conn prefix true = net_held size conn
prefix_parts_held size conn [] false = net_held size conn
prefix_parts_held size conn (b ∷ prefix) false =
    let e : ltb 0 (length (b ∷ prefix)) ≡ true = ground arith in
    rw (prefix_conn_read, e)
      (ap (◌++◌ (take size (b ∷ prefix))) (after_prefix_held conn (b ∷ prefix) _)
        ∙ ahead_held size (b ∷ prefix) (bytes_of conn) _ refl)

pub peeking_stream : Stream PeekingConn
peeking_stream = record { read = peeking_read; held = peeking_held; read_held = peeking_read_held }

pub prefix_stream : Stream PrefixConn
prefix_stream = record {
  read = prefix_conn_read;
  held = prefix_held;
  read_held = λ size c. prefix_parts_held size c.conn c.prefix c.prefix_read;
}

peek_loop_held :
    (min_size max_size : ℕ) (buf : Bytes) (conn : List Arrival)
    → let (read_so_far, left) = peek_loop min_size max_size buf conn in
      read_so_far ++ bytes_of left ≡ buf ++ bytes_of conn
unfolding peek_loop
peek_loop_held min_size max_size buf [] = refl
peek_loop_held min_size max_size buf (times_out ∷ conn) =
    elim (Bool-cases (leb min_size (length buf))) [
      | inl enough ↦ rw (peek_loop, enough) refl
      | inr too_few ↦ rw (peek_loop, too_few) refl
    ]
peek_loop_held min_size max_size buf (arrives bytes ∷ conn) =
    let more = take (max_size - length buf) bytes in
    elim (Bool-cases (leb min_size (length buf))) [
      | inl enough ↦ rw (peek_loop, enough) refl
      | inr too_few ↦ elim (Bool-cases (leb max_size (length (buf ++ more)))) [
        | inl full ↦
            rw (peek_loop, too_few, full)
              (append_assoc buf more _ ∙ ap (◌++◌ buf) (bytes_of-cut _ bytes conn))
        | inr room ↦
            let all : more ≡ bytes = take_all _ bytes (
              ground
                (arith, room, length-append buf more, length-take (max_size - length buf) bytes)) in
            rw (peek_loop, too_few, room)
              (peek_loop_held min_size max_size (buf ++ more) conn
                ∙ append_assoc buf more (bytes_of conn)
                ∙ ap (λ xs. buf ++ (xs ++ bytes_of conn)) all)
      ]
    ]

pub new_peeking_conn_held :
    (conn : List Arrival) (size : ℕ)
    → OnOk (λ (c : PeekingConn). peeking_held c ≡ bytes_of conn) (new_peeking_conn conn size)
unfolding new_peeking_conn net_read
new_peeking_conn_held [] size = tt
new_peeking_conn_held (times_out ∷ conn) size = tt
new_peeking_conn_held (arrives bytes ∷ conn) size = bytes_of-cut size bytes conn

pub reality_peek_held :
    (conn : List Arrival) (min_size max_size : ℕ)
    → OnOk
        (λ (c : PeekingConn). peeking_held c ≡ bytes_of conn)
        (reality_peek conn min_size max_size)
unfolding reality_peek
reality_peek_held conn min_size max_size =
    let (buf, left) = peek_loop min_size max_size [] conn in
    elim (Bool-cases (length buf == 0)) [
      | inl nothing ↦ rw (reality_peek, nothing) tt
      | inr something ↦ rw (reality_peek, something) (peek_loop_held min_size max_size [] conn)
    ]

admit_held :
    (rf : ReplayFilter) (conn : List Arrival) (r : Result Fault PeekingConn)
    → OnOk (λ (c : PeekingConn). peeking_held c ≡ bytes_of conn) r
    → OnSome (λ (c : PeekingConn). peeking_held c ≡ bytes_of conn) (admit rf r).1
admit_held rf conn (err e) h = tt
admit_held rf conn (ok c) h =
    both_branches (OnSome (λ (c : PeekingConn). peeking_held c ≡ bytes_of conn))
      (check_replay rf c.peek_buf).1 none (some c) tt h

-- In these calls of Read the connection gives what arrived on it, or still holds it.
abbrev pub GivesAll : List Arrival → List ℕ → PeekingConn → Type 0
GivesAll conn sizes c =
    let (bytes, c') = reads peeking_stream sizes c in bytes ++ peeking_held c' ≡ bytes_of conn

reads-GivesAll :
    (conn : List Arrival) (sizes : List ℕ) (c : PeekingConn)
    → peeking_held c ≡ bytes_of conn
    → GivesAll conn sizes c
unfolding peeking_stream
reads-GivesAll conn sizes c h = reads_held peeking_stream sizes c ∙ h

-- A connection that a listener lets through to TLS, or to the dispatcher of reality.go, gives
-- what arrived on it: in any calls of Read, with errors between them, the bytes that are given
-- and those that are still held are the bytes that arrived, in order, with none lost or doubled.
pub admit-GivesAll :
    (rf : ReplayFilter) (conn : List Arrival) (sizes : List ℕ)
    → OnSome (GivesAll conn sizes) (admit_tls rf conn).1
      × OnSome (GivesAll conn sizes) (admit_reality rf conn).1
unfolding admit_tls admit_reality
admit-GivesAll rf conn sizes = (
  OnSome-mono _ _ (admit rf (new_peeking_conn conn 64)).1 (reads-GivesAll conn sizes)
      (admit_held rf conn _ (new_peeking_conn_held conn 64)),
  OnSome-mono _ _ (admit rf (reality_peek conn 76 128)).1 (reads-GivesAll conn sizes)
      (admit_held rf conn _ (reality_peek_held conn 76 128)),
)
