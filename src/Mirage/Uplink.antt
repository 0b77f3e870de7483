-- ===== src/Mirage/Uplink.antt =====
-- The client's uplink of mirage.go against the server's routing and its table of sessions.
use stealthlink.Prelude.{
  ==_iff, All, Bool, Bool-cases, Bytes, List, Option, String, [], ap, append-nil, append_assoc,
  arith, bytes_beq_iff, bytes_eq, drop-append, eq-nil_of_length, false, inl, inr, insert, length,
  length-append, lookup, lookup-insert_self, nat_eq, refl, some, string_eq, sym, take-append,
  take_all, true, ℕ, ◌++◌, ◌+◌, ◌<◌, ◌==◌, ◌∙◌, ◌∷◌, ◌≡◌, ◌≤◌,
}
use stealthlink.Redstone.Conn.Chunks.{joined}
use stealthlink.Auth.Manager.{Crypto}
use stealthlink.Camouflage.{has_prefix}
use stealthlink.Mirage.{post_to, Pipe, Route, status_code}
use stealthlink.Mirage.{
  serve_route, uplink_request, mirage_max_body, MirageHandler, mirage_uplink_loop, handle_uplink,
  serve_http, route_parts, route, trim_left, add_to_part, trim_right, split_path, post, uplink,
}

abbrev NoSlash : Bytes → Type 0
NoSlash p = All (λ (b : ℕ). (b == 47) ≡ false) p

split_path-NoSlash : (p : Bytes) → NoSlash p → split_path p ≡ p ∷ []
unfolding split_path
split_path-NoSlash [] h = refl
split_path-NoSlash (b ∷ p) (this, others) =
    ap (add_to_part b) (split_path-NoSlash p others) ∙ rw this refl

new_part : (parts : List Bytes) → add_to_part 47 parts ≡ [] ∷ parts
new_part [] = refl
new_part (part ∷ parts) = refl

split_path-slash : (p q : Bytes) → NoSlash p → split_path (p ++ (47 ∷ q)) ≡ p ∷ split_path q
unfolding split_path
split_path-slash [] q h = new_part (split_path q)
split_path-slash (b ∷ p) q (this, others) =
    ap (add_to_part b) (split_path-slash p q others) ∙ rw this refl

trim_right-NoSlash : (q : Bytes) → NoSlash q → trim_right q ≡ q
trim_right-NoSlash [] h = refl
trim_right-NoSlash (b ∷ q) (this, others) = rw (this, trim_right-NoSlash q others) refl

trim_right-kept : (p q : Bytes) → NoSlash q → 0 < length q → trim_right (p ++ q) ≡ p ++ q
trim_right-kept [] q h k = trim_right-NoSlash q h
trim_right-kept (b ∷ p) q h k =
    let e = trim_right-kept p q h k in
    let some_left : (length (p ++ q) == 0) ≡ false = ground (arith, length-append p q, k) in
    rw e (ground (arith, some_left))

has_prefix-append : (p q : Bytes) → has_prefix p (p ++ q) ≡ true
has_prefix-append p q = rw (take-append (length p) p q refl) ((bytes_beq_iff p p).1 refl)

module _ (base : Bytes) (b : ℕ) (session num : Bytes) (plain : NoSlash (b ∷ session))
    (plain_num : NoSlash num) (some_num : 0 < length num) where
  parts_of :
      split_path (trim_right (trim_left (47 ∷ ((b ∷ session) ++ (47 ∷ num)))))
      ≡ (b ∷ session) ∷ num ∷ []
  parts_of =
      let kept : trim_right (((b ∷ session) ++ (47 ∷ [])) ++ num)
          ≡ ((b ∷ session) ++ (47 ∷ [])) ++ num =
        trim_right-kept ((b ∷ session) ++ (47 ∷ [])) num plain_num some_num in
      let joined : ((b ∷ session) ++ (47 ∷ [])) ++ num ≡ (b ∷ session) ++ (47 ∷ num) =
        append_assoc (b ∷ session) (47 ∷ []) num in
      let left : trim_left (47 ∷ ((b ∷ session) ++ (47 ∷ num))) ≡ (b ∷ session) ++ (47 ∷ num) =
        rw (plain.0) refl in
      ap (λ p. split_path (trim_right p)) left
      ∙ ap split_path (ap trim_right (sym joined) ∙ kept ∙ joined)
      ∙ split_path-slash (b ∷ session) num plain
      ∙ ap (λ parts. (b ∷ session) ∷ parts) (split_path-NoSlash num plain_num)

  -- The path that the uplink makes is routed to its session.
  route-uplink :
      route base post (base ++ (47 ∷ ((b ∷ session) ++ (47 ∷ num)))) ≡ uplink (b ∷ session)
  unfolding route
  route-uplink =
      let rest = (b ∷ session) ++ (47 ∷ num) in
      let prefixed : has_prefix (base ++ (47 ∷ [])) (base ++ (47 ∷ rest)) ≡ true =
        ap (has_prefix (base ++ (47 ∷ []))) (sym (append_assoc base (47 ∷ []) rest))
        ∙ has_prefix-append (base ++ (47 ∷ [])) rest in
      rw (prefixed, drop-append (length base) base (47 ∷ rest) refl)
        (ap (route_parts post) parts_of)

module _ (base64 : Bytes → Option Bytes) (std : Crypto) (rate_now now : ℕ) (flushes : Bool)
    (number : ℕ → Bytes) (plain_number : (n : ℕ) → NoSlash (number n))
    (some_number : (n : ℕ) → 0 < length (number n)) (b : ℕ) (session authorization : Bytes)
    (ip : String) (plain : NoSlash (b ∷ session)) where
  serve_uplink :
      (h : MirageHandler) (seq : ℕ) (chunk pipe : Bytes)
      → lookup (b ∷ session) h.sessions ≡ some (record { content = pipe; is_closed = false })
      → (length chunk == 0) ≡ false
      → length chunk ≤ mirage_max_body
      → post_to base64 std rate_now now flushes h
          (uplink_request number h.path (b ∷ session) authorization ip seq chunk)
        ≡ (
          record h {
            sessions =
                insert
                  (b ∷ session)
                  (record { content = pipe ++ chunk; is_closed = false })
                  h.sessions;
          },
          some 200,
        )
  unfolding post_to serve_http handle_uplink status_code
  serve_uplink h seq chunk pipe there something fits =
      ap
        (λ (r : Route).
          let (h', reply) =
            serve_route base64 std rate_now now flushes h
              (uplink_request number h.path (b ∷ session) authorization ip seq chunk) r in
          (h', some (status_code reply)))
        (route-uplink h.path b session (number seq) plain (plain_number seq) (some_number seq))
      ∙ rw (handle_uplink, there, take_all mirage_max_body chunk fits, something) refl

  -- What the client's uplink sends is what the server's end of the session is given: all chunks,
  -- in order, behind what was there, if the session is open and its pipe not closed, and each
  -- chunk fits a body. The loop stops at the first answer whose status is not 200, so the server
  -- has to answer each chunk that it takes with 200.
  pub mirage_uplink_loop-post_to :
      (h : MirageHandler) (seq : ℕ) (chunks : List Bytes) (pipe : Bytes)
      → lookup (b ∷ session) h.sessions ≡ some (record { content = pipe; is_closed = false })
      → All (λ (chunk : Bytes). length chunk ≤ mirage_max_body) chunks
      → lookup
          (b ∷ session)
          (mirage_uplink_loop number h.path
            (b ∷ session)
            authorization
            ip
            (post_to base64 std rate_now now flushes)
            h
            seq
            chunks).sessions
        ≡ some (record { content = pipe ++ joined chunks; is_closed = false })
  unfolding mirage_uplink_loop
  mirage_uplink_loop-post_to h seq [] pipe there fits =
      there
      ∙ ap (λ (c : Bytes). some (record { content = c; is_closed = false })) (sym (append-nil pipe))
  mirage_uplink_loop-post_to h seq (chunk ∷ chunks) pipe there (this, others) =
      elim (Bool-cases (length chunk == 0)) [
        | inl nothing ↦
            let e : chunk ≡ [] =
              eq-nil_of_length chunk (let k = (==_iff (length chunk) 0).0 nothing in k) in
            rw (mirage_uplink_loop, nothing)
              (mirage_uplink_loop-post_to h seq chunks pipe there others
                ∙ ap
                    (λ (c : Bytes).
                      some (record { content = pipe ++ (c ++ joined chunks); is_closed = false }))
                    (sym e))
        | inr something ↦
            let pipe' : Pipe = record { content = pipe ++ chunk; is_closed = false } in
            let h' : MirageHandler = record h {
              sessions = insert (b ∷ session) pipe' h.sessions;
            } in
            let taken = serve_uplink h seq chunk pipe there something this in
            rw (mirage_uplink_loop, something, taken)
              (mirage_uplink_loop-post_to h' (seq + 1) chunks (pipe ++ chunk)
                  (lookup-insert_self (b ∷ session) pipe' h.sessions) others
                ∙ ap (λ (c : Bytes). some (record { content = c; is_closed = false }))
                    (append_assoc pipe chunk (joined chunks)))
      ]
