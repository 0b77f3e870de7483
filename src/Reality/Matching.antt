-- ===== src/Reality/Matching.antt =====
-- Which hellos the dispatcher of reality.go takes for its own.
use stealthlink.Prelude.{
  Bytes, OnSome-apply, Option-cases, ap, arith, drop, drop-append, drop-drop, get_or,
  get_or-append_left, get_or-append_right, get_u64, get_u64-put_u64, inl, inr, length,
  length-append, length-put_u64, put_u64, refl, some, sym, take, take-append, true, ℕ, ◌++◌, ◌+◌,
  ◌/◌, ◌<◌, ◌^◌, ◌↔◌, ◌∙◌, ◌∷◌, ◌≡◌, ◌≤◌,
}
use stealthlink.Peeking.{hello_random}
use stealthlink.Reality.{
  reality_derive, is_allowed, reality_open, Dispatcher, is_reality_client_hello, matches_hello,
  reality_hour_fresh, reality_seal, RealityCrypto,
}

module _ (std : RealityCrypto) where
  open std use {public_key, ecdh, length-public_key, ecdh_comm, length-gcm_seal, gcm_open-gcm_seal}

  -- The hour is that of the server's clock, the one before or the one after.
  abbrev pub Fresh : ℕ → ℕ → Type 0
  Fresh hour now = (hour ≤ now / 3600 + 1) × (now / 3600 ≤ hour + 1)

  reality_hour_fresh-Fresh : (hour now : ℕ) → (reality_hour_fresh hour now ≡ true) ↔ Fresh hour now
  unfolding reality_hour_fresh
  reality_hour_fresh-Fresh hour now = ((λ h. ground (arith, h)), λ h. ground (arith, h))

  open_sealed :
      (shared sid box : Bytes) (hour : ℕ)
      → length sid ≡ 8
      → hour < 2 ^ 64
      → reality_seal std shared sid hour ≡ some box
      → (length box ≡ 32) × (reality_open std shared box ≡ some (sid, hour))
  unfolding reality_seal reality_open
  open_sealed shared sid box hour l h e =
      let (key, nonce) = reality_derive std shared in
      let plain = sid ++ put_u64 hour in
      let ct = std.gcm_seal key nonce plain in
      let l' : length plain ≡ 16 =
        omega (arith, length-append sid (put_u64 hour), length-put_u64 hour, l) in
      let sealed : length ct ≡ 32 = omega (arith, length-gcm_seal key nonce plain, l') in
      let same : some ct ≡ some box = ground (arith, e, sealed) in
      let parts : (take 8 plain, get_u64 (drop 8 plain)) ≡ (sid, hour) =
        rw
          (
            take-append 8 sid (put_u64 hour) l,
            drop-append 8 sid (put_u64 hour) l,
            get_u64-put_u64 hour h,
          )
          refl in
      OnSome-apply (λ (b : Bytes). (length b ≡ 32) × (reality_open std shared b ≡ some (sid, hour)))
        (some ct) box
        (sealed, rw (reality_open, gcm_open-gcm_seal key nonce plain, l') (ap some parts)) same

  -- A connection is taken for the server's own only if its first bytes are a ClientHello whose
  -- random bytes open, under the key shared with the server, to an allowed identifier and an
  -- hour that is at most one away from the server's.
  pub matches_hello_sound :
      (d : Dispatcher) (now : ℕ) (peek : Bytes)
      → matches_hello std d now peek ≡ true
      → (is_reality_client_hello peek ≡ true)
        × ((shared : Bytes) × (ecdh d.priv (take 32 (drop 44 peek)) ≡ some shared)
            × ((sid : Bytes) × ((hour : ℕ) × (reality_open std shared (hello_random peek)
                    ≡ some (sid, hour))
                  × (is_allowed sid d.allowed ≡ true)
                  × Fresh hour now)))
  unfolding matches_hello
  matches_hello_sound d now peek h = elim (Option-cases (ecdh d.priv (take 32 (drop 44 peek)))) [
    | inl failed ↦ absurd (ground (arith, h, failed))
    | inr (shared, agreed) ↦ elim (Option-cases (reality_open std shared (hello_random peek))) [
      | inl failed ↦ absurd (ground (arith, h, agreed, failed))
      | inr ((sid, hour), opened) ↦ (
        ground (arith, h),
        (
          shared,
          agreed,
          (
            sid,
            (
              hour,
              opened,
              ground (arith, h, agreed, opened),
              (reality_hour_fresh-Fresh hour now).0 (ground (arith, h, agreed, opened)),
            ),
          ),
        ),
      )
    ]
  ]

  -- The hello of reality_dial: `head` is what stands before its random bytes and `rest` what
  -- follows its session identifier.
  abbrev pub hello_of : Bytes → Bytes → Bytes → Bytes → Bytes
  hello_of head box epub rest = head ++ (box ++ (32 ∷ (epub ++ rest)))

  module _ (head box epub rest : Bytes) (head_length : length head ≡ 11)
      (box_length : length box ≡ 32) (epub_length : length epub ≡ 32) where
    hello_random-hello_of : hello_random (hello_of head box epub rest) ≡ box
    hello_random-hello_of =
        rw (drop-append 11 head (box ++ (32 ∷ (epub ++ rest))) head_length)
          (take-append 32 box (32 ∷ (epub ++ rest)) box_length)

    hello_key-hello_of : take 32 (drop 44 (hello_of head box epub rest)) ≡ epub
    hello_key-hello_of =
        ap (take 32) (
          sym (drop-drop 11 33 (hello_of head box epub rest))
          ∙ ap (drop 33) (drop-append 11 head (box ++ (32 ∷ (epub ++ rest))) head_length)
          ∙ sym (drop-drop 32 1 (box ++ (32 ∷ (epub ++ rest))))
          ∙ ap (drop 1) (drop-append 32 box (32 ∷ (epub ++ rest)) box_length))
        ∙ take-append 32 epub rest epub_length

    is_hello-hello_of :
        get_or head 0 0 ≡ 0x16
        → get_or head 5 0 ≡ 0x01
        → is_reality_client_hello (hello_of head box epub rest) ≡ true
    unfolding is_reality_client_hello
    is_hello-hello_of h k =
        let hello = hello_of head box epub rest in
        let a : get_or hello 0 0 ≡ 0x16 =
          get_or-append_left head _ 0 0 (omega (arith, head_length)) ∙ h in
        let b : get_or hello 5 0 ≡ 0x01 =
          get_or-append_left head _ 5 0 (omega (arith, head_length)) ∙ k in
        let c : get_or hello 43 0 ≡ 32 =
          get_or-append_right 11 32 head _ 0 head_length
          ∙ get_or-append_right 32 0 box _ 0 box_length in
        let l : 76 ≤ length hello = omega (
          arith,
          length-append head (box ++ (32 ∷ (epub ++ rest))),
          length-append box (32 ∷ (epub ++ rest)),
          length-append epub rest,
          head_length,
          box_length,
          epub_length,
        ) in
        ground (arith, a, b, c, l)

  -- The server takes the hello of a client that holds an allowed identifier and the server's
  -- public key for its own, if the client's clock is within an hour of the server's: the client
  -- and the server share the key, and the box that was sealed opens to what was sealed.
  pub matches_hello-reality_seal :
      (d : Dispatcher) (now hour : ℕ) (eph sid shared box head rest : Bytes)
      → ecdh eph (public_key d.priv) ≡ some shared
      → reality_seal std shared sid hour ≡ some box
      → length sid ≡ 8
      → is_allowed sid d.allowed ≡ true
      → hour < 2 ^ 64
      → Fresh hour now
      → length head ≡ 11
      → get_or head 0 0 ≡ 0x16
      → get_or head 5 0 ≡ 0x01
      → matches_hello std d now (hello_of head box (public_key eph) rest) ≡ true
  unfolding matches_hello
  matches_hello-reality_seal d now hour eph sid shared box head rest agreed sealed l allowed h fresh
        head_length first sixth =
      let (box_length, opened) = open_sealed shared sid box hour l h sealed in
      let epub_length = length-public_key eph in
      ground (
        arith,
        is_hello-hello_of head box (public_key eph) rest head_length box_length epub_length first
            sixth,
        hello_random-hello_of head box (public_key eph) rest head_length box_length epub_length,
        hello_key-hello_of head box (public_key eph) rest head_length box_length epub_length,
        ecdh_comm eph d.priv,
        agreed,
        opened,
        allowed,
        (reality_hour_fresh-Fresh hour now).1 fresh,
      )
