-- ===== src/Link/Held.antt =====
-- What the client of client.go holds of its open connections, and what it has lost.
use stealthlink.Prelude.{
  Bool-cases, List, Option, [], arith, false, inl, inr, is_open, is_open-without, none, some, true,
  ℕ, ◌++◌, ◌==◌, ◌∷◌, ◌≡◌, ◌≢◌, ◌⊎◌,
}
use stealthlink.Link.{LinkAct, closing, has_channel, accepted, authentication_fails, quic}
use stealthlink.Link.{Link}

abbrev pub Holds : Link → ℕ → Type 0
Holds l n = (l.transport_closer ≡ some n) ⊎ ((l.quic_conn ≡ some n) ⊎ (l.quic_transport ≡ some n))

-- What connectQUIC leaves behind: the UDP socket, unless the dial fails, and the transport, if the
-- dial does not fail but what comes after it.
abbrev pub left_by : LinkAct → List ℕ
left_by (quic server psk udp_conn transport n authentication_fails) = transport ∷ udp_conn ∷ []
left_by (quic server psk udp_conn transport n accepted) = udp_conn ∷ []
left_by _ = []

unfoldable pub left_behind : List LinkAct → List ℕ
left_behind [] = []
left_behind (a ∷ acts) = left_by a ++ left_behind acts

-- All open connections are held or among the lost ones, and without a channel there is no closer.
pub record IsOwned (lost : List ℕ) (l : Link) : Type 0 where
  pub held : (n : ℕ) → is_open n l.open_conns ≡ true → Holds l n ⊎ (is_open n lost ≡ true)
  pub no_closer : (has_channel l ≡ true) ⊎ (l.transport_closer ≡ none)

pub is_open-closing :
    (n : ℕ) (o : Option ℕ) (conns : List ℕ)
    → is_open n (closing o conns) ≡ true
    → (is_open n conns ≡ true) × (o ≢ some n)
is_open-closing n none conns h = (h, λ e. cc)
is_open-closing n (some k) conns h = elim (Bool-cases (k == n)) [
  | inl same ↦ absurd (ground (arith, h, is_open-without n k conns, same))
  | inr differs ↦
      (ground (arith, h, is_open-without n k conns, differs), λ e. ground (arith, e, differs))
]

pub is_open-append :
    (n : ℕ) (xs ys : List ℕ)
    → is_open n (xs ++ ys) ≡ true
    → (is_open n xs ≡ true) ⊎ (is_open n ys ≡ true)
is_open-append n [] ys h = inr h
is_open-append n (x ∷ xs) ys h = elim (Bool-cases (x == n)) [
  | inl same ↦ inl (ground (arith, same))
  | inr differs ↦ elim (is_open-append n xs ys (ground (arith, h, differs))) [
    | inl early ↦ inl (ground (arith, early))
    | inr late ↦ inr late
  ]
]

pub is_open-left : (n : ℕ) (xs ys : List ℕ) → is_open n xs ≡ true → is_open n (xs ++ ys) ≡ true
is_open-left n [] ys h = absurd (ground (arith, h))
is_open-left n (x ∷ xs) ys h = elim (Bool-cases (x == n)) [
  | inl same ↦ ground (arith, same)
  | inr differs ↦ ground (arith, is_open-left n xs ys (ground (arith, h, differs)))
]

pub is_open-right : (n : ℕ) (xs ys : List ℕ) → is_open n ys ≡ true → is_open n (xs ++ ys) ≡ true
is_open-right n [] ys h = h
is_open-right n (x ∷ xs) ys h = ground (arith, is_open-right n xs ys h)

pub no_closer_left :
    (lost : List ℕ) (l : Link) → IsOwned lost l → has_channel l ≡ false → l.transport_closer ≡ none
no_closer_left lost l v none_there = elim (v.no_closer) [
  | inl channel ↦ absurd (ground (arith, channel, none_there))
  | inr free ↦ free
]
