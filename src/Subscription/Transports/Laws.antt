-- ===== src/Subscription/Transports/Laws.antt =====
-- What becomes of a server's transport.
use stealthlink.Prelude.{
  All, Bool-cases, List, String, [], ap, arith, eq_iff, false, if◌then◌else◌, inl, inr, refl,
  str_eq, sym, true, ◌∙◌, ◌∷◌, ◌≡◌,
}
use mathlib.Core.Path.{subst}
use stealthlink.Subscription.Transports.{
  known_name, at_least_one, normalize_stored_transport, normalize_server_entries, primary_transport,
  with_transport, build_transport_variants, normalize_transport_preference, ServerEntry, exclusive,
  Tidy, any_of, transport_names,
}

-- What holds of each of some names holds of a text that is one of them.
any_of-apply {ℓ} :
    (P : String → Type ℓ) (names : List String) (s : String)
    → All P names
    → any_of names s ≡ true
    → P s
any_of-apply P [] s h e = absurd (cc e)
any_of-apply P (name ∷ names) s h e = elim (Bool-cases (str_eq s name)) [
  | inl same ↦ subst P (sym ((eq_iff s name).0 same)) h.0
  | inr other ↦ any_of-apply P names s h.1 (ground (arith, e, other))
]

abbrev pub dialled_names : List String
dialled_names = "tls" ∷ "quic" ∷ exclusive

abbrev pub first_transport : List ServerEntry → String
first_transport [] = ""
first_transport (s ∷ servers) = s.transport

-- The variants that are tried with a server's own name of a transport.
abbrev variants_of : ServerEntry → String → List ServerEntry
variants_of base primary =
    if any_of exclusive primary
    then with_transport base primary ∷ []
    else if str_eq primary "quic"
    then with_transport base "quic" ∷ with_transport base "tls" ∷ []
    else with_transport base "tls" ∷ with_transport base "quic" ∷ []

module _ (text : Tidy) where
  known_preference :
      (s : String) → any_of dialled_names s ≡ true → normalize_transport_preference text s ≡ s
  unfolding normalize_transport_preference
  known_preference s h =
      ap (known_name text) (
        text.tidy-known s (
          any_of-apply (λ t. any_of transport_names t ≡ true) dialled_names s
            (refl, (refl, (refl, (refl, (refl, (refl, (refl, tt))))))) h))
      ∙ any_of-apply (λ t. known_name text t ≡ t) dialled_names s
          (refl, (refl, (refl, (refl, (refl, (refl, (refl, tt))))))) h

  own_name :
      (s : String)
      → any_of dialled_names s ≡ true
      → (str_eq s "" ≡ false) × (str_eq s "auto" ≡ false)
  own_name s h =
      any_of-apply (λ t. (str_eq t "" ≡ false) × (str_eq t "auto" ≡ false)) dialled_names s
        (
          (refl, refl),
          (
            (refl, refl),
            ((refl, refl), ((refl, refl), ((refl, refl), ((refl, refl), ((refl, refl), tt))))),
          ),
        )
        h

  own_primary :
      (base : ServerEntry) (preferred : String)
      → any_of dialled_names base.transport ≡ true
      → primary_transport text base preferred ≡ base.transport
  unfolding primary_transport
  own_primary base preferred h =
      ground (arith, known_preference base.transport h, own_name base.transport h)

  -- A server that names a transport is tried over it first, whatever transport is preferred.
  pub own_transport_first :
      (base : ServerEntry) (preferred : String)
      → any_of dialled_names base.transport ≡ true
      → (first_transport (build_transport_variants text base preferred) ≡ base.transport)
  unfolding build_transport_variants
  own_transport_first base preferred h =
      ap (λ p. first_transport (variants_of base p)) (own_primary base preferred h)
      ∙ any_of-apply (λ t. first_transport (variants_of base t) ≡ t) dialled_names base.transport
          (refl, (refl, (refl, (refl, (refl, (refl, (refl, tt))))))) h

  stored_exclusive :
      (s : String) → any_of exclusive s ≡ true → normalize_stored_transport text s ≡ ""
  unfolding normalize_stored_transport
  stored_exclusive s h =
      let d : any_of dialled_names s ≡ true =
        any_of-apply (λ t. any_of dialled_names t ≡ true) exclusive s
          (refl, (refl, (refl, (refl, (refl, tt))))) h in
      ap (λ t. if any_of ("tls" ∷ "quic" ∷ "auto" ∷ []) t then t else "") (known_preference s d)
      ∙ any_of-apply (λ t. (if any_of ("tls" ∷ "quic" ∷ "auto" ∷ []) t then t else "") ≡ "")
          exclusive s (refl, (refl, (refl, (refl, (refl, tt))))) h

  -- A selector forgets a server's transport if it is one of the five that are tried alone: with
  -- no preference such a server is tried over tls and then quic, never over its own transport.
  pub exclusive_is_forgotten :
      (base : ServerEntry)
      → any_of exclusive base.transport ≡ true
      → (stored : ServerEntry) × (normalize_server_entries text (base ∷ []) ≡ stored ∷ [])
        × (build_transport_variants text stored ""
            ≡ with_transport stored "tls" ∷ with_transport stored "quic" ∷ [])
  unfolding normalize_server_entries build_transport_variants primary_transport
      normalize_transport_preference
  exclusive_is_forgotten base h =
      let lost = stored_exclusive base.transport h in
      (
        record base {
          weight = at_least_one base.weight;
          transport = normalize_stored_transport text base.transport;
        },
        refl,
        rw (lost, text.tidy-empty) refl,
      )
