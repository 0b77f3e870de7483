-- ===== src/Dialing/Order.antt =====
-- Which candidates the client of client.go tries, and with what outcome.
use stealthlink.Prelude.{
  All, Bool, Bool-cases, List, Option, String, [], ap, false, inl, inr, length, none, refl, some,
  sym, ℕ, ◌∷◌, ◌≡◌, ◌⊎◌,
}
use mathlib.Core.Path.{subst}
use stealthlink.Subscription.Ranking.{AttemptGroup}
use stealthlink.Subscription.Transports.{ServerEntry, Tidy}
use stealthlink.Dialing.{
  after_group, resolve_attempt_groups, Selector, ClientConfig, try_groups, try_connect_candidates,
  attempt, Progress, should_retry_other_transports, is_none, Attempts, try_variants, ErrorText,
  connected, stopped, unconnected,
}

abbrev pub Made : Type 0
Made = List (ServerEntry × Option String)

abbrev pub In : ServerEntry × Option String → Made → Type 0
In x [] = ⊥
In x (y ∷ ys) = (x ≡ y) ⊎ In x ys

abbrev pub Failed : ServerEntry × Option String → Type 0
Failed (candidate, outcome) = is_none outcome ≡ false

module _ (text : ErrorText) where
  -- Every candidate was tried and failed, up to one whose error ends the tries of its server.
  abbrev pub Covered : Made → List ServerEntry → Type 0
  Covered made [] = Unit {0}
  Covered made (v ∷ variants) =
      (msg : String) × In (v, some msg) made
      × ((should_retry_other_transports text msg ≡ false) ⊎ Covered made variants)

  -- What is known when attempts end: after a success, the last one alone succeeded; without one,
  -- all failed, and all groups are covered unless the client was stopped.
  abbrev pub Explains : List AttemptGroup → Attempts × Progress → Type 0
  Explains groups (a, connected) =
      (candidate : ServerEntry) × (earlier : Made) × (a.made ≡ (candidate, none) ∷ earlier)
      × All Failed earlier
  Explains groups (a, stopped) = All Failed a.made
  Explains groups (a, unconnected error) =
      All Failed a.made × All (λ (g : AttemptGroup). Covered a.made g.variants) groups

  Covered-mono :
      (made more : Made) (variants : List ServerEntry)
      → ((x : ServerEntry × Option String) → In x made → In x more)
      → Covered made variants
      → Covered more variants
  Covered-mono made more [] keeps h = tt
  Covered-mono made more (v ∷ variants) keeps (msg, there, inl terminal) =
      (msg, keeps (v, some msg) there, inl terminal)
  Covered-mono made more (v ∷ variants) keeps (msg, there, inr rest) =
      (msg, keeps (v, some msg) there, inr (Covered-mono made more variants keeps rest))

  module _ (names : Tidy) (dial : ℕ → ServerEntry → Option String) (elapsed clock : ℕ → ℕ)
      (stops : ℕ → Bool) where
    abbrev try_all : Attempts → Option String → List ServerEntry → Attempts × Progress
    try_all = try_variants names text dial elapsed clock stops

    -- What the inner loop tells of its variants, over what was made before.
    abbrev Told : Made → List ServerEntry → Attempts × Progress → Type 0
    Told before variants (a, connected) =
        (candidate : ServerEntry) × (earlier : Made) × (a.made ≡ (candidate, none) ∷ earlier)
        × All Failed earlier
    Told before variants (a, stopped) = All Failed a.made
    Told before variants (a, unconnected error) =
        All Failed a.made
        × Covered a.made variants
        × ((x : ServerEntry × Option String) → In x before → In x a.made)

    Told-step :
        (before : Made) (candidate : ServerEntry) (msg : String) (variants : List ServerEntry)
        (r : Attempts × Progress)
        → Told ((candidate, some msg) ∷ before) variants r
        → Told before (candidate ∷ variants) r
    Told-step before candidate msg variants (a, connected) h = h
    Told-step before candidate msg variants (a, stopped) h = h
    Told-step before candidate msg variants (a, unconnected error) (failed, covered, keeps) = (
      failed,
      (msg, keeps (candidate, some msg) (inl refl), inr covered),
      λ x there. keeps x (inr there),
    )

    attempt_made :
        (a : Attempts) (candidate : ServerEntry) (outcome : Option String)
        → dial (length a.made) candidate ≡ outcome
        → (attempt names text dial elapsed clock stops a candidate).made
          ≡ (candidate, outcome) ∷ a.made
    unfolding attempt
    attempt_made a candidate outcome e = ap (λ o. (candidate, o) ∷ a.made) e

    -- One attempt, over what the loop tells of the variants behind it.
    Told-attempt :
        (a : Attempts) (last_err : Option String) (candidate : ServerEntry)
        (variants : List ServerEntry) (outcome : Option String)
        → dial (length a.made) candidate ≡ outcome
        → stops (length a.made) ≡ false
        → All Failed a.made
        → let after = attempt names text dial elapsed clock stops a candidate in
          (All Failed after.made
            → Told after.made variants (try_all after (dial (length a.made) candidate) variants))
          → Told a.made (candidate ∷ variants) (try_all a last_err (candidate ∷ variants))
    unfolding try_variants
    Told-attempt a last_err candidate variants none e on h rest =
        rw (try_variants, on, e) (candidate, a.made, attempt_made a candidate none e, h)
    Told-attempt a last_err candidate variants (some msg) e on h rest =
        let after = attempt names text dial elapsed clock stops a candidate in
        let made = attempt_made a candidate (some msg) e in
        let failed : All Failed after.made = subst (All Failed) (sym made) (refl, h) in
        elim (Bool-cases (should_retry_other_transports text msg)) [
          | inl retry ↦
              rw (try_variants, on, e, retry)
                (Told-step a.made candidate msg variants
                  (try_all after (dial (length a.made) candidate) variants)
                  (subst
                    (λ (m : Made).
                      Told m variants (try_all after (dial (length a.made) candidate) variants))
                    made (rest failed)))
          | inr terminal ↦
              rw (try_variants, on, e, terminal)
                (
                  failed,
                  (msg, subst (In (candidate, some msg)) (sym made) (inl refl), inl terminal),
                  λ x there. inr there,
                )
        ]

    try_variants-Told :
        (a : Attempts) (last_err : Option String) (variants : List ServerEntry)
        → All Failed a.made
        → Told a.made variants (try_all a last_err variants)
    unfolding try_variants
    try_variants-Told a last_err [] h = (h, tt, λ x there. there)
    try_variants-Told a last_err (candidate ∷ variants) h =
        elim (Bool-cases (stops (length a.made))) [
          | inl stop ↦ rw (try_variants, stop) h
          | inr on ↦
              Told-attempt a last_err candidate variants (dial (length a.made) candidate) refl on h
                (try_variants-Told (attempt names text dial elapsed clock stops a candidate)
                  (dial (length a.made) candidate) variants)
        ]

    abbrev try_all_groups : Attempts → Option String → List AttemptGroup → Attempts × Progress
    try_all_groups = try_groups names text dial elapsed clock stops

    -- As Explains, over what was made before.
    abbrev GroupsTold : Made → List AttemptGroup → Attempts × Progress → Type 0
    GroupsTold before groups (a, unconnected error) =
        Explains groups (a, unconnected error)
        × ((x : ServerEntry × Option String) → In x before → In x a.made)
    GroupsTold before groups (a, connected) = Explains groups (a, connected)
    GroupsTold before groups (a, stopped) = Explains groups (a, stopped)

    GroupsTold-cons :
        (before : Made) (after : Attempts) (g : AttemptGroup) (groups : List AttemptGroup)
        (r : Attempts × Progress)
        → Covered after.made g.variants
        → ((x : ServerEntry × Option String) → In x before → In x after.made)
        → GroupsTold after.made groups r
        → GroupsTold before (g ∷ groups) r
    GroupsTold-cons before after g groups (a, connected) covered keeps h = h
    GroupsTold-cons before after g groups (a, stopped) covered keeps h = h
    GroupsTold-cons before after g groups (a, unconnected error) covered keeps
          ((failed, all_covered), more) =
        (
          (failed, (Covered-mono after.made a.made g.variants more covered, all_covered)),
          λ x there. more x (keeps x there),
        )

    after_group-GroupsTold :
        (before : Made) (g : AttemptGroup) (groups : List AttemptGroup) (r : Attempts × Progress)
        → Told before g.variants r
        → ((after : Attempts) (error : Option String)
            → All Failed after.made
            → GroupsTold after.made groups (try_all_groups after error groups))
        → GroupsTold before (g ∷ groups) (
            after_group names text dial elapsed clock stops
              (λ after error. try_all_groups after error groups)
              r)
    after_group-GroupsTold before g groups (after, connected) h rest = h
    after_group-GroupsTold before g groups (after, stopped) h rest = h
    after_group-GroupsTold before g groups (after, unconnected error) (failed, covered, keeps)
          rest =
        GroupsTold-cons before after g groups (try_all_groups after error groups) covered keeps
          (rest after error failed)

    try_groups-GroupsTold :
        (a : Attempts) (last_err : Option String) (groups : List AttemptGroup)
        → All Failed a.made
        → GroupsTold a.made groups (try_all_groups a last_err groups)
    unfolding try_groups
    try_groups-GroupsTold a last_err [] h = ((h, tt), λ x there. there)
    try_groups-GroupsTold a last_err (g ∷ groups) h =
        after_group-GroupsTold a.made g groups (try_all a last_err g.variants)
          (try_variants-Told a last_err g.variants h)
          (λ after error failed. try_groups-GroupsTold after error groups failed)

    told-Explains :
        (before : Made) (groups : List AttemptGroup) (r : Attempts × Progress)
        → GroupsTold before groups r
        → Explains groups r
    told-Explains before groups (a, connected) h = h
    told-Explains before groups (a, stopped) h = h
    told-Explains before groups (a, unconnected error) (h, _) = h

    -- However the dials turn out: if the client is connected, its last attempt alone succeeded;
    -- if it is not, and was not stopped, then every candidate of every ranked server was tried
    -- and failed, but those behind an error of the same server that ends the tries of it.
    pub try_connect_candidates-Explains :
        (config : ClientConfig) (selector : Option Selector) (now : ℕ)
        → Explains
            (resolve_attempt_groups names config selector now)
            (try_connect_candidates names text dial elapsed clock stops config selector now)
    unfolding try_connect_candidates
    try_connect_candidates-Explains config selector now =
        told-Explains [] (resolve_attempt_groups names config selector now)
          (try_all_groups (record { selector = selector; made = [] }) none
            (resolve_attempt_groups names config selector now))
          (try_groups-GroupsTold (record { selector = selector; made = [] }) none
            (resolve_attempt_groups names config selector now) tt)
