-- ===== src/Subscription/Ranking/Laws.antt =====
-- The order in which servers are tried.
use mathlib.Core.List.{Perm}
use mathlib.Core.List.Perm
use mathlib.Core.Path.{subst}
use stealthlink.Subscription.Stats.{Score, candidate_score}
use stealthlink.Subscription.Ranking.{no_score, first_score}
use stealthlink.Subscription.Ranking.Order.{Pairwise, All-stable_sort, IsAscending-Pairwise}
use stealthlink.Prelude.{
  All, IsAscending, List, String, [], ap, arith, false, inl, inr, length, map, refl, stable_sort,
  stable_sort-IsAscending, stable_sort-perm, true, ℕ, ◌+◌, ◌<◌, ◌==◌, ◌∷◌, ◌≡◌, ◌≤◌, ◌⊎◌,
}
use stealthlink.Subscription.Transports.{Tidy, ServerEntry, build_transport_variants}
use stealthlink.Subscription.Stats.{Stats}
use stealthlink.Subscription.Ranking.{
  ranked_groups, group_less, variant_less, ranked_variants, rank_server_groups, score_variants,
  ScoredVariant, score_groups, ScoredGroup, AttemptGroup,
}

group_less-asymmetric : (a b : ScoredGroup) → group_less a b ≡ true → group_less b a ≡ false
group_less-asymmetric a b h = ground (arith, h)

variant_less-asymmetric : (a b : ScoredVariant) → variant_less a b ≡ true → variant_less b a ≡ false
variant_less-asymmetric a b h = ground (arith, h)

-- Of two scores and two weights, those of an earlier and of a later group.
abbrev pub InOrder : Score → Score → ℕ → ℕ → Type 0
InOrder s t weight_s weight_t =
    (s.added + t.taken_off < t.added + s.taken_off)
    ⊎ ((s.added + t.taken_off ≡ t.added + s.taken_off) × (weight_t ≤ weight_s))

abbrev GroupsInOrder : ScoredGroup → ScoredGroup → Type 0
GroupsInOrder g h = InOrder g.score h.score g.group.base.weight h.group.base.weight

not_less-in_order : (g h : ScoredGroup) → group_less h g ≡ false → GroupsInOrder g h
not_less-in_order g h e = ground (arith, e)

InOrder-trans : (s t u : Score) (a b c : ℕ) → InOrder s t a b → InOrder t u b c → InOrder s u a c
InOrder-trans s t u a b c (inl p) (inl q) = inl (omega (arith, p, q))
InOrder-trans s t u a b c (inl p) (inr q) = inl (omega (arith, p, q.0))
InOrder-trans s t u a b c (inr p) (inl q) = inl (omega (arith, p.0, q))
InOrder-trans s t u a b c (inr p) (inr q) = inr (omega (arith, p.0, q.0), omega (arith, p.1, q.1))

some_variants :
    (text : Tidy) (base : ServerEntry) (preferred : String)
    → (length (build_transport_variants text base preferred) == 0) ≡ false
unfolding build_transport_variants
some_variants text base preferred = ground arith

module _ (text : Tidy) (stats : Stats) (now : ℕ) where
  abbrev bases : List ScoredGroup → List ServerEntry
  bases = map (λ (g : ScoredGroup). g.group.base)

  bases-score_groups :
      (servers : List ServerEntry) (preferred : String)
      → bases (score_groups text stats now servers preferred) ≡ servers
  unfolding score_groups
  bases-score_groups [] preferred = refl
  bases-score_groups (base ∷ servers) preferred =
      rw (some_variants text base preferred) (ap (◌∷◌ base) (bases-score_groups servers preferred))

  servers-score_variants :
      (idx : ℕ) (vs : List ServerEntry)
      → map (λ (v : ScoredVariant). v.server) (score_variants text stats now idx vs) ≡ vs
  unfolding score_variants
  servers-score_variants idx [] = refl
  servers-score_variants idx (v ∷ vs) = ap (◌∷◌ v) (servers-score_variants (idx + 1) vs)

  map-map_base :
      (gs : List ScoredGroup)
      → map (λ (g : AttemptGroup). g.base) (map (λ (g : ScoredGroup). g.group) gs) ≡ bases gs
  map-map_base [] = refl
  map-map_base (g ∷ gs) = ap (◌∷◌ g.group.base) (map-map_base gs)

  -- The score of the variant that a group tries first.
  abbrev pub first_cost : List ServerEntry → Score
  first_cost [] = no_score
  first_cost (v ∷ vs) = candidate_score text stats v now

  -- A group may come before another: its first score is smaller, or the same and its weight no
  -- smaller. A score is the difference of its two parts.
  abbrev pub Precedes : AttemptGroup → AttemptGroup → Type 0
  Precedes a b = InOrder (first_cost a.variants) (first_cost b.variants) a.base.weight b.base.weight

  variant_scores :
      (idx : ℕ) (vs : List ServerEntry)
      → All
          (λ (v : ScoredVariant). v.score ≡ candidate_score text stats v.server now)
          (score_variants text stats now idx vs)
  unfolding score_variants
  variant_scores idx [] = tt
  variant_scores idx (v ∷ vs) = (refl, variant_scores (idx + 1) vs)

  first_score-first_cost :
      (vs : List ScoredVariant)
      → All (λ (v : ScoredVariant). v.score ≡ candidate_score text stats v.server now) vs
      → first_score vs ≡ first_cost (map (λ (v : ScoredVariant). v.server) vs)
  first_score-first_cost [] h = refl
  first_score-first_cost (v ∷ vs) h = h.0

  abbrev IsCosted : ScoredGroup → Type 0
  IsCosted g = g.score ≡ first_cost g.group.variants

  group_scores :
      (servers : List ServerEntry) (preferred : String)
      → All IsCosted (score_groups text stats now servers preferred)
  unfolding score_groups
  group_scores [] preferred = tt
  group_scores (base ∷ servers) preferred =
      let built = build_transport_variants text base preferred in
      rw (some_variants text base preferred) (
        first_score-first_cost (ranked_variants text stats now base preferred) (
            All-stable_sort variant_less
              (λ (v : ScoredVariant). v.score ≡ candidate_score text stats v.server now)
              (score_variants text stats now 0 built) (variant_scores 0 built)),
        group_scores servers preferred,
      )

  pairs_of_groups :
      (gs : List ScoredGroup)
      → All IsCosted gs
      → Pairwise GroupsInOrder gs
      → Pairwise Precedes (map (λ (g : ScoredGroup). g.group) gs)
  pairs_of_groups [] costed ordered = tt
  pairs_of_groups (g ∷ gs) (cost, costs) (before, ordered) =
      (befores gs costs before, pairs_of_groups gs costs ordered)
    where
      befores :
          (hs : List ScoredGroup)
          → All IsCosted hs
          → All (GroupsInOrder g) hs
          → All (Precedes g.group) (map (λ (h : ScoredGroup). h.group) hs)
      befores [] costs before = tt
      befores (h ∷ hs) (cost_h, costs) (this, others) = (
        subst (λ s. InOrder s (first_cost h.group.variants) g.group.base.weight h.group.base.weight)
            cost
            (subst (λ s. InOrder g.score s g.group.base.weight h.group.base.weight) cost_h this),
        befores hs costs others,
      )

  -- The ranking holds each server once, and each group stands before all groups whose first
  -- variant has a higher score, and before those with the same score and a smaller weight.
  pub rank_server_groups-IsRanking :
      (servers : List ServerEntry) (preferred : String)
      → Perm
          (map (λ (g : AttemptGroup). g.base) (rank_server_groups text stats now servers preferred))
          servers
        × Pairwise Precedes (rank_server_groups text stats now servers preferred)
  unfolding rank_server_groups ranked_groups
  rank_server_groups-IsRanking servers preferred =
      let scored = score_groups text stats now servers preferred in
      (
        rw (map-map_base (stable_sort group_less scored)) (
            subst (Perm (bases (stable_sort group_less scored)))
              (bases-score_groups servers preferred)
              (Perm.map (λ (g : ScoredGroup). g.group.base) (stable_sort-perm group_less scored))),
        pairs_of_groups (stable_sort group_less scored)
            (All-stable_sort group_less IsCosted scored (group_scores servers preferred))
            (IsAscending-Pairwise group_less GroupsInOrder (λ g h e. not_less-in_order g h e)
              (λ f g h p q. InOrder-trans f.score g.score h.score _ _ _ p q)
              (stable_sort group_less scored)
              (stable_sort-IsAscending group_less group_less-asymmetric scored)),
      )

  -- Within a group the variants of the server stand by score, and by the order in which they were
  -- built where the scores are the same, each once.
  pub ranked_variants-IsRanking :
      (base : ServerEntry) (preferred : String)
      → Perm
          (map (λ (v : ScoredVariant). v.server) (ranked_variants text stats now base preferred))
          (build_transport_variants text base preferred)
        × IsAscending variant_less (ranked_variants text stats now base preferred)
  ranked_variants-IsRanking base preferred =
      let scored = score_variants text stats now 0 (build_transport_variants text base preferred) in
      (
        subst (Perm (map (λ (v : ScoredVariant). v.server) (stable_sort variant_less scored)))
            (servers-score_variants 0 (build_transport_variants text base preferred))
            (Perm.map (λ (v : ScoredVariant). v.server) (stable_sort-perm variant_less scored)),
        stable_sort-IsAscending variant_less variant_less-asymmetric scored,
      )
