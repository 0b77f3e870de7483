-- ===== src/Subscription/Ranking.antt =====
-- RankServerGroups of subscription.go: the servers in the order in which they are tried, each
-- with its variants in theirs.
pub mod Order
pub mod Laws
use stealthlink.Prelude.{
  Bool, List, String, [], if◌then◌else◌, length, ltb, map, stable_sort, ℕ, ◌+◌, ◌==◌, ◌∷◌,
}
use stealthlink.Subscription.Transports.{Tidy, ServerEntry, build_transport_variants}
use stealthlink.Subscription.Stats.{Stats, Score, candidate_score}

pub record AttemptGroup : Type 0 where
  pub base : ServerEntry
  pub variants : List ServerEntry

pub record ScoredVariant : Type 0 where
  pub server : ServerEntry
  pub score : Score
  pub order : ℕ

pub record ScoredGroup : Type 0 where
  pub group : AttemptGroup
  pub score : Score

abbrev pub score_less : Score → Score → Bool
score_less a b = ltb (a.added + b.taken_off) (b.added + a.taken_off)

abbrev pub score_same : Score → Score → Bool
score_same a b = a.added + b.taken_off == b.added + a.taken_off

abbrev pub variant_less : ScoredVariant → ScoredVariant → Bool
variant_less a b =
    if score_same a.score b.score then ltb a.order b.order else score_less a.score b.score

abbrev pub group_less : ScoredGroup → ScoredGroup → Bool
group_less a b =
    if score_same a.score b.score
    then ltb b.group.base.weight a.group.base.weight
    else score_less a.score b.score

abbrev pub no_score : Score
no_score = record { added = 0; taken_off = 0 }

-- scoredVariants[0].score, of a list that is not empty.
abbrev pub first_score : List ScoredVariant → Score
first_score [] = no_score
first_score (v ∷ vs) = v.score

module _ (text : Tidy) (stats : Stats) (now : ℕ) where
  unfoldable pub score_variants : ℕ → List ServerEntry → List ScoredVariant
  score_variants idx [] = []
  score_variants idx (v ∷ vs) =
      record { server = v; score = candidate_score text stats v now; order = idx }
      ∷ score_variants (idx + 1) vs

  abbrev pub ranked_variants : ServerEntry → String → List ScoredVariant
  ranked_variants base preferred =
      stable_sort variant_less (score_variants 0 (build_transport_variants text base preferred))

  abbrev pub scored_group : ServerEntry → String → ScoredGroup
  scored_group base preferred = record {
    group = record {
      base = base;
      variants = map (λ (v : ScoredVariant). v.server) (ranked_variants base preferred);
    };
    score = first_score (ranked_variants base preferred);
  }

  -- A server without variants is passed over.
  unfoldable pub score_groups : List ServerEntry → String → List ScoredGroup
  score_groups [] preferred = []
  score_groups (base ∷ servers) preferred =
      let rest = score_groups servers preferred in
      if length (build_transport_variants text base preferred) == 0
      then rest
      else scored_group base preferred ∷ rest

  unfoldable pub ranked_groups : List ServerEntry → String → List ScoredGroup
  unfolding score_groups
  ranked_groups servers preferred = stable_sort group_less (score_groups servers preferred)

  unfoldable pub rank_server_groups : List ServerEntry → String → List AttemptGroup
  unfolding ranked_groups
  rank_server_groups servers preferred =
      map (λ (g : ScoredGroup). g.group) (ranked_groups servers preferred)
