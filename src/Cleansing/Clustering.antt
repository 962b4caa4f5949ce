-- ===== src/Cleansing/Clustering.antt =====
-- src/services/cleansing/cleansing/clustering.py, and Gate 2 of taxonomy.py. A type of event is its text,
-- instants are seconds.
pub mod Best
pub mod Chosen
use Prim.Native.String.{String}
use text.Mathlib.Text.{◌==◌ as str_eq}
use stock_prediction.Base.{
  ℕ, suc, ◌+◌, ◌*◌, Bool, true, false, not, ◌&&◌, ◌||◌, Option, none, some, List, [], ◌∷◌, any, leb,
  ◌==◌, length, if◌then◌else◌,
}
use stock_prediction.Number.{Number, lt}

pub data ClusterState : Type 0 where
  open_ quiet ready merging merged error_retryable error_terminal : ClusterState

pub record ClusterCandidate (F : Type 0) : Type 0 where
  pub cluster_id : ℕ
  pub event_type : String
  pub similarity : F

pub record AssignmentDecision : Type 0 where
  pub cluster_id : Option ℕ
  pub reason : String

-- `NON_CLUSTERING_EVENT_TYPES`
abbrev pub non_clustering : List String
non_clustering = "SPORT" ∷ "ENTERTAINMENT" ∷ "LIFESTYLE" ∷ "OTHER" ∷ []

unfoldable pub gate2_compatible : String → String → Bool
gate2_compatible left right = str_eq left right && not (any (λ t. str_eq left t) non_clustering)

module _ {F : Type 0} ⦃f : Number F⦄ where
  -- `best is None or candidate.similarity > best.similarity`
  abbrev pub is_better : Option (ClusterCandidate F) → ClusterCandidate F → Bool
  is_better none c = true
  is_better (some best) c = lt best.similarity c.similarity

  -- One turn of the loop.
  pub consider :
      String → F → Option (ClusterCandidate F) → ClusterCandidate F → Option (ClusterCandidate F)
  consider event_type threshold best c =
      if lt c.similarity threshold
      then best
      else if not (gate2_compatible event_type c.event_type)
      then best
      else if is_better best c
      then some c
      else best

  pub best_of :
      String
      → F
      → Option (ClusterCandidate F)
      → List (ClusterCandidate F)
      → Option (ClusterCandidate F)
  best_of event_type threshold best [] = best
  best_of event_type threshold best (c ∷ cs) =
      best_of event_type threshold (consider event_type threshold best c) cs

  abbrev pub decision_for : Option (ClusterCandidate F) → AssignmentDecision
  decision_for none = record { cluster_id = none; reason = "no_gate_passing_candidate" }
  decision_for (some c) = record { cluster_id = some c.cluster_id; reason = "gate1_gate2_passed" }

  unfoldable pub decide_assignment : String → F → List (ClusterCandidate F) → AssignmentDecision
  unfolding best_of
  decide_assignment event_type threshold candidates =
      decision_for (best_of event_type threshold none candidates)

  zip_mean : ℕ → List F → List F → List F
  zip_mean total (x ∷ xs) (y ∷ ys) =
      f.div (f.add (f.mul x (f.of_ℕ total)) y) (f.of_ℕ (suc total)) ∷ zip_mean total xs ys
  zip_mean total _ _ = []

  -- `none` is the `ValueError`.
  unfoldable pub update_centroid : List F → ℕ → List F → Option (List F)
  unfolding zip_mean
  update_centroid [] article_count new_vector = some new_vector
  update_centroid (x ∷ xs) article_count new_vector =
      if length (x ∷ xs) == length new_vector
      then some (zip_mean article_count (x ∷ xs) new_vector)
      else none

abbrev pub quiet_deadline : ℕ → ℕ → ℕ
quiet_deadline last_seen_at quiet_period_minutes = last_seen_at + 60 * quiet_period_minutes

abbrev pub lifetime_deadline : ℕ → ℕ → ℕ
lifetime_deadline first_seen_at max_lifetime_hours = first_seen_at + 3600 * max_lifetime_hours

abbrev pub is_ready_to_close : ℕ → ℕ → ℕ → Bool
is_ready_to_close now quiet_at lifetime_at = leb quiet_at now || leb lifetime_at now

abbrev pub can_accept_article : ClusterState → Bool
can_accept_article open_ = true
can_accept_article quiet = true
can_accept_article _ = false
