-- ===== src/Cleansing/Merge.antt =====
-- src/services/cleansing/cleansing/merge.py: how a cluster becomes an event. Types of event, assets and
-- condition codes are their texts. What the gateway answers has its texts stripped of white space.
pub mod Build
use Prim.Native.String.{String}
use text.Mathlib.Text.{◌==◌ as str_eq}
use stock_prediction.Base.{
  ℕ, ◌+◌, ◌-◌, Bool, true, false, not, Option, none, some, List, [], ◌∷◌, ◌++◌, map, any, length,
  filter_by, ltb, if◌then◌else◌,
}
use stock_prediction.Schema.{EventPolarity, occurrence, resolution}
use stock_prediction.Cleansing.Clustering.{ClusterState, non_clustering}

-- `ArticleFacts`; a row of `cluster_articles` has the fields that the code reads of it.
pub record ArticleFacts : Type 0 where
  pub article_id : ℕ
  pub source_id : String
  pub canonical_url : String
  pub title : String
  pub published_at : ℕ
  pub correlation_id : ℕ

-- A row of `article_actions`, and `ExtractedAction`.
pub record Action : Type 0 where
  pub article_id : ℕ
  pub actor : Option String
  pub action_lemma : Option String
  pub object : Option String
  pub event_type : String
  pub affected_asset_ids : List String
  pub polarity : EventPolarity
  pub context_tags : List String

-- A row of `event_clusters`, and `ClusterRecord`.
pub record Cluster (F : Type 0) : Type 0 where
  pub cluster_id : ℕ
  pub event_type : String
  pub state : ClusterState
  pub article_count : ℕ
  pub first_seen_at : ℕ
  pub last_seen_at : ℕ
  pub quiet_deadline : ℕ
  pub lifetime_deadline : ℕ
  pub centroid : List F

pub record ClusterInputs (F : Type 0) : Type 0 where
  pub cluster : Cluster F
  pub articles : List ArticleFacts
  pub actions : List Action

pub data ExtractionMethod : Type 0 where
  local llm_assisted : ExtractionMethod

-- `FactConflict` on the field "actor": the article and its actor.
pub record FactConflict : Type 0 where
  pub values : List (ℕ × String)

pub record EventDetected : Type 0 where
  pub message_id : ℕ
  pub event_id : ℕ
  pub correlation_id : ℕ
  pub cluster_id : ℕ
  pub canonical_summary : String
  pub event_type : String
  pub actor : Option String
  pub action : Option String
  pub object : Option String
  pub affected_asset_ids : List String
  pub polarity : EventPolarity
  pub context_tags : List String
  pub first_seen_at : ℕ
  pub last_seen_at : ℕ
  pub sources : List ArticleFacts
  pub fact_conflicts : List FactConflict
  pub extraction_method : ExtractionMethod

-- The values of `uuid4` that an event takes; the last stands in for an article's.
pub record NewIds : Type 0 where
  pub message_id : ℕ
  pub event_id : ℕ
  pub correlation_id : ℕ

-- `LLMResult.content`
pub record Content : Type 0 where
  pub canonical_summary : String
  pub actor : Option String
  pub action : Option String
  pub object : Option String

-- The texts that are there and not empty.
pub present : List (Option String) → List String
present [] = []
present (none ∷ vs) = present vs
present (some v ∷ vs) = let rest = present vs in if str_eq v "" then rest else v ∷ rest

-- Each text where it is first seen, after those of `seen`.
pub distinct_from : List String → List String → List String
distinct_from seen [] = seen
distinct_from seen (v ∷ vs) =
    if any (λ s. str_eq s v) seen
    then distinct_from seen vs
    else distinct_from (seen ++ (v ∷ [])) vs

distinct_nonempty : List (Option String) → List String
unfolding present distinct_from
distinct_nonempty values = distinct_from [] (present values)

count_of : String → List String → ℕ
count_of v vs = length (filter_by (λ w. str_eq w v) vs)

-- The first of the values with the highest count.
most_common : List String → Option String → List String → Option String
unfolding count_of
most_common vs best [] = best
most_common vs none (v ∷ rest) = most_common vs (some v) rest
most_common vs (some b) (v ∷ rest) =
    if ltb (count_of b vs) (count_of v vs)
    then most_common vs (some v) rest
    else most_common vs (some b) rest

majority : List (Option String) → Option String
unfolding present most_common distinct_from
majority values = let vs = present values in most_common vs none (distinct_from [] vs)

conflict_values : List Action → List (ℕ × String)
conflict_values [] = []
conflict_values (a ∷ rest) =
    map (λ v. (a.article_id, v)) (present (a.actor ∷ [])) ++ conflict_values rest

pub detect_fact_conflicts : List Action → List FactConflict
unfolding distinct_nonempty conflict_values
detect_fact_conflicts actions =
    if ltb 1 (length (distinct_nonempty (map (λ a. a.actor) actions)))
    then record { values = conflict_values actions } ∷ []
    else []

concat : List (List String) → List String
concat [] = []
concat (xs ∷ rest) = xs ++ concat rest

affected_assets : List Action → List String
unfolding concat
affected_assets actions = distinct_from [] (concat (map (λ a. a.affected_asset_ids) actions))

context_tags : List Action → List String
unfolding concat
context_tags actions = distinct_from [] (concat (map (λ a. a.context_tags) actions))

abbrev pub is_resolution : EventPolarity → Bool
is_resolution resolution = true
is_resolution occurrence = false

event_polarity : List Action → EventPolarity
event_polarity actions =
    let resolved = length (filter_by (λ a. is_resolution a.polarity) actions) in
    if ltb (length actions - resolved) resolved then resolution else occurrence

envelope_id : ℕ → List ArticleFacts → ℕ
envelope_id fresh [] = fresh
envelope_id fresh (a ∷ rest) = a.correlation_id

-- `min(..., default=...)` and `max(..., default=...)` over the articles
earliest : ℕ → List ArticleFacts → ℕ
earliest default [] = default
earliest default (a ∷ []) = a.published_at
earliest default (a ∷ b ∷ rest) =
    let later = earliest default (b ∷ rest) in
    if ltb later a.published_at then later else a.published_at

latest : ℕ → List ArticleFacts → ℕ
latest default [] = default
latest default (a ∷ []) = a.published_at
latest default (a ∷ b ∷ rest) =
    let later = latest default (b ∷ rest) in
    if ltb a.published_at later then later else a.published_at

summary_title : String → List ArticleFacts → String
summary_title event_type [] = event_type
summary_title event_type (a ∷ rest) = a.title

fallback_assets :
    (String → List ArticleFacts → List String) → String → List ArticleFacts → List String
fallback_assets gated event_type articles =
    if any (λ t. str_eq event_type t) non_clustering then [] else gated event_type articles

-- `gated` is `gated_assets_for_event_type` on the titles of the articles.
pub resolved_assets :
    (String → List ArticleFacts → List String)
    → List Action
    → String
    → List ArticleFacts
    → List String
unfolding affected_assets fallback_assets
resolved_assets gated actions event_type articles = or_else (affected_assets actions)
  where
    or_else : List String → List String
    or_else [] = fallback_assets gated event_type articles
    or_else (x ∷ xs) = x ∷ xs
