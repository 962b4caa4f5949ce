-- ===== src/Cleansing/Merge/Build.antt =====
-- src/services/cleansing/cleansing/merge.py: the event of a cluster, by itself or with the gateway's answer.
use Prim.Native.String.{String}
use text.Mathlib.Text.{◌==◌ as str_eq}
use stock_prediction.Base.{
  ℕ, ◌≡◌, ap, arith, Bool-cases, inl, inr, Option, none, some, List, [], ◌∷◌, map, if◌then◌else◌,
}
use stock_prediction.Cleansing.Merge.{
  ArticleFacts, ClusterInputs, EventDetected, ExtractionMethod, local, llm_assisted, FactConflict,
  NewIds, Content, majority, detect_fact_conflicts, context_tags, event_polarity, envelope_id,
  earliest, latest, summary_title, resolved_assets,
}

cluster_or : ℕ → Option EventDetected → ℕ
cluster_or default none = default
cluster_or default (some e) = e.cluster_id

or_none : Option String → Option String
or_none none = none
or_none (some v) = if str_eq v "" then none else some v

module _ {F : Type 0} (gated : String → List ArticleFacts → List String) where
  -- What both kinds of event share.
  event_with :
      NewIds
      → ClusterInputs F
      → String
      → Option String
      → Option String
      → Option String
      → List FactConflict
      → ExtractionMethod
      → EventDetected
  unfolding resolved_assets event_polarity context_tags envelope_id earliest latest
  event_with ids inputs summary actor action object conflicts method = record {
    message_id = ids.message_id;
    event_id = ids.event_id;
    correlation_id = envelope_id ids.correlation_id inputs.articles;
    cluster_id = inputs.cluster.cluster_id;
    canonical_summary = summary;
    event_type = inputs.cluster.event_type;
    actor = actor;
    action = action;
    object = object;
    affected_asset_ids =
        resolved_assets gated inputs.actions inputs.cluster.event_type inputs.articles;
    polarity = event_polarity inputs.actions;
    context_tags = context_tags inputs.actions;
    first_seen_at = earliest inputs.cluster.first_seen_at inputs.articles;
    last_seen_at = latest inputs.cluster.last_seen_at inputs.articles;
    sources = inputs.articles;
    fact_conflicts = conflicts;
    extraction_method = method;
  }

  pub build_local_event : NewIds → ClusterInputs F → EventDetected
  unfolding event_with majority summary_title
  build_local_event ids inputs =
      event_with ids inputs (summary_title inputs.cluster.event_type inputs.articles)
        (majority (map (λ a. a.actor) inputs.actions))
        (majority (map (λ a. a.action_lemma) inputs.actions))
        (majority (map (λ a. a.object) inputs.actions)) [] local

  -- `LlmMerger.merge`; `none` is an `AmbiguousMergeError`, and no answer is a failure of the gateway.
  pub merge : NewIds → ClusterInputs F → Option Content → Option EventDetected
  unfolding event_with or_none
  merge ids inputs none = none
  merge ids inputs (some content) =
      if str_eq content.canonical_summary ""
      then none
      else some (
          event_with ids inputs content.canonical_summary (or_none content.actor)
            (or_none content.action) (or_none content.object) (detect_fact_conflicts inputs.actions)
            llm_assisted)

  resolve_conflicts :
      NewIds → ClusterInputs F → Option (Option Content) → List FactConflict → Option EventDetected
  unfolding build_local_event merge
  resolve_conflicts ids inputs merger [] = some (build_local_event ids inputs)
  resolve_conflicts ids inputs none (c ∷ rest) = none
  resolve_conflicts ids inputs (some answer) (c ∷ rest) = merge ids inputs answer

  -- The `try` of `close_ready_clusters`. The outer option says whether a merger is configured.
  pub build_event : NewIds → ClusterInputs F → Option (Option Content) → Option EventDetected
  unfolding resolve_conflicts
  build_event ids inputs merger =
      resolve_conflicts ids inputs merger (detect_fact_conflicts inputs.actions)

  merge-cluster :
      (ids : NewIds) (inputs : ClusterInputs F) (answer : Option Content) (e : EventDetected)
      → merge ids inputs answer ≡ some e
      → e.cluster_id ≡ inputs.cluster.cluster_id
  unfolding merge event_with cluster_or
  merge-cluster ids inputs none e h = absurd (ground arith)
  merge-cluster ids inputs (some content) e h =
      elim (Bool-cases (str_eq content.canonical_summary "")) [
        | inl t ↦ absurd (ground arith)
        | inr t ↦ ground (arith, ap (cluster_or 0) h)
      ]

  resolve_conflicts-cluster :
      (ids : NewIds) (inputs : ClusterInputs F) (merger : Option (Option Content))
      (conflicts : List FactConflict) (e : EventDetected)
      → resolve_conflicts ids inputs merger conflicts ≡ some e
      → e.cluster_id ≡ inputs.cluster.cluster_id
  unfolding resolve_conflicts build_local_event event_with cluster_or
  resolve_conflicts-cluster ids inputs merger [] e h = ground (arith, ap (cluster_or 0) h)
  resolve_conflicts-cluster ids inputs none (c ∷ rest) e h = absurd (ground arith)
  resolve_conflicts-cluster ids inputs (some answer) (c ∷ rest) e h =
      merge-cluster ids inputs answer e h

  pub build_event-cluster :
      (ids : NewIds) (inputs : ClusterInputs F) (merger : Option (Option Content))
      (e : EventDetected)
      → build_event ids inputs merger ≡ some e
      → e.cluster_id ≡ inputs.cluster.cluster_id
  unfolding build_event
  build_event-cluster ids inputs merger e h =
      resolve_conflicts-cluster ids inputs merger (detect_fact_conflicts inputs.actions) e h
