-- ===== src/Cleansing/Pipeline.antt =====
-- src/services/cleansing/cleansing/pipeline.py: an article is dropped or joins a cluster, and a sweep turns the
-- clusters that are due into events. What the embedder, the extractor and the gateway answer is an argument.
pub mod OneEvent
use Prim.Native.String.{String}
use text.Mathlib.Text.{◌==◌ as str_eq}
use stock_prediction.Base.{
  ℕ, suc, ◌+◌, ◌*◌, ◌-◌, Bool, true, false, Option, none, some, List, [], ◌∷◌, any, if◌then◌else◌,
}
use stock_prediction.Number.{Number}
use stock_prediction.Cleansing.Clustering.{
  error_retryable, AssignmentDecision, decide_assignment, quiet_deadline, lifetime_deadline,
}
use stock_prediction.Cleansing.Dedup.{simhash, is_near_duplicate}
use stock_prediction.Cleansing.Merge.{
  ArticleFacts, Action, Cluster, ClusterInputs, EventDetected, NewIds, Content,
}
use stock_prediction.Cleansing.Merge.Build.{build_event}
use stock_prediction.Cleansing.Store.{
  Tables, article_already_processed, recent_fingerprints, store_fingerprint, store_embedding,
  store_action, find_candidate_clusters, create_cluster, add_article_to_cluster,
  claim_ready_clusters, set_cluster_state, load_cluster_articles, load_cluster_actions,
  store_event_with_outbox,
}

pub record Settings (F : Type 0) : Type 0 where
  pub dedup_window_hours : ℕ
  pub simhash_max_distance : ℕ
  pub similarity_threshold : F
  pub quiet_period_minutes : ℕ
  pub max_lifetime_hours : ℕ

-- What `process_article` is given and asks for: its facts, with the texts that are fit for use, the hashes of
-- their tokens, and what the embedder and the extractor answer, where `none` is an exception.
pub record Article (F : Type 0) : Type 0 where
  pub facts : ArticleFacts
  pub token_hashes : List ℕ
  pub vector : Option (List F)
  pub action : Option Action

pub data Reply : Type 0 where
  replay_skipped duplicate_dropped : Reply
  embedding_failed extraction_failed length_mismatch : Reply
  cluster_created cluster_joined : Reply

module _ {F : Type 0} ⦃f : Number F⦄ (similarity : List F → List F → F) (s : Settings F)
    (now : ℕ) where
  -- Where the transaction of a join is taken back, what was written before stands.
  pub settle : Tables F → Option (Tables F) → Tables F × Reply
  settle before none = (before, length_mismatch)
  settle before (some t) = (t, cluster_joined)

  pub follow : ArticleFacts → String → List F → Option ℕ → Tables F → Tables F × Reply
  unfolding settle
  follow facts event_type vector none t = (
    create_cluster facts event_type vector (quiet_deadline now s.quiet_period_minutes)
        (lifetime_deadline now s.max_lifetime_hours) t,
    cluster_created,
  )
  follow facts event_type vector (some id) t = settle t (
      add_article_to_cluster similarity id facts vector (quiet_deadline now s.quiet_period_minutes)
        t)

  -- `_assign_to_cluster`
  pub assign_to_cluster : ArticleFacts → String → List F → Tables F → Tables F × Reply
  unfolding follow
  assign_to_cluster facts event_type vector t =
      let candidates =
        if str_eq event_type "OTHER"
        then []
        else find_candidate_clusters similarity vector event_type 5 t in
      follow facts event_type vector
        (decide_assignment event_type s.similarity_threshold candidates).cluster_id t

  -- The three rows that stand for the article.
  pub store_article : ArticleFacts → ℕ → List F → Action → Tables F → Tables F
  store_article facts fingerprint vector action t =
      store_action (record action { article_id = facts.article_id })
        (store_embedding facts.article_id vector (
          store_fingerprint
            (record {
              article_id = facts.article_id;
              simhash = fingerprint;
              source_id = facts.source_id;
              published_at = facts.published_at;
            })
            t))

  pub take_in : ArticleFacts → ℕ → Option (List F) → Option Action → Tables F → Tables F × Reply
  unfolding store_article assign_to_cluster
  take_in facts fingerprint none action t = (t, embedding_failed)
  take_in facts fingerprint (some vector) none t = (t, extraction_failed)
  take_in facts fingerprint (some vector) (some action) t =
      assign_to_cluster facts action.event_type vector
        (store_article facts fingerprint vector action t)

  unfoldable pub process_article : Article F → Tables F → Tables F × Reply
  unfolding take_in
  process_article a t =
      let fingerprint = simhash a.token_hashes in
      if article_already_processed a.facts.article_id t
      then (t, replay_skipped)
      else if any (λ existing. is_near_duplicate fingerprint existing s.simhash_max_distance)
          (recent_fingerprints (now - 3600 * s.dedup_window_hours) t)
      then (t, duplicate_dropped)
      else take_in a.facts fingerprint a.vector a.action t

module _ {F : Type 0} (gated : String → List ArticleFacts → List String) (ids : ℕ → NewIds)
    (merger : ℕ → Option (Option Content)) where
  pub conclude : ℕ → Option EventDetected → Tables F × ℕ → Tables F × ℕ
  conclude id none (t, produced) = (set_cluster_state id error_retryable t, produced)
  conclude id (some e) (t, produced) = (store_event_with_outbox e t, produced + 1)

  pub inputs_of : Cluster F → Tables F → ClusterInputs F
  inputs_of c t = record {
    cluster = c;
    articles = load_cluster_articles c.cluster_id t;
    actions = load_cluster_actions c.cluster_id t;
  }

  pub close_all : List (Cluster F) → Tables F × ℕ → Tables F × ℕ
  unfolding conclude inputs_of
  close_all [] w = w
  close_all (c ∷ cs) (t, produced) = close_all cs (
      conclude c.cluster_id
        (build_event gated (ids c.cluster_id) (inputs_of c t) (merger c.cluster_id)) (t, produced))

  -- The tables and the number of events. `ids` and `merger` say what is new and what is answered for a cluster.
  unfoldable pub close_ready_clusters : ℕ → Tables F → Tables F × ℕ
  unfolding close_all
  close_ready_clusters now t =
      let claim = claim_ready_clusters now 20 t in close_all claim.1 (claim.0, 0)

-- What happens to the service: an article comes in, or a sweep runs.
pub data Step (F : Type 0) : Type 0 where
  article : ℕ → Article F → Step F
  sweep : ℕ → (ℕ → NewIds) → (ℕ → Option (Option Content)) → Step F

module _ {F : Type 0} ⦃f : Number F⦄ (similarity : List F → List F → F) (s : Settings F)
    (gated : String → List ArticleFacts → List String) where
  unfoldable pub step : Step F → Tables F → Tables F
  step (article now a) t = (process_article similarity s now a t).0
  step (sweep now ids merger) t = (close_ready_clusters gated ids merger now t).0

  unfoldable pub run : List (Step F) → Tables F → Tables F
  unfolding step
  run [] t = t
  run (x ∷ xs) t = run xs (step x t)
