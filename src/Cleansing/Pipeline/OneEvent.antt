-- ===== src/Cleansing/Pipeline/OneEvent.antt =====
-- One event of each cluster, whatever articles come in and whatever sweeps run.
use Prim.Native.String.{String}
use text.Mathlib.Text.{◌==◌ as str_eq}
use stock_prediction.Base.{
  ℕ, ◌*◌, ◌-◌, ◌≡◌, refl, false, Option, none, some, List, [], ◌∷◌, any, Bool-cases, inl, inr,
}
use stock_prediction.Number.{Number}
use stock_prediction.Cleansing.Clustering.{error_retryable}
use stock_prediction.Cleansing.Clustering.Chosen.{HoldsOf, decide_assignment-HoldsOf}
use stock_prediction.Cleansing.Dedup.{simhash, is_near_duplicate}
use stock_prediction.Cleansing.Merge.{ArticleFacts, Action, Cluster, EventDetected, NewIds, Content}
use stock_prediction.Cleansing.Merge.Build.{build_event-cluster}
use stock_prediction.Cleansing.Store.{
  Tables, article_already_processed, recent_fingerprints, find_candidate_clusters,
}
use stock_prediction.Cleansing.Store.Sound.{
  IsSound, IsNew, store_fingerprint-IsNew, store_embedding-IsNew, store_action-IsNew,
  create_cluster-IsSound,
}
use stock_prediction.Cleansing.Store.Joins.{IsUnsent, IsTaken, claim_ready_clusters-IsTaken}
use stock_prediction.Cleansing.Store.Takes.{set_state-IsTaken, store_event-IsTaken}
use stock_prediction.Cleansing.Store.Candidates.{
  find_candidate_clusters-IsUnsent, IsSoundIf, add_article_to_cluster-IsSound,
}
use stock_prediction.Cleansing.Pipeline.{
  Settings, Article, settle, follow, assign_to_cluster, store_article, take_in, process_article,
  conclude, inputs_of, close_all, close_ready_clusters, Step, article, sweep, step, run,
}

module _ {F : Type 0} ⦃f : Number F⦄ (similarity : List F → List F → F) (s : Settings F)
    (now : ℕ) where
  settle-IsSound :
      (before : Tables F) (o : Option (Tables F))
      → IsSound before
      → IsSoundIf o
      → IsSound (settle similarity s now before o).0
  unfolding settle
  settle-IsSound before none v w = v
  settle-IsSound before (some t) v w = w

  follow-IsSound :
      (facts : ArticleFacts) (event_type : String) (vector : List F) (o : Option ℕ) (t : Tables F)
      → HoldsOf (IsUnsent t.events) o
      → IsNew facts.article_id t
      → IsSound (follow similarity s now facts event_type vector o t).0
  unfolding follow
  follow-IsSound facts event_type vector none t h v =
      create_cluster-IsSound facts event_type vector _ _ t v
  follow-IsSound facts event_type vector (some id) t h v =
      settle-IsSound t _ v.sound (add_article_to_cluster-IsSound similarity id facts vector _ t h v)

  assign_to_cluster-IsSound :
      (facts : ArticleFacts) (event_type : String) (vector : List F) (t : Tables F)
      → IsNew facts.article_id t
      → IsSound (assign_to_cluster similarity s now facts event_type vector t).0
  unfolding assign_to_cluster
  assign_to_cluster-IsSound facts event_type vector t v =
      let none_given =
        decide_assignment-HoldsOf (IsUnsent t.events) event_type s.similarity_threshold [] tt in
      let given =
        decide_assignment-HoldsOf (IsUnsent t.events) event_type s.similarity_threshold
          (find_candidate_clusters similarity vector event_type 5 t)
          (find_candidate_clusters-IsUnsent similarity vector event_type 5 t v.sound) in
      elim (Bool-cases (str_eq event_type "OTHER")) [
        | inl e ↦ rw e (follow-IsSound facts event_type vector _ t none_given v)
        | inr e ↦ rw e (follow-IsSound facts event_type vector _ t given v)
      ]

  take_in-IsSound :
      (facts : ArticleFacts) (fingerprint : ℕ) (vector : Option (List F)) (action : Option Action)
      (t : Tables F)
      → article_already_processed facts.article_id t ≡ false
      → IsSound t
      → IsSound (take_in similarity s now facts fingerprint vector action t).0
  unfolding take_in store_article
  take_in-IsSound facts fingerprint none action t new v = v
  take_in-IsSound facts fingerprint (some vector) none t new v = v
  take_in-IsSound facts fingerprint (some vector) (some action) t new v =
      assign_to_cluster-IsSound facts action.event_type vector _ (
        store_action-IsNew facts.article_id _ _ (
          store_embedding-IsNew facts.article_id facts.article_id vector _
            (store_fingerprint-IsNew _ t new v)))

  process_article-IsSound :
      (a : Article F) (t : Tables F) → IsSound t → IsSound (process_article similarity s now a t).0
  unfolding process_article
  process_article-IsSound a t v =
      elim (Bool-cases (article_already_processed a.facts.article_id t)) [
        | inl replay ↦ rw replay v
        | inr new ↦
            elim (Bool-cases (
              any
                (λ existing.
                  is_near_duplicate (simhash a.token_hashes) existing s.simhash_max_distance)
                (recent_fingerprints (now - 3600 * s.dedup_window_hours) t))) [
                  | inl near ↦ rw new (rw near v)
                  | inr far ↦ rw new (rw far (take_in-IsSound a.facts _ a.vector a.action t new v))
                ]
      ]

module _ {F : Type 0} (gated : String → List ArticleFacts → List String) (ids : ℕ → NewIds)
    (merger : ℕ → Option (Option Content)) where
  -- The claims that are left after one.
  conclude-IsTaken :
      (c : Cluster F) (rest : List (Cluster F)) (t : Tables F) (produced : ℕ)
      (o : Option EventDetected)
      → ((e : EventDetected) → o ≡ some e → e.cluster_id ≡ c.cluster_id)
      → IsTaken (t, c ∷ rest)
      → IsTaken ((conclude gated ids merger c.cluster_id o (t, produced)).0, rest)
  unfolding conclude
  conclude-IsTaken c rest t produced none same v = set_state-IsTaken c rest t error_retryable refl v
  conclude-IsTaken c rest t produced (some e) same v =
      store_event-IsTaken c rest t e (same e refl) v

  close_all-IsSound :
      (cs : List (Cluster F)) (t : Tables F) (produced : ℕ)
      → IsTaken (t, cs)
      → IsSound (close_all gated ids merger cs (t, produced)).0
  unfolding close_all
  close_all-IsSound [] t produced v = v.sound
  close_all-IsSound (c ∷ cs) t produced v = close_all-IsSound cs _ _ (
      conclude-IsTaken c cs t produced _
        (build_event-cluster gated (ids c.cluster_id) (inputs_of gated ids merger c t)
          (merger c.cluster_id))
        v)

  close_ready_clusters-IsSound :
      (now : ℕ) (t : Tables F) → IsSound t → IsSound (close_ready_clusters gated ids merger now t).0
  unfolding close_ready_clusters
  close_ready_clusters-IsSound now t v =
      close_all-IsSound _ _ 0 (claim_ready_clusters-IsTaken now 20 t v)

-- From tables that are sound, and so from empty ones, whatever articles come in and whatever sweeps run, one
-- after the other: the tables stay sound. That is, an article is taken in at most once and is in at most one
-- cluster, the count of a cluster is how many articles it has, and there is exactly one event of each cluster
-- that is merged and none of any other, which is sent at most once.
pub run-IsSound :
    {F : Type 0} ⦃f : Number F⦄ (similarity : List F → List F → F) (s : Settings F)
    (gated : String → List ArticleFacts → List String) (steps : List (Step F)) (t : Tables F)
    → IsSound t
    → IsSound (run similarity s gated steps t)
unfolding run step
run-IsSound similarity s gated [] t v = v
run-IsSound similarity s gated (article now a ∷ rest) t v =
    run-IsSound similarity s gated rest _ (process_article-IsSound similarity s now a t v)
run-IsSound similarity s gated (sweep now ids merger ∷ rest) t v =
    run-IsSound similarity s gated rest _ (close_ready_clusters-IsSound gated ids merger now t v)
