-- ===== src/Cleansing/Store.antt =====
-- src/services/cleansing/cleansing/repository.py: the tables of the cleansing schema, for one version of the
-- processing. A transaction is one step. The latest rows stand first. `next` is an id that no cluster has, as
-- `uuid4` gives one. Instants are seconds.
pub mod Counts
pub mod Sound
pub mod Joins
pub mod Takes
pub mod Candidates
use Prim.Native.String.{String}
use text.Mathlib.Text.{◌==◌ as str_eq}
use stock_prediction.Base.{
  ℕ, suc, ◌+◌, Bool, true, false, not, ◌&&◌, ◌||◌, Option, none, some, List, [], ◌∷◌, map, any,
  filter_by, find_first, update, sort_by, take, leb, ◌==◌, if◌then◌else◌,
}
use stock_prediction.Number.{Number, lt}
use stock_prediction.Cleansing.Clustering.{
  ClusterState, open_, merging, merged, can_accept_article, ClusterCandidate, update_centroid,
}
use stock_prediction.Cleansing.Merge.{ArticleFacts, Action, Cluster, EventDetected}

pub record Fingerprint : Type 0 where
  pub article_id : ℕ
  pub simhash : ℕ
  pub source_id : String
  pub published_at : ℕ

-- A row of `cluster_articles`.
pub record Member : Type 0 where
  pub cluster_id : ℕ
  pub facts : ArticleFacts

pub record Tables (F : Type 0) : Type 0 where
  pub fingerprints : List Fingerprint
  pub embeddings : List (ℕ × List F)
  pub actions : List Action
  pub clusters : List (Cluster F)
  pub members : List Member
  pub events : List EventDetected
  pub outbox : List EventDetected
  pub next : ℕ

-- `ORDER BY centroid <=> $1` keeps the nearest first.
pub by_similarity :
    {F : Type 0}
    → ⦃f : Number F⦄ → ClusterCandidate F
    → List (ClusterCandidate F)
    → List (ClusterCandidate F)
by_similarity c [] = c ∷ []
by_similarity c (d ∷ ds) =
    let rest = by_similarity c ds in if lt c.similarity d.similarity then d ∷ rest else c ∷ d ∷ ds

pub sort_candidates :
    {F : Type 0} → ⦃f : Number F⦄ → List (ClusterCandidate F) → List (ClusterCandidate F)
unfolding by_similarity
sort_candidates [] = []
sort_candidates (c ∷ cs) = by_similarity c (sort_candidates cs)

insert_membership : ℕ → ArticleFacts → List Member → List Member
insert_membership id facts rows =
    if any (λ m. (m.cluster_id == id) && (m.facts.article_id == facts.article_id)) rows
    then rows
    else record { cluster_id = id; facts = facts } ∷ rows

module _ {F : Type 0} where
  pub article_already_processed : ℕ → Tables F → Bool
  article_already_processed id t = any (λ r. r.article_id == id) t.fingerprints

  pub recent_fingerprints : ℕ → Tables F → List ℕ
  recent_fingerprints since t =
      map (λ r. r.simhash) (filter_by (λ r. leb since r.published_at) t.fingerprints)

  pub store_fingerprint : Fingerprint → Tables F → Tables F
  store_fingerprint r t =
      if any (λ x. x.article_id == r.article_id) t.fingerprints
      then t
      else record t { fingerprints = r ∷ t.fingerprints }

  pub store_embedding : ℕ → List F → Tables F → Tables F
  store_embedding id vector t =
      if any (λ x. x.0 == id) t.embeddings
      then t
      else record t { embeddings = (id, vector) ∷ t.embeddings }

  pub store_action : Action → Tables F → Tables F
  store_action a t =
      if any (λ x. x.article_id == a.article_id) t.actions
      then t
      else record t { actions = a ∷ t.actions }

  pub create_cluster : ArticleFacts → String → List F → ℕ → ℕ → Tables F → Tables F
  unfolding insert_membership
  create_cluster facts event_type vector quiet_deadline lifetime_deadline t = record t {
    clusters =
        record {
          cluster_id = t.next;
          event_type = event_type;
          state = open_;
          article_count = 1;
          first_seen_at = facts.published_at;
          last_seen_at = facts.published_at;
          quiet_deadline = quiet_deadline;
          lifetime_deadline = lifetime_deadline;
          centroid = vector;
        }
        ∷ t.clusters;
    members = insert_membership t.next facts t.members;
    next = suc t.next;
  }

  -- A cluster with one article more.
  joined : ArticleFacts → ℕ → List F → Cluster F → Cluster F
  joined facts quiet_deadline centroid c = record c {
    article_count = c.article_count + 1;
    last_seen_at = facts.published_at;
    quiet_deadline = quiet_deadline;
    centroid = centroid;
    state = open_;
  }

  set_state : ℕ → ClusterState → List (Cluster F) → List (Cluster F)
  set_state id state = update (λ c. record c { state = state }) (λ c. c.cluster_id == id)

  pub set_cluster_state : ℕ → ClusterState → Tables F → Tables F
  unfolding set_state
  set_cluster_state id state t = record t { clusters = set_state id state t.clusters }

  is_due : ℕ → Cluster F → Bool
  is_due now c =
      can_accept_article c.state && (leb c.quiet_deadline now || leb c.lifetime_deadline now)

  claimed : Cluster F → Cluster F
  claimed c = record c { state = merging }

  claim_all : List (Cluster F) → List (Cluster F) → List (Cluster F)
  unfolding set_state
  claim_all [] clusters = clusters
  claim_all (c ∷ cs) clusters = claim_all cs (set_state c.cluster_id merging clusters)

  pub due : ℕ → ℕ → Tables F → List (Cluster F)
  unfolding is_due
  due now limit t = take limit (sort_by (λ c. c.quiet_deadline) (filter_by (is_due now) t.clusters))

  pub claim_ready_clusters : ℕ → ℕ → Tables F → Tables F × List (Cluster F)
  unfolding claim_all due claimed
  claim_ready_clusters now limit t =
      let rows = due now limit t in
      (record t { clusters = claim_all rows t.clusters }, map claimed rows)

  pub load_cluster_articles : ℕ → Tables F → List ArticleFacts
  load_cluster_articles id t =
      sort_by (λ a. a.published_at)
        (map (λ m. m.facts) (filter_by (λ m. m.cluster_id == id) t.members))

  pub load_cluster_actions : ℕ → Tables F → List Action
  load_cluster_actions id t =
      filter_by
        (λ a. any (λ m. (m.cluster_id == id) && (m.facts.article_id == a.article_id)) t.members)
        t.actions

  pub store_event_with_outbox : EventDetected → Tables F → Tables F
  unfolding set_state
  store_event_with_outbox e t = record t {
    events = if any (λ x. x.cluster_id == e.cluster_id) t.events then t.events else e ∷ t.events;
    outbox = if any (λ x. x.message_id == e.message_id) t.outbox then t.outbox else e ∷ t.outbox;
    clusters = set_state e.cluster_id merged t.clusters;
  }

module _ {F : Type 0} ⦃f : Number F⦄ (similarity : List F → List F → F) where
  -- `similarity` is `1 - (centroid <=> vector)`.
  pub find_candidate_clusters : List F → String → ℕ → Tables F → List (ClusterCandidate F)
  unfolding sort_candidates
  find_candidate_clusters vector event_type limit t = take limit (
      sort_candidates (
        map
          (λ c. record {
            cluster_id = c.cluster_id;
            event_type = c.event_type;
            similarity = similarity c.centroid vector;
          })
          (filter_by (λ c. can_accept_article c.state && str_eq c.event_type event_type)
            t.clusters)))

  add_to : ArticleFacts → ℕ → Cluster F → Option (List F) → Tables F → Option (Tables F)
  unfolding joined insert_membership
  add_to facts quiet_deadline c none t = none
  add_to facts quiet_deadline c (some centroid) t = some (record t {
    clusters =
        update (joined facts quiet_deadline centroid) (λ x. x.cluster_id == c.cluster_id)
          t.clusters;
    members = insert_membership c.cluster_id facts t.members;
  })

  add_to_row : ArticleFacts → List F → ℕ → Option (Cluster F) → Tables F → Option (Tables F)
  unfolding add_to
  add_to_row facts vector quiet_deadline none t = some t
  add_to_row facts vector quiet_deadline (some c) t =
      add_to facts quiet_deadline c (update_centroid c.centroid c.article_count vector) t

  -- `none` is the `ValueError` of `update_centroid`, which takes the transaction back.
  pub add_article_to_cluster : ℕ → ArticleFacts → List F → ℕ → Tables F → Option (Tables F)
  unfolding add_to_row
  add_article_to_cluster id facts vector quiet_deadline t =
      add_to_row facts vector quiet_deadline (find_first (λ c. c.cluster_id == id) t.clusters) t
