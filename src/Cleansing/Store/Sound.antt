-- ===== src/Cleansing/Store/Sound.antt =====
-- What the tables of the cleansing schema keep, statement by statement.
use Prim.Native.String.{String}
use mathlib.Core.Path.{subst}
use stock_prediction.Base.{
  All-update, ℕ, ◌+◌, ◌≤◌, ◌<◌, ◌≡◌, refl, ap, Bool, true, false, ◌&&◌, List, [], ◌∷◌, any, All,
  ◌==◌, ==_iff, arith, Bool-cases, inl, inr, if◌then◌else◌,
}
use stock_prediction.Cleansing.Clustering.{ClusterState, merged}
use stock_prediction.Cleansing.Merge.{ArticleFacts, Action, Cluster, EventDetected}
use stock_prediction.Cleansing.Store.{
  Fingerprint, Member, Tables, article_already_processed, store_fingerprint, store_embedding,
  store_action, insert_membership, create_cluster, set_state, set_cluster_state,
  store_event_with_outbox,
}
use stock_prediction.Cleansing.Store.Counts.{
  count, one_more, count_new, none_of_count, count-map, All-both, All-imp, others,
}

abbrev pub is_merged : ClusterState → Bool
is_merged merged = true
is_merged _ = false

pub not_member :
    (id a : ℕ) (ms : List Member)
    → count (λ m. m.facts.article_id) a ms ≡ 0
    → any (λ m. (m.cluster_id == id) && (m.facts.article_id == a)) ms ≡ false
not_member id a [] h = refl
not_member id a (m ∷ ms) h = ground (arith, not_member id a ms)

module _ {F : Type 0} where
  -- The count of a cluster is how many articles it has.
  abbrev pub IsCounted : List Member → Cluster F → Type 0
  IsCounted members c = c.article_count ≡ count (λ m. m.cluster_id) c.cluster_id members

  -- A cluster has an event, and one, when it is merged.
  abbrev pub IsSettled : List EventDetected → Cluster F → Type 0
  IsSettled events c =
      count (λ e. e.cluster_id) c.cluster_id events ≡ (if is_merged c.state then 1 else 0)

  pub record IsSound (t : Tables F) : Type 0 where
    pub unused :
        (id : ℕ)
        → t.next ≤ id
        → count (λ c. c.cluster_id) id t.clusters
            + count (λ m. m.cluster_id) id t.members
            + count (λ e. e.cluster_id) id t.events
          ≡ 0
    pub one_cluster : (id : ℕ) → count (λ c. c.cluster_id) id t.clusters ≤ 1
    pub one_fingerprint : (id : ℕ) → count (λ r. r.article_id) id t.fingerprints ≤ 1
    -- An article is in a cluster at most as often as it was taken in.
    pub placed :
        (id : ℕ)
        → count (λ m. m.facts.article_id) id t.members ≤ count (λ r. r.article_id) id t.fingerprints
    pub counted : All (IsCounted t.members) t.clusters
    pub settled : All (IsSettled t.events) t.clusters
    pub sent :
        (id : ℕ) → count (λ e. e.cluster_id) id t.outbox ≤ count (λ e. e.cluster_id) id t.events

  -- The article was just taken in and is in no cluster.
  pub record IsNew (id : ℕ) (t : Tables F) : Type 0 where
    pub sound : IsSound t
    pub taken_in : count (λ r. r.article_id) id t.fingerprints ≡ 1
    pub in_none : count (λ m. m.facts.article_id) id t.members ≡ 0

  pub store_fingerprint-IsNew :
      (r : Fingerprint) (t : Tables F)
      → article_already_processed r.article_id t ≡ false
      → IsSound t
      → IsNew r.article_id (store_fingerprint r t)
  unfolding store_fingerprint article_already_processed
  store_fingerprint-IsNew r t new v =
      let zero_yet = count_new (λ x. x.article_id) r.article_id t.fingerprints new in
      rw new (record {
        sound = record {
          unused = v.unused;
          one_cluster = v.one_cluster;
          one_fingerprint = λ id.
              one_more (λ x. x.article_id) id r t.fingerprints zero_yet (v.one_fingerprint id);
          placed = λ id. ground (arith, v.placed id);
          counted = v.counted;
          settled = v.settled;
          sent = v.sent;
        };
        taken_in = ground (arith, (==_iff r.article_id r.article_id).1 refl);
        in_none = ground (arith, v.placed r.article_id);
      })

  pub store_embedding-IsNew :
      (a id : ℕ) (vector : List F) (t : Tables F)
      → IsNew a t
      → IsNew a (store_embedding id vector t)
  unfolding store_embedding
  store_embedding-IsNew a id vector t v = elim (Bool-cases (any (λ x. x.0 == id) t.embeddings)) [
    | inl e ↦ rw e v
    | inr e ↦ rw e (record {
      sound = record {
        unused = v.sound.unused;
        one_cluster = v.sound.one_cluster;
        one_fingerprint = v.sound.one_fingerprint;
        placed = v.sound.placed;
        counted = v.sound.counted;
        settled = v.sound.settled;
        sent = v.sound.sent;
      };
      taken_in = v.taken_in;
      in_none = v.in_none;
    })
  ]

  pub store_action-IsNew :
      (id : ℕ) (a : Action) (t : Tables F) → IsNew id t → IsNew id (store_action a t)
  unfolding store_action
  store_action-IsNew id a t v =
      elim (Bool-cases (any (λ x. x.article_id == a.article_id) t.actions)) [
        | inl e ↦ rw e v
        | inr e ↦ rw e (record {
          sound = record {
            unused = v.sound.unused;
            one_cluster = v.sound.one_cluster;
            one_fingerprint = v.sound.one_fingerprint;
            placed = v.sound.placed;
            counted = v.sound.counted;
            settled = v.sound.settled;
            sent = v.sound.sent;
          };
          taken_in = v.taken_in;
          in_none = v.in_none;
        })
      ]

  -- A new article adds one to what its fingerprint allows.
  pub placed_new :
      (cluster id : ℕ) (facts : ArticleFacts) (t : Tables F)
      → IsNew facts.article_id t
      → count
          (λ m. m.facts.article_id)
          id
          (record { cluster_id = cluster; facts = facts } ∷ t.members)
        ≤ count (λ r. r.article_id) id t.fingerprints
  placed_new cluster id facts t v = elim (Bool-cases (facts.article_id == id)) [
    | inl e ↦
        let q : facts.article_id ≡ id = (==_iff facts.article_id id).0 e in
        subst
          (λ i.
            count (λ m. m.facts.article_id) i
              (record { cluster_id = cluster; facts = facts } ∷ t.members)
            ≤ count (λ r. r.article_id) i t.fingerprints)
          q (ground (arith, v.in_none, v.taken_in))
    | inr e ↦ ground (arith, v.sound.placed id)
  ]

  pub create_cluster-IsSound :
      (facts : ArticleFacts) (event_type : String) (vector : List F) (quiet_at lifetime_at : ℕ)
      (t : Tables F)
      → IsNew facts.article_id t
      → IsSound (create_cluster facts event_type vector quiet_at lifetime_at t)
  unfolding create_cluster insert_membership
  create_cluster-IsSound facts event_type vector quiet_at lifetime_at t v =
      let none_yet = v.sound.unused t.next (ground arith) in
      let elsewhere = others (λ c. c.cluster_id) t.next t.clusters (ground arith) in
      rw (not_member t.next facts.article_id t.members v.in_none) (record {
        unused = λ id h. ground (arith, v.sound.unused id);
        one_cluster = λ id. ground (arith, v.sound.unused id, v.sound.one_cluster id);
        one_fingerprint = v.sound.one_fingerprint;
        placed = λ id. placed_new t.next id facts t v;
        counted = (
          ground arith,
          All-imp _ _ t.clusters (λ c h. ground arith)
              (All-both (IsCounted t.members) _ t.clusters v.sound.counted elsewhere),
        );
        settled = (ground arith, v.sound.settled);
        sent = v.sound.sent;
      })

  count-set_state :
      (x id : ℕ) (state : ClusterState) (cs : List (Cluster F))
      → count (λ c. c.cluster_id) x (set_state id state cs) ≡ count (λ c. c.cluster_id) x cs
  unfolding set_state
  count-set_state x id state cs = count-map (λ c. c.cluster_id) x _ cs (λ c. ground arith)

  set_state-All :
      (P Q : Cluster F → Type 0) (id : ℕ) (state : ClusterState) (cs : List (Cluster F))
      → ((c : Cluster F) → P c → (c.cluster_id == id) ≡ true → Q (record c { state = state }))
      → ((c : Cluster F) → P c → (c.cluster_id == id) ≡ false → Q c)
      → All P cs
      → All Q (set_state id state cs)
  unfolding set_state
  set_state-All P Q id state cs f g h =
      All-update P Q (λ c. record c { state = state }) (λ c. c.cluster_id == id) cs f g h

  pub same_count :
      (x id : ℕ) (t : Tables F)
      → (x == id) ≡ true
      → count (λ e. e.cluster_id) x t.events ≡ count (λ e. e.cluster_id) id t.events
  same_count x id t q = ap (λ i. count (λ e. e.cluster_id) i t.events) ((==_iff x id).0 q)

  pub set_state-IsSound :
      (id : ℕ) (state : ClusterState) (t : Tables F)
      → is_merged state ≡ false
      → count (λ e. e.cluster_id) id t.events ≡ 0
      → IsSound t
      → IsSound (set_cluster_state id state t)
  unfolding set_cluster_state set_state
  set_state-IsSound id state t open_yet unsent v = record {
    unused = λ x h. ground (arith, v.unused x, count-set_state x id state t.clusters);
    one_cluster = λ x. ground (arith, v.one_cluster x, count-set_state x id state t.clusters);
    one_fingerprint = v.one_fingerprint;
    placed = v.placed;
    counted =
        set_state-All (IsCounted t.members) (IsCounted t.members) _ _ t.clusters (λ c h q. h)
          (λ c h q. h) v.counted;
    settled =
        set_state-All (IsSettled t.events) (IsSettled t.events) id state t.clusters
          (λ c h q. ground (arith, same_count c.cluster_id id t q)) (λ c h q. h) v.settled;
    sent = v.sent;
  }

  pub store_event-IsSound :
      (e : EventDetected) (t : Tables F)
      → e.cluster_id < t.next
      → count (λ x. x.cluster_id) e.cluster_id t.events ≡ 0
      → IsSound t
      → IsSound (store_event_with_outbox e t)
  unfolding store_event_with_outbox set_state
  store_event-IsSound e t known unsent v =
      rw (none_of_count (λ x. x.cluster_id) e.cluster_id t.events unsent) (record {
        unused =
            λ x h. ground (arith, v.unused x, count-set_state x e.cluster_id merged t.clusters);
        one_cluster =
            λ x. ground (arith, v.one_cluster x, count-set_state x e.cluster_id merged t.clusters);
        one_fingerprint = v.one_fingerprint;
        placed = v.placed;
        counted =
            set_state-All (IsCounted t.members) (IsCounted t.members) _ _ t.clusters (λ c h q. h)
              (λ c h q. h) v.counted;
        settled =
            set_state-All (IsSettled t.events) (IsSettled (e ∷ t.events)) e.cluster_id merged
              t.clusters (λ c h q. ground (arith, same_count c.cluster_id e.cluster_id t q))
              (λ c h q. ground arith) v.settled;
        sent = λ x. ground (arith, v.sent x);
      })
