-- ===== src/Cleansing/Store/Candidates.antt =====
-- The clusters that an article may join have no event yet, and a join keeps the tables sound.
use Prim.Native.String.{String}
use text.Mathlib.Text.{◌==◌ as str_eq}
use mathlib.Core.Path.{subst}
use stock_prediction.Base.{
  All-update, ℕ, ◌<◌, ◌≡◌, sym, ◌&&◌, Option, none, some, List, [], ◌∷◌, find_first, update, All,
  ◌==◌, ==_iff, arith, Bool-cases, Option-cases, inl, inr,
}
use stock_prediction.Number.{Number, lt}
use stock_prediction.Cleansing.Clustering.{can_accept_article, ClusterCandidate, update_centroid}
use stock_prediction.Cleansing.Merge.{ArticleFacts, Cluster}
use stock_prediction.Cleansing.Store.{
  Member, Tables, insert_membership, joined, add_to, add_to_row, add_article_to_cluster,
  by_similarity, sort_candidates, find_candidate_clusters,
}
use stock_prediction.Cleansing.Store.Counts.{
  count, count-map, All-where, All-take, All-imp, All-map, found,
}
use stock_prediction.Cleansing.Store.Sound.{
  IsCounted, IsSettled, IsSound, IsNew, not_member, placed_new, same_count,
}
use stock_prediction.Cleansing.Store.Joins.{IsUnsent, accepting-IsUnsent, bounded}

module _ {F : Type 0} ⦃f : Number F⦄ where
  All-by_similarity :
      (P : ClusterCandidate F → Type 0) (c : ClusterCandidate F) (cs : List (ClusterCandidate F))
      → P c
      → All P cs
      → All P (by_similarity c cs)
  unfolding by_similarity
  All-by_similarity P c [] h hs = (h, tt)
  All-by_similarity P c (d ∷ ds) h (k, ks) = elim (Bool-cases (lt c.similarity d.similarity)) [
    | inl t ↦ rw t (k, All-by_similarity P c ds h ks)
    | inr t ↦ rw t (h, (k, ks))
  ]

  All-sort_candidates :
      (P : ClusterCandidate F → Type 0) (cs : List (ClusterCandidate F))
      → All P cs
      → All P (sort_candidates cs)
  unfolding sort_candidates
  All-sort_candidates P [] h = tt
  All-sort_candidates P (c ∷ cs) (h, hs) =
      All-by_similarity P c (sort_candidates cs) h (All-sort_candidates P cs hs)

  pub find_candidate_clusters-IsUnsent :
      (similarity : List F → List F → F) (vector : List F) (event_type : String) (limit : ℕ)
      (t : Tables F)
      → IsSound t
      → All
          (λ c. IsUnsent t.events c.cluster_id)
          (find_candidate_clusters similarity vector event_type limit t)
  unfolding find_candidate_clusters
  find_candidate_clusters-IsUnsent similarity vector event_type limit t v = All-take _ limit _ (
      All-sort_candidates _ _ (
        All-map (λ c. IsUnsent t.events c.cluster_id) _ _ _ (λ c h. h)
          (All-imp _ (λ c. IsUnsent t.events c.cluster_id) _
            (λ c h. accepting-IsUnsent t.events c h.0 (ground arith))
            (All-where (IsSettled t.events)
              (λ c. can_accept_article c.state && str_eq c.event_type event_type) t.clusters
              v.settled))))

  count-join :
      (id : ℕ) (facts : ArticleFacts) (quiet_at : ℕ) (c : Cluster F) (centroid : List F)
      (cs : List (Cluster F))
      → count
          (λ x. x.cluster_id)
          id
          (update (joined facts quiet_at centroid) (λ x. x.cluster_id == c.cluster_id) cs)
        ≡ count (λ x. x.cluster_id) id cs
  unfolding joined
  count-join id facts quiet_at c centroid cs =
      count-map (λ x. x.cluster_id) id _ cs (λ x. ground arith)

  join-IsSound :
      (facts : ArticleFacts) (quiet_at : ℕ) (c : Cluster F) (centroid : List F) (t : Tables F)
      → c.cluster_id < t.next
      → IsUnsent t.events c.cluster_id
      → IsNew facts.article_id t
      → IsSound (record t {
        clusters =
            update (joined facts quiet_at centroid) (λ x. x.cluster_id == c.cluster_id) t.clusters;
        members = record { cluster_id = c.cluster_id; facts = facts } ∷ t.members;
      })
  unfolding joined
  join-IsSound facts quiet_at c centroid t known unsent v =
      let m : Member = record { cluster_id = c.cluster_id; facts = facts } in
      record {
        unused = λ id h.
            ground (arith, v.sound.unused id, count-join id facts quiet_at c centroid t.clusters);
        one_cluster = λ id.
            ground
              (arith, v.sound.one_cluster id, count-join id facts quiet_at c centroid t.clusters);
        one_fingerprint = v.sound.one_fingerprint;
        placed = λ id. placed_new c.cluster_id id facts t v;
        counted =
            All-update (IsCounted t.members) (IsCounted (m ∷ t.members))
              (joined facts quiet_at centroid) (λ x. x.cluster_id == c.cluster_id) t.clusters
              (λ x h q. ground arith) (λ x h q. ground arith) v.sound.counted;
        settled =
            All-update (IsSettled t.events) (IsSettled t.events) (joined facts quiet_at centroid)
              (λ x. x.cluster_id == c.cluster_id) t.clusters
              (λ x h q. ground (arith, same_count x.cluster_id c.cluster_id t q)) (λ x h q. h)
              v.sound.settled;
        sent = v.sound.sent;
      }

  -- A join that happens keeps the tables sound.
  abbrev pub IsSoundIf : Option (Tables F) → Type 0
  IsSoundIf none = Unit
  IsSoundIf (some t) = IsSound t

  add_to-IsSound :
      (similarity : List F → List F → F) (facts : ArticleFacts) (quiet_at : ℕ) (c : Cluster F)
      (centroid : Option (List F)) (t : Tables F)
      → c.cluster_id < t.next
      → IsUnsent t.events c.cluster_id
      → IsNew facts.article_id t
      → IsSoundIf (add_to similarity facts quiet_at c centroid t)
  unfolding add_to insert_membership
  add_to-IsSound similarity facts quiet_at c none t known unsent v = tt
  add_to-IsSound similarity facts quiet_at c (some centroid) t known unsent v =
      rw (not_member c.cluster_id facts.article_id t.members v.in_none)
        (join-IsSound facts quiet_at c centroid t known unsent v)

  pub add_article_to_cluster-IsSound :
      (similarity : List F → List F → F) (id : ℕ) (facts : ArticleFacts) (vector : List F)
      (quiet_at : ℕ) (t : Tables F)
      → IsUnsent t.events id
      → IsNew facts.article_id t
      → IsSoundIf (add_article_to_cluster similarity id facts vector quiet_at t)
  unfolding add_article_to_cluster add_to_row
  add_article_to_cluster-IsSound similarity id facts vector quiet_at t unsent v =
      elim (Option-cases (find_first (λ c. c.cluster_id == id) t.clusters)) [
        | inl e ↦ rw e v.sound
        | inr (c, e) ↦
            let at =
              found (λ c. c.cluster_id < t.next) (λ c. c.cluster_id == id) c t.clusters e
                (bounded t.next t.clusters (λ i k. ground (arith, v.sound.unused i))) in
            rw e (
              add_to-IsSound similarity facts quiet_at c
                (update_centroid c.centroid c.article_count vector) t at.0
                (subst (IsUnsent t.events) (sym ((==_iff c.cluster_id id).0 at.1)) unsent) v)
      ]
