-- ===== src/Cleansing/Store/Joins.antt =====
-- An article joins a cluster, and clusters are claimed.
use stock_prediction.Base.{
  ℕ, ◌≤◌, ◌<◌, ◌≡◌, refl, true, List, [], ◌∷◌, filter_by, sort_by, All, ==_iff, arith,
  if◌then◌else◌,
}
use stock_prediction.Cleansing.Clustering.{
  ClusterState, open_, quiet, ready, merging, merged, error_retryable, error_terminal,
  can_accept_article,
}
use stock_prediction.Cleansing.Merge.{Cluster, EventDetected}
use stock_prediction.Cleansing.Store.{
  Tables, set_cluster_state, is_due, claimed, claim_all, due, claim_ready_clusters,
}
use stock_prediction.Cleansing.Store.Counts.{
  count, count-map, count-filter_by, count-sort_by, count-take, All-where, All-sort_by, All-take,
  All-imp, All-map, All-both,
}
use stock_prediction.Cleansing.Store.Sound.{is_merged, IsSettled, IsSound, set_state-IsSound}

-- A cluster of which there is no event.
abbrev pub IsUnsent : List EventDetected → ℕ → Type 0
IsUnsent events id = count (λ e. e.cluster_id) id events ≡ 0

module _ {F : Type 0} where
  pub accepting-IsUnsent :
      (events : List EventDetected) (c : Cluster F)
      → IsSettled events c
      → can_accept_article c.state ≡ true
      → IsUnsent events c.cluster_id
  accepting-IsUnsent events c h a = unsent c.state h a
    where
      unsent :
          (s : ClusterState)
          → count (λ e. e.cluster_id) c.cluster_id events ≡ (if is_merged s then 1 else 0)
          → can_accept_article s ≡ true
          → IsUnsent events c.cluster_id
      unsent merged h a = absurd (ground arith)
      unsent open_ h a = h
      unsent quiet h a = h
      unsent ready h a = h
      unsent merging h a = h
      unsent error_retryable h a = h
      unsent error_terminal h a = h

  pub bounded :
      (n : ℕ) (cs : List (Cluster F))
      → ((id : ℕ) → n ≤ id → count (λ c. c.cluster_id) id cs ≡ 0)
      → All (λ c. c.cluster_id < n) cs
  bounded n [] h = tt
  bounded n (c ∷ cs) h = (
    ground (arith, h c.cluster_id, (==_iff c.cluster_id c.cluster_id).1 refl),
    bounded n cs (λ id k. ground (arith, h id)),
  )

  -- What a claimed cluster is known to be.
  abbrev pub IsClaim : ℕ → List EventDetected → Cluster F → Type 0
  IsClaim next events c = (c.cluster_id < next) × IsUnsent events c.cluster_id

  due-IsClaim :
      (now limit : ℕ) (t : Tables F) → IsSound t → All (IsClaim t.next t.events) (due now limit t)
  unfolding due is_due
  due-IsClaim now limit t v = All-take _ limit _ (
      All-sort_by _ (λ c. c.quiet_deadline) _
        (All-imp _ (IsClaim t.next t.events) _
          (λ c h. (h.0.0, accepting-IsUnsent t.events c h.0.1 (ground arith)))
          (All-where (λ c. (c.cluster_id < t.next) × IsSettled t.events c) (is_due now) t.clusters
            (All-both _ _ t.clusters
              (bounded t.next t.clusters (λ id k. ground (arith, v.unused id))) v.settled))))

  due_once :
      (now limit id : ℕ) (t : Tables F)
      → IsSound t
      → count (λ c. c.cluster_id) id (due now limit t) ≤ 1
  unfolding due
  due_once now limit id t v =
      let rows = filter_by (is_due now) t.clusters in
      ground (
        arith,
        count-take (λ c. c.cluster_id) id limit (sort_by (λ c. c.quiet_deadline) rows),
        count-sort_by (λ c. c.cluster_id) id (λ c. c.quiet_deadline) rows,
        count-filter_by (λ c. c.cluster_id) id (is_due now) t.clusters,
        v.one_cluster id,
      )

  claim_all-IsSound :
      (rows : List (Cluster F)) (t : Tables F)
      → All (IsClaim t.next t.events) rows
      → IsSound t
      → IsSound (record t { clusters = claim_all rows t.clusters })
  unfolding claim_all set_cluster_state
  claim_all-IsSound [] t h v = v
  claim_all-IsSound (c ∷ cs) t (h, hs) v =
      claim_all-IsSound cs (set_cluster_state c.cluster_id merging t) hs
        (set_state-IsSound c.cluster_id merging t refl h.1 v)

  -- A claim leaves the tables sound and takes each cluster once, none of which has an event.
  pub record IsTaken (w : Tables F × List (Cluster F)) : Type 0 where
    pub sound : IsSound w.0
    pub claims : All (IsClaim w.0.next w.0.events) w.1
    pub once : (id : ℕ) → count (λ c. c.cluster_id) id w.1 ≤ 1

  pub claim_ready_clusters-IsTaken :
      (now limit : ℕ) (t : Tables F) → IsSound t → IsTaken (claim_ready_clusters now limit t)
  unfolding claim_ready_clusters claimed
  claim_ready_clusters-IsTaken now limit t v = record {
    sound = claim_all-IsSound (due now limit t) t (due-IsClaim now limit t v) v;
    claims =
        All-map (IsClaim t.next t.events) (IsClaim t.next t.events) claimed (due now limit t)
          (λ c h. h) (due-IsClaim now limit t v);
    once = λ id. ground (
      arith,
      count-map (λ c. c.cluster_id) id claimed (due now limit t) (λ c. refl),
      due_once now limit id t v,
    );
  }
