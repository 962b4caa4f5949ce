-- ===== src/Cleansing/Store/Takes.antt =====
-- How a sweep is done with a cluster that it took.
use mathlib.Core.Path.{subst}
use stock_prediction.Base.{◌≡◌, refl, sym, false, List, ◌∷◌, All, ◌==◌, ==_iff, arith}
use stock_prediction.Cleansing.Clustering.{ClusterState}
use stock_prediction.Cleansing.Merge.{Cluster, EventDetected}
use stock_prediction.Cleansing.Store.{Tables, set_cluster_state, store_event_with_outbox}
use stock_prediction.Cleansing.Store.Counts.{none_of_count, All-both, All-imp, others}
use stock_prediction.Cleansing.Store.Sound.{is_merged, set_state-IsSound, store_event-IsSound}
use stock_prediction.Cleansing.Store.Joins.{IsUnsent, IsClaim, IsTaken}

module _ {F : Type 0} (c : Cluster F) (rest : List (Cluster F)) (t : Tables F) where
  pub set_state-IsTaken :
      (state : ClusterState)
      → is_merged state ≡ false
      → IsTaken (t, c ∷ rest)
      → IsTaken (set_cluster_state c.cluster_id state t, rest)
  unfolding set_cluster_state
  set_state-IsTaken state open_yet v = record {
    sound = set_state-IsSound c.cluster_id state t open_yet v.claims.0.1 v.sound;
    claims = v.claims.1;
    once = λ id. ground (arith, v.once id);
  }

  rest_differs : IsTaken (t, c ∷ rest) → All (λ x. (x.cluster_id == c.cluster_id) ≡ false) rest
  rest_differs v =
      others (λ x. x.cluster_id) c.cluster_id rest
        (ground (arith, v.once c.cluster_id, (==_iff c.cluster_id c.cluster_id).1 refl))

  pub store_event-IsTaken :
      (e : EventDetected)
      → e.cluster_id ≡ c.cluster_id
      → IsTaken (t, c ∷ rest)
      → IsTaken (store_event_with_outbox e t, rest)
  unfolding store_event_with_outbox
  store_event-IsTaken e same v =
      let unsent = subst (IsUnsent t.events) (sym same) v.claims.0.1 in
      let sound = store_event-IsSound e t (ground (arith, v.claims.0.0)) unsent v.sound in
      let fresh = none_of_count (λ x. x.cluster_id) e.cluster_id t.events unsent in
      record {
        sound = sound;
        claims = rw fresh (
            All-imp _ (IsClaim t.next (e ∷ t.events)) rest
              (λ x h. (
                h.0.0,
                ground (
                  arith,
                  h.0.1,
                  h.1,
                  same,
                  ==_iff e.cluster_id x.cluster_id,
                  ==_iff x.cluster_id c.cluster_id,
                ),
              ))
              (All-both (IsClaim t.next t.events) _ rest v.claims.1 (rest_differs v)));
        once = λ id. ground (arith, v.once id);
      }
