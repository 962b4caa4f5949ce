-- ===== src/Cleansing/Clustering/Chosen.antt =====
-- What is known of every candidate is known of the chosen one.
use Prim.Native.String.{String}
use stock_prediction.Base.{
  ℕ, Option, none, some, List, [], ◌∷◌, All, Bool-cases, inl, inr, if◌then◌else◌,
}
use stock_prediction.Number.{Number, lt}
use stock_prediction.Cleansing.Clustering.{
  ClusterCandidate, gate2_compatible, is_better, consider, best_of, decision_for, decide_assignment,
}

module _ {F : Type 0} ⦃f : Number F⦄ where
  abbrev pub IsChosen : (ClusterCandidate F → Type 0) → Option (ClusterCandidate F) → Type 0
  IsChosen P none = Unit
  IsChosen P (some c) = P c

  consider-IsChosen :
      (P : ClusterCandidate F → Type 0) (event_type : String) (threshold : F)
      (best : Option (ClusterCandidate F)) (c : ClusterCandidate F)
      → IsChosen P best
      → P c
      → IsChosen P (consider event_type threshold best c)
  unfolding consider
  consider-IsChosen P event_type threshold best c h k =
      elim (Bool-cases (lt c.similarity threshold)) [
        | inl t ↦ rw t h
        | inr t ↦ elim (Bool-cases (gate2_compatible event_type c.event_type)) [
          | inl g ↦ rw t (rw g (either best h))
          | inr g ↦ rw t (rw g h)
        ]
      ]
    where
      either :
          (b : Option (ClusterCandidate F))
          → IsChosen P b
          → IsChosen P (if is_better b c then some c else b)
      either none h = k
      either (some b) h = elim (Bool-cases (lt b.similarity c.similarity)) [
        | inl q ↦ rw q k
        | inr q ↦ rw q h
      ]

  best_of-IsChosen :
      (P : ClusterCandidate F → Type 0) (event_type : String) (threshold : F)
      (best : Option (ClusterCandidate F)) (cs : List (ClusterCandidate F))
      → IsChosen P best
      → All P cs
      → IsChosen P (best_of event_type threshold best cs)
  unfolding best_of
  best_of-IsChosen P event_type threshold best [] h hs = h
  best_of-IsChosen P event_type threshold best (c ∷ cs) h (k, ks) =
      best_of-IsChosen P event_type threshold (consider event_type threshold best c) cs
        (consider-IsChosen P event_type threshold best c h k) ks

abbrev pub HoldsOf : (ℕ → Type 0) → Option ℕ → Type 0
HoldsOf P none = Unit
HoldsOf P (some id) = P id

module _ {F : Type 0} ⦃f : Number F⦄ where
  decision_for-HoldsOf :
      (P : ℕ → Type 0) (best : Option (ClusterCandidate F))
      → IsChosen (λ c. P c.cluster_id) best
      → HoldsOf P (decision_for best).cluster_id
  decision_for-HoldsOf P none h = tt
  decision_for-HoldsOf P (some c) h = h

  pub decide_assignment-HoldsOf :
      (P : ℕ → Type 0) (event_type : String) (threshold : F) (cs : List (ClusterCandidate F))
      → All (λ c. P c.cluster_id) cs
      → HoldsOf P (decide_assignment event_type threshold cs).cluster_id
  unfolding decide_assignment
  decide_assignment-HoldsOf P event_type threshold cs h =
      decision_for-HoldsOf P (best_of event_type threshold none cs)
        (best_of-IsChosen (λ c. P c.cluster_id) event_type threshold none cs tt h)
