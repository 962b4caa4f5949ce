-- ===== src/Cleansing/Clustering/Best.antt =====
-- The cluster that an article joins, against a ranking of all the candidates.
use Prim.Native.String.{String}
use stock_prediction.Base.{
  ◌≡◌, refl, sym, ◌∙◌, Bool, true, false, ◌&&◌, Option, none, some, List, [], ◌∷◌, filter_by, arith,
  Bool-cases, inl, inr, ap, if◌then◌else◌,
}
use stock_prediction.Number.{Number, lt}
use stock_prediction.Number.Laws.{IsOrdered}
use stock_prediction.Cleansing.Clustering.{
  ClusterCandidate, gate2_compatible, consider, best_of, decision_for, decide_assignment,
}

module _ {F : Type 0} ⦃f : Number F⦄ where
  -- Both gates.
  pub passes : String → F → ClusterCandidate F → Bool
  passes event_type threshold c =
      f.le threshold c.similarity && gate2_compatible event_type c.event_type

  pub rank : ClusterCandidate F → List (ClusterCandidate F) → List (ClusterCandidate F)
  rank c [] = c ∷ []
  rank c (d ∷ ds) =
      let rest = rank c ds in if lt c.similarity d.similarity then d ∷ rest else c ∷ d ∷ ds

  -- The candidates from the highest similarity down, those alike in the order in which they came.
  pub ranking : List (ClusterCandidate F) → List (ClusterCandidate F)
  unfolding rank
  ranking [] = []
  ranking (c ∷ cs) = rank c (ranking cs)

  abbrev pub first : List (ClusterCandidate F) → Option (ClusterCandidate F)
  first [] = none
  first (c ∷ cs) = some c

  abbrev prefer :
      Option (ClusterCandidate F) → Option (ClusterCandidate F) → Option (ClusterCandidate F)
  prefer none b = b
  prefer (some a) none = some a
  prefer (some a) (some b) = if lt a.similarity b.similarity then some b else some a

  first-rank :
      (c : ClusterCandidate F) (cs : List (ClusterCandidate F))
      → first (rank c cs) ≡ prefer (some c) (first cs)
  unfolding rank
  first-rank c [] = refl
  first-rank c (d ∷ ds) = ground arith

  consider-prefer :
      (event_type : String) (threshold : F) (best : Option (ClusterCandidate F))
      (c : ClusterCandidate F)
      → passes event_type threshold c ≡ true
      → consider event_type threshold best c ≡ prefer best (some c)
  unfolding consider passes
  consider-prefer event_type threshold none c t = ground arith
  consider-prefer event_type threshold (some b) c t = ground arith

  consider_failing :
      (event_type : String) (threshold : F) (best : Option (ClusterCandidate F))
      (c : ClusterCandidate F)
      → passes event_type threshold c ≡ false
      → consider event_type threshold best c ≡ best
  unfolding consider passes
  consider_failing event_type threshold best c t = ground arith

  module _ (laws : IsOrdered F) where
    prefer_assoc :
        (a b c : Option (ClusterCandidate F)) → prefer (prefer a b) c ≡ prefer a (prefer b c)
    prefer_assoc none b c = refl
    prefer_assoc (some a) none c = refl
    prefer_assoc (some a) (some b) none = ground arith
    prefer_assoc (some a) (some b) (some c) = ground (
      arith,
      laws.le_trans c.similarity b.similarity a.similarity,
      laws.le_trans c.similarity a.similarity b.similarity,
      laws.le_trans b.similarity c.similarity a.similarity,
      laws.le_total a.similarity b.similarity,
      laws.le_total b.similarity c.similarity,
    )

    best_of-ranking :
        (event_type : String) (threshold : F) (best : Option (ClusterCandidate F))
        (cs : List (ClusterCandidate F))
        → best_of event_type threshold best cs
          ≡ prefer best (first (ranking (filter_by (passes event_type threshold) cs)))
    unfolding best_of ranking
    best_of-ranking event_type threshold none [] = refl
    best_of-ranking event_type threshold (some b) [] = refl
    best_of-ranking event_type threshold best (c ∷ cs) =
        let later = filter_by (passes event_type threshold) cs in
        elim (Bool-cases (passes event_type threshold c)) [
          | inl t ↦ rw t (
              best_of-ranking event_type threshold (consider event_type threshold best c) cs
              ∙ ap (λ b. prefer b (first (ranking later)))
                  (consider-prefer event_type threshold best c t)
              ∙ prefer_assoc best (some c) (first (ranking later))
              ∙ ap (prefer best) (sym (first-rank c (ranking later))))
          | inr t ↦ rw t (
              best_of-ranking event_type threshold (consider event_type threshold best c) cs
              ∙ ap (λ b. prefer b (first (ranking later)))
                  (consider_failing event_type threshold best c t))
        ]

-- In a set of candidates with an order on their similarities, an article joins the first of the ranking
-- of those that pass both gates, and opens a cluster of its own where none passes.
pub decide_assignment-ranking :
    {F : Type 0} ⦃f : Number F⦄ (laws : IsOrdered F) (event_type : String) (threshold : F)
    (candidates : List (ClusterCandidate F))
    → decide_assignment event_type threshold candidates
      ≡ decision_for (first (ranking (filter_by (passes event_type threshold) candidates)))
unfolding decide_assignment
decide_assignment-ranking laws event_type threshold candidates =
    ap decision_for (best_of-ranking laws event_type threshold none candidates)
