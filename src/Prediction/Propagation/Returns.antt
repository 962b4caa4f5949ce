-- ===== src/Prediction/Propagation/Returns.antt =====
-- A propagation over edges that keep the schema returns, and leaves contexts predicted.
use Prim.Native.String.{String}
use mathlib.Core.Path.{subst}
use stock_prediction.Base.{
  ℕ, zero, suc, ◌+◌, sym, Bool, true, false, Option, none, some, List, [], ◌∷◌, map, any, All,
  All-append, Bool-cases, inl, inr,
}
use text.Mathlib.Text.{◌==◌ as str_eq}
use stock_prediction.Number.{Number, ◌≼◌, ◌≺◌, nought}
use stock_prediction.Schema.{Direction, neutral, same_direction}
use stock_prediction.Prediction.Edge.{FiringEdge, CorrelationEdge}
use stock_prediction.Prediction.Decision.{
  Polarities, Decision, Decided, no_decision, decided, decide,
}
use stock_prediction.Prediction.Decision.Material.{is_material, decide-no_decision_iff}
use stock_prediction.Prediction.Decision.Support.{IsEdge, IsReal}
use stock_prediction.Prediction.Decision.Total.{decide-IsSound}
use stock_prediction.Prediction.Repository.{Context, ContextEvent, Hop, Tables}
use stock_prediction.Prediction.Stance.{World, Settings}
use stock_prediction.Prediction.Stance.Outcomes.{IsClosed, store_prediction-closed}
use stock_prediction.Prediction.Propagation.{
  Pass, Arrival, Inbound, is_in, append_to, add_edges, add_answer, collect_from, collect_inbound,
  Level, Propagated, went_on, decision_of, keep_target, store_target, decide_target, run_level,
  run_levels, run_propagation, is_none, synthesised, arrival_of,
}

abbrev pub Answers : {A : Type 0} → (A → Type 0) → Option (List A) → Type 0
Answers P none = Unit
Answers P (some xs) = All P xs

module _ {R : Type 0} (P : List Context → Type 0) where
  -- The propagation goes on, and the contexts are as they should be.
  pub data Went : Propagated R → Type 0 where
    went : (l : Level R) → P l.tables.contexts → Went (went_on l)

module _ {R : Type 0} ⦃n : Number R⦄ where
  pub record IsCorrelation (e : CorrelationEdge R) : Type 0 where
    pub weight_nonneg : nought ≼ e.weight
    pub alpha_pos : nought ≺ e.alpha
    pub beta_pos : nought ≺ e.beta

  -- The graph's answers keep the schema, and the settings are those that `decide` is made for.
  pub record IsSchema (w : World R) (s : Settings R) : Type 0 where
    pub firing :
        (type_ asset : String) (c : List String) → Answers IsEdge (w.get_firing_edges type_ asset c)
    pub correlated : (asset c : String) → Answers IsCorrelation (w.get_correlation_edges asset c)
    pub deadband_pos : nought ≺ s.decision_deadband
    pub halfpoint_nonneg : nought ≼ s.confidence_evidence_halfpoint

  pub data Returns : Decided R → Type 0 where
    abstains : Returns no_decision
    decides : (d : Decision R) → Returns (decided d)

  pub decide-Returns :
      IsReal R
      → (w : World R) (s : Settings R) (polarities : Polarities) (elevated : Bool)
        (edges : List (FiringEdge R))
      → IsSchema w s
      → All IsEdge edges
      → Returns (
          decide s.decision_deadband s.magnitude_small_max s.magnitude_medium_max
            s.confidence_evidence_halfpoint polarities elevated edges)
  decide-Returns laws w s polarities elevated edges v h =
      elim (Bool-cases (any (is_material polarities elevated) edges)) [
        | inl t ↦
            let (d, e, _) =
              decide-IsSound laws s.decision_deadband s.magnitude_small_max s.magnitude_medium_max
                s.confidence_evidence_halfpoint polarities elevated edges v.deadband_pos
                v.halfpoint_nonneg h t in
            subst Returns (sym e) (decides d)
        | inr t ↦
            subst Returns
              (sym (
                (decide-no_decision_iff s.decision_deadband s.magnitude_small_max
                    s.magnitude_medium_max s.confidence_evidence_halfpoint polarities elevated
                    edges).1
                  t))
              abstains
      ]

  -- What came in for each target.
  abbrev AreArrivals : Inbound R → Type 0
  AreArrivals = All (λ i. All (λ a. IsEdge a.firing) i.1)

  AreArrivals-append_to :
      (target : String) (a : Arrival R) (inbound : Inbound R)
      → IsEdge a.firing
      → AreArrivals inbound
      → AreArrivals (append_to target a inbound)
  unfolding append_to
  AreArrivals-append_to target a [] h k = ((h, tt), tt)
  AreArrivals-append_to target a ((t, arrivals) ∷ rest) h k = elim (Bool-cases (str_eq t target)) [
    | inl e ↦ rw e (All-append _ arrivals (a ∷ []) k.0 (h, tt), k.1)
    | inr e ↦ rw e (k.0, AreArrivals-append_to target a rest h k.1)
  ]

  AreArrivals-add_edges :
      (source condition : String) (chain : List (Hop R)) (visited : List String)
      (edges : List (CorrelationEdge R)) (inbound : Inbound R)
      → All IsCorrelation edges
      → AreArrivals inbound
      → AreArrivals (add_edges source condition chain visited edges inbound)
  unfolding add_edges arrival_of synthesised
  AreArrivals-add_edges source condition chain visited [] inbound h k = k
  AreArrivals-add_edges source condition chain visited (e ∷ es) inbound h k =
      elim (Bool-cases (is_in e.target_asset_id visited)) [
        | inl t ↦ rw t (AreArrivals-add_edges source condition chain visited es inbound h.1 k)
        | inr t ↦ rw t (
            AreArrivals-add_edges source condition chain visited es _ h.1 (
              AreArrivals-append_to e.target_asset_id _ inbound
                (record {
                  weight_nonneg = h.0.weight_nonneg;
                  alpha_pos = h.0.alpha_pos;
                  beta_pos = h.0.beta_pos;
                })
                k))
      ]

  AreArrivals-add_answer :
      (source condition : String) (chain : List (Hop R)) (visited : List String)
      (answer : Option (List (CorrelationEdge R))) (inbound : Inbound R)
      → Answers IsCorrelation answer
      → AreArrivals inbound
      → AreArrivals (add_answer source condition chain visited answer inbound)
  unfolding add_answer
  AreArrivals-add_answer source condition chain visited none inbound h k = k
  AreArrivals-add_answer source condition chain visited (some edges) inbound h k =
      AreArrivals-add_edges source condition chain visited edges inbound h k

  AreArrivals-collect :
      (w : World R) (s : Settings R) (visited : List String) (pass_ : Pass R) (inbound : Inbound R)
      → IsSchema w s
      → AreArrivals inbound
      → AreArrivals (collect_from w visited pass_ inbound)
  unfolding collect_from
  AreArrivals-collect w s visited [] inbound v k = k
  AreArrivals-collect w s visited ((source, (direction, chain)) ∷ rest) inbound v k =
      AreArrivals-collect w s visited rest _ v
        (AreArrivals-add_answer source _ chain visited _ inbound (v.correlated source _) k)

  edges_of_arrivals :
      (arrivals : List (Arrival R))
      → All (λ a. IsEdge a.firing) arrivals
      → All IsEdge (map (λ a. a.firing) arrivals)
  edges_of_arrivals [] h = tt
  edges_of_arrivals (a ∷ rest) h = (h.0, edges_of_arrivals rest h.1)

module _ {R : Type 0} ⦃n : Number R⦄ (laws : IsReal R) (P : List Context → Type 0)
    (closed : IsClosed P) (w : World R) (s : Settings R) (v : IsSchema w s) (record_ : Context)
    (now : ℕ) (events : List ContextEvent) where
  keep_target-Went :
      (target : String) (direction : Direction) (chain : List (Hop R)) (l : Level R)
      (r : Tables R × Bool)
      → P r.0.contexts
      → Went P (went_on (keep_target target direction chain l r))
  unfolding keep_target
  keep_target-Went target direction chain l (t, true) h = went _ h
  keep_target-Went target direction chain l (t, false) h = went _ h

  decide_target-Went :
      (depth : ℕ) (target : String) (arrivals : List (Arrival R)) (d : Decided R) (l : Level R)
      → Returns d
      → P l.tables.contexts
      → Went P (decide_target w s record_ now events depth target arrivals d l)
  unfolding decide_target store_target
  decide_target-Went depth target arrivals _ l abstains h = went l h
  decide_target-Went depth target arrivals _ l (decides d) h =
      elim (Bool-cases (same_direction d.direction neutral)) [
        | inl t ↦ rw t (went l h)
        | inr t ↦ rw t (
            keep_target-Went target d.direction _ l _
              (store_prediction-closed P closed w s _ d now events depth _ l.tables h))
      ]

  run_level-Went :
      (depth : ℕ) (inbound : Inbound R) (r : Propagated R)
      → AreArrivals inbound
      → Went P r
      → Went P (run_level w s record_ now events depth inbound r)
  unfolding run_level decision_of
  run_level-Went depth [] _ k (went l h) = went l h
  run_level-Went depth ((target, arrivals) ∷ rest) _ k (went l h) =
      run_level-Went depth rest _ k.1 (
        decide_target-Went depth target arrivals _ _
          (decide-Returns laws w s _ false _ v (edges_of_arrivals arrivals k.0)) h)

  run_levels-Went :
      (left depth : ℕ) (r : Propagated R)
      → Went P r
      → Went P (run_levels w s record_ now events left depth r)
  unfolding run_levels collect_inbound
  run_levels-Went zero depth _ (went l h) = went l h
  run_levels-Went (suc left) depth _ (went l h) = elim (Bool-cases (is_none l.next_pass)) [
    | inl t ↦ rw t (went l h)
    | inr t ↦ rw t (
        run_levels-Went left (depth + 1) _ (
          run_level-Went (depth + 1) _ _ (AreArrivals-collect w s l.visited l.next_pass [] v tt)
            (went (record l { next_pass = [] }) h)))
  ]

  pub run_propagation-Went :
      (direction : Direction) (visited : List String) (t : Tables R)
      → P t.contexts
      → Went P (run_propagation w s record_ direction visited now events t)
  unfolding run_propagation
  run_propagation-Went direction visited t h =
      run_levels-Went s.max_propagation_depth 0 _ (went _ h)
