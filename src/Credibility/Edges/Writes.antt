-- ===== src/Credibility/Edges/Writes.antt =====
-- src/services/credibility/credibility/pipeline.py: what the loops over the edges write to the graph, also
-- when one of them raises half way.
use Prim.Native.String.{String}
use stock_prediction.Base.{
  Bool, true, false, Option, none, some, List, [], ◌∷◌, ◌≡◌, refl, All, if◌then◌else◌,
}
use stock_prediction.Number.{Number, one, ◌≼◌}
use stock_prediction.Number.Laws.{IsOrdered}
use stock_prediction.Schema.{ContributingEdge}
use stock_prediction.Credibility.Updater.{Dict, compute_proportional_credits}
use stock_prediction.Credibility.Updater.Moves.{apply_weight_delta_bounds}
use stock_prediction.Credibility.EdgeId.{
  Registry, Parsed, parsed, invalid, Target, EdgeKey, CorrelationKey,
}
use stock_prediction.Credibility.Store.{WeightUpdate, edge}
use stock_prediction.Credibility.Edges.{
  GraphClient, PredictionScored, Policy, Loop, finished, invalid_message, key_error, after,
  moved_weight, edge_update, write_edge, parsed_edge, causes_step, write_correlation,
  credited_correlation, parsed_correlation, correlation_step, continue, run_steps,
  update_correlation_edges, update_edges, correlation_edges,
}

module _ {R : Type 0} ⦃n : Number R⦄ where
  -- A weight that may be written.
  abbrev pub InBounds : Policy R → R → Type 0
  InBounds policy w = (policy.weight_floor ≼ w) × (w ≼ one)

  -- A row of an edge: its counts are frozen, and its new weight is in bounds.
  abbrev pub IsMove : Policy R → WeightUpdate R → Type 0
  IsMove policy u =
      (u.entity_type ≡ edge)
      × (u.alpha_after ≡ u.alpha_before)
      × (u.beta_after ≡ u.beta_before)
      × ((w : R) × (u.weight_after ≡ some w) × InBounds policy w)

  pub Rows : Policy R → Loop (List (WeightUpdate R)) → Type 0
  Rows policy (finished us) = All (IsMove policy) us
  Rows policy _ = Unit

  abbrev Row : Policy R → Loop (Option (WeightUpdate R)) → Type 0
  Row policy (finished (some u)) = IsMove policy u
  Row policy _ = Unit

  -- The writes of the client keep a property of the graph, if they write a weight in bounds.
  pub record Keeps {G : Type 0} (client : GraphClient G R) (policy : Policy R) (I : G → Type 0)
      : Type 0 where
    pub edge_kept :
        (factor : String) (target : Target) (w : R) (condition : Option String) (g : G)
        → InBounds policy w
        → I g
        → I (client.update_edge_weight factor target w condition g)
    pub correlation_kept :
        (key : CorrelationKey) (w : R) (g : G)
        → InBounds policy w
        → I g
        → I (client.update_correlation_weight key w g)

module _ {G R : Type 0} ⦃n : Number R⦄ (order : IsOrdered R) (client : GraphClient G R)
    (registry : Registry) (policy : Policy R) (I : G → Type 0) (keeps : Keeps client policy I)
    (h : policy.weight_floor ≼ one) where
  moved_weight-InBounds :
      (hit : Bool) (credit : R) (state : R × R × R)
      → InBounds policy (moved_weight policy hit credit state)
  unfolding moved_weight
  moved_weight-InBounds hit credit (alpha, beta, weight) =
      apply_weight_delta_bounds order weight credit hit policy.weight_step policy.weight_floor one h

  -- A step that keeps the property, and whose row, if any, is a move.
  abbrev Good : G × Loop (Option (WeightUpdate R)) → Type 0
  Good (g, l) = I g × Row policy l

  write_edge-Good :
      (hit : Bool) (id : String) (key : EdgeKey) (credit : Option R) (state : Option (R × R × R))
      (g : G)
      → I g
      → Good (write_edge client registry policy hit id key credit state g)
  unfolding write_edge edge_update
  write_edge-Good hit id key credit none g i = (i, tt)
  write_edge-Good hit id key none (some state) g i = (i, tt)
  write_edge-Good hit id key (some credit) (some state) g i =
      let b = moved_weight-InBounds hit credit state in
      (
        keeps.edge_kept key.factor key.target _ key.condition g b i,
        (refl, refl, refl, (_, refl, b)),
      )

  parsed_edge-Good :
      (hit : Bool) (credits : Dict R) (id : String) (key : Parsed EdgeKey) (g : G)
      → I g
      → Good (parsed_edge client registry policy hit credits id key g)
  unfolding parsed_edge
  parsed_edge-Good hit credits id invalid g i = (i, tt)
  parsed_edge-Good hit credits id (parsed key) g i = write_edge-Good hit id key _ _ g i

  causes_step-Good :
      (hit : Bool) (credits : Dict R) (e : ContributingEdge R) (g : G)
      → I g
      → Good (causes_step client registry policy hit credits e g)
  unfolding causes_step
  causes_step-Good hit credits e g i = parsed_edge-Good hit credits e.edge_id _ g i

  write_correlation-Good :
      (hit : Bool) (key : CorrelationKey) (credit : R) (state : Option (R × R × R)) (g : G)
      → I g
      → let (g', u) = write_correlation client registry policy hit key credit state g in
        Good (g', finished u)
  unfolding write_correlation edge_update
  write_correlation-Good hit key credit none g i = (i, tt)
  write_correlation-Good hit key credit (some state) g i =
      let b = moved_weight-InBounds hit credit state in
      (keeps.correlation_kept key _ g b i, (refl, refl, refl, (_, refl, b)))

  credited_correlation-Good :
      (hit : Bool) (key : CorrelationKey) (credit : Option R) (g : G)
      → I g
      → Good (credited_correlation client registry policy hit key credit g)
  unfolding credited_correlation
  credited_correlation-Good hit key none g i = (i, tt)
  credited_correlation-Good hit key (some credit) g i = write_correlation-Good hit key credit _ g i

  parsed_correlation-Good :
      (hit : Bool) (credits : Dict R) (id : String) (key : Parsed (Option CorrelationKey)) (g : G)
      → I g
      → Good (parsed_correlation client registry policy hit credits id key g)
  unfolding parsed_correlation
  parsed_correlation-Good hit credits id invalid g i = (i, tt)
  parsed_correlation-Good hit credits id (parsed none) g i = (i, tt)
  parsed_correlation-Good hit credits id (parsed (some key)) g i =
      credited_correlation-Good hit key _ g i

  correlation_step-Good :
      (hit : Bool) (credits : Dict R) (e : ContributingEdge R) (g : G)
      → I g
      → Good (correlation_step client registry policy hit credits e g)
  unfolding correlation_step
  correlation_step-Good hit credits e g i = parsed_correlation-Good hit credits e.edge_id _ g i

  abbrev pub Kept : G × Loop (List (WeightUpdate R)) → Type 0
  Kept (g, l) = I g × Rows policy l

  after-Rows :
      (u : Option (WeightUpdate R)) (l : Loop (List (WeightUpdate R)))
      → Row policy (finished u)
      → Rows policy l
      → Rows policy (after u l)
  unfolding after Rows
  after-Rows none l r rs = rs
  after-Rows (some u) (finished us) r rs = (r, rs)
  after-Rows (some u) invalid_message r rs = tt
  after-Rows (some u) key_error r rs = tt

  continue-Kept :
      (l : Loop (Option (WeightUpdate R))) (rest : G × Loop (List (WeightUpdate R))) (g : G)
      → I g
      → Row policy l
      → Kept rest
      → Kept (continue client registry policy l rest g)
  unfolding continue Rows
  continue-Kept invalid_message rest g i r k = (i, tt)
  continue-Kept key_error rest g i r k = (i, tt)
  continue-Kept (finished u) (g', l) g i r (i', k) = (i', after-Rows u l r k)

  run_steps-Kept :
      (step : ContributingEdge R → G → G × Loop (Option (WeightUpdate R)))
      → ((e : ContributingEdge R) (g : G) → I g → Good (step e g))
      → (es : List (ContributingEdge R)) (g : G) → I g
      → Kept (run_steps client registry policy step es g)
  unfolding run_steps Rows
  run_steps-Kept step good [] g i = (i, tt)
  run_steps-Kept step good (e ∷ es) g i =
      let (i', r) = good e g i in continue-Kept _ _ _ i' r (run_steps-Kept step good es _ i')

  update_correlation_edges-Kept :
      (hit : Bool) (l : Loop (List (ContributingEdge R))) (g : G)
      → I g
      → Kept (update_correlation_edges client registry policy hit l g)
  unfolding update_correlation_edges Rows
  update_correlation_edges-Kept hit invalid_message g i = (i, tt)
  update_correlation_edges-Kept hit key_error g i = (i, tt)
  update_correlation_edges-Kept hit (finished edges) g i =
      run_steps-Kept _ (correlation_step-Good hit _) edges g i

  if-Kept :
      (b : Bool) (x y : G × Loop (List (WeightUpdate R)))
      → Kept x
      → Kept y
      → Kept (if b then x else y)
  if-Kept true x y k k' = k
  if-Kept false x y k k' = k'

  -- Whether it ends or raises half way, `_update_edges` writes only weights between the floor and 1:
  -- a property of the graph that such writes keep is kept. Each row that it returns is of an edge, has
  -- the counts as they were, and a new weight between the floor and 1.
  pub update_edges-Kept :
      (m : PredictionScored R) (g : G)
      → I g
      → I (update_edges client registry policy m g).0
        × Rows policy (update_edges client registry policy m g).1
  unfolding update_edges
  update_edges-Kept m g i =
      if-Kept m.has_propagation_chain _ _
        (update_correlation_edges-Kept m.is_correct
          (correlation_edges client registry policy m.contributing_edges) g i)
        (run_steps-Kept _
          (causes_step-Good m.is_correct (compute_proportional_credits m.contributing_edges))
          m.contributing_edges g i)
