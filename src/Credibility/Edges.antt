-- ===== src/Credibility/Edges.antt =====
-- src/services/credibility/credibility/pipeline.py: the loops that move the weights of edges in the
-- graph. The graph client, which queries Neo4j, is the argument `GraphClient`.
pub mod Writes
use Prim.Native.String.{String}
use text.Mathlib.Text.{◌==◌ as str_eq}
use stock_prediction.Base.{
  ℕ, Bool, true, false, Option, none, some, List, [], ◌∷◌, find_first, if◌then◌else◌, ◌<>◌,
}
use stock_prediction.Number.{Number, one}
use stock_prediction.Schema.{ContributingEdge}
use stock_prediction.Prediction.Edge.{FiringEdge, edge_id}
use stock_prediction.Credibility.Updater.{
  Dict, get, compute_proportional_credits, apply_weight_delta,
}
use stock_prediction.Credibility.EdgeId.{
  Registry, Parsed, parsed, invalid, Target, asset, group, EdgeKey, CorrelationKey, parse_edge_id,
  parse_correlation_edge_id,
}
use stock_prediction.Credibility.Store.{edge, WeightUpdate}

-- The protocol `GraphClient` over the states of a graph: `alpha`, `beta` and `weight` of an edge.
pub record GraphClient (G R : Type 0) : Type 0 where
  pub get_firing_edges : String → String → G → List (FiringEdge R)
  pub get_group_edge_counts : String → String → Option String → G → Option (R × R × R)
  pub update_edge_weight : String → Target → R → Option String → G → G
  pub get_correlation_edge_counts : CorrelationKey → G → Option (R × R × R)
  pub update_correlation_weight : CorrelationKey → R → G → G

-- `PredictionScored`, the fields that the pipeline reads; a propagation chain is only tested.
pub record PredictionScored (R : Type 0) : Type 0 where
  pub prediction_id : ℕ
  pub is_correct : Bool
  pub contributing_edges : List (ContributingEdge R)
  pub source_ids : List String
  pub has_propagation_chain : Bool

pub record Policy (R : Type 0) : Type 0 where
  pub prior_floor : R
  pub weight_step : R
  pub weight_floor : R

-- What a loop over the edges gives: the updates, `InvalidScoredMessageError`, or `KeyError`.
pub data Loop (A : Type 0) : Type 0 where
  finished : A → Loop A
  invalid_message key_error : Loop A

-- One more update in front of those of the rest of the loop.
after :
    {R : Type 0}
    → Option (WeightUpdate R)
    → Loop (List (WeightUpdate R))
    → Loop (List (WeightUpdate R))
after none rest = rest
after (some u) (finished us) = finished (u ∷ us)
after (some u) invalid_message = invalid_message
after (some u) key_error = key_error

module _ {R : Type 0} ⦃n : Number R⦄ where
  -- The update of an edge that moves from a weight to another; its counts are frozen.
  edge_update : String → R × R × R → R → WeightUpdate R
  edge_update id (alpha, beta, weight) moved = record {
    entity_id = id;
    entity_type = edge;
    alpha_before = alpha;
    beta_before = beta;
    alpha_after = alpha;
    beta_after = beta;
    weight_before = some weight;
    weight_after = some moved;
  }

  pub moved_weight : Policy R → Bool → R → R × R × R → R
  moved_weight policy is_correct credit (alpha, beta, weight) =
      apply_weight_delta weight credit is_correct policy.weight_step policy.weight_floor one

  counts_of : FiringEdge R → R × R × R
  counts_of e = (e.alpha, e.beta, e.weight)

  firing_state : Option (FiringEdge R) → Option (R × R × R)
  unfolding counts_of
  firing_state none = none
  firing_state (some e) = some (counts_of e)

  module _ {G : Type 0} (client : GraphClient G R) (registry : Registry) (policy : Policy R) where
    -- The state of an edge: a group edge is read directly, another is looked for by its whole id.
    edge_state : String → String → Option String → Target → G → Option (R × R × R)
    unfolding firing_state
    edge_state id factor condition (asset a) g =
        firing_state (find_first (λ e. str_eq (edge_id e) id) (client.get_firing_edges factor a g))
    edge_state id factor condition (group t) g = client.get_group_edge_counts factor t condition g

    -- The write of one edge, if it is in the graph; its credit is looked up then.
    write_edge :
        Bool
        → String
        → EdgeKey
        → Option R
        → Option (R × R × R)
        → G
        → G × Loop (Option (WeightUpdate R))
    unfolding edge_update moved_weight
    write_edge hit id key credit none g = (g, finished none)
    write_edge hit id key none (some state) g = (g, key_error)
    write_edge hit id key (some credit) (some state) g =
        let weight = moved_weight policy hit credit state in
        (
          client.update_edge_weight key.factor key.target weight key.condition g,
          finished (some (edge_update id state weight)),
        )

    -- The body of the loop of `_update_edges`.
    parsed_edge : Bool → Dict R → String → Parsed EdgeKey → G → G × Loop (Option (WeightUpdate R))
    unfolding write_edge edge_state
    parsed_edge hit credits id invalid g = (g, invalid_message)
    parsed_edge hit credits id (parsed key) g =
        write_edge hit id key (get id credits) (edge_state id key.factor key.condition key.target g)
          g

    causes_step : Bool → Dict R → ContributingEdge R → G → G × Loop (Option (WeightUpdate R))
    unfolding parsed_edge
    causes_step hit credits e g =
        parsed_edge hit credits e.edge_id (parse_edge_id registry e.edge_id) g

    write_correlation :
        Bool → CorrelationKey → R → Option (R × R × R) → G → G × Option (WeightUpdate R)
    unfolding edge_update moved_weight
    write_correlation hit key credit none g = (g, none)
    write_correlation hit key credit (some state) g =
        let weight = moved_weight policy hit credit state in
        (
          client.update_correlation_weight key weight g,
          some
              (edge_update (key.source <> "|" <> key.condition <> "->" <> key.target) state weight),
        )

    credited_correlation : Bool → CorrelationKey → Option R → G → G × Loop (Option (WeightUpdate R))
    unfolding write_correlation
    credited_correlation hit key none g = (g, key_error)
    credited_correlation hit key (some credit) g =
        let (g', update) =
          write_correlation hit key credit (client.get_correlation_edge_counts key g) g in
        (g', finished update)

    parsed_correlation :
        Bool
        → Dict R
        → String
        → Parsed (Option CorrelationKey)
        → G
        → G × Loop (Option (WeightUpdate R))
    unfolding credited_correlation
    parsed_correlation hit credits id invalid g = (g, invalid_message)
    parsed_correlation hit credits id (parsed none) g = (g, finished none)
    parsed_correlation hit credits id (parsed (some key)) g =
        credited_correlation hit key (get id credits) g

    correlation_step : Bool → Dict R → ContributingEdge R → G → G × Loop (Option (WeightUpdate R))
    unfolding parsed_correlation
    correlation_step hit credits e g =
        parsed_correlation hit credits e.edge_id (parse_correlation_edge_id registry e.edge_id) g

    -- The rest of a loop, unless the step raised.
    continue :
        Loop (Option (WeightUpdate R))
        → G × Loop (List (WeightUpdate R))
        → G
        → G × Loop (List (WeightUpdate R))
    unfolding after
    continue invalid_message rest g = (g, invalid_message)
    continue key_error rest g = (g, key_error)
    continue (finished update) (g', updates) g = (g', after update updates)

    -- A loop over edges: the writes stand, also those before an exception.
    pub run_steps :
        (ContributingEdge R → G → G × Loop (Option (WeightUpdate R)))
        → List (ContributingEdge R)
        → G
        → G × Loop (List (WeightUpdate R))
    unfolding continue
    run_steps step [] g = (g, finished [])
    run_steps step (e ∷ es) g =
        let (g', update) = step e g in continue update (run_steps step es g') g'

    -- The edges that are correlation edges; the first malformed one raises.
    keep_edge :
        ContributingEdge R
        → Parsed (Option CorrelationKey)
        → Loop (List (ContributingEdge R))
        → Loop (List (ContributingEdge R))
    keep_edge e invalid rest = invalid_message
    keep_edge e (parsed none) rest = rest
    keep_edge e (parsed (some key)) (finished es) = finished (e ∷ es)
    keep_edge e (parsed (some key)) invalid_message = invalid_message
    keep_edge e (parsed (some key)) key_error = key_error

    correlation_edges : List (ContributingEdge R) → Loop (List (ContributingEdge R))
    unfolding keep_edge
    correlation_edges [] = finished []
    correlation_edges (e ∷ es) =
        keep_edge e (parse_correlation_edge_id registry e.edge_id) (correlation_edges es)

    -- `_update_correlation_edges`
    update_correlation_edges :
        Bool → Loop (List (ContributingEdge R)) → G → G × Loop (List (WeightUpdate R))
    unfolding run_steps correlation_step
    update_correlation_edges hit invalid_message g = (g, invalid_message)
    update_correlation_edges hit key_error g = (g, key_error)
    update_correlation_edges hit (finished edges) g =
        run_steps (correlation_step hit (compute_proportional_credits edges)) edges g

    -- `_update_edges`
    unfoldable pub update_edges : PredictionScored R → G → G × Loop (List (WeightUpdate R))
    unfolding run_steps causes_step update_correlation_edges correlation_edges
    update_edges m g =
        if m.has_propagation_chain
        then update_correlation_edges m.is_correct (correlation_edges m.contributing_edges) g
        else run_steps
            (causes_step m.is_correct (compute_proportional_credits m.contributing_edges))
            m.contributing_edges g
