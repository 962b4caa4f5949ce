-- ===== src/Credibility/Pipeline/Tests.antt =====
-- Tests of the credibility pipeline, and its theorems at a graph of one edge.
use Prim.Native.String.{String}
use text.Mathlib.Text.{◌==◌ as str_eq}
use stock_prediction.Base.{true, false, none, some, List, [], ◌∷◌, ◌++◌, ◌≡◌, refl}
use stock_prediction.Base.Int.{ℤ, pos, mul_scaled, div_scaled, ◌+ℤ◌, ◌-ℤ◌}
use stock_prediction.Number.Fixed.{fixed}
use stock_prediction.Schema.{up}
use stock_prediction.Prediction.Edge.{edge_id}
use stock_prediction.Credibility.EdgeId.{Registry, parse_edge_id}
use stock_prediction.Credibility.Updater.{
  compute_source_credits, apply_bernoulli, apply_weight_delta, compute_proportional_credits, get,
}
use stock_prediction.Credibility.Store.{WeightUpdate, commit_updates, already_processed}
use stock_prediction.Credibility.Edges.{
  GraphClient, PredictionScored, Policy, Loop, finished, update_edges,
}
use stock_prediction.Credibility.Edges.Writes.{InBounds, Keeps, Rows, update_edges-Kept}
use stock_prediction.Number.Fixed.{fixed-IsOrdered}
use stock_prediction.Credibility.Pipeline.{
  Reply, applied, ignored, rejected, commit_failed, World, process, update_sources, verdict, fresh,
  alone,
}
use stock_prediction.Credibility.Pipeline.Retry.{process-process_fault}
use stock_prediction.Credibility.Pipeline.Race.{process-process_lost}

abbrev registry : Registry
registry = record { is_known_asset = λ s. str_eq s "GOLD"; is_group = λ s. str_eq s "DEFENSE" }

-- A graph is the weight of its one edge.
abbrev client : GraphClient ℤ ℤ
client = record {
  get_firing_edges = λ factor a weight.
      record {
        factor_id = some "MILITARY_CONFLICT";
        asset_id = "GOLD";
        direction = up;
        weight = weight;
        confidence = pos 500_000;
        alpha = pos 1_000_000;
        beta = pos 1_000_000;
        condition = none;
        inherited_from = none;
        correlation_source_id = none;
      }
      ∷ [];
  get_group_edge_counts = λ factor a condition weight. some (pos 1_000_000, pos 1_000_000, weight);
  update_edge_weight = λ factor a moved condition weight. moved;
  get_correlation_edge_counts = λ key weight. none;
  update_correlation_weight = λ key moved weight. moved;
}

abbrev message : PredictionScored ℤ
message = record {
  prediction_id = 7;
  is_correct = true;
  contributing_edges =
      record {
        edge_id = "MILITARY_CONFLICT->GOLD";
        direction = up;
        current_weight = pos 900_000;
        influence_weight = pos 450_000;
      }
      ∷ [];
  source_ids = "reuters" ∷ [];
  has_propagation_chain = false;
}

abbrev policy : Policy ℤ
policy = record { prior_floor = pos 1_000_000; weight_step = pos 20_000; weight_floor = pos 50_000 }

abbrev start : World ℤ ℤ
start = record {
  graph = pos 900_000;
  tables = record { processed = []; sources = []; history = [] };
  status = λ id. none;
}

abbrev normalise : String → String
normalise s = s

abbrev run : World ℤ ℤ → World ℤ ℤ × Reply
run = process client registry policy normalise false alone message

-- A hit raises the weight of the only edge by the whole step.
raised : (run start).0.graph ≡ pos 920_000
unfolding process already_processed commit_updates update_edges edge_id parse_edge_id get
    compute_proportional_credits apply_weight_delta compute_source_credits apply_bernoulli
    update_sources mul_scaled div_scaled ◌+ℤ◌ ◌-ℤ◌
raised = refl

-- An id that is not known rejects the message, and leaves the tables.
rejected_id :
    process client registry policy normalise false alone
      (record message {
        contributing_edges =
            record {
              edge_id = "GOLD";
              direction = up;
              current_weight = pos 1;
              influence_weight = pos 1;
            }
            ∷ [];
      })
      start
    ≡ (start, rejected)
unfolding process already_processed commit_updates update_edges edge_id parse_edge_id get
    compute_proportional_credits apply_weight_delta compute_source_credits apply_bernoulli
    update_sources mul_scaled div_scaled ◌+ℤ◌ ◌-ℤ◌
rejected_id = refl

abbrev once : ℤ × Loop (List (WeightUpdate ℤ))
once = update_edges client registry policy message (pos 900_000)

abbrev twice : ℤ × Loop (List (WeightUpdate ℤ))
twice = update_edges client registry policy message once.0

abbrev updates_of : Loop (List (WeightUpdate ℤ)) → List (WeightUpdate ℤ)
updates_of (finished us) = us
updates_of _ = []

once_finished : once.1 ≡ finished (updates_of once.1)
unfolding process already_processed commit_updates update_edges edge_id parse_edge_id get
    compute_proportional_credits apply_weight_delta compute_source_credits apply_bernoulli
    update_sources mul_scaled div_scaled ◌+ℤ◌ ◌-ℤ◌
once_finished = refl

twice_finished : twice.1 ≡ finished (updates_of twice.1)
unfolding process already_processed commit_updates update_edges edge_id parse_edge_id get
    compute_proportional_credits apply_weight_delta compute_source_credits apply_bernoulli
    update_sources mul_scaled div_scaled ◌+ℤ◌ ◌-ℤ◌
twice_finished = refl

start_fresh : verdict 7 start ≡ fresh
unfolding verdict already_processed
start_fresh = refl

-- The other delivery of the message, as a whole.
abbrev second : World ℤ ℤ → World ℤ ℤ
second u = (process client registry policy normalise false alone message u).0

process-process_lost_example :
    process client registry policy normalise false second message start ≡ (
      record start {
        graph = twice.0;
        tables =
            (commit_updates 7
              (updates_of twice.1
                ++ update_sources normalise policy.prior_floor message start.tables)
              start.tables).0;
      },
      ignored,
    )
process-process_lost_example =
    process-process_lost client registry policy normalise message start (updates_of once.1)
      (updates_of twice.1) start_fresh once_finished twice_finished

-- The step of one delivery is taken twice.
raised_twice : twice.0 ≡ pos 940_000
unfolding process already_processed commit_updates update_edges edge_id parse_edge_id get
    compute_proportional_credits apply_weight_delta compute_source_credits apply_bernoulli
    update_sources mul_scaled div_scaled ◌+ℤ◌ ◌-ℤ◌
raised_twice = refl

-- The only weight stays in bounds.
abbrev client_keeps : Keeps client policy (InBounds policy)
client_keeps = record {
  edge_kept = λ factor target w condition g b i. b;
  correlation_kept = λ key w g b i. b;
}

update_edges-Kept_example : InBounds policy once.0 × Rows policy once.1
update_edges-Kept_example =
    update_edges-Kept fixed-IsOrdered client registry policy (InBounds policy) client_keeps refl
      message (pos 900_000) (refl, refl)

process-process_fault_example :
    (process client registry policy normalise true alone message start
      ≡ (record start { graph = once.0 }, commit_failed))
    × (process client registry policy normalise false alone message
          (record start { graph = once.0 })
        ≡ (
          record start {
            graph = twice.0;
            tables =
                (commit_updates 7
                  (updates_of twice.1
                    ++ update_sources normalise policy.prior_floor message start.tables)
                  start.tables).0;
          },
          applied,
        ))
process-process_fault_example =
    process-process_fault client registry policy normalise message start (updates_of once.1)
      (updates_of twice.1) start_fresh once_finished twice_finished
