-- ===== src/Prediction/Edge.antt =====
-- src/shared/shared/graph/models.py: the edges that the causal graph returns. Event types, conditions
-- and asset ids are members of string enumerations, so they are their strings.
use Prim.Native.String.{String}
use stock_prediction.Base.{Option, none, some, if◌then◌else◌, ◌<>◌, is_empty}
use stock_prediction.Number.{Number}
use stock_prediction.Schema.{Direction}

pub record FiringEdge (R : Type 0) : Type 0 where
  pub factor_id : Option String
  pub asset_id : String
  pub direction : Direction
  pub weight : R
  pub confidence : R
  pub alpha : R
  pub beta : R
  pub condition : Option String
  pub inherited_from : Option String
  pub correlation_source_id : Option String

pub record CorrelationEdge (R : Type 0) : Type 0 where
  pub source_asset_id : String
  pub target_asset_id : String
  pub condition : String
  pub direction : Direction
  pub weight : R
  pub confidence : R
  pub alpha : R
  pub beta : R

-- `inherited_from or asset_id.value`: an empty string counts as none.
target_of : Option String → String → String
target_of none asset = asset
target_of (some group) asset = if is_empty group then asset else group

prefix_of : Option String → Option String → String
prefix_of none (some source) = source
prefix_of none none = "CORRELATION"
prefix_of (some factor) _ = factor

id_of : String → Option String → String → String
id_of start none target = start <> "->" <> target
id_of start (some condition) target = start <> "|" <> condition <> "->" <> target

module _ {R : Type 0} where
  -- `FiringEdge.edge_id`
  unfoldable pub edge_id : FiringEdge R → String
  unfolding target_of prefix_of id_of
  edge_id e =
      id_of (prefix_of e.factor_id e.correlation_source_id) e.condition
        (target_of e.inherited_from e.asset_id)

  -- `CorrelationEdge.edge_id`
  unfoldable pub correlation_edge_id : CorrelationEdge R → String
  unfolding id_of
  correlation_edge_id e = id_of e.source_asset_id (some e.condition) e.target_asset_id

-- `FiringEdge.reliability`; the schema keeps `alpha` and `beta` above zero.
unfoldable pub reliability : {R : Type 0} ⦃n : Number R⦄ → FiringEdge R → R
reliability ⦃n⦄ e = n.div e.alpha (n.add e.alpha e.beta)
