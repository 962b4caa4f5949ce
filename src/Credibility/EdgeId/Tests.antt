-- ===== src/Credibility/EdgeId/Tests.antt =====
-- Tests of the edge ids.
use text.Mathlib.Text.{◌==◌ as str_eq}
use stock_prediction.Base.{◌≡◌, refl, none, some}
use stock_prediction.Base.Int.{ℤ, pos}
use stock_prediction.Schema.{up}
use stock_prediction.Prediction.Edge.{FiringEdge, CorrelationEdge, edge_id, correlation_edge_id}
use stock_prediction.Credibility.EdgeId.RoundTrip.{
  parse_edge_id-edge_id, parse_correlation_edge_id_lem,
}
use stock_prediction.Credibility.EdgeId.{
  Registry, parsed, invalid, asset, group, parse_edge_id, parse_correlation_edge_id,
}

abbrev registry : Registry
registry = record { is_known_asset = λ s. str_eq s "GOLD"; is_group = λ s. str_eq s "DEFENSE" }

conditioned :
    parse_edge_id registry "STRAIT_CLOSURE|TRANSPORT_AFFECTED->GOLD"
    ≡ parsed (record {
      factor = "STRAIT_CLOSURE";
      condition = some "TRANSPORT_AFFECTED";
      target = asset "GOLD";
    })
unfolding parse_edge_id
conditioned = refl

no_arrow : parse_edge_id registry "STRAIT_CLOSURE" ≡ invalid
unfolding parse_edge_id
no_arrow = refl

abbrev firing : FiringEdge ℤ
firing = record {
  factor_id = some "STRAIT_CLOSURE";
  asset_id = "SAAB";
  direction = up;
  weight = pos 1;
  confidence = pos 1;
  alpha = pos 1;
  beta = pos 1;
  condition = some "TRANSPORT_AFFECTED";
  inherited_from = some "DEFENSE";
  correlation_source_id = none;
}

parse_edge_id-edge_id_example :
    parse_edge_id registry (edge_id firing)
    ≡ parsed (record {
      factor = "STRAIT_CLOSURE";
      condition = some "TRANSPORT_AFFECTED";
      target = group "DEFENSE";
    })
parse_edge_id-edge_id_example =
    parse_edge_id-edge_id registry firing "STRAIT_CLOSURE" (group "DEFENSE") refl refl refl refl
      (refl, refl, refl)

abbrev correlated : CorrelationEdge ℤ
correlated = record {
  source_asset_id = "GOLD";
  target_asset_id = "GOLD";
  condition = "UPSTREAM_UP";
  direction = up;
  weight = pos 1;
  confidence = pos 1;
  alpha = pos 1;
  beta = pos 1;
}

parse_correlation_edge_id_lem_example :
    parse_correlation_edge_id registry (correlation_edge_id correlated)
    ≡ parsed (some (record { source = "GOLD"; condition = "UPSTREAM_UP"; target = "GOLD" }))
parse_correlation_edge_id_lem_example =
    parse_correlation_edge_id_lem registry correlated refl refl refl refl refl
