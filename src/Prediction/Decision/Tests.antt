-- ===== src/Prediction/Decision/Tests.antt =====
-- Tests of the decision policy, and its theorems at concrete edges.
use Prim.Native.String.{String}
use stock_prediction.Base.{
  ℕ, Bool, true, false, ◌≡◌, ◌↔◌, refl, Option, none, some, List, [], ◌∷◌, any, arith,
}
use stock_prediction.Base.Int.{ℤ, pos, mul_scaled, div_scaled, ◌+ℤ◌, ◌-ℤ◌}
use stock_prediction.Number.Fixed.{fixed}
use stock_prediction.Schema.{Direction, up, neutral, resolution, Magnitude, large}
use stock_prediction.Prediction.Edge.{FiringEdge, edge_id, reliability}
use stock_prediction.Prediction.Decision.{
  Polarities, Decision, Decided, no_decision, decided, zero_division, decide, is_resolution,
  resolved_direction, consensus, mass,
}
use stock_prediction.Prediction.Decision.Material.{
  is_material, material_forces, decide-no_decision_iff,
}
use stock_prediction.Prediction.Decision.Fixed.{fixed-IsReal}
use stock_prediction.Prediction.Decision.Total.{IsSound, decide-IsSound}

abbrev edge : String → Direction → ℕ → FiringEdge ℤ
edge factor direction weight = record {
  factor_id = some factor;
  asset_id = "GOLD";
  direction = direction;
  weight = pos weight;
  confidence = pos 1_000_000;
  alpha = pos 1_000_000;
  beta = pos 1_000_000;
  condition = none;
  inherited_from = none;
  correlation_source_id = none;
}

abbrev ended : Polarities
ended factor = some resolution

abbrev begun : Polarities
begun factor = none

abbrev edges : List (FiringEdge ℤ)
edges = edge "MILITARY_CONFLICT" up 900_000 ∷ edge "RATE_DECISION" neutral 500_000 ∷ []

abbrev default_decide : Polarities → Bool → List (FiringEdge ℤ) → Decided ℤ
default_decide = decide (pos 150_000) (pos 400_000) (pos 700_000) (pos 500_000)

-- A conflict that is called off with the price flat makes no prediction.
flat_price : default_decide ended false edges ≡ no_decision
unfolding decide resolved_direction
flat_price = refl

abbrev direction_of : Decided ℤ → Option (Direction × Magnitude × ℤ)
direction_of (decided d) = some (d.direction, d.magnitude, d.confidence)
direction_of _ = none

-- One edge of weight 0.9 and reliability 0.5: confidence 0.45 / 0.95.
up_decision : direction_of (default_decide begun false edges) ≡ some (up, large, pos 473_684)
unfolding decide reliability edge_id mul_scaled div_scaled ◌+ℤ◌ ◌-ℤ◌ resolved_direction consensus
    mass
up_decision = refl

-- With a deadband of zero, which the settings allow, an edge of weight zero raises.
zero_weight_raises :
    decide
      (pos 0)
      (pos 400_000)
      (pos 700_000)
      (pos 500_000)
      begun
      false
      (edge "IPO_LISTING" up 0 ∷ [])
    ≡ zero_division
unfolding decide reliability edge_id mul_scaled div_scaled ◌+ℤ◌ ◌-ℤ◌ resolved_direction consensus
    mass
zero_weight_raises = refl

decide-no_decision_iff_example :
    (default_decide ended true edges ≡ no_decision) ↔ (any (is_material ended true) edges ≡ false)
decide-no_decision_iff_example =
    decide-no_decision_iff (pos 150_000) (pos 400_000) (pos 700_000) (pos 500_000) ended true edges

decide-IsSound_example :
    (d : Decision ℤ) × (default_decide begun false edges ≡ decided d)
    × IsSound (pos 150_000) (material_forces begun false edges) d
unfolding is_resolution
decide-IsSound_example =
    decide-IsSound fixed-IsReal (pos 150_000) (pos 400_000) (pos 700_000) (pos 500_000) begun false
      edges refl refl (ground arith) refl
