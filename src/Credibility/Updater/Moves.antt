-- ===== src/Credibility/Updater/Moves.antt =====
-- The moves of a weight and of the two counts of a source.
use stock_prediction.Base.{Bool, true, false}
use stock_prediction.Number.{Number, ◌≼◌, nought}
use stock_prediction.Number.Laws.{IsOrdered, IsSteady, IsPositive}
use stock_prediction.Number.Order.{
  min_of-le_left, min_of-le_right, le-min_of, le-max_of_left, le-max_of_right, max_of-le,
}
use stock_prediction.Credibility.Updater.{apply_weight_delta}

module _ {R : Type 0} ⦃n : Number R⦄ where
  -- Which way an outcome moves a weight.
  abbrev pub Moved : Bool → R → R → Type 0
  Moved true before after = before ≼ after
  Moved false before after = after ≼ before

module _ {R : Type 0} ⦃n : Number R⦄ (order : IsOrdered R) where
  pub apply_weight_delta_bounds :
      (weight credit : R) (hit : Bool) (step floor ceiling : R)
      → floor ≼ ceiling
      → let w = apply_weight_delta weight credit hit step floor ceiling in
        (floor ≼ w) × (w ≼ ceiling)
  unfolding apply_weight_delta
  apply_weight_delta_bounds weight credit hit step floor ceiling h =
      (le-min_of order _ _ _ (le-max_of_right order _ _) h, min_of-le_right order _ _)

  module _ (steady : IsSteady R) (positive : IsPositive R) where
    raised :
        (weight credit step floor ceiling : R)
        → nought ≼ n.mul step credit
        → weight ≼ ceiling
        → weight ≼ apply_weight_delta weight credit true step floor ceiling
    unfolding apply_weight_delta
    raised weight credit step floor ceiling h high =
        le-min_of order _ _ _
          (order.le_trans _ _ _ (steady.le-add weight (n.mul step credit) h)
            (le-max_of_left order _ _))
          high

    lowered :
        (weight credit step floor ceiling : R)
        → nought ≼ n.mul step credit
        → floor ≼ weight
        → apply_weight_delta weight credit false step floor ceiling ≼ weight
    unfolding apply_weight_delta
    lowered weight credit step floor ceiling h low =
        order.le_trans _ _ _ (min_of-le_left order _ _)
          (max_of-le order _ _ _ (steady.sub-le weight (n.mul step credit) h) low)

    moved :
        (weight credit : R) (hit : Bool) (step floor ceiling : R)
        → nought ≼ n.mul step credit
        → floor ≼ weight
        → weight ≼ ceiling
        → Moved hit weight (apply_weight_delta weight credit hit step floor ceiling)
    moved weight credit true step floor ceiling h low high =
        raised weight credit step floor ceiling h high
    moved weight credit false step floor ceiling h low high =
        lowered weight credit step floor ceiling h low

    -- A weight that stands between the floor and the ceiling stays between them; a hit does not
    -- lower it and a miss does not raise it, for a step and a credit that are not negative.
    pub apply_weight_delta_lem :
        (weight credit : R) (hit : Bool) (step floor ceiling : R)
        → nought ≼ step
        → nought ≼ credit
        → floor ≼ weight
        → weight ≼ ceiling
        → let w = apply_weight_delta weight credit hit step floor ceiling in
          (floor ≼ w) × (w ≼ ceiling) × Moved hit weight w
    apply_weight_delta_lem weight credit hit step floor ceiling hs hc low high =
        let (l, u) =
          apply_weight_delta_bounds weight credit hit step floor ceiling
            (order.le_trans _ _ _ low high) in
        (l, u, moved weight credit hit step floor ceiling (positive.mul_nonneg _ _ hs hc) low high)
