-- ===== src/Prediction/Decision/Support.antt =====
-- A direction that is not neutral rests on an edge that points that way.
use mathlib.Core.Path.{subst}
use stock_prediction.Base.{
  Bool, true, false, ◌≡◌, List, [], ◌∷◌, any, All, arith, Bool-cases, inl, inr,
}
use stock_prediction.Number.{Number, ◌≼◌, ◌≺◌, lt, nought, one}
use stock_prediction.Number.Laws.{IsOrdered, IsSteady, IsPositive, IsRounding, IsSigned}
use stock_prediction.Number.Order.{le_of_lt, lt_of_lt_of_le, min_of-le_right}
use stock_prediction.Schema.{Direction, up, down, neutral, same_direction}
use stock_prediction.Prediction.Edge.{FiringEdge, reliability}
use stock_prediction.Prediction.Decision.{
  Force, is_directional, strength, sign, tally, consensus, mass, confidence_of, direction_for,
}

-- Some force has the direction.
abbrev pub has : {R : Type 0} → Direction → List (Force R) → Bool
has d forces = any (λ f. same_direction f.1 d) forces

-- A direction holds of the forces: if it is not neutral, one of them has it.
abbrev pub Supported : {R : Type 0} → Direction → List (Force R) → Type 0
Supported neutral fs = Unit
Supported up fs = has up fs ≡ true
Supported down fs = has down fs ≡ true

module _ {R : Type 0} ⦃n : Number R⦄ where
  -- What the schema promises of an edge.
  pub record IsEdge (e : FiringEdge R) : Type 0 where
    pub weight_nonneg : nought ≼ e.weight
    pub alpha_pos : nought ≺ e.alpha
    pub beta_pos : nought ≺ e.beta

  abbrev pub AreForces : List (Force R) → Type 0
  AreForces = All (λ f. IsEdge f.0 × (is_directional f.1 ≡ true))

-- The laws that the decision needs, together.
pub record IsReal (R : Type 0) ⦃n : Number R⦄ : Type 0 where
  pub order : IsOrdered R
  pub steady : IsSteady R
  pub positive : IsPositive R
  pub rounding : IsRounding R
  pub signed : IsSigned R

module _ {R : Type 0} ⦃n : Number R⦄ (laws : IsReal R) where
  open laws use {order, steady, positive, rounding, signed}

  pub strength_nonneg : (e : FiringEdge R) → IsEdge e → nought ≼ strength e
  unfolding strength reliability
  strength_nonneg e v =
      let pos =
        lt_of_lt_of_le order _ _ _ v.beta_pos
          (steady.le-add_left e.alpha e.beta (le_of_lt order _ _ v.alpha_pos)) in
      positive.mul_nonneg _ _ v.weight_nonneg
        (positive.div_nonneg _ _ (le_of_lt order _ _ v.alpha_pos) pos)

  push_down :
      (e : FiringEdge R) (d : Direction) (net : R)
      → IsEdge e
      → same_direction d up ≡ false
      → net ≼ nought
      → n.add net (n.mul (sign d) (strength e)) ≼ nought
  unfolding sign
  push_down e up net v h k = cc
  push_down e down net v h k =
      order.le_trans _ _ _ (steady.le-add_neg net _ (signed.neg_one_mul _ (strength_nonneg e v))) k
  push_down e neutral net v h k =
      order.le_trans _ _ _ (steady.le-add_neg net _ (signed.neg_one_mul _ (strength_nonneg e v))) k

  push_up :
      (e : FiringEdge R) (d : Direction) (net : R)
      → IsEdge e
      → is_directional d ≡ true
      → same_direction d down ≡ false
      → nought ≼ net
      → nought ≼ n.add net (n.mul (sign d) (strength e))
  unfolding sign
  push_up e up net v t h k =
      order.le_trans _ _ _ k (steady.le-add net _ (signed.one_mul _ (strength_nonneg e v)))
  push_up e down net v t h k = cc
  push_up e neutral net v t h k = cc

  tally-le :
      (fs : List (Force R)) (net total : R)
      → AreForces fs
      → has up fs ≡ false
      → net ≼ nought
      → (tally fs (net, total)).0 ≼ nought
  unfolding tally
  tally-le [] net total v h k = k
  tally-le ((e, d) ∷ fs) net total ((v, t), vs) h k =
      tally-le fs _ _ vs (ground arith) (push_down e d net v (ground arith) k)

  tally-ge :
      (fs : List (Force R)) (net total : R)
      → AreForces fs
      → has down fs ≡ false
      → nought ≼ net
      → nought ≼ (tally fs (net, total)).0
  unfolding tally
  tally-ge [] net total v h k = k
  tally-ge ((e, d) ∷ fs) net total ((v, t), vs) h k =
      tally-ge fs _ _ vs (ground arith) (push_up e d net v t (ground arith) k)

  consensus_zero :
      (net total : R)
      → net ≼ nought
      → nought ≼ net
      → (nought ≼ consensus net total) × (consensus net total ≼ nought)
  unfolding consensus
  consensus_zero net total a b =
      ground
        (arith, positive.div_nonneg net total, positive.div_zero net total, order.le_refl nought)

  confidence_zero :
      (net total halfpoint : R)
      → net ≼ nought
      → nought ≼ net
      → confidence_of net total halfpoint ≼ nought
  unfolding confidence_of
  confidence_zero net total halfpoint a b =
      let (lo, hi) = consensus_zero net total a b in
      let product = positive.mul_zero _ (mass total halfpoint) lo hi in
      let least = order.le_trans _ _ _ (min_of-le_right order one _) product in
      subst (λ x. confidence_of net total halfpoint ≼ x) (rounding.round_nought 4)
        (rounding.round_mono 4 _ _ least)

  -- If the decision is up, some force is up.
  up_supported :
      (fs : List (Force R)) (net total : R)
      → AreForces fs
      → tally fs (nought, nought) ≡ (net, total)
      → nought ≺ net
      → has up fs ≡ true
  up_supported fs net total v e h = elim (Bool-cases (has up fs)) [
    | inl t ↦ t
    | inr f ↦ let le = tally-le fs nought nought v f (order.le_refl nought) in ground arith
  ]

  -- If it is down, and not for want of evidence, some force is down.
  down_supported :
      (fs : List (Force R)) (net total halfpoint deadband : R)
      → AreForces fs
      → tally fs (nought, nought) ≡ (net, total)
      → net ≼ nought
      → nought ≺ deadband
      → deadband ≼ confidence_of net total halfpoint
      → has down fs ≡ true
  down_supported fs net total halfpoint deadband v e h d c = elim (Bool-cases (has down fs)) [
    | inl t ↦ t
    | inr f ↦
        let ge : nought ≼ net =
          subst (λ x. nought ≼ x.0) e (tally-ge fs nought nought v f (order.le_refl nought)) in
        let zero = confidence_zero net total halfpoint h ge in
        ground (arith, order.le_trans deadband (confidence_of net total halfpoint) nought)
  ]

  pub direction_for-Supported :
      (fs : List (Force R)) (net total halfpoint deadband : R)
      → AreForces fs
      → tally fs (nought, nought) ≡ (net, total)
      → nought ≺ deadband
      → Supported (direction_for (confidence_of net total halfpoint) deadband net) fs
  unfolding direction_for
  direction_for-Supported fs net total halfpoint deadband v e d =
      let c = confidence_of net total halfpoint in
      elim (Bool-cases (lt c deadband)) [
        | inl t ↦ rw (t, direction_for) tt
        | inr f ↦ elim (Bool-cases (lt nought net)) [
          | inl t ↦ rw (f, t, direction_for) (up_supported fs net total v e t)
          | inr g ↦
              rw (f, g, direction_for)
                (down_supported fs net total halfpoint deadband v e (ground arith) d (ground arith))
        ]
      ]
