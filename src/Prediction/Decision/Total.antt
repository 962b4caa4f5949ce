-- ===== src/Prediction/Decision/Total.antt =====
-- `decide` as a whole: it never divides by zero, and what its decision says.
use mathlib.Core.Path.{subst}
use stock_prediction.Base.{
  Bool, true, false, ◌≡◌, ◌↔◌, refl, sym, List, [], ◌∷◌, any, All, filter_by, arith, Bool-cases,
  inl, inr,
}
use stock_prediction.Number.{Number, ◌≼◌, ◌≺◌, nought, one, min_of, abs}
use stock_prediction.Number.Order.{le_of_lt, min_of-le_left, le-min_of}
use stock_prediction.Schema.{Direction, up, down, neutral, same_direction}
use stock_prediction.Prediction.Edge.{FiringEdge}
use stock_prediction.Prediction.Decision.{
  Polarities, Decision, decided, effective, effective_direction, Force, tally, consensus, mass,
  mass_divides_by_zero, confidence_of, direction_for, agreeing, strength, finish, weigh, conclude,
  decide,
}
use stock_prediction.Prediction.Decision.Material.{
  is_material, material_forces, directional-effective,
}
use stock_prediction.Prediction.Decision.Support.{
  has, IsEdge, AreForces, IsReal, Supported, direction_for-Supported, strength_nonneg,
}

abbrev IsCons {ℓ} : {A : Type ℓ} → List A → Type ℓ
IsCons {A = A} xs = (x : A) × (rest : List A) × (xs ≡ x ∷ rest)

module _ {R : Type 0} where
  has-IsCons :
      (d : Direction) (fs : List (Force R))
      → has d fs ≡ true
      → IsCons (filter_by (λ f. same_direction f.1 d) fs)
  has-IsCons d [] h = cc
  has-IsCons d (f ∷ fs) h = elim (Bool-cases (same_direction f.1 d)) [
    | inl t ↦ (f, filter_by (λ x. same_direction x.1 d) fs, rw t)
    | inr t ↦ rw t (has-IsCons d fs (ground arith))
  ]

  agreeing-IsCons :
      (d : Direction) (f : Force R) (fs : List (Force R))
      → Supported d (f ∷ fs)
      → IsCons (agreeing d (f ∷ fs))
  unfolding agreeing
  agreeing-IsCons neutral f fs h = (f, fs, refl)
  agreeing-IsCons up f fs h = has-IsCons up (f ∷ fs) h
  agreeing-IsCons down f fs h = has-IsCons down (f ∷ fs) h

module _ {R : Type 0} ⦃n : Number R⦄ where
  -- What a decision says of the edges that it was made from.
  pub record IsSound (deadband : R) (forces : List (Force R)) (d : Decision R) : Type 0 where
    pub nonneg : nought ≼ d.confidence
    pub at_most_one : d.confidence ≼ one
    pub flat : (d.direction ≡ neutral) ↔ (d.confidence ≺ deadband)
    pub backed : Supported d.direction forces

module _ {R : Type 0} ⦃n : Number R⦄ (laws : IsReal R) where
  open laws use {order, steady, positive, rounding}

  material-AreForces :
      (polarities : Polarities) (elevated : Bool) (edges : List (FiringEdge R))
      → All IsEdge edges
      → AreForces (material_forces polarities elevated edges)
  unfolding effective_direction
  material-AreForces polarities elevated [] v = tt
  material-AreForces polarities elevated (e ∷ es) (v, vs) =
      ground (arith, material-AreForces polarities elevated es vs)

  total_nonneg :
      (fs : List (Force R)) (net total : R)
      → AreForces fs
      → nought ≼ total
      → nought ≼ (tally fs (net, total)).1
  unfolding tally
  total_nonneg [] net total v h = h
  total_nonneg ((e, d) ∷ fs) net total ((v, t), vs) h =
      total_nonneg fs _ _ vs
        (order.le_trans _ _ _ h (steady.le-add total (strength e) (strength_nonneg laws e v)))

  no_zero_division :
      (total halfpoint : R) → nought ≼ halfpoint → mass_divides_by_zero total halfpoint ≡ false
  unfolding mass_divides_by_zero
  no_zero_division total halfpoint h =
      ground (
        arith,
        steady.le-add total halfpoint h,
        order.le_trans total (n.add total halfpoint) nought,
      )

  mass_nonneg : (total halfpoint : R) → nought ≼ halfpoint → nought ≼ mass total halfpoint
  unfolding mass
  mass_nonneg total halfpoint h = ground (
    arith,
    order.le_refl nought,
    order.le_total total nought,
    order.le_total nought total,
    steady.le-add total halfpoint h,
    order.le_trans total (n.add total halfpoint) nought,
    positive.div_nonneg total (n.add total halfpoint),
  )

  abs_nonneg : (x : R) → nought ≼ abs x
  abs_nonneg x = ground (arith, steady.neg_lifts x, order.le_total x nought)

  consensus_nonneg : (net total : R) → nought ≼ consensus net total
  unfolding consensus
  consensus_nonneg net total =
      ground (arith, order.le_refl nought, positive.div_nonneg (abs net) total (abs_nonneg net))

  confidence_bounds :
      (net total halfpoint : R)
      → nought ≼ halfpoint
      → let c = confidence_of net total halfpoint in (nought ≼ c) × (c ≼ one)
  unfolding confidence_of
  confidence_bounds net total halfpoint h =
      let raw = n.mul (consensus net total) (mass total halfpoint) in
      let product =
        positive.mul_nonneg _ _ (consensus_nonneg net total) (mass_nonneg total halfpoint h) in
      let least = le-min_of order nought one raw (le_of_lt order _ _ positive.one_pos) product in
      (
        subst (λ x. x ≼ n.round 4 (min_of one raw)) (rounding.round_nought 4)
            (rounding.round_mono 4 _ _ least),
        subst (λ x. n.round 4 (min_of one raw) ≼ x) (rounding.round_one 4)
            (rounding.round_mono 4 _ _ (min_of-le_left order one raw)),
      )

  direction_for_flat :
      (c deadband net : R) → (direction_for c deadband net ≡ neutral) ↔ (c ≺ deadband)
  unfolding direction_for
  direction_for_flat c deadband net = ground arith

  finish_some :
      (direction : Direction) (c small_max medium_max : R) (all agree : List (Force R))
      → IsCons agree
      → (d : Decision R) × (finish direction c small_max medium_max all agree ≡ decided d)
        × (d.direction ≡ direction)
        × (d.confidence ≡ c)
  unfolding finish
  finish_some direction c small_max medium_max all [] (x, rest, e) = cc
  finish_some direction c small_max medium_max all (f ∷ fs) h = (_, refl, refl, refl)

  weigh_some :
      (deadband small_max medium_max halfpoint : R) (all fs : List (Force R)) (net total : R)
      → AreForces fs
      → tally fs (nought, nought) ≡ (net, total)
      → IsCons fs
      → nought ≺ deadband
      → nought ≼ halfpoint
      → (d : Decision R) × (weigh deadband small_max medium_max halfpoint all fs (net, total)
          ≡ decided d)
        × IsSound deadband fs d
  unfolding weigh
  weigh_some deadband small_max medium_max halfpoint all fs net total v e (f, rest, shape) pos hp =
      let c = confidence_of net total halfpoint in
      let direction = direction_for c deadband net in
      let backed = direction_for-Supported laws fs net total halfpoint deadband v e pos in
      let (lo, hi) = confidence_bounds net total halfpoint hp in
      let (d, de, dd, dc) =
        finish_some direction c small_max medium_max all (agreeing direction fs) (
          subst (λ xs. Supported direction xs → IsCons (agreeing direction xs)) (sym shape)
            (agreeing-IsCons direction f rest) backed) in
      (
        d,
        rw (no_zero_division total halfpoint hp) de,
        record {
          nonneg = rw dc lo;
          at_most_one = rw dc hi;
          flat = rw (dc, dd) (direction_for_flat c deadband net);
          backed = rw dd backed;
        },
      )

  conclude_some :
      (deadband small_max medium_max halfpoint : R) (all fs : List (Force R))
      → AreForces fs
      → IsCons fs
      → nought ≺ deadband
      → nought ≼ halfpoint
      → (d : Decision R) × (conclude deadband small_max medium_max halfpoint all fs ≡ decided d)
        × IsSound deadband fs d
  unfolding conclude
  conclude_some deadband small_max medium_max halfpoint all [] v (f, rest, shape) pos hp = cc
  conclude_some deadband small_max medium_max halfpoint all (f ∷ fs) v cons pos hp =
      weigh_some deadband small_max medium_max halfpoint all (f ∷ fs)
        (tally (f ∷ fs) (nought, nought)).0 (tally (f ∷ fs) (nought, nought)).1 v refl cons pos hp

  any-IsCons :
      (polarities : Polarities) (elevated : Bool) (edges : List (FiringEdge R))
      → any (is_material polarities elevated) edges ≡ true
      → IsCons (material_forces polarities elevated edges)
  any-IsCons polarities elevated [] h = cc
  any-IsCons polarities elevated (e ∷ es) h =
      elim (Bool-cases (is_material polarities elevated e)) [
        | inl t ↦
            ((e, effective_direction polarities e), material_forces polarities elevated es, rw t)
        | inr t ↦ rw t (any-IsCons polarities elevated es (ground arith))
      ]

  -- For edges within the schema, a positive deadband and a half-point that is not negative, `decide`
  -- returns a decision whenever some edge is material; it does not divide by zero. The confidence
  -- lies between zero and one, the direction is neutral exactly if the confidence is below the
  -- deadband, and a direction that is not neutral is the effective direction of some material edge.
  pub decide-IsSound :
      (deadband small_max medium_max halfpoint : R)
      → (polarities : Polarities) (elevated : Bool) (edges : List (FiringEdge R))
      → nought ≺ deadband
      → nought ≼ halfpoint
      → All IsEdge edges
      → any (is_material polarities elevated) edges ≡ true
      → (d : Decision R) × (decide deadband small_max medium_max halfpoint polarities elevated edges
          ≡ decided d)
        × IsSound deadband (material_forces polarities elevated edges) d
  unfolding decide
  decide-IsSound deadband small_max medium_max halfpoint polarities elevated edges pos hp v h =
      rw (directional-effective polarities elevated edges) (
        conclude_some deadband small_max medium_max halfpoint (effective polarities elevated edges)
          (material_forces polarities elevated edges)
          (material-AreForces polarities elevated edges v) (any-IsCons polarities elevated edges h)
          pos hp)
