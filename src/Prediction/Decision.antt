-- ===== src/Prediction/Decision.antt =====
-- src/services/prediction/prediction/decision.py: the graph-only decision policy, over any type of
-- floats. The rationale, a text for people, is left out.
pub mod Material
pub mod Support
pub mod Total
pub mod Fixed
mod Tests
use Prim.Native.String.{String}
use stock_prediction.Base.{
  ℕ, Bool, true, false, not, ◌&&◌, Option, none, some, List, [], ◌∷◌, map, length, filter_by,
  if◌then◌else◌,
}
use stock_prediction.Number.{Number, lt, nought, one, abs, min_of, sum, num_eq}
use stock_prediction.Schema.{
  Direction, up, down, neutral, Magnitude, small, medium, large, EventPolarity, occurrence,
  resolution, same_direction, ContributingEdge,
}
use stock_prediction.Prediction.Edge.{FiringEdge, edge_id, reliability}

pub flip : Direction → Direction
flip up = down
flip down = up
flip neutral = neutral

-- `polarity_by_type.get`
abbrev pub Polarities : Type 0
Polarities = String → Option EventPolarity

is_resolution_polarity : Option EventPolarity → Bool
is_resolution_polarity (some resolution) = true
is_resolution_polarity (some occurrence) = false
is_resolution_polarity none = false

factor_resolved : Polarities → Option String → Bool
factor_resolved polarities none = false
factor_resolved polarities (some factor) = is_resolution_polarity (polarities factor)

pub record Decision (R : Type 0) : Type 0 where
  pub direction : Direction
  pub magnitude : Magnitude
  pub confidence : R
  pub contributing_edges : List (ContributingEdge R)
  pub contributing_factors : List String

-- What `decide` returns, `None` or a decision, or that a division by zero raised.
pub data Decided (R : Type 0) : Type 0 where
  no_decision : Decided R
  decided : Decision R → Decided R
  zero_division : Decided R

abbrev pub is_directional : Direction → Bool
is_directional neutral = false
is_directional _ = true

-- The factors of the edges that count; an edge that was propagated has none.
add_factor : Option String → List String → List String
add_factor none rest = rest
add_factor (some factor) rest = factor ∷ rest

-- An edge with the direction that it counts for.
abbrev pub Force : Type 0 → Type 0
Force R = FiringEdge R × Direction

module _ {R : Type 0} where
  pub is_resolution : Polarities → FiringEdge R → Bool
  unfolding factor_resolved is_resolution_polarity
  is_resolution polarities e = factor_resolved polarities e.factor_id

  pub effective_direction : Polarities → FiringEdge R → Direction
  unfolding is_resolution flip
  effective_direction polarities e =
      if is_resolution polarities e then flip e.direction else e.direction

  pub resolved_direction : Polarities → Bool → FiringEdge R → Option Direction
  unfolding effective_direction
  resolved_direction polarities elevated e =
      let direction = effective_direction polarities e in
      if is_resolution polarities e && same_direction direction down && not elevated
      then none
      else some direction

  add_force : FiringEdge R → Option Direction → List (Force R) → List (Force R)
  add_force e none rest = rest
  add_force e (some d) rest = (e, d) ∷ rest

  pub effective : Polarities → Bool → List (FiringEdge R) → List (Force R)
  unfolding add_force
  effective polarities elevated [] = []
  effective polarities elevated (e ∷ es) =
      add_force e (resolved_direction polarities elevated e) (effective polarities elevated es)

  pub directional : List (Force R) → List (Force R)
  directional = filter_by (λ f. is_directional f.1)

  pub factors : List (Force R) → List String
  unfolding add_factor
  factors [] = []
  factors (f ∷ fs) = add_factor (f.0).factor_id (factors fs)

  pub agreeing : Direction → List (Force R) → List (Force R)
  agreeing neutral forces = forces
  agreeing up forces = filter_by (λ f. same_direction f.1 up) forces
  agreeing down forces = filter_by (λ f. same_direction f.1 down) forces

module _ {R : Type 0} ⦃n : Number R⦄ where
  contributing_edge : Force R → ContributingEdge R
  contributing_edge (e, d) = record {
    edge_id = edge_id e;
    direction = d;
    current_weight = n.round 6 (reliability e);
    influence_weight = e.weight;
  }

  pub magnitude : R → R → R → Magnitude
  magnitude avg_weight small_max medium_max =
      if lt avg_weight small_max then small else if lt avg_weight medium_max then medium else large

  pub strength : FiringEdge R → R
  strength e = n.mul e.weight (reliability e)

  pub sign : Direction → R
  sign up = one
  sign _ = n.neg one

  -- The loop over the directional edges, on `net` and `total`.
  pub tally : List (Force R) → R × R → R × R
  unfolding strength sign
  tally [] acc = acc
  tally ((e, d) ∷ fs) (net, total) =
      tally fs (n.add net (n.mul (sign d) (strength e)), n.add total (strength e))

  pub consensus : R → R → R
  consensus net total = if lt nought total then n.div (abs net) total else nought

  pub mass : R → R → R
  mass total halfpoint = if lt nought total then n.div total (n.add total halfpoint) else nought

  -- The one divisor of `mass` that the code does not test.
  pub mass_divides_by_zero : R → R → Bool
  mass_divides_by_zero total halfpoint = lt nought total && num_eq (n.add total halfpoint) nought

  pub confidence_of : R → R → R → R
  confidence_of net total halfpoint =
      n.round 4 (min_of one (n.mul (consensus net total) (mass total halfpoint)))

  pub direction_for : R → R → R → Direction
  direction_for confidence deadband net =
      if lt confidence deadband then neutral else if lt nought net then up else down

  -- The end of `decide`, on the edges that agree with the direction.
  pub finish : Direction → R → R → R → List (Force R) → List (Force R) → Decided R
  unfolding magnitude contributing_edge factors
  finish direction confidence small_max medium_max all [] = zero_division
  finish direction confidence small_max medium_max all (f ∷ fs) =
      let agree = f ∷ fs in
      let avg_weight = n.div (sum (map (λ x. (x.0).weight) agree)) (n.of_ℕ (length agree)) in
      decided (record {
        direction = direction;
        magnitude = magnitude avg_weight small_max medium_max;
        confidence = confidence;
        contributing_edges = map contributing_edge all;
        contributing_factors = factors all;
      })

  -- From the sums of the directional edges on.
  pub weigh : R → R → R → R → List (Force R) → List (Force R) → R × R → Decided R
  unfolding mass_divides_by_zero confidence_of direction_for finish agreeing
  weigh deadband small_max medium_max halfpoint all forces (net, total) =
      let confidence = confidence_of net total halfpoint in
      let direction = direction_for confidence deadband net in
      if mass_divides_by_zero total halfpoint
      then zero_division
      else finish direction confidence small_max medium_max all (agreeing direction forces)

  -- From the directional edges on; none of them means no decision.
  pub conclude : R → R → R → R → List (Force R) → List (Force R) → Decided R
  unfolding tally weigh
  conclude deadband small_max medium_max halfpoint all [] = no_decision
  conclude deadband small_max medium_max halfpoint all (f ∷ fs) =
      weigh deadband small_max medium_max halfpoint all (f ∷ fs) (tally (f ∷ fs) (nought, nought))

  pub decide : R → R → R → R → Polarities → Bool → List (FiringEdge R) → Decided R
  unfolding conclude effective directional
  decide deadband small_max medium_max halfpoint polarities elevated edges =
      let all = effective polarities elevated edges in
      conclude deadband small_max medium_max halfpoint all (directional all)
