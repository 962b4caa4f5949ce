-- ===== src/Prediction/Decision/Material.antt =====
-- Which edges count, and when there is no decision.
use stock_prediction.Base.{
  Bool, true, false, not, ◌||◌, ◌≡◌, ◌≢◌, ◌↔◌, refl, List, [], ◌∷◌, any, arith, if◌then◌else◌,
}
use stock_prediction.Number.{Number}
use stock_prediction.Schema.{Direction, up, down, neutral}
use stock_prediction.Prediction.Edge.{FiringEdge}
use stock_prediction.Prediction.Decision.{
  Polarities, is_resolution, effective_direction, resolved_direction, Force, effective, directional,
  add_force, Decided, no_decision, zero_division, finish, conclude, decide,
}

-- An edge stored UP counts unless its factor resolved while the price is flat; one stored DOWN
-- counts always; a neutral one never.
abbrev pub counts : Direction → Bool → Bool → Bool
counts up resolved elevated = not resolved || elevated
counts down resolved elevated = true
counts neutral resolved elevated = false

module _ {R : Type 0} (polarities : Polarities) (elevated : Bool) where
  abbrev pub is_material : FiringEdge R → Bool
  is_material e = counts e.direction (is_resolution polarities e) elevated

  -- The material edges, each with its effective direction.
  abbrev pub material_forces : List (FiringEdge R) → List (Force R)
  material_forces [] = []
  material_forces (e ∷ es) =
      if is_material e
      then (e, effective_direction polarities e) ∷ material_forces es
      else material_forces es

  directional-add_force :
      (e : FiringEdge R) (rest : List (Force R))
      → directional (add_force e (resolved_direction polarities elevated e) rest) ≡ (
          if is_material e
          then (e, effective_direction polarities e) ∷ directional rest
          else directional rest)
  unfolding resolved_direction add_force directional
  directional-add_force e rest = ground arith

  pub directional-effective :
      (edges : List (FiringEdge R))
      → directional (effective polarities elevated edges) ≡ material_forces edges
  unfolding effective
  directional-effective [] = directional-nil
    where
      directional-nil : directional {R = R} [] ≡ []
      directional-nil = unfold directional in refl
  directional-effective (e ∷ es) =
      rw (directional-add_force e (effective polarities elevated es))
        (rw (directional-effective es))

  material_forces-nil :
      (edges : List (FiringEdge R)) → (material_forces edges ≡ []) ↔ (any is_material edges ≡ false)
  material_forces-nil [] = ground arith
  material_forces-nil (e ∷ es) = ground (arith, material_forces-nil es)

module _ {R : Type 0} ⦃n : Number R⦄ where
  finish-decides :
      (direction : Direction) (c small_max medium_max : R) (all fs : List (Force R))
      → finish direction c small_max medium_max all fs ≢ no_decision
  unfolding finish
  finish-decides direction c small_max medium_max all [] e = cc
  finish-decides direction c small_max medium_max all (f ∷ fs) e = cc

  guarded :
      (b : Bool) (x : Decided R) → x ≢ no_decision → (if b then zero_division else x) ≢ no_decision
  guarded true x h e = cc
  guarded false x h e = h e

  conclude-decides :
      (deadband small_max medium_max halfpoint : R) (all : List (Force R)) (f : Force R)
      → (fs : List (Force R))
      → conclude deadband small_max medium_max halfpoint all (f ∷ fs) ≢ no_decision
  unfolding conclude
  conclude-decides deadband small_max medium_max halfpoint all f fs =
      guarded _ _ (finish-decides _ _ small_max medium_max all _)

  conclude-no_decision :
      (deadband small_max medium_max halfpoint : R) (all fs : List (Force R))
      → (conclude deadband small_max medium_max halfpoint all fs ≡ no_decision) ↔ (fs ≡ [])
  conclude-no_decision deadband small_max medium_max halfpoint all [] =
      (λ e. refl, λ e. unfold conclude in refl)
  conclude-no_decision deadband small_max medium_max halfpoint all (f ∷ fs) =
      (λ e. absurd (conclude-decides deadband small_max medium_max halfpoint all f fs e), λ e. cc)

  -- There is no decision exactly if no edge is material: stored DOWN, or stored UP with a factor that
  -- did not resolve or with an elevated price.
  pub decide-no_decision_iff :
      (deadband small_max medium_max halfpoint : R)
      → (polarities : Polarities) (elevated : Bool) (edges : List (FiringEdge R))
      → (decide deadband small_max medium_max halfpoint polarities elevated edges ≡ no_decision)
        ↔ (any (is_material polarities elevated) edges ≡ false)
  unfolding decide
  decide-no_decision_iff deadband small_max medium_max halfpoint polarities elevated edges =
      let iff =
        conclude-no_decision deadband small_max medium_max halfpoint
          (effective polarities elevated edges) (material_forces polarities elevated edges) in
      let none_material = material_forces-nil polarities elevated edges in
      rw (directional-effective polarities elevated edges, decide)
        ((λ e. none_material.0 (iff.0 e)), (λ e. iff.1 (none_material.1 e)))
