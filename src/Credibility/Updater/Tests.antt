-- ===== src/Credibility/Updater/Tests.antt =====
-- The theorems on credits, counts and weights at concrete numbers.
use Prim.Native.String.{String}
use stock_prediction.Base.{Bool, true, false, none, some, List, [], ◌∷◌, ◌≡◌, refl}
use stock_prediction.Base.Int.{ℤ, pos, div_scaled, ◌+ℤ◌}
use stock_prediction.Number.{one, ◌≼◌}
use stock_prediction.Number.Fixed.{fixed, fixed-IsOrdered, fixed-IsSteady, fixed-IsPositive}
use stock_prediction.Schema.{up, ContributingEdge}
use stock_prediction.Credibility.Updater.{
  get, compute_proportional_credits, compute_source_credits, apply_bernoulli, apply_weight_delta,
}
use stock_prediction.Credibility.Updater.Shares.{
  IsShare, share_of, credit_or, last_edge, get-compute_proportional_credits,
  compute_proportional_credits-IsShare, get-compute_source_credits,
}
use stock_prediction.Credibility.Updater.Moves.{apply_weight_delta_lem}
use stock_prediction.Credibility.Updater.Counts.{
  IsObserved, observe_all, add_all, apply_bernoulli_lem,
}

abbrev edge : String → ℤ → ContributingEdge ℤ
edge id influence = record {
  edge_id = id;
  direction = up;
  current_weight = one;
  influence_weight = influence;
}

abbrev edges : List (ContributingEdge ℤ)
edges = edge "a" (pos 300_000) ∷ edge "b" (pos 100_000) ∷ []

share_of_b : get "b" (compute_proportional_credits edges) ≡ some (pos 250_000)
unfolding compute_proportional_credits get div_scaled ◌+ℤ◌
share_of_b = refl

compute_proportional_credits-IsShare_example : IsShare (pos 250_000)
compute_proportional_credits-IsShare_example =
    compute_proportional_credits-IsShare fixed-IsOrdered fixed-IsSteady fixed-IsPositive edges "b"
      (refl, (refl, tt)) share_of_b

get-compute_proportional_credits_example :
    get "a" (compute_proportional_credits edges)
    ≡ credit_or (share_of edges) none (last_edge "a" edges)
get-compute_proportional_credits_example = get-compute_proportional_credits "a" edges

get-compute_source_credits_example :
    get "reuters" (compute_source_credits (λ s. s) ("reuters" ∷ "afp" ∷ []))
    ≡ some (fixed.div one (fixed.of_ℕ 2))
get-compute_source_credits_example =
    get-compute_source_credits (λ s. s) "reuters" ("reuters" ∷ "afp" ∷ [])

-- A weight near the ceiling, raised by a hit.
apply_weight_delta_lem_example :
    let w =
      apply_weight_delta
        (pos 990_000)
        (pos 1_000_000)
        true
        (pos 20_000)
        (pos 50_000)
        (pos 1_000_000) in
    ((pos 50_000 ≼ w) × (w ≼ pos 1_000_000) × (pos 990_000 ≼ w))
apply_weight_delta_lem_example =
    apply_weight_delta_lem fixed-IsOrdered fixed-IsSteady fixed-IsPositive (pos 990_000)
      (pos 1_000_000) true (pos 20_000) (pos 50_000) (pos 1_000_000) refl refl refl refl

-- A first count that is seeded below the floor, and two more observations.
abbrev later : List (ℤ × Bool)
later = (pos 500_000, true) ∷ (pos 250_000, false) ∷ []

apply_bernoulli_lem_example :
    let after = apply_bernoulli (pos 400_000) (pos 1_000_000) (pos 500_000) true (pos 1_000_000) in
    IsObserved (pos 1_000_000) (pos 500_000) true (pos 400_000, pos 1_000_000) after
    × (observe_all (pos 1_000_000) later after ≡ add_all later after)
apply_bernoulli_lem_example =
    apply_bernoulli_lem fixed-IsOrdered fixed-IsSteady (pos 400_000) (pos 1_000_000) (pos 500_000)
      true (pos 1_000_000) later (refl, (refl, tt))
