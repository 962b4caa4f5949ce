-- ===== src/Credibility/Updater.antt =====
-- src/services/credibility/credibility/updater.py: the credit math, over any type of floats.
pub mod Shares
pub mod Moves
pub mod Counts
mod Tests
use Prim.Native.String.{String}
use text.Mathlib.Text.{◌==◌ as str_eq}
use stock_prediction.Base.{ℕ, Bool, Option, none, some, List, [], ◌∷◌, map, length, if◌then◌else◌}
use stock_prediction.Number.{Number, nought, one, min_of, max_of, sum}
use stock_prediction.Schema.{ContributingEdge}

-- A `dict` keyed by strings, in insertion order: assignment to a key that is there keeps its place.
abbrev pub Dict {ℓ} : Type ℓ → Type ℓ
Dict V = List (String × V)

module _ {ℓ} {V : Type ℓ} where
  unfoldable pub get : String → Dict V → Option V
  get k [] = none
  get k ((j, v) ∷ d) = if str_eq j k then some v else get k d

  pub assign : String → V → Dict V → Dict V
  assign k v [] = (k, v) ∷ []
  assign k v ((j, w) ∷ d) = if str_eq j k then (j, v) ∷ d else (j, w) ∷ assign k v d

module _ {R : Type 0} ⦃n : Number R⦄ where
  -- The dict comprehension over the edges, with the credit of each.
  credits_from : (ContributingEdge R → R) → Dict R → List (ContributingEdge R) → Dict R
  unfolding assign
  credits_from share d [] = d
  credits_from share d (e ∷ es) = credits_from share (assign e.edge_id (share e) d) es

  pub total_influence : List (ContributingEdge R) → R
  total_influence edges = sum (map (λ e. e.influence_weight) edges)

  unfoldable pub compute_proportional_credits : List (ContributingEdge R) → Dict R
  unfolding credits_from total_influence
  compute_proportional_credits [] = []
  compute_proportional_credits (e ∷ es) =
      let edges = e ∷ es in
      let total = total_influence edges in
      if n.le total nought
      then credits_from (λ _. n.div one (n.of_ℕ (length edges))) [] edges
      else credits_from (λ x. n.div x.influence_weight total) [] edges

  source_credits_from : R → Dict R → List String → Dict R
  unfolding assign
  source_credits_from credit d [] = d
  source_credits_from credit d (s ∷ rest) = source_credits_from credit (assign s credit d) rest

  -- `source.strip().lower()` is the argument `normalise`.
  unfoldable pub compute_source_credits : (String → String) → List String → Dict R
  unfolding source_credits_from
  compute_source_credits normalise [] = []
  compute_source_credits normalise (s ∷ rest) =
      let sources = s ∷ rest in
      source_credits_from (n.div one (n.of_ℕ (length sources))) [] (map normalise sources)

  unfoldable pub apply_bernoulli : R → R → R → Bool → R → R × R
  apply_bernoulli alpha beta credit is_correct floor =
      if is_correct
      then (max_of (n.add alpha credit) floor, max_of beta floor)
      else (max_of alpha floor, max_of (n.add beta credit) floor)

  unfoldable pub apply_weight_delta : R → R → Bool → R → R → R → R
  apply_weight_delta weight credit is_correct step floor ceiling =
      let delta = n.mul step credit in
      let moved = if is_correct then n.add weight delta else n.sub weight delta in
      min_of (max_of moved floor) ceiling
