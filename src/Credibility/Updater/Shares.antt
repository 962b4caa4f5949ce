-- ===== src/Credibility/Updater/Shares.antt =====
-- The credit that each edge and each source of a prediction is given.
use Prim.Native.String.{String}
use text.Mathlib.Text.{◌==◌ as str_eq}
use text.Mathlib.TextEquality.{eq_iff}
use stock_prediction.Base.{
  ℕ, ◌<◌, ◌≡◌, refl, sym, ◌∙◌, Bool, false, ◌||◌, Option, none, some, List, [], ◌∷◌, map, length,
  arith, if◌then◌else◌, All, Bool-cases, inl, inr,
}
use stock_prediction.Number.{Number, ◌≼◌, ◌≺◌, nought, one, sum_from}
use stock_prediction.Number.Laws.{IsOrdered, IsSteady, IsPositive}
use stock_prediction.Number.Order.{lt_of_lt_of_le, le_of_lt, lt_of_not_le}
use stock_prediction.Schema.{ContributingEdge}
use stock_prediction.Credibility.Updater.{
  Dict, get, assign, credits_from, total_influence, compute_proportional_credits,
  source_credits_from, compute_source_credits,
}

pub get-assign {ℓ} :
    {V : Type ℓ} (k j : String) (v : V) (d : Dict V)
    → get j (assign k v d) ≡ (if str_eq k j then some v else get j d)
unfolding get assign
get-assign k j v [] = refl
get-assign k j v ((i, w) ∷ d) =
    ground (arith, eq_iff k j, eq_iff i k, eq_iff i j, get-assign k j v d)

-- Some source normalises to the key.
abbrev pub mentions : (String → String) → String → List String → Bool
mentions normalise k [] = false
mentions normalise k (s ∷ rest) = str_eq (normalise s) k || mentions normalise k rest

module _ {R : Type 0} ⦃n : Number R⦄ where
  get-source_credits_from :
      (normalise : String → String) (credit : R) (k : String) (sources : List String) (d : Dict R)
      → get k (source_credits_from credit d (map normalise sources))
        ≡ (if mentions normalise k sources then some credit else get k d)
  unfolding source_credits_from
  get-source_credits_from normalise credit k [] d = refl
  get-source_credits_from normalise credit k (s ∷ rest) d = ground (
    arith,
    get-source_credits_from normalise credit k rest (assign (normalise s) credit d),
    get-assign (normalise s) k credit d,
  )

  -- Exactly the normalised sources of a message are credited, each with one over the number of
  -- sources in the message, however often it is named.
  pub get-compute_source_credits :
      (normalise : String → String) (k : String) (sources : List String)
      → get k (compute_source_credits normalise sources) ≡ (
          if mentions normalise k sources then some (n.div one (n.of_ℕ (length sources))) else none)
  unfolding compute_source_credits get
  get-compute_source_credits normalise k [] = refl
  get-compute_source_credits normalise k (s ∷ rest) =
      get-source_credits_from normalise _ k (s ∷ rest) []

  -- The last of the edges with the id, if there is one.
  abbrev pub last_edge : String → List (ContributingEdge R) → Option (ContributingEdge R)
  last_edge k [] = none
  last_edge k (e ∷ es) = elim (last_edge k es) [
    | some x ↦ some x
    | none ↦ if str_eq e.edge_id k then some e else none
  ]

  abbrev pub credit_or :
      (ContributingEdge R → R) → Option R → Option (ContributingEdge R) → Option R
  credit_or share d none = d
  credit_or share d (some e) = some (share e)

  get-credits_from :
      (share : ContributingEdge R → R) (k : String) (edges : List (ContributingEdge R)) (d : Dict R)
      → get k (credits_from share d edges) ≡ credit_or share (get k d) (last_edge k edges)
  unfolding credits_from
  get-credits_from share k [] d = refl
  get-credits_from share k (e ∷ es) d = ground (
    arith,
    get-credits_from share k es (assign e.edge_id (share e) d),
    get-assign e.edge_id k (share e) d,
  )

  -- The share of an edge: of the total influence, or one over the number of edges if that total is
  -- not positive.
  abbrev pub share_of : List (ContributingEdge R) → ContributingEdge R → R
  share_of edges =
      if n.le (total_influence edges) nought
      then (λ e. n.div one (n.of_ℕ (length edges)))
      else (λ e. n.div e.influence_weight (total_influence edges))

  -- Exactly the edges of a message are credited; an id is given the share of its last edge.
  pub get-compute_proportional_credits :
      (k : String) (edges : List (ContributingEdge R))
      → get k (compute_proportional_credits edges)
        ≡ credit_or (share_of edges) none (last_edge k edges)
  unfolding compute_proportional_credits get
  get-compute_proportional_credits k [] = refl
  get-compute_proportional_credits k (e ∷ es) =
      elim (Bool-cases (n.le (total_influence (e ∷ es)) nought)) [
        | inl t ↦ rw t (get-credits_from (λ _. n.div one (n.of_ℕ (length (e ∷ es)))) k (e ∷ es) [])
        | inr t ↦ rw t (
            get-credits_from (λ x. n.div x.influence_weight (total_influence (e ∷ es))) k (e ∷ es)
              [])
      ]

  abbrev pub IsShare : R → Type 0
  IsShare c = (nought ≼ c) × (c ≼ one)

  abbrev pub NonnegInfluence : ContributingEdge R → Type 0
  NonnegInfluence e = nought ≼ e.influence_weight

  module _ (order : IsOrdered R) (steady : IsSteady R) (positive : IsPositive R) where
    -- Each influence is at most the sum, which grows from its start.
    sum_from_grows :
        (acc : R) (edges : List (ContributingEdge R))
        → All NonnegInfluence edges
        → acc ≼ sum_from acc (map (λ e. e.influence_weight) edges)
    sum_from_grows acc [] h = order.le_refl acc
    sum_from_grows acc (e ∷ es) (p, ps) =
        order.le_trans _ _ _ (steady.le-add acc e.influence_weight p)
          (sum_from_grows (n.add acc e.influence_weight) es ps)

    influence_le :
        (acc : R) (edges : List (ContributingEdge R))
        → nought ≼ acc
        → All NonnegInfluence edges
        → All (λ e. e.influence_weight ≼ sum_from acc (map (λ x. x.influence_weight) edges)) edges
    influence_le acc [] h p = tt
    influence_le acc (e ∷ es) h (p, ps) = (
      order.le_trans _ _ _ (steady.le-add_left acc e.influence_weight h)
          (sum_from_grows (n.add acc e.influence_weight) es ps),
      influence_le (n.add acc e.influence_weight) es
          (order.le_trans _ _ _ h (steady.le-add acc e.influence_weight p)) ps,
    )

    credits_from-IsShare :
        (share : ContributingEdge R → R) (edges : List (ContributingEdge R))
        → All (λ e. IsShare (share e)) edges
        → (k : String) {c : R} → credit_or share none (last_edge k edges) ≡ some c
        → IsShare c
    credits_from-IsShare share [] h k e = cc
    credits_from-IsShare share (x ∷ xs) (p, ps) k {c = c} e =
        ground (arith, credits_from-IsShare share xs ps k {c = c})

    equal-IsShare : (k : ℕ) → 0 < k → IsShare (n.div one (n.of_ℕ k))
    equal-IsShare k h =
        let pos : nought ≺ n.of_ℕ k =
          lt_of_lt_of_le order _ _ _ positive.one_pos (positive.one_le k h) in
        (
          positive.div_nonneg _ _ (le_of_lt order _ _ positive.one_pos) pos,
          positive.div-le-one _ _ (positive.one_le k h) pos,
        )

    proportional-IsShare :
        (total : R) (edges : List (ContributingEdge R))
        → nought ≺ total
        → All NonnegInfluence edges
        → All (λ e. e.influence_weight ≼ total) edges
        → All (λ e. IsShare (n.div e.influence_weight total)) edges
    proportional-IsShare total [] h p q = tt
    proportional-IsShare total (e ∷ es) h (p, ps) (q, qs) = (
      (positive.div_nonneg _ _ p h, positive.div-le-one _ _ q h),
      proportional-IsShare total es h ps qs,
    )

    All-const : {P : Type 0} (edges : List (ContributingEdge R)) → P → All (λ e. P) edges
    All-const [] p = tt
    All-const (e ∷ es) p = (p, All-const es p)

    share_of-IsShare :
        (edges : List (ContributingEdge R))
        → 0 < length edges
        → All NonnegInfluence edges
        → All (λ e. IsShare (share_of edges e)) edges
    unfolding total_influence
    share_of-IsShare edges h p = elim (Bool-cases (n.le (total_influence edges) nought)) [
      | inl t ↦ rw t (All-const edges (equal-IsShare (length edges) h))
      | inr t ↦ rw t (
          proportional-IsShare (total_influence edges) edges (lt_of_not_le order _ _ t) p
            (influence_le nought edges (order.le_refl nought) p))
    ]

    -- If no influence weight is negative, every credit that an edge is given lies between zero and
    -- one.
    pub compute_proportional_credits-IsShare :
        (edges : List (ContributingEdge R)) (k : String) {c : R}
        → All NonnegInfluence edges
        → get k (compute_proportional_credits edges) ≡ some c
        → IsShare c
    compute_proportional_credits-IsShare [] k p h = cc (get-compute_proportional_credits k [])
    compute_proportional_credits-IsShare (e ∷ es) k p h =
        credits_from-IsShare (share_of (e ∷ es)) (e ∷ es)
          (share_of-IsShare (e ∷ es) (omega arith) p) k
          (sym (get-compute_proportional_credits k (e ∷ es)) ∙ h)
