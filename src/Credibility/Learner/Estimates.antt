-- ===== src/Credibility/Learner/Estimates.antt =====
-- src/services/credibility/credibility/learning/estimator.py: the estimate that the samples of a group give.
use mathlib.Core.Path.{subst}
use stock_prediction.Base.{
  ℕ, ◌≤◌, ◌<◌, ◌-◌, Bool, true, false, not, ◌&&◌, ◌||◌, List, [], ◌∷◌, ◌≡◌, refl, sym, ap, arith,
  any, length, ltb, leb, filter_by, Bool-cases, inl, inr,
}
use stock_prediction.Number.{Number, nought, one, ◌≼◌, ◌≺◌, abs, lt, min_of, sum}
use stock_prediction.Number.Laws.{IsOrdered, IsSteady, IsPositive}
use stock_prediction.Number.Order.{min_of-le_left, le-min_of, le_of_lt, lt_of_lt_of_le}
use stock_prediction.Schema.{Direction, up, down, neutral}
use stock_prediction.Credibility.Learner.{
  GroupKey, EdgeEstimate, count_if, effective_min, weight_return_scale, tendency, estimate_of,
  estimate_group,
}

-- Whether a group has enough samples: `k` of them, or `j` where one of them is abnormal.
pub is_enough : {S : Type 0} → (S → Bool) → ℕ → ℕ → List S → Bool
is_enough is_abnormal k j own = leb k (length own) || (any is_abnormal own && leb j (length own))

pub few-is_enough :
    {S : Type 0} (is_abnormal : S → Bool) (k j : ℕ) (own : List S)
    → ltb (length own) (effective_min (any is_abnormal own) k j)
      ≡ not (is_enough is_abnormal k j own)
unfolding effective_min is_enough
few-is_enough is_abnormal k j own = ground arith

pub is_enough-positive :
    {S : Type 0} (is_abnormal : S → Bool) (k j : ℕ) (own : List S)
    → 0 < k
    → 0 < j
    → is_enough is_abnormal k j own ≡ true
    → 0 < length own
unfolding is_enough
is_enough-positive is_abnormal k j own hk hj h = ground arith

module _ {R : Type 0} ⦃n : Number R⦄ where
  -- A return has the sign of a direction.
  pub agrees : Direction → R → Bool
  agrees up r = lt nought r
  agrees down r = lt r nought
  agrees neutral r = false

  pub agreeing : Direction → List R → ℕ
  agreeing direction returns = length (filter_by (agrees direction) returns)

  pub mean_of : List R → R
  mean_of returns = n.div (sum returns) (n.of_ℕ (length returns))

  -- The direction that a mean has beyond the deadband.
  pub IsTrend : R → R → Direction → Type 0
  IsTrend deadband mean up = deadband ≺ mean
  IsTrend deadband mean down = (mean ≼ deadband) × (mean ≺ n.neg deadband)
  IsTrend deadband mean neutral = (mean ≼ deadband) × (n.neg deadband ≼ mean)

  -- The estimate that returns in the orientation of an occurrence give.
  pub record IsEstimateOf (deadband : R) (returns : List R) (e : EdgeEstimate R) : Type 0 where
    pub trend : IsTrend deadband (mean_of returns) e.direction
    pub weight : e.weight ≡ min_of one (n.div (abs (mean_of returns)) weight_return_scale)
    pub weight_bounds : (nought ≼ e.weight) × (e.weight ≼ one)
    pub sample_count : e.sample_count ≡ length returns
    pub alpha : e.alpha ≡ n.add (n.of_ℕ (agreeing e.direction returns)) one
    pub beta : e.beta ≡ n.add (n.of_ℕ (length returns - agreeing e.direction returns)) one
    pub confidence :
        e.confidence ≡ n.div (n.of_ℕ (agreeing e.direction returns)) (n.of_ℕ (length returns))
    pub confidence_bounds : (nought ≼ e.confidence) × (e.confidence ≼ one)

  count_if-filter_by : (p : R → Bool) (xs : List R) → count_if p xs ≡ length (filter_by p xs)
  count_if-filter_by p [] = refl
  count_if-filter_by p (x ∷ xs) = ground (arith, count_if-filter_by p xs)

  agreeing_le : (direction : Direction) (xs : List R) → agreeing direction xs ≤ length xs
  unfolding agreeing
  agreeing_le direction [] = omega arith
  agreeing_le direction (x ∷ xs) = ground (arith, agreeing_le direction xs)

  none_neutral : (xs : List R) → agreeing neutral xs ≡ 0
  unfolding agreeing agrees
  none_neutral [] = refl
  none_neutral (x ∷ xs) = none_neutral xs

  -- The direction with its count.
  tendency-agreeing :
      (deadband mean : R) (signed : List R)
      → (direction : Direction) × IsTrend deadband mean direction
        × (tendency deadband mean signed ≡ (direction, agreeing direction signed))
  unfolding tendency IsTrend agreeing agrees
  tendency-agreeing deadband mean signed = elim (Bool-cases (lt deadband mean)) [
    | inl above ↦
        (up, above, rw above (ap (λ c. (up, c)) (count_if-filter_by (λ r. lt nought r) signed)))
    | inr low ↦ elim (Bool-cases (lt mean (n.neg deadband))) [
      | inl below ↦ (
        down,
        (ground arith, below),
        rw low (rw below (ap (λ c. (down, c)) (count_if-filter_by (λ r. lt r nought) signed))),
      )
      | inr inside ↦ (
        neutral,
        (ground arith, ground arith),
        rw low (rw inside (ap (λ c. (neutral, c)) (sym (none_neutral signed)))),
      )
    ]
  ]

  module _ (order : IsOrdered R) (steady : IsSteady R) (positive : IsPositive R)
      (scale : ◌≺◌ {R = R} nought weight_return_scale) where
    abs_nonneg : (x : R) → nought ≼ abs x
    abs_nonneg x = ground (arith, order.le_total x nought, steady.neg_lifts x)

    pub estimate_group-IsEstimateOf :
        (key : GroupKey) (deadband : R) (signed : List R)
        → 0 < length signed
        → IsEstimateOf deadband signed (estimate_group key deadband signed)
    unfolding estimate_group estimate_of mean_of
    estimate_group-IsEstimateOf key deadband signed pos =
        let total = length signed in
        let mean = mean_of signed in
        let zero_one : ◌≼◌ {R = R} nought one = le_of_lt order _ _ positive.one_pos in
        let total_pos : nought ≺ n.of_ℕ total =
          lt_of_lt_of_le order _ _ _ positive.one_pos (positive.one_le total pos) in
        let (direction, trend, same) = tendency-agreeing deadband mean signed in
        let le = agreeing_le direction signed in
        subst (λ t. IsEstimateOf deadband signed (estimate_of key deadband total mean t)) (sym same)
          (record {
            trend = trend;
            weight = refl;
            weight_bounds = (
              le-min_of order _ _ _ zero_one (positive.div_nonneg _ _ (abs_nonneg mean) scale),
              min_of-le_left order _ _,
            );
            sample_count = refl;
            alpha = refl;
            beta = refl;
            confidence = refl;
            confidence_bounds = (
              positive.div_nonneg _ _ (positive.of_ℕ_mono 0 _ (omega arith)) total_pos,
              positive.div-le-one _ _ (positive.of_ℕ_mono _ total le) total_pos,
            );
          })
