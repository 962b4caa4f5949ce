-- ===== src/Verification/Scoring/Bands.antt =====
-- The bands of the actual return, and how the score follows the settlement close.
use mathlib.Core.Path.{subst}
use stock_prediction.Base.{
  Bool-cases, inl, inr, refl, ℕ, ◌≤◌, true, false, ◌≡◌, ◌↔◌, ◌⊎◌, arith, if◌then◌else◌,
}
use stock_prediction.Number.{Number, ◌≼◌, ◌≺◌, nought, one, num_eq, abs, lt}
use stock_prediction.Number.Laws.{IsOrdered, IsSteady, IsMonotone}
use stock_prediction.Schema.{Direction, up, down, neutral, small, same_direction}
use stock_prediction.Verification.Scoring.{
  ScoreOutcome, scored, direction_of, magnitude_of, return_of, score,
}

-- Down, neutral, up.
abbrev pub rank : Direction → ℕ
rank down = 0
rank neutral = 1
rank up = 2

module _ {F : Type 0} ⦃f : Number F⦄ where
  -- A direction holds of a return: it is at or beyond the band on its side, or inside the band.
  abbrev pub Lies : F → F → Direction → Type 0
  Lies deadband r up = (nought ≺ r) × (deadband ≼ r)
  Lies deadband r down = (r ≺ nought) × (deadband ≼ f.neg r)
  Lies deadband r neutral = (r ≺ deadband) × (f.neg r ≺ deadband)

module _ {F : Type 0} ⦃f : Number F⦄ (order : IsOrdered F) (steady : IsSteady F) where
  open order use {le_refl, le_trans, le_total}

  direction_of-Lies :
      (deadband r : F) → nought ≺ deadband → Lies deadband r (direction_of deadband r)
  unfolding direction_of
  direction_of-Lies deadband r h = ground (
    arith,
    le_total r nought,
    le_total nought r,
    steady.neg_flips r,
    steady.neg_lifts r,
    le_trans deadband r nought,
    le_trans deadband (f.neg r) nought,
  )

  -- Only one direction holds of a return.
  Lies-unique :
      (deadband r : F) (a b : Direction)
      → nought ≺ deadband
      → Lies deadband r a
      → Lies deadband r b
      → a ≡ b
  Lies-unique deadband r up up h p q = refl
  Lies-unique deadband r down down h p q = refl
  Lies-unique deadband r neutral neutral h p q = refl
  Lies-unique deadband r up down h p q = absurd (ground (arith, le_total r nought))
  Lies-unique deadband r down up h p q = absurd (ground (arith, le_total r nought))
  Lies-unique deadband r up neutral h p q = absurd (ground arith)
  Lies-unique deadband r neutral up h p q = absurd (ground arith)
  Lies-unique deadband r down neutral h p q = absurd (ground arith)
  Lies-unique deadband r neutral down h p q = absurd (ground arith)

  pub direction_of_iff :
      (deadband r : F) (a : Direction)
      → nought ≺ deadband
      → (direction_of deadband r ≡ a) ↔ Lies deadband r a
  direction_of_iff deadband r a h = (
    λ e. subst (Lies deadband r) e (direction_of-Lies deadband r h),
    λ v. Lies-unique deadband r _ _ h (direction_of-Lies deadband r h) v,
  )

  pub direction_of_mono :
      (anti : (a b : F) → a ≼ b → f.neg b ≼ f.neg a) (deadband r s : F)
      → nought ≺ deadband
      → r ≼ s
      → rank (direction_of deadband r) ≤ rank (direction_of deadband s)
  direction_of_mono anti deadband r s h le =
      ranked (direction_of deadband r) (direction_of deadband s) (direction_of-Lies deadband r h)
        (direction_of-Lies deadband s h)
    where
      ranked : (a b : Direction) → Lies deadband r a → Lies deadband s b → rank a ≤ rank b
      ranked down b p q = omega arith
      ranked neutral up p q = omega arith
      ranked neutral neutral p q = omega arith
      ranked up up p q = omega arith
      ranked neutral down p q =
          absurd (ground (arith, anti r s le, le_trans deadband (f.neg s) (f.neg r)))
      ranked up neutral p q = absurd (ground (arith, le_trans deadband r s))
      ranked up down p q = absurd (ground (arith, le_total nought r, le_trans nought r s))

  abs_nonneg : (r : F) → nought ≼ abs r
  abs_nonneg r = ground (arith, le_total nought r, steady.neg_lifts r)

  -- Without a positive deadband no return is neutral.
  direction_of-flat :
      (deadband r : F)
      → deadband ≼ nought
      → direction_of deadband r ≡ (if lt nought r then up else down)
  unfolding direction_of
  direction_of-flat deadband r h = ground (arith, abs_nonneg r, le_trans deadband nought (abs r))

  pub direction_of_mono_all :
      (anti : (a b : F) → a ≼ b → f.neg b ≼ f.neg a) (deadband r s : F)
      → r ≼ s
      → rank (direction_of deadband r) ≤ rank (direction_of deadband s)
  direction_of_mono_all anti deadband r s le = elim (Bool-cases (f.le deadband nought)) [
    | inl flat ↦ rw (direction_of-flat deadband r flat) (
        rw (direction_of-flat deadband s flat)
          (ground (arith, le, le_trans s r nought, le_trans r s nought)))
    | inr wide ↦ direction_of_mono anti deadband r s (ground (arith, wide)) le
  ]

same_direction_iff : (a b : Direction) → (same_direction a b ≡ true) ↔ (a ≡ b)
same_direction_iff up b = ground arith
same_direction_iff down b = ground arith
same_direction_iff neutral b = ground arith

module _ {D F : Type 0} ⦃d : Number D⦄ ⦃f : Number F⦄ (to_float : D → F) where
  -- The closes of a scored prediction, the baseline first.
  abbrev pub outcome_of : D → D → Direction → F → F → F → ScoreOutcome F
  outcome_of baseline settlement predicted deadband medium_min large_min =
      let r = return_of to_float baseline settlement in
      let actual = direction_of deadband r in
      record {
        actual_return = r;
        actual_direction = actual;
        actual_magnitude = magnitude_of medium_min large_min r;
        is_correct = same_direction predicted actual;
        score = if same_direction predicted actual then one else nought;
      }

  score_outcome :
      (baseline settlement : D) (predicted : Direction) (deadband medium_min large_min : F)
      → num_eq baseline nought ≡ false
      → score to_float baseline settlement predicted deadband medium_min large_min
        ≡ scored (outcome_of baseline settlement predicted deadband medium_min large_min)
  unfolding score
  score_outcome baseline settlement predicted deadband medium_min large_min h = rw h

  -- What an outcome says of the prediction.
  pub record IsVerdict (predicted : Direction) (deadband : F) (o : ScoreOutcome F) : Type 0 where
    pub lies : (a : Direction) → (o.actual_direction ≡ a) ↔ Lies deadband o.actual_return a
    pub correct : (o.is_correct ≡ true) ↔ (predicted ≡ o.actual_direction)
    pub points : o.score ≡ (if o.is_correct then one else nought)
    pub flat_small :
        (same_direction o.actual_direction neutral ≡ false) ⊎ (o.actual_magnitude ≡ small)

  module _ (order : IsOrdered F) (steady : IsSteady F) where
    neutral_small :
        (deadband medium_min large_min r : F)
        → nought ≺ deadband
        → deadband ≼ medium_min
        → (same_direction (direction_of deadband r) neutral ≡ false)
          ⊎ (magnitude_of medium_min large_min r ≡ small)
    unfolding direction_of magnitude_of
    neutral_small deadband medium_min large_min r h k =
        ground (
          arith,
          order.le_trans deadband medium_min (f.neg r),
          order.le_trans deadband medium_min r,
        )

    -- For a baseline close that is not zero and a positive deadband, at most the first magnitude
    -- threshold, `score` returns the return of
    -- the settlement over the baseline. Its direction is up exactly if that is positive and at least
    -- the deadband, down exactly if it is negative and its opposite is at least the deadband, and
    -- neutral exactly if both are below the deadband. The prediction is correct exactly if it named
    -- that direction, for one point and otherwise none. A neutral move is small.
    pub score-IsVerdict :
        (baseline settlement : D) (predicted : Direction) (deadband medium_min large_min : F)
        → num_eq baseline nought ≡ false
        → nought ≺ deadband
        → deadband ≼ medium_min
        → (o : ScoreOutcome F) × (score to_float baseline settlement predicted deadband medium_min
              large_min
            ≡ scored o)
          × (o.actual_return ≡ return_of to_float baseline settlement)
          × IsVerdict predicted deadband o
    score-IsVerdict baseline settlement predicted deadband medium_min large_min nonzero h k =
        let r = return_of to_float baseline settlement in
        (
          outcome_of baseline settlement predicted deadband medium_min large_min,
          score_outcome baseline settlement predicted deadband medium_min large_min nonzero,
          refl,
          record {
            lies = λ a. direction_of_iff order steady deadband r a h;
            correct = same_direction_iff predicted (direction_of deadband r);
            points = refl;
            flat_small = neutral_small deadband medium_min large_min r h k;
          },
        )

    -- A higher settlement close of the same positive baseline never scores a lower direction, in the
    -- order down, neutral, up.
    pub score_mono :
        (arithmetic : IsMonotone D)
        → (anti : (a b : F) → a ≼ b → f.neg b ≼ f.neg a)
        → (conversion : (a b : D) → a ≼ b → to_float a ≼ to_float b)
        → (baseline low high : D) (predicted : Direction) (deadband medium_min large_min : F)
        → {o p : ScoreOutcome F} → nought ≺ baseline
        → low ≼ high
        → score to_float baseline low predicted deadband medium_min large_min ≡ scored o
        → score to_float baseline high predicted deadband medium_min large_min ≡ scored p
        → rank o.actual_direction ≤ rank p.actual_direction
    unfolding score
    score_mono arithmetic anti conversion baseline low high predicted deadband medium_min large_min
          positive le eo ep =
        let step =
          conversion _ _ (
            arithmetic.div_mono _ _ baseline (arithmetic.sub_mono low high baseline le) positive) in
        let mono =
          direction_of_mono_all order steady anti deadband (return_of to_float baseline low)
            (return_of to_float baseline high) step in
        ground arith
