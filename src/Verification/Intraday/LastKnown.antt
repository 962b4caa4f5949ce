-- ===== src/Verification/Intraday/LastKnown.antt =====
-- src/services/verification/verification/intraday_policy.py: `evaluate_last_known`, for bars that carry
-- samples, and `evaluate`, which chooses. `!=` on two samples is the argument `differs`.
pub mod Choose
mod Tests
use Prim.Native.String.{String}
use text.Mathlib.Text.{◌==◌ as str_eq}
use stock_prediction.Base.{
  ℕ, ◌+◌, ◌-◌, ◌*◌, ◌/◌, ◌%◌, Bool, true, false, not, ◌&&◌, ◌||◌, Option, none, some, List, [], ◌∷◌,
  map, any, length, find_first, ltb, leb, ◌==◌, if◌then◌else◌,
}
use stock_prediction.Number.{Number, one, lt, min_of, max_of, num_eq}
use stock_prediction.Schema.{Direction, up, down, neutral, same_direction}
use stock_prediction.Verification.Sampled.{second, SessionWindow, later_of, slots}
use stock_prediction.Verification.Intraday.{
  minute, Provenance, Bar, IntradayPolicy, IntradayStatus, pending, scored, unscorable,
  IntradayResult, failure_or, no_failure, count_distinct, same_stamps, pending_status, reached_of,
  blank, return_over, closing_direction,
}
use stock_prediction.Verification.Intraday.Evaluate.{evaluate_bars}

-- A bar with its sample.
abbrev pub Observation : Type 0 → Type 0
Observation D = Provenance × Bar D

module _ {D : Type 0} where
  pub find_sample : String → List (Observation D) → Option (Observation D)
  find_sample k [] = none
  find_sample k (o ∷ os) =
      let rest = find_sample k os in if str_eq o.0.sample_id k then some o else rest

  -- `unique[sample_id] = bar`; an id that is there keeps its place.
  pub put_sample : Observation D → List (Observation D) → List (Observation D)
  put_sample o [] = o ∷ []
  put_sample o (p ∷ ps) =
      let rest = put_sample o ps in if str_eq p.0.sample_id o.0.sample_id then o ∷ ps else p ∷ rest

  pub insert : Observation D → List (Observation D) → List (Observation D)
  insert o [] = o ∷ []
  insert o (p ∷ ps) =
      let rest = insert o ps in if ltb p.0.observed_at o.0.observed_at then p ∷ rest else o ∷ p ∷ ps

  -- `sorted` by the observation.
  pub sort : List (Observation D) → List (Observation D)
  unfolding insert
  sort [] = []
  sort (o ∷ os) = insert o (sort os)

  pub last_observation : Observation D → List (Observation D) → Observation D
  last_observation o [] = o
  last_observation o (p ∷ ps) = last_observation p ps

  -- A result with the fields that are common to all observations.
  pub common : ℕ → ℕ → IntradayStatus → Option String → IntradayResult D
  common represented observed status reason = record (blank status reason 0) {
    is_last_known = true;
    represented_minutes = represented;
    observed_samples = observed;
    observed_bars = observed;
  }

  pub is_mixed : Observation D → List (Observation D) → Bool
  is_mixed o os =
      any
        (λ p. not (
          str_eq p.0.mapping_version o.0.mapping_version
          && str_eq p.0.currency o.0.currency
          && (p.0.interval_seconds == o.0.interval_seconds)))
        os
      || not (count_distinct (map (λ p. p.0.scheduled_at) (o ∷ os)) == length (o ∷ os))

  pub is_tagged : Bar D → Bool
  is_tagged b = elim b.sample [ none ↦ false | some s ↦ true ]

module _ {D : Type 0} ⦃n : Number D⦄ where
  module _ (differs : Provenance → Provenance → Bool) where
    pub clashes : Observation D → Option (Observation D) → Bool
    clashes o none = false
    clashes o (some p) = not (num_eq p.1.close o.1.close) || differs p.0 o.0

    -- One bar of the loop; none at a conflict.
    pub put_bar :
        ℕ → ℕ → Bar D → Option Provenance → List (Observation D) → Option (List (Observation D))
    unfolding clashes find_sample put_sample
    put_bar start closes b none unique = some unique
    put_bar start closes b (some s) unique =
        if leb start s.observed_at && ltb s.observed_at closes
        then (if clashes (s, b) (find_sample s.sample_id unique)
            then none
            else some (put_sample (s, b) unique))
        else some unique

    pub unique_from :
        ℕ → ℕ → Option (List (Observation D)) → List (Bar D) → Option (List (Observation D))
    unfolding put_bar
    unique_from start closes none bars = none
    unique_from start closes (some unique) [] = some unique
    unique_from start closes (some unique) (b ∷ bars) =
        unique_from start closes (put_bar start closes b b.sample unique) bars

  pub reaches : Direction → D → D → Observation D → Bool
  reaches up target price o = n.le (n.mul price (n.add one target)) o.1.close
  reaches down target price o = n.le o.1.close (n.mul price (n.sub one target))
  reaches neutral target price o = false

  pub fold_closes : (D → D → D) → D → D → List (Observation D) → D
  fold_closes pick price acc [] = acc
  fold_closes pick price acc (o ∷ os) =
      fold_closes pick price (pick acc (return_over price o.1.close)) os

  pub revised : Option (IntradayResult D) → Observation D → Bool
  revised none o = false
  revised (some p) o = p.is_last_known && elim p.baseline_at [
    | none ↦ false
    | some at ↦
        not (at == o.0.observed_at)
        || not (elim p.baseline_price [ none ↦ false | some q ↦ num_eq q o.1.close ])
  ]

  -- The scheduled instants from the first sample on.
  pub expected_slots : ℕ → Observation D → List ℕ
  expected_slots closes o =
      let interval = o.0.interval_seconds * second in
      let at = o.0.scheduled_at in slots ((closes - at) / interval + 1) at closes interval at

  -- The end of the function, from a result with the common fields.
  pub settle :
      IntradayResult D
      → ℕ
      → Direction
      → IntradayPolicy D
      → Bool
      → Option String
      → ℕ
      → Bool
      → Observation D
      → List (Observation D)
      → IntradayResult D
  unfolding reaches fold_closes
  settle base start direction policy is_final failure expected complete o rest =
      let price = o.1.close in
      let first = return_over price price in
      let rise = fold_closes max_of price first rest in
      let fall = fold_closes min_of price first rest in
      let hit = find_first (reaches direction policy.target_return price) (o ∷ rest) in
      let breached = lt policy.neutral_band rise || lt fall (n.neg policy.neutral_band) in
      let settled = is_final && complete in
      let closing = return_over price (last_observation o rest).1.close in
      record base {
        status = if is_final then (if complete then scored else unscorable) else pending;
        reason =
            if is_final && not complete then some (failure_or failure "MISSING_SAMPLES") else none;
        baseline_at = some o.0.observed_at;
        baseline_price = some price;
        baseline_delay = some (o.0.observed_at - start);
        target_reached =
            reached_of direction (elim hit [ none ↦ false | some x ↦ true ]) breached settled;
        first_hit_bar_at = elim hit [
          | none ↦ none
          | some x ↦ some (x.0.observed_at - x.0.observed_at % minute)
        ];
        first_hit_observed_at = elim hit [ none ↦ none | some x ↦ some x.0.observed_at ];
        closing_return = if settled then some closing else none;
        closing_correct =
            if settled
            then some (same_direction (closing_direction policy.neutral_band closing) direction)
            else none;
        max_up_return = some rise;
        max_down_return = some fall;
        expected_bars = expected;
        expected_samples = expected;
        complete = complete;
      }
