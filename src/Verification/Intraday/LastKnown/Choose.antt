-- ===== src/Verification/Intraday/LastKnown/Choose.antt =====
-- src/services/verification/verification/intraday_policy.py: the tests of `evaluate_last_known`, and
-- `evaluate`.
use Prim.Native.String.{String}
use stock_prediction.Base.{
  ℕ, ◌+◌, ◌*◌, Bool, true, false, not, ◌&&◌, ◌||◌, Option, none, some, List, [], ◌∷◌, refl, map,
  any, length, ltb, if◌then◌else◌,
}
use stock_prediction.Number.{Number}
use stock_prediction.Schema.{Direction}
use stock_prediction.Verification.Sampled.{second, SessionWindow, later_of}
use stock_prediction.Verification.Intraday.{
  Provenance, Bar, IntradayPolicy, pending, unscorable, IntradayResult, failure_or, no_failure,
  same_stamps, pending_status, blank,
}
use stock_prediction.Verification.Intraday.Evaluate.{evaluate_bars}
use stock_prediction.Verification.Intraday.Evaluate.Coherent.{
  Coherent, if-Coherent, reached_of-settled, evaluate_bars-Coherent,
}
use stock_prediction.Verification.Intraday.LastKnown.{
  Observation, sort, common, is_mixed, is_tagged, unique_from, revised, expected_slots, settle,
}

module _ (D : Type 0) where
  unscorable-Coherent :
      (represented observed : ℕ) (reason : String)
      → Coherent {D = D} (common represented observed unscorable (some reason))
  unfolding Coherent common blank
  unscorable-Coherent represented observed reason = (refl, refl, refl, refl)

  none-Coherent :
      (is_final : Bool) (text : String) (represented : ℕ)
      → Coherent {D = D} (
          common represented 0
            (pending_status is_final unscorable)
            (if is_final then some text else none))
  unfolding Coherent common blank pending_status
  none-Coherent true text represented = (refl, refl, refl, refl)
  none-Coherent false text represented = (refl, refl)

  blank-Coherent : (reason : String) → Coherent {D = D} (blank unscorable (some reason) 0)
  unfolding Coherent blank
  blank-Coherent reason = (refl, refl, refl, refl)

module _ {D : Type 0} ⦃n : Number D⦄ where
  -- From the observations, in order.
  pub judge :
      ℕ
      → SessionWindow
      → Direction
      → IntradayPolicy D
      → Bool
      → Option (IntradayResult D)
      → Option String
      → ℕ
      → List (Observation D)
      → IntradayResult D
  unfolding settle revised expected_slots common
  judge start window direction policy is_final previous failure represented [] =
      common represented 0 (pending_status is_final unscorable)
        (if is_final then some (failure_or failure "NO_BASELINE") else none)
  judge start window direction policy is_final previous failure represented (o ∷ rest) =
      let count = length (o ∷ rest) in
      let expected = expected_slots window.closes_at o in
      let complete =
        same_stamps (map (λ p. p.0.scheduled_at) (o ∷ rest)) expected && no_failure failure in
      if ltb (start + (o.0.interval_seconds + 120) * second) o.0.observed_at
      then common represented count unscorable (some "BASELINE_TOO_LATE")
      else if ltb window.closes_at (o.0.observed_at + policy.min_minutes * 60 * second)
      then common represented count unscorable (some "INSUFFICIENT_WINDOW")
      else if revised previous o
      then common represented count unscorable (some "BASELINE_REVISED")
      else if is_mixed o rest
      then common represented count unscorable (some "MIXED_SAMPLE_IDENTITY")
      else settle (common represented count pending none) start direction policy is_final failure
          (length expected) complete o rest

  -- From the bars of distinct samples, unless two of one sample conflict.
  pub judge_unique :
      ℕ
      → SessionWindow
      → Direction
      → IntradayPolicy D
      → Bool
      → Option (IntradayResult D)
      → Option String
      → ℕ
      → Option (List (Observation D))
      → IntradayResult D
  unfolding judge
  judge_unique start window direction policy is_final previous failure represented none =
      blank unscorable (some "CONFLICTING_SAMPLE") 0
  judge_unique start window direction policy is_final previous failure represented (some unique) =
      judge start window direction policy is_final previous failure represented (sort unique)

  module _ (differs : Provenance → Provenance → Bool) where
    pub evaluate_last_known :
        ℕ
        → SessionWindow
        → Direction
        → IntradayPolicy D
        → List (Bar D)
        → Bool
        → Option (IntradayResult D)
        → Option String
        → IntradayResult D
    unfolding judge_unique unique_from
    evaluate_last_known decision_at window direction policy bars is_final previous failure =
        let start = later_of decision_at window.opens_at in
        judge_unique start window direction policy is_final previous failure (length bars)
          (unique_from differs start window.closes_at (some []) bars)

    unfoldable pub evaluate :
        ℕ
        → SessionWindow
        → Direction
        → IntradayPolicy D
        → List (Bar D)
        → Bool
        → Option (IntradayResult D)
        → Option String
        → IntradayResult D
    unfolding evaluate_last_known is_tagged
    evaluate decision_at window direction policy bars is_final previous failure =
        if any is_tagged bars
        then (if not policy.is_last_known || any (λ b. not (is_tagged b)) bars
            then blank unscorable (some "UNEXPECTED_PRICE_BASIS") 0
            else evaluate_last_known decision_at window direction policy bars is_final previous
                failure)
        else evaluate_bars decision_at window direction policy bars is_final previous failure

  settle-Coherent :
      (base : IntradayResult D) (start : ℕ) (direction : Direction) (policy : IntradayPolicy D)
      (is_final : Bool) (failure : Option String) (expected : ℕ) (complete : Bool)
      (o : Observation D) (rest : List (Observation D))
      → Coherent (settle base start direction policy is_final failure expected complete o rest)
  unfolding Coherent settle
  settle-Coherent base start direction policy true failure expected true o rest =
      (reached_of-settled direction _ _, refl, refl, refl, refl, refl)
  settle-Coherent base start direction policy true failure expected false o rest =
      (refl, refl, refl, refl)
  settle-Coherent base start direction policy false failure expected complete o rest = (refl, refl)

  judge-Coherent :
      (start : ℕ) (window : SessionWindow) (direction : Direction) (policy : IntradayPolicy D)
      (is_final : Bool) (previous : Option (IntradayResult D)) (failure : Option String)
      (represented : ℕ) (os : List (Observation D))
      → Coherent (judge start window direction policy is_final previous failure represented os)
  unfolding judge
  judge-Coherent start window direction policy is_final previous failure represented [] =
      none-Coherent D is_final (failure_or failure "NO_BASELINE") represented
  judge-Coherent start window direction policy is_final previous failure represented (o ∷ rest) =
      let count = length (o ∷ rest) in
      let expected = expected_slots window.closes_at o in
      let complete =
        same_stamps (map (λ p. p.0.scheduled_at) (o ∷ rest)) expected && no_failure failure in
      let bad = unscorable-Coherent D represented count in
      if-Coherent (ltb (start + (o.0.interval_seconds + 120) * second) o.0.observed_at) _ _
        (bad "BASELINE_TOO_LATE")
        (if-Coherent (ltb window.closes_at (o.0.observed_at + policy.min_minutes * 60 * second)) _ _
          (bad "INSUFFICIENT_WINDOW")
          (if-Coherent (revised previous o) _ _ (bad "BASELINE_REVISED") (
            if-Coherent (is_mixed o rest) _ _ (bad "MIXED_SAMPLE_IDENTITY") (
              settle-Coherent (common represented count pending none) start direction policy
                is_final failure (length expected) complete o rest))))

  judge_unique-Coherent :
      (start : ℕ) (window : SessionWindow) (direction : Direction) (policy : IntradayPolicy D)
      (is_final : Bool) (previous : Option (IntradayResult D)) (failure : Option String)
      (represented : ℕ) (unique : Option (List (Observation D)))
      → Coherent
          (judge_unique start window direction policy is_final previous failure represented unique)
  unfolding judge_unique
  judge_unique-Coherent start window direction policy is_final previous failure represented none =
      blank-Coherent D "CONFLICTING_SAMPLE"
  judge_unique-Coherent start window direction policy is_final previous failure represented
        (some unique) =
      judge-Coherent start window direction policy is_final previous failure represented
        (sort unique)

  -- Every result is scored, pending or unscorable, on minute bars and on bars of samples. A scored one
  -- is complete, has a baseline, a verdict on the target and on the close, and the closing return, and
  -- no reason. An unscorable one is not complete, has a reason, and nothing of the close; a pending one
  -- has nothing of the close.
  pub evaluate-Coherent :
      (differs : Provenance → Provenance → Bool) (decision_at : ℕ) (window : SessionWindow)
      (direction : Direction) (policy : IntradayPolicy D) (bars : List (Bar D)) (is_final : Bool)
      (previous : Option (IntradayResult D)) (failure : Option String)
      → Coherent
          (evaluate differs decision_at window direction policy bars is_final previous failure)
  unfolding evaluate evaluate_last_known
  evaluate-Coherent differs decision_at window direction policy bars is_final previous failure =
      let start = later_of decision_at window.opens_at in
      if-Coherent (any is_tagged bars) _ _
        (if-Coherent (not policy.is_last_known || any (λ b. not (is_tagged b)) bars) _ _
          (blank-Coherent D "UNEXPECTED_PRICE_BASIS")
          (judge_unique-Coherent start window direction policy is_final previous failure
            (length bars) (unique_from differs start window.closes_at (some []) bars)))
        (evaluate_bars-Coherent decision_at window direction policy bars is_final previous failure)
