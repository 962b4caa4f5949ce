-- ===== src/Verification/Intraday/Evaluate/Coherent.antt =====
-- src/services/verification/verification/intraday_policy.py: which fields of a result go together.
use Prim.Native.String.{String}
use stock_prediction.Base.{
  ℕ, ◌+◌, ◌*◌, ◌-◌, ◌/◌, ◌&&◌, Bool, true, false, not, ◌||◌, Option, none, some, List, [], ◌∷◌, ◌≡◌,
  refl, arith, map, filter_by, ltb, leb, if◌then◌else◌,
}
use stock_prediction.Number.{Number}
use stock_prediction.Schema.{Direction, up, down, neutral}
use stock_prediction.Verification.Sampled.{second, SessionWindow, later_of}
use stock_prediction.Verification.Intraday.{
  minute, Bar, IntradayPolicy, IntradayStatus, pending, scored, unscorable, withdrawn,
  IntradayResult, first_minute_of, failure_or, no_failure, minutes_from, same_stamps,
  pending_status, reached_of, sort, blank, revised, revised_result,
}
use stock_prediction.Verification.Intraday.Evaluate.{report, judge, is_short, evaluate_bars}

abbrev pub present {ℓ} : {A : Type ℓ} → Option A → Bool
present none = false
present (some a) = true

pub reached_of-settled :
    (direction : Direction) (hit breached : Bool)
    → present (reached_of direction hit breached true) ≡ true
unfolding reached_of
reached_of-settled up hit breached = ground arith
reached_of-settled down hit breached = ground arith
reached_of-settled neutral hit breached = ground arith

module _ {D : Type 0} where
  abbrev By : IntradayStatus → IntradayResult D → Type 0
  By scored r =
      (present r.target_reached ≡ true)
      × (present r.closing_return ≡ true)
      × (present r.closing_correct ≡ true)
      × (present r.baseline_price ≡ true)
      × (present r.reason ≡ false)
      × (r.complete ≡ true)
  By unscorable r =
      (present r.closing_return ≡ false)
      × (present r.closing_correct ≡ false)
      × (present r.reason ≡ true)
      × (r.complete ≡ false)
  By pending r = (present r.closing_return ≡ false) × (present r.closing_correct ≡ false)
  By withdrawn r = ⊥

  -- What the status of a result says of its other fields.
  unfoldable pub Coherent : IntradayResult D → Type 0
  Coherent r = By r.status r

  pub if-Coherent :
      (t : Bool) (r q : IntradayResult D) → Coherent r → Coherent q → Coherent (if t then r else q)
  if-Coherent true r q hr hq = hr
  if-Coherent false r q hr hq = hq

  revised_result-Coherent :
      (previous : Option (IntradayResult D)) → Coherent (revised_result previous)
  unfolding Coherent revised_result
  revised_result-Coherent none = (refl, refl, refl, refl)
  revised_result-Coherent (some p) = (refl, refl, refl, refl)

module _ (D : Type 0) where
  blank-Coherent :
      (is_final : Bool) (reason : Option String) (k : ℕ)
      → (present reason || not is_final) ≡ true
      → Coherent {D = D} (blank (pending_status is_final unscorable) reason k)
  unfolding Coherent blank pending_status
  blank-Coherent true (some reason) k h = (refl, refl, refl, refl)
  blank-Coherent true none k h = absurd (ground arith)
  blank-Coherent false reason k h = (refl, refl)

  unscorable-Coherent :
      (reason : String) (k : ℕ) → Coherent {D = D} (blank unscorable (some reason) k)
  unfolding Coherent blank
  unscorable-Coherent reason k = (refl, refl, refl, refl)

  none-Coherent :
      (is_final : Bool) (text : String) (k : ℕ)
      → Coherent {D = D}
          (blank (pending_status is_final unscorable) (if is_final then some text else none) k)
  none-Coherent true text k = blank-Coherent true (some text) k refl
  none-Coherent false text k = blank-Coherent false none k refl

module _ {D : Type 0} ⦃n : Number D⦄ where
  report-Coherent :
      (start : ℕ) (direction : Direction) (policy : IntradayPolicy D) (is_final : Bool)
      (failure : Option String) (expected : ℕ) (complete : Bool) (b : Bar D) (rest : List (Bar D))
      → Coherent (report start direction policy is_final failure expected complete b rest)
  unfolding Coherent report
  report-Coherent start direction policy true failure expected true b rest =
      (reached_of-settled direction _ _, refl, refl, refl, refl, refl)
  report-Coherent start direction policy true failure expected false b rest =
      (refl, refl, refl, refl)
  report-Coherent start direction policy false failure expected complete b rest = (refl, refl)

  judge-Coherent :
      (start first : ℕ) (direction : Direction) (policy : IntradayPolicy D) (is_final : Bool)
      (previous : Option (IntradayResult D)) (failure : Option String) (expected : ℕ)
      (bars : List (Bar D))
      → Coherent (judge start first direction policy is_final previous failure expected bars)
  unfolding judge
  judge-Coherent start first direction policy is_final previous failure expected [] =
      none-Coherent D is_final (failure_or failure "NO_BASELINE") expected
  judge-Coherent start first direction policy is_final previous failure expected (b ∷ rest) =
      let complete =
        same_stamps (map (λ x. x.start) (b ∷ rest)) (minutes_from first expected)
        && no_failure failure in
      if-Coherent (ltb (start + policy.max_baseline_delay_seconds * second) b.start) _ _
        (blank-Coherent D is_final (some "BASELINE_TOO_LATE") 0 refl)
        (if-Coherent (revised previous b) _ _ (revised_result-Coherent previous)
          (report-Coherent start direction policy is_final failure expected complete b rest))

  -- Every result is scored, pending or unscorable. A scored one is complete, has a baseline, a verdict
  -- on the target and on the close, and the closing return, and no reason. An unscorable one is not
  -- complete, has a reason, and nothing of the close; a pending one has nothing of the close.
  pub evaluate_bars-Coherent :
      (decision_at : ℕ) (window : SessionWindow) (direction : Direction) (policy : IntradayPolicy D)
      (bars : List (Bar D)) (is_final : Bool) (previous : Option (IntradayResult D))
      (failure : Option String)
      → Coherent (evaluate_bars decision_at window direction policy bars is_final previous failure)
  unfolding evaluate_bars
  evaluate_bars-Coherent decision_at window direction policy bars is_final previous failure =
      let start = later_of decision_at window.opens_at in
      let first = first_minute_of start in
      let eligible =
        sort (filter_by (λ b. leb first b.start && leb (b.start + minute) window.closes_at) bars) in
      if-Coherent (is_short first window.closes_at policy.min_minutes) _ _
        (unscorable-Coherent D "INSUFFICIENT_WINDOW" 0)
        (judge-Coherent start first direction policy is_final previous failure
          ((window.closes_at - first) / minute) eligible)
