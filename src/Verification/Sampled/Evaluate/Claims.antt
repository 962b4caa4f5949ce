-- ===== src/Verification/Sampled/Evaluate/Claims.antt =====
-- src/services/verification/verification/sampled_policy.py: what the samples must show for each outcome.
use Prim.Native.String.{String}
use stock_prediction.Base.{
  ℕ, suc, ◌+◌, ◌*◌, Bool, true, false, Option, none, some, List, [], ◌∷◌, ◌≡◌, refl, arith, any,
  length, find_first, filter_by, ltb, leb, if◌then◌else◌, not, sym,
}
use mathlib.Core.Path.{subst}
use text.Mathlib.Text.{◌==◌ as str_eq}
use stock_prediction.Number.{Number, lt, abs}
use stock_prediction.Schema.{Direction, up, down, neutral}
use stock_prediction.Verification.Sampled.{
  SessionWindow, PriceSample, SamplePolicy, Status, unscorable, SampleOutcome, insufficient_window,
  no_baseline, baseline_too_late, baseline_revised, mapping_changed, band_breach_observed,
  within_band_at_samples, observed_hit, target_not_observed, SampleResult, later_of, status_of,
  empty_result, is_eligible, sort, by_slot, second,
}
use stock_prediction.Verification.Sampled.Evaluate.{
  outcome_of, is_some, return_over, reaches, report, covered, judge, expected_slots,
  evaluate_samples, revised,
}

-- What an outcome claims: whether there are two samples or more, whether one behind the baseline
-- reaches the target, whether one leaves the band, and whether the slots are covered.
pub Shows : Bool → Direction → Bool → Bool → Bool → SampleOutcome → Type 0
Shows enough direction hit breached complete observed_hit = (enough ≡ true) × (hit ≡ true)
Shows enough direction hit breached complete target_not_observed =
    (enough ≡ true) × (hit ≡ false) × (complete ≡ true)
Shows enough direction hit breached complete within_band_at_samples =
    (enough ≡ true) × (direction ≡ neutral) × (breached ≡ false) × (complete ≡ true)
Shows enough direction hit breached complete band_breach_observed =
    (enough ≡ true) × (direction ≡ neutral) × (breached ≡ true)
Shows enough direction hit breached complete _ = Unit

outcome_of-Shows :
    (enough : Bool) (direction : Direction) (hit breached complete : Bool)
    → Shows enough direction hit breached complete
        (outcome_of enough direction hit breached complete)
unfolding Shows outcome_of
outcome_of-Shows false direction hit breached complete = tt
outcome_of-Shows true neutral hit true complete = (refl, refl, refl)
outcome_of-Shows true neutral hit false true = (refl, refl, refl, refl)
outcome_of-Shows true neutral hit false false = tt
outcome_of-Shows true up true breached complete = (refl, refl)
outcome_of-Shows true up false breached true = (refl, refl, refl)
outcome_of-Shows true up false breached false = tt
outcome_of-Shows true down true breached complete = (refl, refl)
outcome_of-Shows true down false breached true = (refl, refl, refl)
outcome_of-Shows true down false breached false = tt

is_some-find_first :
    {A : Type 0} (p : A → Bool) (xs : List A) → is_some (find_first p xs) ≡ any p xs
unfolding is_some
is_some-find_first p [] = refl
is_some-find_first p (x ∷ xs) = ground (arith, is_some-find_first p xs)

-- An outcome that claims nothing.
abbrev IsSilent : SampleOutcome → Type 0
IsSilent o = (enough : Bool) (d : Direction) (h b c : Bool) → Shows enough d h b c o

module _ {D : Type 0} ⦃n : Number D⦄ where
  -- A sample behind the first reaches the target, or leaves the band.
  abbrev pub hits : Direction → SamplePolicy D → List (PriceSample D) → Bool
  hits direction policy [] = false
  hits direction policy (b ∷ ss) =
      any (λ s. reaches direction policy.target_return (return_over b.price s.price)) ss

  abbrev pub breaches : SamplePolicy D → List (PriceSample D) → Bool
  breaches policy [] = false
  breaches policy (b ∷ ss) =
      any (λ s. lt policy.neutral_band (abs (return_over b.price s.price))) ss

  abbrev Claim :
      Direction → SamplePolicy D → List (PriceSample D) → Bool → Option SampleOutcome → Type 0
  Claim direction policy samples complete none = Unit
  Claim direction policy samples complete (some o) =
      Shows (leb 2 (length samples)) direction (hits direction policy samples)
        (breaches policy samples) complete o

  -- The outcome of a result holds of the samples that it rests on.
  pub Honest : Direction → SamplePolicy D → List (PriceSample D) → SampleResult D → Type 0
  Honest direction policy samples r = Claim direction policy samples r.coverage_complete r.outcome

  report-Honest :
      (start : ℕ) (window : SessionWindow) (direction : Direction) (policy : SamplePolicy D)
      (is_final : Bool) (expected held : ℕ) (complete : Bool) (b : PriceSample D)
      (ss : List (PriceSample D))
      → Honest direction policy
          (b ∷ ss)
          (report start window direction policy is_final expected held complete b ss)
  unfolding Honest report
  report-Honest start window direction policy is_final expected held complete b ss =
      subst
        (λ h.
          Shows (leb 2 (suc (length ss))) direction (hits direction policy (b ∷ ss))
            (breaches policy (b ∷ ss)) complete
            (outcome_of (leb 2 (suc (length ss))) direction h (breaches policy (b ∷ ss)) complete))
        (sym (is_some-find_first _ ss))
        (outcome_of-Shows (leb 2 (suc (length ss))) direction (hits direction policy (b ∷ ss))
          (breaches policy (b ∷ ss)) complete)

  empty-Honest :
      (direction : Direction) (policy : SamplePolicy D) (ss : List (PriceSample D))
      (status : Status) (o : SampleOutcome) (k : ℕ)
      → IsSilent o
      → Honest direction policy ss (empty_result status o k)
  unfolding Honest empty_result
  empty-Honest direction policy ss status o k silent = silent _ _ _ _ _

  if-Honest :
      (direction : Direction) (policy : SamplePolicy D) (ss : List (PriceSample D)) (t : Bool)
      (r q : SampleResult D)
      → Honest direction policy ss r
      → Honest direction policy ss q
      → Honest direction policy ss (if t then r else q)
  if-Honest direction policy ss true r q hr hq = hr
  if-Honest direction policy ss false r q hr hq = hq

  module _ (differs : PriceSample D → PriceSample D → Bool) where
    covered-Honest :
        (start : ℕ) (window : SessionWindow) (direction : Direction) (policy : SamplePolicy D)
        (is_final : Bool) (expected : List ℕ) (b : PriceSample D) (ss : List (PriceSample D))
        (held : Option (List (ℕ × PriceSample D)))
        → Honest direction policy
            (b ∷ ss)
            (covered differs start window direction policy is_final expected b ss held)
    unfolding covered Honest empty_result Shows
    covered-Honest start window direction policy is_final expected b ss none = tt
    covered-Honest start window direction policy is_final expected b ss (some held) =
        report-Honest start window direction policy is_final (length expected) (length held) _ b ss

    judge-Honest :
        (start : ℕ) (window : SessionWindow) (direction : Direction) (policy : SamplePolicy D)
        (is_final : Bool) (previous : Option (SampleResult D)) (expected : List ℕ)
        (ss : List (PriceSample D))
        → Honest direction policy ss
            (judge differs start window direction policy is_final previous expected ss)
    unfolding judge Shows
    judge-Honest start window direction policy is_final previous expected [] =
        empty-Honest direction policy [] _ no_baseline _ (λ e d h b c. tt)
    judge-Honest start window direction policy is_final previous expected (b ∷ ss) =
        let held = by_slot differs [] (b ∷ ss) in
        let all = b ∷ ss in
        let empty = empty-Honest direction policy all in
        if-Honest direction policy all
          (ltb (start + policy.max_baseline_delay_seconds * second) b.observed_at) _ _
          (empty (status_of is_final unscorable) baseline_too_late 0 (λ e d h b c. tt))
          (if-Honest direction policy all (revised previous b) _ _
            (empty unscorable baseline_revised 0 (λ e d h b c. tt))
            (if-Honest direction policy all
              (any (λ s. not (str_eq s.mapping_version b.mapping_version)) ss) _ _
              (empty unscorable mapping_changed 0 (λ e d h b c. tt))
              (covered-Honest start window direction policy is_final expected b ss held)))

    -- The eligible samples, in order.
    pub eligible_samples :
        ℕ
        → SessionWindow
        → SamplePolicy D
        → String
        → String
        → List (PriceSample D)
        → List (PriceSample D)
    eligible_samples decided window policy currency registry samples =
        let start = later_of decided window.opens_at in
        sort (
          filter_by
            (is_eligible start window policy currency registry
              (expected_slots differs start window policy))
            samples)

    -- The outcome that is returned holds of the eligible samples, the first of which is the baseline. An
    -- observed hit: a later one reaches the target in the predicted direction. No target observed: none
    -- does, and the result is marked as covering the slots. Within the band: the prediction is
    -- neutral, none leaves the band, and the result is so marked. A breach: the prediction is neutral
    -- and one leaves the band. Each of these rests on two samples or more.
    pub evaluate_samples-Honest :
        (decided : ℕ) (window : SessionWindow) (direction : Direction) (policy : SamplePolicy D)
        (currency registry : String) (samples : List (PriceSample D)) (is_final : Bool)
        (previous : Option (SampleResult D))
        → Honest direction policy
            (eligible_samples decided window policy currency registry samples)
            (evaluate_samples differs decided window direction policy currency registry samples
              is_final previous)
    unfolding evaluate_samples eligible_samples Shows
    evaluate_samples-Honest decided window direction policy currency registry samples is_final
          previous =
        let start = later_of decided window.opens_at in
        let expected = expected_slots differs start window policy in
        let eligible =
          sort (filter_by (is_eligible start window policy currency registry expected) samples) in
        if-Honest direction policy eligible (ltb (length expected) 2) _ _
          (empty-Honest direction policy eligible unscorable insufficient_window 0
            (λ e d h b c. tt))
          (judge-Honest start window direction policy is_final previous expected eligible)
