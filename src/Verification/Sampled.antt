-- ===== src/Verification/Sampled.antt =====
-- src/services/verification/verification/sampled_policy.py: scoring from point samples of a price. Instants
-- and durations are microseconds. `!=` on two messages compares every field, also those that no other
-- test reads, so it is the argument `differs`. Prices are above zero by their schema.
pub mod Evaluate
pub mod Slots
use Prim.Native.String.{String}
use text.Mathlib.Text.{◌==◌ as str_eq}
use stock_prediction.Base.{
  ℕ, zero, suc, ◌+◌, ◌-◌, ◌*◌, Bool, true, false, not, ◌&&◌, ◌||◌, Option, none, some, List, [],
  ◌∷◌, ◌++◌, map, any, length, find_first, filter_by, ltb, leb, ◌==◌, if◌then◌else◌, str_lt,
}
use stock_prediction.Number.{Number, one, lt, abs, num_eq}
use stock_prediction.Schema.{Direction, up, down, neutral}

abbrev pub second : ℕ
second = 1_000_000

-- `SessionWindow`, the instants.
pub record SessionWindow : Type 0 where
  pub opens_at : ℕ
  pub closes_at : ℕ

pub data SampleKind : Type 0 where
  regular close_check : SampleKind

pub data MarketState : Type 0 where
  pre_open regular_open regular_closed extended_hours halted unknown : MarketState

pub data Quality : Type 0 where
  fresh stale freshness_unknown session_mismatch : Quality

-- `PriceSampleObserved`, the fields that the policy reads.
pub record PriceSample (D : Type 0) : Type 0 where
  pub sample_id : String
  pub mapping_version : String
  pub registry_version : String
  pub opens_at : ℕ
  pub closes_at : ℕ
  pub scheduled_at : ℕ
  pub observed_at : ℕ
  pub provider_quote_at : Option ℕ
  pub price : D
  pub currency : String
  pub quote_unit : String
  pub kind : SampleKind
  pub market_state : MarketState
  pub quality : Quality

-- `SamplePolicy`; the durations are in seconds.
pub record SamplePolicy (D : Type 0) : Type 0 where
  pub target_return : D
  pub neutral_band : D
  pub interval_seconds : ℕ
  pub max_baseline_delay_seconds : ℕ
  pub max_quote_age_seconds : ℕ

pub data Status : Type 0 where
  pending final unscorable withdrawn : Status

pub data SampleOutcome : Type 0 where
  insufficient_window no_baseline baseline_too_late baseline_revised mapping_changed
        conflicting_slot insufficient_samples band_breach_observed within_band_at_samples
        observed_hit target_not_observed :
      SampleOutcome

pub record SampleResult (D : Type 0) : Type 0 where
  pub status : Status
  pub outcome : Option SampleOutcome
  pub baseline_at : Option ℕ
  pub baseline_price : Option D
  pub baseline_delay : Option ℕ
  pub mapping_version : Option String
  pub observed_hit : Option Bool
  pub first_hit_at : Option ℕ
  pub last_observed_return : Option D
  pub last_observed_at : Option ℕ
  pub expected_samples : ℕ
  pub observed_samples : ℕ
  pub coverage_complete : Bool
  pub maximum_gap : Option ℕ

is_regular : SampleKind → Bool
is_regular regular = true
is_regular close_check = false

is_fresh : Quality → Bool
is_fresh fresh = true
is_fresh _ = false

is_open : MarketState → Bool
is_open regular_open = true
is_open _ = false

abbrev pub later_of : ℕ → ℕ → ℕ
later_of a b = if ltb a b then b else a

-- The loop `while at < window.closes_at`, with fuel.
unfoldable pub slots : ℕ → ℕ → ℕ → ℕ → ℕ → List ℕ
slots zero start closes interval at = []
slots (suc fuel) start closes interval at =
    let rest = slots fuel start closes interval (at + interval) in
    if ltb at closes then (if leb start at then at ∷ rest else rest) else []

-- The provider's quote is neither before the start, nor after the observation, nor too old.
quote_fits : ℕ → ℕ → ℕ → Option ℕ → Bool
quote_fits start observed max_age none = false
quote_fits start observed max_age (some q) =
    leb start q && leb q observed && leb observed (q + max_age * second)

-- The gaps between neighbours.
pub max_gap : ℕ → List ℕ → ℕ
max_gap a [] = 0
max_gap a (b ∷ rest) = later_of (b - a) (max_gap b rest)

pub status_of : Bool → Status → Status
status_of true s = s
status_of false s = pending

module _ {D : Type 0} where
  pub empty_result : Status → SampleOutcome → ℕ → SampleResult D
  empty_result status outcome expected = record {
    status = status;
    outcome = some outcome;
    baseline_at = none;
    baseline_price = none;
    baseline_delay = none;
    mapping_version = none;
    observed_hit = none;
    first_hit_at = none;
    last_observed_return = none;
    last_observed_at = none;
    expected_samples = expected;
    observed_samples = 0;
    coverage_complete = false;
    maximum_gap = none;
  }

  -- The guard of the comprehension `eligible`.
  pub is_eligible :
      ℕ → SessionWindow → SamplePolicy D → String → String → List ℕ → PriceSample D → Bool
  unfolding is_regular is_fresh is_open quote_fits
  is_eligible start window policy currency registry expected s =
      is_regular s.kind
      && is_fresh s.quality
      && is_open s.market_state
      && (s.opens_at == window.opens_at)
      && (s.closes_at == window.closes_at)
      && str_eq s.currency currency
      && str_eq s.quote_unit currency
      && str_eq s.registry_version registry
      && any (λ t. t == s.scheduled_at) expected
      && quote_fits start s.observed_at policy.max_quote_age_seconds s.provider_quote_at
      && leb start s.observed_at
      && ltb s.observed_at window.closes_at
      && leb s.observed_at (s.scheduled_at + 120 * second)

  earlier : PriceSample D → PriceSample D → Bool
  earlier s t =
      ltb s.observed_at t.observed_at
      || ((s.observed_at == t.observed_at) && str_lt s.sample_id t.sample_id)

  -- `sorted` by the observation and the id.
  pub insert : PriceSample D → List (PriceSample D) → List (PriceSample D)
  unfolding earlier
  insert s [] = s ∷ []
  insert s (t ∷ ts) = let rest = insert s ts in if earlier t s then t ∷ rest else s ∷ t ∷ ts

  pub sort : List (PriceSample D) → List (PriceSample D)
  unfolding insert
  sort [] = []
  sort (s ∷ ss) = insert s (sort ss)

  find_slot : ℕ → List (ℕ × PriceSample D) → Option (PriceSample D)
  find_slot k [] = none
  find_slot k ((j, s) ∷ d) = let rest = find_slot k d in if j == k then some s else rest

  put_slot : ℕ → PriceSample D → List (ℕ × PriceSample D) → List (ℕ × PriceSample D)
  put_slot k s [] = (k, s) ∷ []
  put_slot k s ((j, t) ∷ d) =
      let rest = put_slot k s d in if j == k then (j, s) ∷ d else (j, t) ∷ rest

  module _ (differs : PriceSample D → PriceSample D → Bool) where
    clashes : PriceSample D → Option (PriceSample D) → Bool
    clashes s none = false
    clashes s (some t) = differs t s

    -- `by_slot`, or none at a conflict.
    pub by_slot :
        List (ℕ × PriceSample D) → List (PriceSample D) → Option (List (ℕ × PriceSample D))
    unfolding clashes find_slot put_slot
    by_slot d [] = some d
    by_slot d (s ∷ ss) =
        let rest = by_slot (put_slot s.scheduled_at s d) ss in
        if clashes s (find_slot s.scheduled_at d) then none else rest
