-- ===== src/Verification/Intraday.antt =====
-- src/services/verification/verification/intraday_policy.py: scoring from one-minute bars.
-- Instants are microseconds from a whole minute.
pub mod Evaluate
pub mod LastKnown
use Prim.Native.String.{String}
use stock_prediction.Base.{
  ℕ, ◌+◌, ◌-◌, ◌*◌, ◌/◌, ◌%◌, zero, suc, Bool, true, false, not, ◌&&◌, ◌||◌, Option, none, some,
  List, [], ◌∷◌, map, any, length, find_first, filter_by, ltb, leb, ◌==◌, if◌then◌else◌, is_empty,
}
use stock_prediction.Number.{Number, one, lt, min_of, max_of, num_eq}
use stock_prediction.Schema.{Direction, up, down, neutral, same_direction}
use stock_prediction.Verification.Sampled.{second, SessionWindow, later_of}

abbrev pub minute : ℕ
minute = 60 * second

-- `SampleProvenance`, the fields that the policy reads.
pub record Provenance : Type 0 where
  pub sample_id : String
  pub scheduled_at : ℕ
  pub observed_at : ℕ
  pub interval_seconds : ℕ
  pub mapping_version : String
  pub currency : String

-- `IntradayBar`; a bar of a known price carries its sample.
pub record Bar (D : Type 0) : Type 0 where
  pub start : ℕ
  pub open_price : D
  pub high : D
  pub low : D
  pub close : D
  pub sample : Option Provenance

pub record IntradayPolicy (D : Type 0) : Type 0 where
  pub is_last_known : Bool
  pub target_return : D
  pub neutral_band : D
  pub min_minutes : ℕ
  pub max_baseline_delay_seconds : ℕ

pub data IntradayStatus : Type 0 where
  pending scored unscorable withdrawn : IntradayStatus

-- `IntradayResult`; the price basis is that of the last known price or that of the minutes.
pub record IntradayResult (D : Type 0) : Type 0 where
  pub status : IntradayStatus
  pub reason : Option String
  pub baseline_at : Option ℕ
  pub baseline_price : Option D
  pub baseline_delay : Option ℕ
  pub target_reached : Option Bool
  pub first_hit_bar_at : Option ℕ
  pub closing_return : Option D
  pub closing_correct : Option Bool
  pub max_up_return : Option D
  pub max_down_return : Option D
  pub expected_bars : ℕ
  pub observed_bars : ℕ
  pub complete : Bool
  pub is_last_known : Bool
  pub represented_minutes : ℕ
  pub expected_samples : ℕ
  pub observed_samples : ℕ
  pub first_hit_observed_at : Option ℕ

-- The first whole minute at or after an instant.
pub first_minute_of : ℕ → ℕ
first_minute_of start =
    let floor = start - start % minute in if ltb floor start then floor + minute else floor

-- `failure or default`, and `not failure`.
pub failure_or : Option String → String → String
failure_or none default = default
failure_or (some text) default = if is_empty text then default else text

pub no_failure : Option String → Bool
no_failure none = true
no_failure (some text) = is_empty text

-- `len(set(...))`
pub count_distinct : List ℕ → ℕ
count_distinct [] = 0
count_distinct (t ∷ ts) =
    let rest = count_distinct ts in if any (λ s. s == t) ts then rest else suc rest

-- `{first_minute + i * MINUTE for i in range(expected)}`
pub minutes_from : ℕ → ℕ → List ℕ
minutes_from first zero = []
minutes_from first (suc k) = first ∷ minutes_from (first + minute) k

pub same_stamps : List ℕ → List ℕ → Bool
same_stamps a b =
    not (any (λ t. not (any (λ s. s == t) b)) a) && not (any (λ t. not (any (λ s. s == t) a)) b)

unfoldable pub pending_status : Bool → IntradayStatus → IntradayStatus
pending_status is_final s = if is_final then s else pending

abbrev pub is_neutral : Direction → Bool
is_neutral neutral = true
is_neutral _ = false

-- What is known of the target: `settled` if the evaluation is final and complete.
pub reached_of : Direction → Bool → Bool → Bool → Option Bool
reached_of direction hit breached settled =
    if is_neutral direction
    then (if breached then some false else if settled then some true else none)
    else if hit
    then some true
    else if settled
    then some false
    else none

module _ {D : Type 0} where
  pub is_hit : Option (Bar D) → Bool
  is_hit none = false
  is_hit (some b) = true

  pub insert : Bar D → List (Bar D) → List (Bar D)
  insert b [] = b ∷ []
  insert b (c ∷ cs) = let rest = insert b cs in if ltb c.start b.start then c ∷ rest else b ∷ c ∷ cs

  pub sort : List (Bar D) → List (Bar D)
  unfolding insert
  sort [] = []
  sort (b ∷ bs) = insert b (sort bs)

  pub last_bar : Bar D → List (Bar D) → Bar D
  last_bar b [] = b
  last_bar b (c ∷ cs) = last_bar c cs

  -- A result with a reason and no bars.
  unfoldable pub blank : IntradayStatus → Option String → ℕ → IntradayResult D
  blank status reason expected = record {
    status = status;
    reason = reason;
    baseline_at = none;
    baseline_price = none;
    baseline_delay = none;
    target_reached = none;
    first_hit_bar_at = none;
    closing_return = none;
    closing_correct = none;
    max_up_return = none;
    max_down_return = none;
    expected_bars = expected;
    observed_bars = 0;
    complete = false;
    is_last_known = false;
    represented_minutes = 0;
    expected_samples = 0;
    observed_samples = 0;
    first_hit_observed_at = none;
  }

  pub revised_result : Option (IntradayResult D) → IntradayResult D
  unfolding blank
  revised_result none = blank unscorable (some "BASELINE_REVISED") 0
  revised_result (some p) = record (blank unscorable (some "BASELINE_REVISED") 0) {
    baseline_at = p.baseline_at;
    baseline_price = p.baseline_price;
    baseline_delay = p.baseline_delay;
  }

module _ {D : Type 0} ⦃n : Number D⦄ where
  pub return_over : D → D → D
  return_over price x = n.sub (n.div x price) one

  pub touches : Direction → D → D → Bar D → Bool
  touches up target price b = n.le (n.mul price (n.add one target)) b.high
  touches down target price b = n.le b.low (n.mul price (n.sub one target))
  touches neutral target price b = false

  pub fold_bars : (D → D → D) → (Bar D → D) → D → List (Bar D) → D
  fold_bars pick f acc [] = acc
  fold_bars pick f acc (b ∷ bs) = fold_bars pick f (pick acc (f b)) bs

  pub closing_direction : D → D → Direction
  closing_direction band closing =
      if lt band closing then up else if lt closing (n.neg band) then down else neutral

  -- The baseline that an earlier evaluation found is not this one.
  pub revised : Option (IntradayResult D) → Bar D → Bool
  revised none b = false
  revised (some p) b = elim p.baseline_at [
    | none ↦ false
    | some at ↦
        not (at == b.start)
        || not (elim p.baseline_price [ none ↦ false | some q ↦ num_eq q b.open_price ])
  ]
