-- ===== src/Credibility/Learner.antt =====
-- src/services/credibility/credibility/learning/estimator.py: the estimates of edges from realised returns.
-- Event types, conditions and assets are members of string enumerations, so they are their strings.
pub mod Groups
pub mod Estimates
pub mod Learned
mod Tests
use Prim.Native.Char.{Char, code}
use Prim.Native.String.{String}
use text.Mathlib.Text.{◌==◌ as str_eq}
use stock_prediction.Base.{
  ℕ, zero, suc, ◌+◌, ◌-◌, Bool, true, false, ◌&&◌, Option, none, some, List, [], ◌∷◌, ◌++◌, map,
  any, length, ltb, ◌==◌, if◌then◌else◌, str_lt,
}
use stock_prediction.Number.{Number, nought, one, lt, abs, min_of, sum}
use stock_prediction.Schema.{Direction, up, down, neutral, EventPolarity, occurrence, resolution}

-- `Sample` and `CorrelationSample`.
pub record Sample (R : Type 0) : Type 0 where
  pub factor : String
  pub condition : Option String
  pub asset : String
  pub polarity : EventPolarity
  pub actual_return : R
  pub is_abnormal : Bool

pub record CorrelationSample (R : Type 0) : Type 0 where
  pub source_asset : String
  pub condition : String
  pub target_asset : String
  pub actual_return : R
  pub is_abnormal : Bool

-- `defaultdict(list)`: a sample goes to the end of the list of its key.
module _ {S K : Type 0} (same : K → K → Bool) where
  pub add_sample : K → S → List (K × List S) → List (K × List S)
  add_sample k s [] = (k, s ∷ []) ∷ []
  add_sample k s ((j, xs) ∷ d) =
      if same j k then (j, xs ++ (s ∷ [])) ∷ d else (j, xs) ∷ add_sample k s d

  pub group_from : (S → K) → List (K × List S) → List S → List (K × List S)
  unfolding add_sample
  group_from key d [] = d
  group_from key d (s ∷ ss) = group_from key (add_sample (key s) s d) ss

-- The keys `(factor, condition, asset)` and `(source, condition, target)`.
abbrev pub GroupKey : Type 0
GroupKey = String × Option String × String

same_condition : Option String → Option String → Bool
same_condition none none = true
same_condition (some c) (some d) = str_eq c d
same_condition _ _ = false

pub same_key : GroupKey → GroupKey → Bool
unfolding same_condition
same_key (f, c, a) (g, d, b) = str_eq f g && same_condition c d && str_eq a b

-- The fields of an estimate that the two kinds of edges share, with the key.
pub record EdgeEstimate (R : Type 0) : Type 0 where
  pub key : GroupKey
  pub direction : Direction
  pub weight : R
  pub confidence : R
  pub alpha : R
  pub beta : R
  pub sample_count : ℕ

-- `min(a, b)` of counts.
abbrev pub min_count : ℕ → ℕ → ℕ
min_count a b = if ltb b a then b else a

abbrev pub count_if : {R : Type 0} → (R → Bool) → List R → ℕ
count_if p [] = 0
count_if p (x ∷ xs) = let rest = count_if p xs in if p x then suc rest else rest

pub effective_min : Bool → ℕ → ℕ → ℕ
effective_min is_abnormal min_samples abnormal_min_samples =
    if is_abnormal then min_count abnormal_min_samples min_samples else min_samples

module _ {R : Type 0} ⦃n : Number R⦄ where
  -- `_WEIGHT_RETURN_SCALE`, 0.05.
  pub weight_return_scale : R
  weight_return_scale = n.div (n.of_ℕ 5) (n.of_ℕ 100)

  pub signed_return : EventPolarity → R → R
  signed_return resolution r = n.neg r
  signed_return occurrence r = r

  -- The direction of a mean return, and how many of the returns agree with it.
  pub tendency : R → R → List R → Direction × ℕ
  tendency deadband mean signed =
      if lt deadband mean
      then (up, count_if (λ r. lt nought r) signed)
      else if lt mean (n.neg deadband)
      then (down, count_if (λ r. lt r nought) signed)
      else (neutral, 0)

  -- The body of the loop behind the bar, for returns whose number is `total`.
  pub estimate_of : GroupKey → R → ℕ → R → Direction × ℕ → EdgeEstimate R
  unfolding weight_return_scale
  estimate_of key deadband total mean (direction, agreeing) = record {
    key = key;
    direction = direction;
    weight = min_of one (n.div (abs mean) weight_return_scale);
    confidence = n.div (n.of_ℕ agreeing) (n.of_ℕ total);
    alpha = n.add (n.of_ℕ agreeing) one;
    beta = n.add (n.of_ℕ (total - agreeing)) one;
    sample_count = total;
  }

  pub estimate_group : GroupKey → R → List R → EdgeEstimate R
  unfolding estimate_of tendency
  estimate_group key deadband signed =
      let total = length signed in
      let mean = n.div (sum signed) (n.of_ℕ total) in
      estimate_of key deadband total mean (tendency deadband mean signed)

  -- The loop over the groups; `continue` where there are too few samples.
  pub estimate_groups :
      {S : Type 0}
      → (S → R)
      → (S → Bool)
      → R
      → ℕ
      → ℕ
      → List (GroupKey × List S)
      → List (EdgeEstimate R)
  unfolding estimate_group effective_min
  estimate_groups oriented is_abnormal deadband min_samples abnormal_min [] = []
  estimate_groups oriented is_abnormal deadband min_samples abnormal_min ((key, group) ∷ groups) =
      let rest = estimate_groups oriented is_abnormal deadband min_samples abnormal_min groups in
      if ltb (length group) (effective_min (any is_abnormal group) min_samples abnormal_min)
      then rest
      else estimate_group key deadband (map oriented group) ∷ rest

condition_text : Option String → String
condition_text none = ""
condition_text (some c) = c

key_lt : GroupKey → GroupKey → Bool
unfolding condition_text
key_lt (f, c, a) (g, d, b) =
    if str_lt f g
    then true
    else if str_lt g f
    then false
    else if str_lt (condition_text c) (condition_text d)
    then true
    else if str_lt (condition_text d) (condition_text c)
    then false
    else str_lt a b

module _ {R : Type 0} ⦃n : Number R⦄ where
  -- `sort`, which is stable.
  pub insert : EdgeEstimate R → List (EdgeEstimate R) → List (EdgeEstimate R)
  unfolding key_lt
  insert e [] = e ∷ []
  insert e (x ∷ xs) = let rest = insert e xs in if key_lt x.key e.key then x ∷ rest else e ∷ x ∷ xs

  pub sort : List (EdgeEstimate R) → List (EdgeEstimate R)
  unfolding insert
  sort [] = []
  sort (e ∷ es) = insert e (sort es)

  pub estimate_edges : R → ℕ → ℕ → List (Sample R) → List (EdgeEstimate R)
  unfolding group_from estimate_groups sort signed_return
  estimate_edges deadband min_samples abnormal_min samples = sort (
      estimate_groups (λ s. signed_return s.polarity s.actual_return) (λ s. s.is_abnormal) deadband
        min_samples abnormal_min
        (group_from same_key (λ s. (s.factor, s.condition, s.asset)) [] samples))

  pub estimate_correlation_edges : R → ℕ → ℕ → List (CorrelationSample R) → List (EdgeEstimate R)
  unfolding group_from estimate_groups sort
  estimate_correlation_edges deadband min_samples abnormal_min samples = sort (
      estimate_groups (λ s. s.actual_return) (λ s. s.is_abnormal) deadband min_samples abnormal_min
        (group_from same_key (λ s. (s.source_asset, some s.condition, s.target_asset)) [] samples))
