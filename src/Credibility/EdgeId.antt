-- ===== src/Credibility/EdgeId.antt =====
-- src/services/credibility/credibility/pipeline.py: reading the ids of contributing edges. The asset
-- registry, which is read from JSON files, is the argument `Registry`.
pub mod RoundTrip
mod Tests
use Prim.Native.Char.{Char, code}
use Prim.Native.String.{String}
use text.Mathlib.Text.{◌==◌ as str_eq}
use stock_prediction.Base.{
  ℕ, Bool, true, false, ◌||◌, Option, none, some, List, [], ◌∷◌, any, ◌==◌, if◌then◌else◌, is_empty,
}

-- `s.partition("->")` and `s.partition("|")`, with `none` where the separator does not occur.
after_gt : String → Option String
after_gt String.[] = none
after_gt (String.◌∷◌ c rest) = if code c == b'>' then some rest else none

after_arrow : Char → String → Option String
unfolding after_gt
after_arrow c rest = if code c == b'-' then after_gt rest else none

prepend : Char → Option (String × String) → Option (String × String)
prepend c none = none
prepend c (some (left, right)) = some (String.◌∷◌ c left, right)

partition_arrow : String → Option (String × String)
unfolding after_arrow prepend
partition_arrow String.[] = none
partition_arrow (String.◌∷◌ c rest) = elim (after_arrow c rest) [
  | some right ↦ some (String.[], right)
  | none ↦ prepend c (partition_arrow rest)
]

partition_bar : String → Option (String × String)
unfolding prepend
partition_bar String.[] = none
partition_bar (String.◌∷◌ c rest) = elim (code c == b'|') [
  | true ↦ some (String.[], rest)
  | false ↦ prepend c (partition_bar rest)
]

abbrev pub is_member : List String → String → Bool
is_member members s = any (λ m. str_eq m s) members

abbrev pub event_types : List String
event_types =
    "MILITARY_CONFLICT" ∷ "STRAIT_CLOSURE" ∷ "SUPPLY_DISRUPTION" ∷ "SANCTIONS" ∷ "RATE_DECISION"
    ∷ "INFLATION_CHANGE" ∷ "RECESSION_SIGNAL" ∷ "CORPORATE_EARNINGS" ∷ "POLITICAL_TRANSITION"
    ∷ "NATURAL_DISASTER" ∷ "CORPORATE_ACQUISITION" ∷ "EXECUTIVE_CHANGE" ∷ "REGULATORY_ACTION"
    ∷ "DEBT_CRISIS" ∷ "RESTRUCTURING" ∷ "LEGAL_DISPUTE" ∷ "PRODUCT_RECALL" ∷ "DIVIDEND_CHANGE"
    ∷ "CONTRACT_WIN" ∷ "SHARE_BUYBACK" ∷ "IPO_LISTING" ∷ "CYBERSECURITY_INCIDENT" ∷ "TRADE_POLICY"
    ∷ "FISCAL_POLICY" ∷ "CURRENCY_CRISIS" ∷ "SOVEREIGN_DEBT" ∷ "GEOPOLITICAL_TENSION"
    ∷ "COMMODITY_PRICE_SHOCK" ∷ "ECONOMIC_DATA_RELEASE" ∷ "PANDEMIC_OUTBREAK" ∷ "ENERGY_POLICY"
    ∷ "OTHER" ∷ "SPORT" ∷ "ENTERTAINMENT" ∷ "LIFESTYLE" ∷ []

abbrev pub condition_codes : List String
condition_codes =
    "TRANSPORT_AFFECTED" ∷ "SAFE_HAVEN_ONLY" ∷ "RISK_PREMIUM_ELEVATED" ∷ "UPSTREAM_UP"
    ∷ "UPSTREAM_DOWN" ∷ []

abbrev pub upstream_codes : List String
upstream_codes = "UPSTREAM_UP" ∷ "UPSTREAM_DOWN" ∷ []

pub record Registry : Type 0 where
  pub is_known_asset : String → Bool
  pub is_group : String → Bool

-- What reading an id gives: a value, or `InvalidScoredMessageError`.
pub data Parsed {ℓ} (A : Type ℓ) : Type ℓ where
  parsed : A → Parsed A
  invalid : Parsed A

pub data Target : Type 0 where
  asset : String → Target
  group : String → Target

pub record EdgeKey : Type 0 where
  pub factor : String
  pub condition : Option String
  pub target : Target

pub record CorrelationKey : Type 0 where
  pub source : String
  pub condition : String
  pub target : String

module _ (registry : Registry) where
  -- The left part of a correlation id, before the target is looked at.
  correlation_left : String → Option (String × String) → Parsed (Option CorrelationKey)
  correlation_left target none = parsed none
  correlation_left target (some (source, condition)) =
      if is_member upstream_codes condition
      then (if registry.is_known_asset source
          then (if registry.is_known_asset target
              then parsed
                  (some (record { source = source; condition = condition; target = target }))
              else invalid)
          else invalid)
      else parsed none

  correlation_parts : Option (String × String) → Parsed (Option CorrelationKey)
  unfolding correlation_left partition_bar
  correlation_parts none = parsed none
  correlation_parts (some (left, target)) = correlation_left target (partition_bar left)

  pub parse_correlation_edge_id : String → Parsed (Option CorrelationKey)
  unfolding correlation_parts partition_arrow
  parse_correlation_edge_id edge_id = correlation_parts (partition_arrow edge_id)

  target_of : String → Parsed Target
  target_of s =
      if registry.is_known_asset s
      then parsed (asset s)
      else if registry.is_group s
      then parsed (group s)
      else invalid

  with_target : String → Option String → Parsed Target → Parsed EdgeKey
  with_target factor condition invalid = invalid
  with_target factor condition (parsed t) =
      parsed (record { factor = factor; condition = condition; target = t })

  -- The factor and the condition, and then the target.
  edge_left : String → String → Option (String × String) → Parsed EdgeKey
  unfolding target_of with_target
  edge_left left target none =
      if is_member event_types left then with_target left none (target_of target) else invalid
  edge_left left target (some (factor, condition)) =
      if is_member event_types factor
      then (if is_member condition_codes condition
          then with_target factor (some condition) (target_of target)
          else invalid)
      else invalid

  edge_parts : Option (String × String) → Parsed EdgeKey
  unfolding edge_left partition_bar
  edge_parts none = invalid
  edge_parts (some (left, target)) =
      if is_empty left || is_empty target
      then invalid
      else edge_left left target (partition_bar left)

  unfoldable pub parse_edge_id : String → Parsed EdgeKey
  unfolding edge_parts partition_arrow
  parse_edge_id edge_id = edge_parts (partition_arrow edge_id)
