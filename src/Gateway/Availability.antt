-- ===== src/Gateway/Availability.antt =====
-- src/services/llm-browser-gateway/llm_browser_gateway/db.py: the rows of `availability`, which say when a
-- provider of a profile may be asked again.
use Prim.Native.String.{String}
use text.Mathlib.Text.{◌==◌ as str_eq}
use stock_prediction.Base.{
  ℕ, Bool, false, not, ◌&&◌, ◌||◌, Option, none, some, List, [], ◌∷◌, leb, if◌then◌else◌,
}
use stock_prediction.Gateway.Types.{Status, unknown, is_unknown, is_rate_limited}

-- A row of `availability`, without its key.
pub record Availability : Type 0 where
  pub reason : Status
  pub reset_at : Option ℕ
  pub next_check_at : Option ℕ

pub record Row : Type 0 where
  pub profile_id : String
  pub provider : String
  pub availability : Availability
  pub updated_at : ℕ

-- The timestamp is set and has come.
abbrev pub has_come : ℕ → Option ℕ → Bool
has_come now none = false
has_come now (some t) = leb t now

-- `Availability.eligible`
unfoldable pub eligible : ℕ → Availability → Bool
eligible now a = has_come now a.next_check_at

abbrev pub row_of : String → String → Row → Bool
row_of profile provider r = str_eq r.profile_id profile && str_eq r.provider provider

unfoldable pub blocks : ℕ → String → String → Row → Bool
blocks now profile provider r =
    row_of profile provider r && not (has_come now r.availability.next_check_at)

-- Rows `submission_unknown` of the provider.
abbrev pub is_unknown_row : String → String → Row → Bool
is_unknown_row profile provider r = row_of profile provider r && is_unknown r.availability.reason

-- The `WHERE` of the upsert: the row that is there may be overwritten.
unfoldable pub may_overwrite : ℕ → Status → Availability → Bool
may_overwrite now new old =
    not (is_rate_limited old.reason || is_unknown old.reason)
    || has_come now old.next_check_at
    || is_rate_limited new

-- `INSERT ... ON CONFLICT (profile_id, provider) DO UPDATE ... WHERE ...`
unfoldable pub upsert :
    ℕ → (Availability → Bool) → String → String → Availability → List Row → List Row
upsert now overwrites profile provider new [] =
    record { profile_id = profile; provider = provider; availability = new; updated_at = now } ∷ []
upsert now overwrites profile provider new (r ∷ rs) =
    let rest = upsert now overwrites profile provider new rs in
    if row_of profile provider r
    then (if overwrites r.availability
        then record r { availability = new; updated_at = now }
        else r)
      ∷ rs
    else r ∷ rest

-- The row that `start` writes for each attempt that was left unknown.
unfoldable pub unknown_row : Availability
unknown_row = record { reason = unknown; reset_at = none; next_check_at = none }

unfoldable pub or_else : Option ℕ → ℕ → ℕ
or_else none d = d
or_else (some t) d = t
