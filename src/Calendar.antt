-- ===== src/Calendar.antt =====
-- src/shared/shared/calendar/sessions.py: market sessions on a market's own clock. A date is its
-- proleptic Gregorian ordinal (`date.toordinal()`, from 1 to `max_ordinal`), an instant is a number
-- of microseconds of UTC. The tz database is a parameter: `Zone` has the two conversions that the
-- code makes through `zoneinfo`.
pub mod Days
pub mod Resolve
mod Tests
use Prim.Native.String.{String}
use stock_prediction.Base.{
  ℕ, zero, suc, ◌+◌, ◌-◌, ◌%◌, Bool, Option, none, some, ltb, leb, if◌then◌else◌,
}

-- What a call returns, or the exception that it raises.
pub data Result {ℓ} (A : Type ℓ) : Type ℓ where
  ok : A → Result A
  -- `UnsupportedTimezoneError`
  unsupported_timezone : String → Result A
  -- `OverflowError` of date arithmetic
  date_overflow : Result A

infixl 5 ◌>>=◌
abbrev pub ◌>>=◌ {ℓ κ} : {A : Type ℓ} {B : Type κ} → Result A → (A → Result B) → Result B
ok a >>= f = f a
unsupported_timezone z >>= f = unsupported_timezone z
date_overflow >>= f = date_overflow

-- A zone of the tz database: the local date of an instant, and the instant of a local wall clock.
pub record Zone : Type 0 where
  pub local_date : ℕ → ℕ
  pub wall : ℕ → ℕ → ℕ → ℕ

-- `zoneinfo.ZoneInfo`: `none` is `ZoneInfoNotFoundError` or `ValueError`.
abbrev pub ZoneDatabase : Type 0
ZoneDatabase = String → Option Zone

abbrev pub max_ordinal : ℕ
max_ordinal = 3652059

abbrev pub session_completion_hour : ℕ
session_completion_hour = 17

abbrev pub session_completion_minute : ℕ
session_completion_minute = 0

-- Monday is 0.
abbrev pub weekday : ℕ → ℕ
weekday day = (day + 6) % 7

pub is_trading_day : ℕ → Bool
is_trading_day day = ltb (weekday day) 5

-- `while not is_trading_day(cursor): cursor -= timedelta(days=1)`. Below the first date there is
-- none, and the subtraction raises.
pub retreat : ℕ → Result ℕ
retreat zero = date_overflow
retreat (suc d) = let earlier = retreat d in if is_trading_day (suc d) then ok (suc d) else earlier

-- `cursor += timedelta(days=1)` until a trading day, with `room` dates left to the last one.
pub advance : ℕ → ℕ → Result ℕ
advance zero cursor = date_overflow
advance (suc room) cursor =
    let later = advance room (cursor + 1) in
    if is_trading_day (cursor + 1) then ok (cursor + 1) else later

pub previous_session : ℕ → Result ℕ
previous_session day = retreat (day - 1)

pub next_session : ℕ → Result ℕ
next_session day = advance (max_ordinal - day) day

-- The step back from a candidate that is still open.
completed_session : Bool → ℕ → Result ℕ
completed_session complete baseline = if complete then ok baseline else previous_session baseline

module _ (database : ZoneDatabase) where
  -- `_zone`
  pub zone : String → Result Zone
  zone name = elim (database name) [ none ↦ unsupported_timezone name | some z ↦ ok z ]

  pub provider_bar_to_session : ℕ → String → Result ℕ
  provider_bar_to_session bar_time name = do z ← zone name; ok (z.local_date bar_time)

  pub session_completed_at : ℕ → String → ℕ → ℕ → Result ℕ
  session_completed_at session name hour minute = do z ← zone name; ok (z.wall session hour minute)

  pub is_session_complete : ℕ → String → ℕ → ℕ → ℕ → Result Bool
  is_session_complete session name now hour minute = do
    completed ← session_completed_at session name hour minute
    ok (leb completed now)

  pub local_date_in : ℕ → String → Result ℕ
  local_date_in moment name = do z ← zone name; ok (z.local_date moment)

  pub resolve_baseline_settlement : ℕ → String → ℕ → ℕ → Result (ℕ × ℕ)
  resolve_baseline_settlement decision_at name hour minute = do
    local_date ← local_date_in decision_at name
    candidate ← retreat local_date
    complete ← is_session_complete candidate name decision_at hour minute
    baseline ← completed_session complete candidate
    settlement ← next_session baseline
    ok (baseline, settlement)
