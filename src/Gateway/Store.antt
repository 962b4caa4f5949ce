-- ===== src/Gateway/Store.antt =====
-- src/services/llm-browser-gateway/llm_browser_gateway/db.py: the two tables and the transactions on them.
-- A transaction is one step; `now` is the database's clock, `clock` the service's. Statements without a
-- transaction of their own that one method runs in order are one step as well.
pub mod Calls
pub mod Slots
pub mod Capacity
pub mod Held
pub mod Reset
pub mod Moves
pub mod Holder
mod Tests
use Prim.Native.String.{String}
use text.Mathlib.Text.{◌==◌ as str_eq}
use stock_prediction.Base.{
  update, ℕ, ◌+◌, ◌*◌, Bool, true, false, not, ◌&&◌, ◌||◌, Option, none, some, List, [], ◌∷◌, map,
  any, filter_by, find_first, leb, ltb, ◌==◌, if◌then◌else◌,
}
use stock_prediction.Gateway.Types.{
  Status, Result, success, refused, rate_limited, unknown, is_request_failure, is_unknown,
  is_rate_limited,
}
use stock_prediction.Gateway.Availability.{
  Availability, Row, has_come, row_of, blocks, is_unknown_row, may_overwrite, upsert, unknown_row,
  or_else,
}

pub data AttemptState : Type 0 where
  reserved submitted unsettled finished : AttemptState

-- The column `outcome`.
pub data Outcome : Type 0 where
  ended : Status → Outcome
  reconciled manual_reset : Outcome

pub record Attempt : Type 0 where
  pub attempt_id : String
  pub request_id : String
  pub profile_id : String
  pub provider : String
  pub slot : ℕ
  pub state : AttemptState
  pub outcome : Option Outcome
  pub created_at : ℕ
  pub updated_at : ℕ

pub record Tables : Type 0 where
  pub availability : List Row
  pub attempts : List Attempt

-- Part of the index `gateway_active_slot`.
abbrev pub is_active : AttemptState → Bool
is_active finished = false
is_active _ = true

abbrev pub is_unsettled : AttemptState → Bool
is_unsettled unsettled = true
is_unsettled _ = false

abbrev pub is_of : String → String → Attempt → Bool
is_of profile provider a = str_eq a.profile_id profile && str_eq a.provider provider

abbrev pub holds_slot : String → String → ℕ → Attempt → Bool
holds_slot profile provider slot a =
    is_of profile provider a && (a.slot == slot) && is_active a.state

pub is_open : String → String → Attempt → Bool
is_open profile provider a = is_of profile provider a && is_unsettled a.state

abbrev pub new_attempt : ℕ → String → String → String → String → ℕ → Attempt
new_attempt now profile provider attempt request slot = record {
  attempt_id = attempt;
  request_id = request;
  profile_id = profile;
  provider = provider;
  slot = slot;
  state = reserved;
  outcome = none;
  created_at = now;
  updated_at = now;
}

-- `INSERT ... WHERE NOT EXISTS ... ON CONFLICT DO NOTHING`
unfoldable pub reserve : ℕ → String → String → String → String → ℕ → Tables → Tables × Bool
unfolding blocks is_open
reserve now profile provider attempt request slot t =
    if any (blocks now profile provider) t.availability
      || any (is_open profile provider) t.attempts
      || any (λ a. str_eq a.attempt_id attempt) t.attempts
      || any (holds_slot profile provider slot) t.attempts
    then (t, false)
    else (
      record t { attempts = new_attempt now profile provider attempt request slot ∷ t.attempts },
      true,
    )

-- `removesuffix("-repair")`
abbrev pub without_repair : String → String
without_repair String.[] = String.[]
without_repair (String.◌∷◌ c s) =
    let rest = without_repair s in
    if str_eq (String.◌∷◌ c s) "-repair" then String.[] else String.◌∷◌ c rest

abbrev pub is_reserved : AttemptState → Bool
is_reserved reserved = true
is_reserved _ = false

abbrev pub is_running : AttemptState → Bool
is_running reserved = true
is_running submitted = true
is_running _ = false

first_availability : Option Row → Option Availability
first_availability none = none
first_availability (some r) = some r.availability

-- `availability`
pub availability_of : String → String → Tables → Option Availability
unfolding first_availability
availability_of profile provider t =
    first_availability (find_first (row_of profile provider) t.availability)

unfoldable pub mark_submitted : ℕ → String → Tables → Tables
mark_submitted now attempt t = record t {
  attempts =
      update (λ a. record a { state = submitted; updated_at = now })
        (λ a. str_eq a.attempt_id (without_repair attempt) && is_reserved a.state) t.attempts;
}

-- `(SELECT created_at ... WHERE attempt_id = ...)`
pub created_before : ℕ → String → List Attempt → Bool
created_before updated attempt attempts =
    any (λ a. str_eq a.attempt_id attempt && leb updated a.created_at) attempts

is_answer : Status → Bool
is_answer success = true
is_answer refused = true
is_answer _ = false

state_of : Status → AttemptState
state_of unknown = unsettled
state_of _ = finished

-- The state of the attempt, after the call.
pub close_attempt : ℕ → String → Status → List Attempt → List Attempt
unfolding state_of
close_attempt now attempt status attempts =
    update
      (λ a. record a { state = state_of status; outcome = some (ended status); updated_at = now })
      (λ a. str_eq a.attempt_id attempt) attempts

-- What the end of an attempt says of its provider. `retry` is `retry_seconds`, in microseconds.
pub note_availability :
    ℕ → ℕ → ℕ → String → String → String → Result → List Attempt → List Row → List Row
unfolding is_answer created_before upsert may_overwrite or_else
note_availability retry clock now profile provider attempt result attempts rows =
    if is_request_failure result.status
    then rows
    else if is_answer result.status
    then filter_by
        (λ r. not (row_of profile provider r && created_before r.updated_at attempt attempts)) rows
    else upsert now (may_overwrite now result.status) profile provider
        (record {
          reason = result.status;
          reset_at = result.reset_at;
          next_check_at =
              if is_unknown result.status
              then none
              else some (or_else result.reset_at (clock + retry));
        })
        rows

-- No two active rows in one slot: the partial unique index, which an `UPDATE` must keep.
pub indexed : List Attempt → Bool
indexed [] = true
indexed (a ∷ rest) =
    let others = indexed rest in
    not (is_active a.state && any (holds_slot a.profile_id a.provider a.slot) rest) && others

-- `none` is the database's `UniqueViolationError`, which undoes the transaction.
unfoldable pub finish : ℕ → ℕ → ℕ → String → String → String → Result → Tables → Option Tables
unfolding close_attempt note_availability indexed
finish retry clock now profile provider attempt result t =
    let attempts = close_attempt now attempt result.status t.attempts in
    if indexed attempts
    then some (record {
      attempts = attempts;
      availability =
          note_availability retry clock now profile provider attempt result attempts t.availability;
    })
    else none

abbrev pub is_late : String → String → String → Attempt → Bool
is_late profile provider attempt a =
    str_eq a.attempt_id (without_repair attempt) && is_of profile provider a && is_unsettled a.state

unfoldable pub terminal : ℕ → String → String → String → Tables → Tables
unfolding is_open
terminal now profile provider attempt t =
    let attempts =
      update (λ a. record a { state = finished; outcome = some reconciled; updated_at = now })
        (is_late profile provider attempt) t.attempts in
    if not (any (is_late profile provider attempt) t.attempts) then t else record {
      attempts = attempts;
      availability =
          if any (is_open profile provider) attempts
          then t.availability
          else filter_by (λ r. not (is_unknown_row profile provider r)) t.availability;
    }

unfoldable pub reset : ℕ → String → Tables → Tables
reset now profile t = record {
  attempts =
      update (λ a. record a { state = finished; outcome = some manual_reset; updated_at = now })
        (λ a. str_eq a.profile_id profile && is_unsettled a.state) t.attempts;
  availability = filter_by (λ r. not (str_eq r.profile_id profile)) t.availability;
}

pub mark_unknown : ℕ → List Attempt → List Row → List Row
unfolding upsert unknown_row
mark_unknown now [] rows = rows
mark_unknown now (a ∷ rest) rows =
    let marked =
      upsert now (λ old. not (is_rate_limited old.reason)) a.profile_id a.provider unknown_row
        rows in
    mark_unknown now rest (if is_unsettled a.state then marked else rows)

-- `start`, after the lock; `retention` is `retention_days`, in microseconds.
unfoldable pub start : ℕ → ℕ → Tables → Tables
unfolding mark_unknown
start retention now t =
    let attempts =
      update (λ a. record a { state = unsettled; updated_at = now }) (λ a. is_running a.state)
        t.attempts in
    record {
      attempts =
          filter_by (λ a. not (not (is_active a.state) && ltb (a.updated_at + retention) now))
            attempts;
      availability =
          filter_by (λ r. not (is_request_failure r.availability.reason))
            (mark_unknown now attempts t.availability);
    }

-- `snapshot`: the rows of the profile, and its attempts that hold a slot.
pub snapshot : String → Tables → List Row × List Attempt
snapshot profile t = (
  filter_by (λ r. str_eq r.profile_id profile) t.availability,
  filter_by (λ a. str_eq a.profile_id profile && is_active a.state) t.attempts,
)
