-- ===== src/Gateway/Store/Tests.antt =====
-- Tests and witnesses for the store.
use stock_prediction.Base.{
  ℕ, ◌≤◌, ◌≡◌, refl, true, false, none, some, List, [], ◌∷◌, All, not, ◌||◌, any,
}
use text.Mathlib.Text.{◌==◌ as str_eq}
use stock_prediction.Gateway.Types.{success, rate_limited, failure}
use stock_prediction.Gateway.Availability.{blocks, upsert, may_overwrite, or_else, unknown_row}
use stock_prediction.Gateway.Store.{
  Tables, indexed, reserve, reset, finish, start, terminal, mark_submitted, availability_of,
}
use stock_prediction.Gateway.Store.Calls.{
  Call, reserving, submitting, finishing, ending, starting, step, run, or_unchanged,
}
use stock_prediction.Gateway.Store.Capacity.{holders, holders_below, run-holders}
use stock_prediction.Gateway.Store.Holder.{Slot, holder, SlotMove}
use stock_prediction.Gateway.Store.Moves.{step-SlotMove}
use stock_prediction.Gateway.Store.Held.{in_doubt, resolves, run-reserve_refused}
use stock_prediction.Gateway.Store.Reset.{is_running_in, reserve-reset}

abbrev empty : Tables
empty = record { availability = []; attempts = [] }

-- Two tabs are reserved, the first prompt is sent, and the service restarts.
abbrev calls : List Call
calls =
    reserving 1 "main" "chatgpt" "a1" "r1" 0
    ∷ reserving 2 "main" "chatgpt" "a2" "r2" 0
    ∷ reserving 2 "main" "chatgpt" "a2" "r2" 1
    ∷ submitting 3 "a1-repair"
    ∷ starting 1000 5
    ∷ []

abbrev after : Tables
after = run calls empty

abbrev tab : ℕ → Slot
tab n = record { profile = "main"; provider = "chatgpt"; number = n }

run-holders_example :
    let rows = (run calls empty).attempts in
    (holders "main" "chatgpt" 0 rows ≤ 1) × (holders_below "main" "chatgpt" 2 rows ≤ 2)
unfolding indexed
run-holders_example = run-holders calls empty "main" "chatgpt" 0 2 refl

both_held : holders_below "main" "chatgpt" 2 after.attempts ≡ 2
unfolding run step reserve mark_submitted start blocks upsert unknown_row
both_held = refl

after_restart : availability_of "main" "chatgpt" after ≡ some unknown_row
unfolding run step reserve mark_submitted start blocks upsert unknown_row availability_of
after_restart = refl

is_indexed : indexed after.attempts ≡ true
unfolding run step reserve mark_submitted start blocks indexed upsert
is_indexed = refl

step-SlotMove_example :
    SlotMove
      (ending 6 "main" "chatgpt" "a1")
      (tab 0)
      (holder (tab 0) after.attempts)
      (holder (tab 0) (step (ending 6 "main" "chatgpt" "a1") after).attempts)
step-SlotMove_example = step-SlotMove (ending 6 "main" "chatgpt" "a1") (tab 0) after is_indexed

freed : holder (tab 0) (step (ending 6 "main" "chatgpt" "a1") after).attempts ≡ none
unfolding run step reserve mark_submitted start blocks upsert terminal holder
freed = refl

doubtful : any (in_doubt "a2" "main" "chatgpt") after.attempts ≡ true
unfolding run step reserve mark_submitted start blocks upsert in_doubt
doubtful = refl

abbrev later_calls : List Call
later_calls =
    ending 6 "main" "chatgpt" "a1"
    ∷ finishing 60 7 7 "main" "chatgpt" "a1" (failure success none)
    ∷ []

unresolved : All (λ c. resolves "a2" "main" c ≡ false) later_calls
unfolding resolves
unresolved = (refl, (refl, tt))

run-reserve_refused_example :
    reserve 9 "main" "chatgpt" "a3" "r3" 0 (run later_calls after) ≡ (run later_calls after, false)
run-reserve_refused_example =
    run-reserve_refused "a2" "main" "chatgpt" later_calls after 9 "a3" "r3" 0 doubtful unresolved

reserve-reset_example :
    (reserve 9 "main" "chatgpt" "a3" "r3" 0 (reset 8 "main" after)).1
    ≡ not (
        any (λ a. str_eq a.attempt_id "a3") after.attempts
        || any (is_running_in "main" "chatgpt" 0) after.attempts)
reserve-reset_example = reserve-reset 8 9 "main" "chatgpt" "a3" "r3" 0 after

granted : (reserve 9 "main" "chatgpt" "a3" "r3" 0 (reset 8 "main" after)).1 ≡ true
unfolding run step reserve mark_submitted start blocks upsert reset
granted = refl

-- A rate limit blocks until its reset.
limited :
    (reserve 9 "main" "chatgpt" "a3" "r3" 1 (
      or_unchanged empty (
        finish 60 7 7 "main" "chatgpt" "a1"
          (record (failure rate_limited (some true)) { reset_at = some 10 })
          empty))).1
    ≡ false
unfolding reserve finish or_unchanged blocks upsert or_else may_overwrite failure
limited = refl
