-- ===== src/Gateway/Engine/Tests.antt =====
-- Tests and witnesses for the routing.
use Prim.Native.String.{String}
use stock_prediction.Base.{
  ℕ, ◌*◌, ◌≡◌, ◌≢◌, refl, true, false, none, some, [], ◌∷◌, arith, ◌==◌, ◌&&◌, leb, if◌then◌else◌,
}
use text.Mathlib.Text.{◌==◌ as str_eq}
use stock_prediction.Gateway.Types.{success, rate_limited, response, Result, BrowserResult}
use stock_prediction.Gateway.Availability.{eligible}
use stock_prediction.Gateway.Engine.{
  Settings, Adapter, returns, reserved, executed, finished, returned, deadline_exceeded, Round,
  route, rounds, pass, try_slots, settle, then_events, dispatch, executes, conclude, unless_none,
  eligible_adapters, blocked_reason, enter, leave,
}
use stock_prediction.Gateway.Engine.Dispatch.{Progress, route-Progress}
use stock_prediction.Gateway.Engine.Deadline.{IsPaced, route-ended}

abbrev settings : Settings
settings = record { providers = "chatgpt" ∷ "claude" ∷ []; queue_size = 2; tabs_per_provider = 2 }

abbrev adapters : String → Adapter
adapters name = record { name = name; capabilities = "text" ∷ [] }

abbrev page : BrowserResult
page = record { status = success; text = ""; submitted = some false; reset_at = none }

abbrev answer : Result
answer = record {
  body = response "{}";
  http_status = 200;
  status = success;
  submitted = some true;
  retry_safe = false;
  reset_at = none;
}

-- A limit that lasts, on the first provider; the second has its second tab free from the given round on.
abbrev round_from : ℕ → ℕ → Round
round_from free i = record {
  now = 100000 * i;
  answers = λ name. record {
    clock = 5;
    availability =
        if str_eq name "chatgpt"
        then some (record { reason = rate_limited; reset_at = none; next_check_at = some 9 })
        else none;
    attempt = "a1";
    reserve = λ slot. (slot == 1) && leb free i;
    ready = returns page;
    execute = returns answer;
  };
}

second_round : route 3 200000 settings adapters [] (round_from 1) ≡ (
  reserved "claude" "a1" 0 false
      ∷ reserved "claude" "a1" 1 false
      ∷ reserved "claude" "a1" 0 false
      ∷ reserved "claude" "a1" 1 true
      ∷ executed "claude" "a1" 1
      ∷ finished "claude" "a1" answer
      ∷ [],
  some (returned answer),
)
unfolding route rounds pass try_slots settle then_events dispatch executes conclude unless_none
    eligible_adapters blocked_reason eligible
second_round = refl

never_free : (route 3 200000 settings adapters [] (round_from 9)).1 ≡ some deadline_exceeded
unfolding route rounds pass try_slots settle then_events dispatch executes conclude unless_none
    eligible_adapters blocked_reason eligible
never_free = refl

paced : IsPaced 200000 (round_from 9)
paced i = ground arith

route-ended_example : (route 3 200000 settings adapters [] (round_from 9)).1 ≢ none
route-ended_example = route-ended 2 200000 settings adapters [] (round_from 9) paced (ground arith)

route-Progress_example : Progress (route 3 200000 settings adapters [] (round_from 1))
route-Progress_example = route-Progress 3 200000 settings adapters [] (round_from 1)

full : enter settings 2 ≡ none
unfolding enter
full = refl

counted : leave 2 ≡ 1
unfolding leave
counted = refl
