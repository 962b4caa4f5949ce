-- ===== src/Verification/Pipeline/Tests.antt =====
-- A prediction and its prices, with repetitions, and the witness.
use Prim.Native.String.{String}
use stock_prediction.Base.{ℕ, ◌+◌, ◌*◌, ◌/◌, refl, false, Option, none, some, List, [], ◌∷◌, arith}
use stock_prediction.Base.Int.{ℤ, pos}
use stock_prediction.Calendar.{ZoneDatabase}
use stock_prediction.Number.Fixed.{fixed}
use stock_prediction.Schema.{up, small}
use stock_prediction.Verification.Evaluations.{CloseObservation, PriceObserved, Tables}
use stock_prediction.Verification.Pipeline.{
  Series, PredictionMade, Policy, Message, made, observed, receive_all,
}
use stock_prediction.Verification.Pipeline.Once.{IsSound, receive_all-IsSound}

-- Noon in UTC is noon there: a day has 86400 seconds.
abbrev database : ZoneDatabase
database name = some (record {
  local_date = λ t. t / 86400;
  wall = λ day hour minute. day * 86400 + hour * 3600 + minute * 60;
})

abbrev resolve : String → Option Series
resolve asset = some (record {
  timezone = "Europe/Stockholm";
  session_completion_hour = 18;
  session_completion_minute = 0;
  registry_version = "1";
  currency = "SEK";
  price_kind = "CLOSE";
  is_adjusted = false;
})

abbrev prediction : ℕ → Option ℕ → PredictionMade ℤ
prediction id superseded = record {
  prediction_id = id;
  context_id = 7;
  asset_id = "VOLVO";
  direction = up;
  magnitude = small;
  confidence = pos 500_000;
  decision_at = 10 * 86400 + 43200;
  contributing_edges = [];
  supersedes_prediction_id = superseded;
}

abbrev close : ℕ → ℕ → CloseObservation ℤ
close session amount = record {
  session = session;
  close = pos amount;
  price_kind = "CLOSE";
  is_adjusted = false;
  registry_version = "1";
  sample = none;
}

abbrev prices : ℕ → PriceObserved ℤ
prices id = record {
  request_id = id;
  prediction_id = id;
  asset_id = "VOLVO";
  baseline = close 9 100_000_000;
  settlement = close 10 103_000_000;
}

abbrev policy : Policy ℤ
policy = record {
  deadband = pos 5_000;
  magnitude_medium_min = pos 10_000;
  magnitude_large_min = pos 50_000;
}

abbrev messages : List (Message ℤ ℤ)
messages =
    made (prediction 1 none)
    ∷ made (prediction 1 none)
    ∷ observed (prices 1)
    ∷ observed (prices 1)
    ∷ made (prediction 2 none)
    ∷ made (prediction 3 (some 2))
    ∷ observed (prices 2)
    ∷ []

abbrev empty : Tables ℤ ℤ
empty = record {
  evaluations = [];
  observations = [];
  scores = [];
  requested = [];
  outbox_scored = [];
}

abbrev result : Tables ℤ ℤ
result = receive_all (λ x. x) database resolve (λ id version. id) policy messages empty

empty-IsSound : IsSound (λ x. x) policy empty
empty-IsSound = record {
  same_outbox = refl;
  one_request = λ id. refl;
  one_evaluation = λ id. ground arith;
  one_score = λ id. ground arith;
  backed = tt;
}

receive_all-IsSound_example : IsSound (λ x. x) policy result
receive_all-IsSound_example =
    receive_all-IsSound (λ x. x) database resolve (λ id version. id) policy messages empty
      empty-IsSound
