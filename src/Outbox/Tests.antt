-- ===== src/Outbox/Tests.antt =====
-- A run that fails and one that stops between the broker and the table, and the witness.
use Prim.Native.String.{String}
use stock_prediction.Base.{ℕ, refl, none, List, [], ◌∷◌, map, ◌==◌, if◌then◌else◌}
use stock_prediction.Outbox.{
  Row, Relay, Answer, accepted, failed, stopped_after, pending, DeliveryStatus, publish_runs,
}
use stock_prediction.Outbox.Lossless.{IsLossless, messages, publish_runs-IsLossless}

abbrev row : ℕ → Row String
row id = record {
  message_id = id;
  payload = "event";
  created_at = id;
  delivery_status = pending;
  attempts = 0;
  last_error = none;
}

abbrev start : Relay String
start = record { rows = row 3 ∷ row 1 ∷ row 2 ∷ []; published = [] }

-- In the first run the broker takes 1, refuses 2, and the service stops after it has published 3.
abbrev first_run : ℕ → Answer
first_run id = if id == 1 then accepted else if id == 2 then failed "unreachable" else stopped_after

abbrev runs : List ((ℕ → Answer) × ℕ)
runs = (first_run, 100) ∷ (λ id. accepted, 1) ∷ []

abbrev after : Relay String
after = publish_runs runs start

abbrev after_status : List (ℕ × DeliveryStatus)
after_status = map (λ r. (r.message_id, r.delivery_status)) after.rows

publish_runs-IsLossless_example : IsLossless (messages start.rows) after
publish_runs-IsLossless_example =
    publish_runs-IsLossless runs (messages start.rows) start
      (record { kept = refl; backed = (refl, (refl, (refl, tt))) })
