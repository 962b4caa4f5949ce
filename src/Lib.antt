-- ===== src/Lib.antt =====
-- The services of stock-prediction turn news events into predictions for assets and learn from how
-- they end. Ingestion polls sources behind circuit breakers; cleansing gathers articles in clusters
-- and makes one event of each; prediction weighs the causal edges that an
-- event fires into a direction; verification finds the two session closes that a prediction is scored
-- between and scores it; credibility moves the weights of the edges and the counts of the sources.
-- A gateway lends prompts of the other services to tabs of a browser, where providers answer them.
-- The services run apart from each other and exchange messages; each part below is one service's core.
--
-- Calendar: src/shared/shared/calendar/sessions.py. A date is its ordinal, an instant a
--   natural number, and a zone of the tz database what the code asks of it: the date at an instant
--   and the instant of a wall clock. `retreat` and `advance` are the two loops over dates; their fuel
--   is the number of days that the calendar has in that direction, where `date` overflows.
-- Breaker: src/services/ingestion/ingestion/resilience.py. `allows_request`, `record_success` and
--   `record_failure` are the methods, `fetch` the guarded call; its inner call is an `Outcome`.
-- Number: floats and decimals, as an instance of operations; a theorem names the laws it needs.
--   Number/Fixed is an instance at which they hold, for the tests.
-- Schema: enumerations and records of src/shared/shared/schemas/messages.py.
-- Cleansing: src/services/cleansing/cleansing. Clustering is clustering.py, Dedup dedup.py, Merge merge.py,
--   Store the tables and statements of repository.py, Pipeline `process_article` and
--   `close_ready_clusters` of pipeline.py. What the embedder, the extractor and the gateway answer is an
--   argument, as is `gated_assets_for_event_type` of the taxonomy. The steps run one after the other.
-- Prediction: src/services/prediction/prediction. Decision is decision.py (`decide`, without the text of
--   its rationale); Edge the edges of src/shared/shared/graph/models.py; Context context.py;
--   Repository the tables and statements of repository.py, a transaction being one step; Stance
--   `_store_prediction` and its tests, Propagation `_run_propagation`, Sweep `process_event` and
--   `close_ready_contexts` of pipeline.py. What the graph, the registry and the exchange calendars
--   answer is a record `World`. The loop over the levels of a propagation is structural, on the
--   levels that are left.
-- Verification/Scoring: src/services/verification/verification/scoring.py (`score`).
-- Verification/Sampled: src/services/verification/verification/sampled_policy.py (`evaluate_samples`).
--   Instants are microseconds. The loop over the scheduled instants has fuel for each step of the
--   session and one more (`enough_fuel` in Sampled/Slots).
-- Verification/Intraday: src/services/verification/verification/intraday_policy.py. Evaluate is the part
--   of `evaluate` for minute bars, LastKnown is `evaluate_last_known`, and LastKnown/Choose its tests and
--   `evaluate`. `resolve_window` asks a library of exchange calendars and is not modelled.
-- Verification/Evaluations and Verification/Pipeline: src/services/verification/verification/repository.py
--   and pipeline.py. The handlers `process_prediction` and `process_price` change the tables; what
--   they raise is a `Reply`. Pipeline/Once runs them on any sequence of messages.
-- Gateway: src/services/llm-browser-gateway/llm_browser_gateway. Store is the reservation store of
--   db.py, with instants as natural numbers; Engine is `complete` of engine.py: `route` is a function of
--   what the store and the adapters answer in each round, a pass over the providers. Its fuel is the
--   pauses of 100 ms that the deadline is away. Availability is when a provider takes a request.
-- Outbox: src/services/prediction/prediction/outbox.py, which the relays of cleansing and verification
--   repeat. A run is given what comes of each row, and may stop between two statements.
-- Credibility: src/services/credibility/credibility. Updater is updater.py; EdgeId the two parsers of
--   pipeline.py; Store the tables and transactions of repository.py; Edges the loops that write to the
--   graph; Pipeline the handler `process`; Learner is learning/estimator.py.
--   The graph client is a record of functions on a state of the graph, the asset registry two tests.
--   `process` is given what other deliveries do to both stores while it awaits its commit.
--   A database transaction is one step that happens or raises. What is written to the graph before an
--   exception stands, as in the code, which has no transaction over both stores.
--
-- All recursion but that over dates, scheduled instants and rounds of the gateway is structural, on lists,
-- strings and levels.
--
-- Not modelled: log lines, HTTP, SQL and Cypher texts, the message broker, schema validation, and the
-- parts of the services around these cores, among them the pipeline of ingestion, the taxonomy
-- of cleansing, market data, the socket and the adapters of the browser gateway, the
-- gateway that the services share, and the notifications. Nor are other deliveries of credibility
-- between the reads and writes of one edge. The browser extension is TypeScript.
pub mod Base
pub mod Calendar
pub mod Breaker
pub mod Outbox
pub mod Number
pub mod Schema
pub mod Verification
pub mod Cleansing
pub mod Credibility
pub mod Prediction
pub mod Gateway
