-- ===== src/Prediction/Sweep.antt =====
-- src/services/prediction/prediction/pipeline.py: `process_event`, which adds an event to the context of
-- each of its assets, and `close_ready_contexts`, the sweep that closes contexts into predictions. The
-- capture for research, which nothing reads here, is left out.
pub mod Settled
use Prim.Native.String.{String}
use text.Mathlib.Text.{◌==◌ as str_eq}
use stock_prediction.Base.{
  ℕ, ◌+◌, ◌*◌, Bool, true, false, not, ◌&&◌, ◌||◌, Option, none, some, List, [], ◌∷◌, ◌++◌, map,
  any, filter_by, if◌then◌else◌,
}
use stock_prediction.Number.{Number, lt}
use stock_prediction.Schema.{
  Direction, neutral, EventPolarity, occurrence, resolution, same_direction,
}
use stock_prediction.Prediction.Edge.{FiringEdge}
use stock_prediction.Prediction.Decision.{
  Decision, Decided, no_decision, decided, zero_division, decide,
}
use stock_prediction.Prediction.Context.{minute, window_bounds}
use stock_prediction.Prediction.Repository.{
  Context, ContextEvent, Tables, predicted, error_retryable, set_context_state, load_context_events,
}
use stock_prediction.Prediction.Repository.Contexts.{assign_event, claim_ready_contexts}
use stock_prediction.Prediction.Stance.{World, Settings, store_prediction}
use stock_prediction.Prediction.Propagation.{Propagated, went_on, raised, run_propagation}

-- `_conditions_by_type`: the set of a type, in the order of the types.
abbrev pub Conditions : Type 0
Conditions = List (String × List String)

add_tags : List String → List String → List String
add_tags known [] = known
add_tags known (c ∷ cs) = add_tags (if any (str_eq c) known then known else known ++ (c ∷ [])) cs

update_type : String → List String → Conditions → Conditions
unfolding add_tags
update_type type_ tags [] = (type_, add_tags [] tags) ∷ []
update_type type_ tags ((t, known) ∷ rest) =
    let later = update_type type_ tags rest in
    if str_eq t type_ then (t, add_tags known tags) ∷ rest else (t, known) ∷ later

conditions_from : Conditions → List ContextEvent → Conditions
unfolding update_type
conditions_from by_type [] = by_type
conditions_from by_type (e ∷ es) =
    conditions_from (update_type e.event_type e.context_tags by_type) es

pub conditions_by_type : List ContextEvent → Conditions
unfolding conditions_from
conditions_by_type events = conditions_from [] events

is_resolved : EventPolarity → Bool
is_resolved resolution = true
is_resolved occurrence = false

all_resolved : List ContextEvent → EventPolarity
unfolding is_resolved
all_resolved [] = resolution
all_resolved (e ∷ es) = if is_resolved e.polarity then all_resolved es else occurrence

polarity_of : List ContextEvent → Option EventPolarity
unfolding all_resolved
polarity_of [] = none
polarity_of (e ∷ es) = some (all_resolved (e ∷ es))

-- `_polarity_by_type`, as its `get`.
pub polarity_by_type : List ContextEvent → String → Option EventPolarity
unfolding polarity_of
polarity_by_type events type_ = polarity_of (filter_by (λ e. str_eq e.event_type type_) events)

module _ {R : Type 0} where
  extend :
      Option (List (FiringEdge R)) → Option (List (FiringEdge R)) → Option (List (FiringEdge R))
  extend (some edges) (some more) = some (edges ++ more)
  extend none more = none
  extend (some edges) none = none

  edges_of : World R → String → List String → Conditions → Option (List (FiringEdge R))
  unfolding extend add_tags
  edges_of w asset extra [] = some []
  edges_of w asset extra ((type_, conditions) ∷ rest) =
      extend (w.get_firing_edges type_ asset (add_tags conditions extra))
        (edges_of w asset extra rest)

  -- `_firing_edges`; `none` is a `GraphError` of any of its calls.
  pub firing_edges : World R → String → List ContextEvent → Bool → Option (List (FiringEdge R))
  unfolding edges_of
  firing_edges w asset events elevated =
      edges_of w asset (if elevated then "RISK_PREMIUM_ELEVATED" ∷ [] else [])
        (conditions_by_type events)

  -- The loop of `process_event` over the assets; `fresh` gives each its new id.
  pub assign_assets : (ℕ → ℕ) → ContextEvent → ℕ → ℕ → ℕ → List String → Tables R → Tables R
  assign_assets fresh event window_start window_end i [] t = t
  assign_assets fresh event window_start window_end i (a ∷ rest) t =
      assign_assets fresh event window_start window_end (i + 1) rest
        (assign_event (fresh i) a event window_start window_end t)

  -- `process_event`
  unfoldable pub process_event : (ℕ → ℕ) → ℕ → ContextEvent → List String → Tables R → Tables R
  unfolding assign_assets
  process_event fresh window_minutes event affected t =
      let (window_start, window_end) = window_bounds event.first_seen_at window_minutes in
      assign_assets fresh event window_start window_end 0 affected t

-- A context whose direct decision is to be propagated.
pub record Deferred (R : Type 0) : Type 0 where
  pub context : Context
  pub decision : Decision R
  pub events : List ContextEvent

-- Where the sweep stands; `direct` are the keys of `direct_by_asset`.
pub record Swept (R : Type 0) : Type 0 where
  pub tables : Tables R
  pub produced : ℕ
  pub direct : List String
  pub deferred : List (Deferred R)

-- A sweep that raised leaves its tables.
pub data Sweep (R : Type 0) : Type 0 where
  runs : Swept R → Sweep R
  fails : Tables R → Sweep R

one_if : Bool → ℕ
one_if true = 1
one_if false = 0

module _ {R : Type 0} ⦃n : Number R⦄ where
  -- After the direct prediction: defer it, or settle the context.
  keep_direct : Context → Decision R → List ContextEvent → Swept R → Tables R × Bool → Swept R
  unfolding one_if
  keep_direct c d events a (t, stored) =
      if same_direction d.direction neutral
      then record a {
        tables = set_context_state c.context_id predicted t;
        produced = a.produced + one_if stored;
      }
      else record a {
        tables = t;
        produced = a.produced + one_if stored;
        direct = c.asset_id ∷ a.direct;
        deferred = a.deferred ++ (record { context = c; decision = d; events = events } ∷ []);
      }

  pub decide_context :
      World R → Settings R → ℕ → Context → List ContextEvent → Decided R → Swept R → Sweep R
  unfolding keep_direct
  decide_context w s now c events no_decision a =
      runs (record a { tables = set_context_state c.context_id predicted a.tables })
  decide_context w s now c events zero_division a = fails a.tables
  decide_context w s now c events (decided d) a =
      runs (keep_direct c d events a (store_prediction w s c d now events 0 [] a.tables))

  pub infer_context :
      World R
      → Settings R
      → ℕ
      → Context
      → List ContextEvent
      → Option (List (FiringEdge R))
      → Swept R
      → Sweep R
  unfolding decide_context
  infer_context w s now c events none a =
      runs (record a { tables = set_context_state c.context_id error_retryable a.tables })
  infer_context w s now c events (some edges) a =
      decide_context w s now c events
        (decide s.decision_deadband s.magnitude_small_max s.magnitude_medium_max
          s.confidence_evidence_halfpoint (polarity_by_type events) (w.is_elevated c.asset_id)
          edges)
        a

  -- Pass 0: the loop over the claimed contexts.
  pub direct_pass : World R → Settings R → ℕ → List Context → Sweep R → Sweep R
  unfolding infer_context
  direct_pass w s now claimed (fails t) = fails t
  direct_pass w s now [] (runs a) = runs a
  direct_pass w s now (c ∷ rest) (runs a) =
      let events = load_context_events c.context_id a.tables in
      direct_pass w s now rest (
        infer_context w s now c events (firing_edges w c.asset_id events (w.is_elevated c.asset_id))
          a)

  settle_context : ℕ → Swept R → Propagated R → Sweep R
  settle_context id a (went_on l) = runs (record a {
    tables = set_context_state id predicted l.tables;
    produced = a.produced + l.produced;
  })
  settle_context id a (raised t) = fails t

  pub propagate_one : World R → Settings R → ℕ → Deferred R → Swept R → Sweep R
  unfolding settle_context
  propagate_one w s now p a =
      if lt p.decision.confidence s.propagation_min_confidence
      then runs (record a { tables = set_context_state p.context.context_id predicted a.tables })
      else settle_context p.context.context_id a (
          run_propagation w s p.context p.decision.direction (p.context.asset_id ∷ a.direct) now
            p.events a.tables)

  -- Passes 1 and on: the loop over the deferred ones.
  pub propagation_pass : World R → Settings R → ℕ → List (Deferred R) → Sweep R → Sweep R
  unfolding propagate_one
  propagation_pass w s now deferred (fails t) = fails t
  propagation_pass w s now [] (runs a) = runs a
  propagation_pass w s now (p ∷ rest) (runs a) =
      propagation_pass w s now rest (propagate_one w s now p a)

  both_passes : World R → Settings R → ℕ → Sweep R → Sweep R
  unfolding propagation_pass
  both_passes w s now (fails t) = fails t
  both_passes w s now (runs a) = propagation_pass w s now a.deferred (runs a)

  -- `close_ready_contexts`, on at most 20 contexts.
  unfoldable pub close_ready_contexts : World R → Settings R → ℕ → Tables R → Sweep R
  unfolding direct_pass both_passes
  close_ready_contexts w s now t =
      let (tables, claimed) = claim_ready_contexts now (s.close_grace_minutes * minute) 20 t in
      both_passes w s now (
        direct_pass w s now claimed
          (runs (record { tables = tables; produced = 0; direct = []; deferred = [] })))
