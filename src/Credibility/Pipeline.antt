-- ===== src/Credibility/Pipeline.antt =====
-- src/services/credibility/credibility/pipeline.py: applying one scored prediction to the graph and to
-- the tables. The two stores share no transaction. Other deliveries may run while one awaits its commit.
pub mod Rows
pub mod Endings
pub mod Guard
pub mod Race
pub mod Retry
mod Tests
use Prim.Native.String.{String}
use text.Mathlib.Text.{◌==◌ as str_eq}
use stock_prediction.Base.{
  ℕ, Bool, true, false, Option, none, some, List, [], ◌∷◌, ◌++◌, if◌then◌else◌,
}
use stock_prediction.Number.{Number}
use stock_prediction.Credibility.Updater.{Dict, compute_source_credits, apply_bernoulli}
use stock_prediction.Credibility.EdgeId.{Registry}
use stock_prediction.Credibility.Store.{
  source, WeightUpdate, Tables, already_processed, get_source_state, commit_updates,
}
use stock_prediction.Credibility.Edges.{
  GraphClient, PredictionScored, Policy, Loop, finished, invalid_message, key_error, update_edges,
}

module _ {R : Type 0} ⦃n : Number R⦄ where
  source_update : String → R × R → R × R → WeightUpdate R
  source_update id (alpha, beta) (alpha', beta') = record {
    entity_id = id;
    entity_type = source;
    alpha_before = alpha;
    beta_before = beta;
    alpha_after = alpha';
    beta_after = beta';
    weight_before = none;
    weight_after = none;
  }

  -- The counts that a source starts from: those stored, or the floor.
  source_start : R → Option (R × R) → R × R
  source_start floor none = (floor, floor)
  source_start floor (some state) = state

  -- The loop of `_update_sources` over the credits.
  credit_sources : R → Bool → Dict R → Tables R → List (WeightUpdate R)
  unfolding source_update source_start
  credit_sources floor hit [] t = []
  credit_sources floor hit ((id, credit) ∷ rest) t =
      let before = source_start floor (get_source_state id t) in
      source_update id before (apply_bernoulli before.0 before.1 credit hit floor)
      ∷ credit_sources floor hit rest t

  -- `_update_sources`; `normalise` is `strip().lower()`.
  pub update_sources : (String → String) → R → PredictionScored R → Tables R → List (WeightUpdate R)
  unfolding credit_sources
  update_sources normalise floor m t =
      credit_sources floor m.is_correct (compute_source_credits normalise m.source_ids) t

-- How `process` ends: it returns true or false, or it raises.
pub data Reply : Type 0 where
  applied ignored rejected failed_lookup commit_failed : Reply

pub data Verdict : Type 0 where
  duplicate withdrawn fresh : Verdict

-- The two stores, and the status of each prediction in the schema of the prediction service.
pub record World (G R : Type 0) : Type 0 where
  pub graph : G
  pub tables : Tables R
  pub status : ℕ → Option String

pub is_withdrawn : Option String → Bool
is_withdrawn none = false
is_withdrawn (some s) = str_eq s "WITHDRAWN"

reply_of : Bool → Reply
reply_of true = applied
reply_of false = ignored

module _ {G R : Type 0} where
  -- The two early returns.
  pub verdict : ℕ → World G R → Verdict
  unfolding is_withdrawn
  verdict id w =
      if already_processed id w.tables
      then duplicate
      else if is_withdrawn (w.status id)
      then withdrawn
      else fresh

  -- `commit_updates` under `try`: a database fault raises, and leaves the tables.
  pub commit : Bool → ℕ → List (WeightUpdate R) → World G R → World G R × Reply
  unfolding reply_of
  commit true id updates w = (w, commit_failed)
  commit false id updates w =
      let (tables, claimed) = commit_updates id updates w.tables in
      (record w { tables = tables }, reply_of claimed)

  -- The guard row of a withdrawn prediction, with no updates.
  pub claim : Bool → ℕ → World G R → World G R × Reply
  claim true id w = (w, commit_failed)
  claim false id w = (record w { tables = (commit_updates id [] w.tables).0 }, ignored)

-- The end of `process`, when the edges are done. `meanwhile` is what other deliveries do to the stores while
-- this one awaits the commit.
pub finish :
    {G R : Type 0}
    → Bool
    → ℕ
    → List (WeightUpdate R)
    → (World G R → World G R)
    → Loop (List (WeightUpdate R))
    → World G R
    → World G R × Reply
unfolding commit
finish fault id sources meanwhile invalid_message w = (w, rejected)
finish fault id sources meanwhile key_error w = (w, failed_lookup)
finish fault id sources meanwhile (finished edges) w =
    commit fault id (edges ++ sources) (meanwhile w)

module _ {G R : Type 0} ⦃n : Number R⦄ (client : GraphClient G R) (registry : Registry)
    (policy : Policy R) (normalise : String → String) where
  -- The graph after the edges of the message, and the updates of the message.
  pub write_edges : PredictionScored R → World G R → World G R × Loop (List (WeightUpdate R))
  write_edges m w =
      let (g, loop) = update_edges client registry policy m w.graph in
      (record w { graph = g }, loop)

  -- The part of `process` behind the two early returns.
  pub apply_message :
      Bool → (World G R → World G R) → PredictionScored R → World G R → World G R × Reply
  unfolding write_edges finish
  apply_message fault meanwhile m w =
      let (w', loop) = write_edges m w in
      finish fault m.prediction_id (update_sources normalise policy.prior_floor m w'.tables)
        meanwhile loop w'

  act :
      Verdict → Bool → (World G R → World G R) → PredictionScored R → World G R → World G R × Reply
  unfolding apply_message claim
  act duplicate fault meanwhile m w = (w, ignored)
  act withdrawn fault meanwhile m w = claim fault m.prediction_id w
  act fresh fault meanwhile m w = apply_message fault meanwhile m w

  -- `CredibilityPipeline.process`, with or without a fault of the database at its commit.
  pub process : Bool → (World G R → World G R) → PredictionScored R → World G R → World G R × Reply
  unfolding act verdict
  process fault meanwhile m w = act (verdict m.prediction_id w) fault meanwhile m w

-- No other delivery runs.
abbrev pub alone : {W : Type 0} → W → W
alone w = w
