-- ===== src/Credibility/Pipeline/Endings.antt =====
-- src/services/credibility/credibility/pipeline.py, `process`: what each way to end has done to the two stores,
-- whatever other deliveries do while this one awaits its commit.
use Prim.Native.String.{String}
use stock_prediction.Base.{ℕ, Bool, true, false, List, ◌∷◌, ◌++◌, ◌≡◌, ◌⊎◌}
use stock_prediction.Number.{Number}
use stock_prediction.Credibility.EdgeId.{Registry}
use stock_prediction.Credibility.Store.{WeightUpdate, already_processed, get_source_state}
use stock_prediction.Credibility.Store.Commits.{tag, counts_after}
use stock_prediction.Credibility.Edges.{
  GraphClient, PredictionScored, Policy, Loop, finished, invalid_message, key_error, update_edges,
}
use stock_prediction.Credibility.Pipeline.{
  Reply, applied, ignored, rejected, failed_lookup, commit_failed, World, is_withdrawn,
}
use stock_prediction.Credibility.Pipeline.Rows.{source_rows}

module _ {G R : Type 0} ⦃n : Number R⦄ (client : GraphClient G R) (registry : Registry)
    (policy : Policy R) (normalise : String → String) where
  -- What the loop over the edges of a message leaves of the graph, and how it ends.
  abbrev pub written : PredictionScored R → G → G
  written m g = (update_edges client registry policy m g).0

  abbrev pub loop_of : PredictionScored R → World G R → Loop (List (WeightUpdate R))
  loop_of m w = (update_edges client registry policy m w.graph).1

  -- The stores when a delivery commits: its edges are written, and others have run meanwhile.
  abbrev pub amid : (World G R → World G R) → PredictionScored R → World G R → World G R
  amid meanwhile m w = meanwhile (record w { graph = written m w.graph })

  -- The message was not processed and its prediction stands.
  abbrev pub IsOpen : PredictionScored R → World G R → Type 0
  IsOpen m w =
      (already_processed m.prediction_id w.tables ≡ false)
      × (is_withdrawn (w.status m.prediction_id) ≡ false)

  -- A commit adds the id, and the rows of the edges and of the sources, to the stores `u` of that moment.
  pub record IsApplied (m : PredictionScored R) (w u after : World G R) : Type 0 where
    pub is_open : IsOpen m w
    pub edges : List (WeightUpdate R)
    pub done : loop_of m w ≡ finished edges
    pub unclaimed : already_processed m.prediction_id u.tables ≡ false
    pub graph : after.graph ≡ u.graph
    pub processed : after.tables.processed ≡ m.prediction_id ∷ u.tables.processed
    pub history :
        after.tables.history
        ≡ u.tables.history
          ++ tag m.prediction_id (edges ++ source_rows normalise policy.prior_floor m w.tables)
    pub sources :
        (k : String)
        → get_source_state k after.tables
          ≡ counts_after k
              (edges ++ source_rows normalise policy.prior_floor m w.tables)
              (get_source_state k u.tables)

  -- The stores are those of the moment of the commit, `u`: the edges are written, nothing else is.
  abbrev pub IsLost : PredictionScored R → World G R → World G R → World G R → Type 0
  IsLost m w u after =
      IsOpen m w × ((edges : List (WeightUpdate R)) × (loop_of m w ≡ finished edges)) × (after ≡ u)

  -- The prediction is withdrawn, and not processed before.
  abbrev pub IsWithdrawn : PredictionScored R → World G R → Type 0
  IsWithdrawn m w =
      (already_processed m.prediction_id w.tables ≡ false)
      × (is_withdrawn (w.status m.prediction_id) ≡ true)

  abbrev pub claimed : ℕ → World G R → World G R
  claimed id w = record w { tables = record w.tables { processed = id ∷ w.tables.processed } }

  -- What each ending says of the stores before and after, and of the stores `u` at the commit.
  unfoldable pub Committed :
      Reply → Bool → PredictionScored R → World G R → World G R → World G R → Type 0
  Committed applied fault m w u after = (fault ≡ false) × IsApplied m w u after
  Committed ignored fault m w u after =
      ((already_processed m.prediction_id w.tables ≡ true) × (after ≡ w))
      ⊎ ((fault ≡ false) × IsWithdrawn m w × (after ≡ claimed m.prediction_id w))
      ⊎ ((fault ≡ false) × (already_processed m.prediction_id u.tables ≡ true) × IsLost m w u after)
  Committed rejected fault m w u after =
      IsOpen m w
      × (loop_of m w ≡ invalid_message)
      × (after ≡ record w { graph = written m w.graph })
  Committed failed_lookup fault m w u after =
      IsOpen m w × (loop_of m w ≡ key_error) × (after ≡ record w { graph = written m w.graph })
  Committed commit_failed fault m w u after =
      (fault ≡ true) × ((IsWithdrawn m w × (after ≡ w)) ⊎ IsLost m w u after)

  abbrev Outcome : Bool → PredictionScored R → World G R → World G R → World G R × Reply → Type 0
  Outcome fault m w u (after, reply) = Committed reply fault m w u after
