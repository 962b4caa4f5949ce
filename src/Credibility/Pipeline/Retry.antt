-- ===== src/Credibility/Pipeline/Retry.antt =====
-- src/services/credibility/credibility/pipeline.py, `process`: a message whose commit fails, and which
-- is delivered again. The code says that a retry re-applies the credit, SRS-07 that it is a no-op.
use Prim.Native.String.{String}
use stock_prediction.Base.{true, false, List, ◌++◌, ◌≡◌, ◌∙◌}
use stock_prediction.Number.{Number}
use stock_prediction.Credibility.EdgeId.{Registry}
use stock_prediction.Credibility.Store.{WeightUpdate, commit_updates}
use stock_prediction.Credibility.Edges.{
  GraphClient, PredictionScored, Policy, finished, update_edges,
}
use stock_prediction.Credibility.Pipeline.{
  applied, commit_failed, World, verdict, fresh, commit, update_sources, process, alone,
}
use stock_prediction.Credibility.Pipeline.Rows.{verdict-new, commit-new}
use stock_prediction.Credibility.Pipeline.Endings.{written}
use stock_prediction.Credibility.Pipeline.Race.{verdict-graph, process-fresh}

module _ {G R : Type 0} ⦃n : Number R⦄ (client : GraphClient G R) (registry : Registry)
    (policy : Policy R) (normalise : String → String) where
  -- A new message whose edges raise nothing and whose commit fails leaves the tables, with the edges
  -- written. Delivered again, it is new still: the edges are written on top of the first time, and
  -- the tables are those of one delivery.
  pub process-process_fault :
      (m : PredictionScored R) (w : World G R) (us vs : List (WeightUpdate R))
      → verdict m.prediction_id w ≡ fresh
      → (update_edges client registry policy m w.graph).1 ≡ finished us
      → (update_edges client registry policy m
          (written client registry policy normalise m w.graph)).1
        ≡ finished vs
      → let once = written client registry policy normalise m w.graph in
        let twice = written client registry policy normalise m once in
        let rows = vs ++ update_sources normalise policy.prior_floor m w.tables in
        (process client registry policy normalise true alone m w
          ≡ (record w { graph = once }, commit_failed))
        × (process client registry policy normalise false alone m (record w { graph = once }) ≡ (
          record w { graph = twice; tables = (commit_updates m.prediction_id rows w.tables).0 },
          applied,
        ))
  unfolding commit
  process-process_fault m w us vs new hu hv =
      let once = written client registry policy normalise m w.graph in
      let again = verdict-graph m.prediction_id w once ∙ new in
      (
        process-fresh client registry policy normalise true alone m w us new hu,
        process-fresh client registry policy normalise false alone m (record w { graph = once }) vs
              again hv
            ∙ commit-new m.prediction_id
                (vs ++ update_sources normalise policy.prior_floor m w.tables)
                (record w { graph = written client registry policy normalise m once })
                (verdict-new m.prediction_id w new),
      )
