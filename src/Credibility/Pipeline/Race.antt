-- ===== src/Credibility/Pipeline/Race.antt =====
-- src/services/credibility/credibility/pipeline.py, `process`: a delivery that loses the race for the guard. The
-- consumer may hold several messages at once, and `process` awaits between its reads and its commit.
use Prim.Native.String.{String}
use stock_prediction.Base.{ℕ, Bool, false, List, ◌++◌, ◌≡◌, refl, ap, ◌∙◌}
use stock_prediction.Number.{Number}
use stock_prediction.Credibility.EdgeId.{Registry}
use stock_prediction.Credibility.Store.{WeightUpdate, commit_updates}
use stock_prediction.Credibility.Store.Commits.{already_processed-commit_updates}
use stock_prediction.Credibility.Edges.{
  GraphClient, PredictionScored, Policy, finished, update_edges,
}
use stock_prediction.Credibility.Pipeline.{
  ignored, World, verdict, fresh, act, finish, commit, write_edges, update_sources, apply_message,
  process, alone,
}
use stock_prediction.Credibility.Pipeline.Rows.{verdict-new, commit-new, commit-seen}
use stock_prediction.Credibility.Pipeline.Endings.{written}

module _ {G R : Type 0} where
  -- The verdict does not look at the graph.
  pub verdict-graph :
      (id : ℕ) (w : World G R) (g : G) → verdict id (record w { graph = g }) ≡ verdict id w
  unfolding verdict
  verdict-graph id w g = refl

module _ {G R : Type 0} ⦃n : Number R⦄ (client : GraphClient G R) (registry : Registry)
    (policy : Policy R) (normalise : String → String) where
  pub process-fresh :
      (fault : Bool) (meanwhile : World G R → World G R) (m : PredictionScored R) (w : World G R)
      (us : List (WeightUpdate R))
      → verdict m.prediction_id w ≡ fresh
      → (update_edges client registry policy m w.graph).1 ≡ finished us
      → process client registry policy normalise fault meanwhile m w
        ≡ commit fault m.prediction_id
            (us ++ update_sources normalise policy.prior_floor m w.tables)
            (meanwhile (record w { graph = written client registry policy normalise m w.graph }))
  unfolding process act apply_message write_edges finish
  process-fresh fault meanwhile m w us new done =
      ap (λ v. act client registry policy normalise v fault meanwhile m w) new
      ∙ ap
          (λ l.
            finish fault m.prediction_id (update_sources normalise policy.prior_floor m w.tables)
              meanwhile l (record w { graph = written client registry policy normalise m w.graph }))
          done

  -- A new message is delivered twice, neither delivery raises, and the second delivery runs as a whole while
  -- the first, which has written its edges, awaits its commit. The first is then ignored, and the tables are
  -- those of the second; but the weights of the edges are written twice, the second time on top of the first.
  pub process-process_lost :
      (m : PredictionScored R) (w : World G R) (us vs : List (WeightUpdate R))
      → verdict m.prediction_id w ≡ fresh
      → (update_edges client registry policy m w.graph).1 ≡ finished us
      → (update_edges client registry policy m
          (written client registry policy normalise m w.graph)).1
        ≡ finished vs
      → let second =
          λ (u : World G R). (process client registry policy normalise false alone m u).0 in
        let once = written client registry policy normalise m w.graph in
        let rows = vs ++ update_sources normalise policy.prior_floor m w.tables in
        process client registry policy normalise false second m w ≡ (
          record w {
            graph = written client registry policy normalise m once;
            tables = (commit_updates m.prediction_id rows w.tables).0;
          },
          ignored,
        )
  process-process_lost m w us vs new hu hv =
      let id = m.prediction_id in
      let sources = update_sources normalise policy.prior_floor m w.tables in
      let once = written client registry policy normalise m w.graph in
      let again = verdict-graph id w once ∙ new in
      let second =
        λ (u : World G R). (process client registry policy normalise false alone m u).0 in
      let v : World G R = record w { graph = written client registry policy normalise m once } in
      let after : World G R = record v {
        tables = (commit_updates id (vs ++ sources) w.tables).0;
      } in
      process-fresh false second m w us new hu
      ∙ ap (λ r. commit false id (us ++ sources) r.0)
          (process-fresh false alone m (record w { graph = once }) vs again hv
            ∙ commit-new id (vs ++ sources) v (verdict-new id w new))
      ∙ commit-seen id (us ++ sources) after
          (already_processed-commit_updates id (vs ++ sources) w.tables)
