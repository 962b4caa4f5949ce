-- ===== src/Credibility/Pipeline/Rows.antt =====
-- src/services/credibility/credibility/pipeline.py: what the verdict says, what a commit does, and the rows of the
-- credited sources.
use Prim.Native.String.{String}
use mathlib.Core.Path.{subst}
use stock_prediction.Base.{
  ℕ, Bool, true, false, Option, none, some, List, [], ◌∷◌, map, ◌≡◌, refl, sym, ap, ◌∙◌, arith, ◌↔◌,
}
use stock_prediction.Number.{Number}
use stock_prediction.Credibility.Updater.{Dict, compute_source_credits, apply_bernoulli}
use stock_prediction.Credibility.Store.{
  source, WeightUpdate, Tables, already_processed, get_source_state, commit_updates,
}
use stock_prediction.Credibility.Store.Commits.{commit_updates-new}
use stock_prediction.Credibility.Edges.{PredictionScored}
use stock_prediction.Credibility.Pipeline.{
  Reply, applied, ignored, World, verdict, duplicate, withdrawn, fresh, reply_of, commit,
  is_withdrawn, update_sources, credit_sources, source_update, source_start,
}

module _ {G R : Type 0} where
  -- What the verdict says.
  pub verdict-new :
      (id : ℕ) (w : World G R) → verdict id w ≡ fresh → already_processed id w.tables ≡ false
  unfolding verdict
  verdict-new id w h = ground arith

  pub verdict-duplicate :
      (id : ℕ) (w : World G R) → (verdict id w ≡ duplicate) ↔ (already_processed id w.tables ≡ true)
  unfolding verdict
  verdict-duplicate id w = ground arith

  pub verdict-withdrawn :
      (id : ℕ) (w : World G R)
      → verdict id w ≡ withdrawn
      → (already_processed id w.tables ≡ false) × (is_withdrawn (w.status id) ≡ true)
  unfolding verdict
  verdict-withdrawn id w h = ground arith

  pub verdict-fresh :
      (id : ℕ) (w : World G R)
      → verdict id w ≡ fresh
      → (already_processed id w.tables ≡ false) × (is_withdrawn (w.status id) ≡ false)
  unfolding verdict
  verdict-fresh id w h = ground arith

  pub commit-new :
      (id : ℕ) (us : List (WeightUpdate R)) (w : World G R)
      → already_processed id w.tables ≡ false
      → commit false id us w ≡ (record w { tables = (commit_updates id us w.tables).0 }, applied)
  unfolding commit reply_of
  commit-new id us w h =
      subst
        (λ r.
          ◌≡◌ {A = World G R × Reply} (record w { tables = r.0 }, reply_of r.1)
            (record w { tables = r.0 }, applied))
        (sym (commit_updates-new id us w.tables h)) refl

  pub commit-seen :
      (id : ℕ) (us : List (WeightUpdate R)) (w : World G R)
      → already_processed id w.tables ≡ true
      → commit false id us w ≡ (w, ignored)
  unfolding commit reply_of commit_updates
  commit-seen id us w h = ground (arith, h)

module _ {R : Type 0} ⦃n : Number R⦄ where
  -- The counts that are stored for a source, or the floor twice.
  counts_or : R → Option (R × R) → R × R
  counts_or floor none = (floor, floor)
  counts_or floor (some counts) = counts

  -- The row of a source with a credit: from its counts, one observation on.
  row_from : R → Bool → String → R → Option (R × R) → WeightUpdate R
  row_from floor hit id credit counts =
      let (alpha, beta) = counts_or floor counts in
      let (alpha', beta') = apply_bernoulli alpha beta credit hit floor in
      record {
        entity_id = id;
        entity_type = source;
        alpha_before = alpha;
        beta_before = beta;
        alpha_after = alpha';
        beta_after = beta';
        weight_before = none;
        weight_after = none;
      }

  source_row : R → Bool → Tables R → String × R → WeightUpdate R
  unfolding row_from
  source_row floor hit t (id, credit) = row_from floor hit id credit (get_source_state id t)

  pub source_rows : (String → String) → R → PredictionScored R → Tables R → List (WeightUpdate R)
  unfolding source_row
  source_rows normalise floor m t =
      map (source_row floor m.is_correct t) (compute_source_credits normalise m.source_ids)

  source_update-row_from :
      (floor : R) (hit : Bool) (id : String) (credit : R) (counts : Option (R × R))
      → let before = source_start floor counts in
        source_update id before (apply_bernoulli before.0 before.1 credit hit floor)
        ≡ row_from floor hit id credit counts
  unfolding source_update row_from counts_or source_start
  source_update-row_from floor hit id credit none = refl
  source_update-row_from floor hit id credit (some counts) = refl

  credit_sources-row :
      (floor : R) (hit : Bool) (credits : Dict R) (t : Tables R)
      → credit_sources floor hit credits t ≡ map (source_row floor hit t) credits
  unfolding credit_sources source_row
  credit_sources-row floor hit [] t = refl
  credit_sources-row floor hit ((id, credit) ∷ rest) t =
      ap (λ u. u ∷ credit_sources floor hit rest t)
        (source_update-row_from floor hit id credit (get_source_state id t))
      ∙ ap (λ us. row_from floor hit id credit (get_source_state id t) ∷ us)
          (credit_sources-row floor hit rest t)

  pub update_sources-source_rows :
      (normalise : String → String) (floor : R) (m : PredictionScored R) (t : Tables R)
      → update_sources normalise floor m t ≡ source_rows normalise floor m t
  unfolding update_sources source_rows
  update_sources-source_rows normalise floor m t =
      credit_sources-row floor m.is_correct (compute_source_credits normalise m.source_ids) t
