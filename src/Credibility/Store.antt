-- ===== src/Credibility/Store.antt =====
-- src/services/credibility/credibility/repository.py: the tables of the credibility schema. A transaction
-- is one step on the tables, or raises and leaves them. Prediction ids are numbers. The columns that
-- are computed from the counts (the score, the interval) are left out of the rows.
pub mod Commits
use Prim.Native.String.{String}
use stock_prediction.Base.{
  ℕ, Bool, true, false, Option, List, [], ◌∷◌, ◌++◌, any, ◌==◌, if◌then◌else◌,
}
use stock_prediction.Credibility.Updater.{Dict, get, assign}

-- `updater.WeightUpdate`; the kind is `entity_type`.
pub data EntityType : Type 0 where
  edge source : EntityType

pub record WeightUpdate (R : Type 0) : Type 0 where
  pub entity_id : String
  pub entity_type : EntityType
  pub alpha_before : R
  pub beta_before : R
  pub alpha_after : R
  pub beta_after : R
  pub weight_before : Option R
  pub weight_after : Option R

pub record Tables (R : Type 0) : Type 0 where
  -- `processed_predictions`
  pub processed : List ℕ
  -- `credibility`, its rows of sources, with both counts
  pub sources : Dict (R × R)
  -- `credibility_history`
  pub history : List (ℕ × WeightUpdate R)

module _ {R : Type 0} where
  unfoldable pub already_processed : ℕ → Tables R → Bool
  already_processed id t = any (λ p. p == id) t.processed

  pub get_source_state : String → Tables R → Option (R × R)
  get_source_state id t = get id t.sources

  upsert : EntityType → WeightUpdate R → Dict (R × R) → Dict (R × R)
  upsert source u d = assign u.entity_id (u.alpha_after, u.beta_after) d
  upsert edge u d = d

  -- The loop of `commit_updates` over the updates.
  unfoldable pub apply_updates : ℕ → List (WeightUpdate R) → Tables R → Tables R
  unfolding upsert
  apply_updates id [] t = t
  apply_updates id (u ∷ us) t = apply_updates id us (record t {
    sources = upsert u.entity_type u t.sources;
    history = t.history ++ ((id, u) ∷ []);
  })

  -- `commit_updates`; the result says whether the guard row was new.
  unfoldable pub commit_updates : ℕ → List (WeightUpdate R) → Tables R → Tables R × Bool
  unfolding already_processed apply_updates
  commit_updates id updates t =
      if already_processed id t
      then (t, false)
      else (apply_updates id updates (record t { processed = id ∷ t.processed }), true)
