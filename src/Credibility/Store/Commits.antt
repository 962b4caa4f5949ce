-- ===== src/Credibility/Store/Commits.antt =====
-- src/services/credibility/credibility/repository.py: what a commit does to the tables.
use Prim.Native.String.{String}
use text.Mathlib.Text.{◌==◌ as str_eq}
use mathlib.Core.List.{append-nil, append_assoc}
use stock_prediction.Base.{
  ℕ, Bool, true, false, ◌&&◌, Option, some, List, [], ◌∷◌, ◌++◌, map, ◌≡◌, refl, sym, ap, ◌∙◌,
  arith, ==_iff, Bool-cases, inl, inr, if◌then◌else◌,
}
use stock_prediction.Credibility.Updater.{Dict, get}
use stock_prediction.Credibility.Updater.Shares.{get-assign}
use stock_prediction.Credibility.Store.{
  EntityType, edge, source, WeightUpdate, Tables, already_processed, get_source_state, upsert,
  apply_updates, commit_updates,
}

abbrev is_source : EntityType → Bool
is_source source = true
is_source edge = false

module _ {R : Type 0} where
  -- Each update with the prediction that it is of.
  abbrev pub tag : ℕ → List (WeightUpdate R) → List (ℕ × WeightUpdate R)
  tag id us = map (λ u. (id, u)) us

  pub history-apply_updates :
      (id : ℕ) (us : List (WeightUpdate R)) (t : Tables R)
      → (apply_updates id us t).history ≡ t.history ++ tag id us
  unfolding apply_updates
  history-apply_updates id [] t = sym (append-nil t.history)
  history-apply_updates id (u ∷ us) t =
      history-apply_updates id us _ ∙ append_assoc t.history ((id, u) ∷ []) (tag id us)

  pub processed-apply_updates :
      (id : ℕ) (us : List (WeightUpdate R)) (t : Tables R)
      → (apply_updates id us t).processed ≡ t.processed
  unfolding apply_updates
  processed-apply_updates id [] t = refl
  processed-apply_updates id (u ∷ us) t = processed-apply_updates id us _

  -- After the guard is claimed the prediction counts as processed.
  pub already_processed-commit_updates :
      (id : ℕ) (us : List (WeightUpdate R)) (t : Tables R)
      → already_processed id (commit_updates id us t).0 ≡ true
  unfolding commit_updates already_processed
  already_processed-commit_updates id us t = elim (Bool-cases (already_processed id t)) [
    | inl seen ↦ ground (arith, seen)
    | inr new ↦ ground (
      arith,
      new,
      processed-apply_updates id us (record t { processed = id ∷ t.processed }),
      ==_iff id id,
    )
  ]

  pub commit_updates-new :
      (id : ℕ) (us : List (WeightUpdate R)) (t : Tables R)
      → already_processed id t ≡ false
      → commit_updates id us t
        ≡ (apply_updates id us (record t { processed = id ∷ t.processed }), true)
  unfolding commit_updates
  commit_updates-new id us t h = ground (arith, h)

  -- The counts of a source after updates: those of its last update, or those before.
  pub counts_after : String → List (WeightUpdate R) → Option (R × R) → Option (R × R)
  counts_after k [] before = before
  counts_after k (u ∷ us) before = counts_after k us (
      if is_source u.entity_type && str_eq u.entity_id k
      then some (u.alpha_after, u.beta_after)
      else before)

  get-upsert :
      (k : String) (u : WeightUpdate R) (d : Dict (R × R))
      → get k (upsert u.entity_type u d) ≡ (
          if is_source u.entity_type && str_eq u.entity_id k
          then some (u.alpha_after, u.beta_after)
          else get k d)
  unfolding upsert
  get-upsert k u d = of_kind u.entity_type
    where
      of_kind :
          (kind : EntityType)
          → get k (upsert kind u d) ≡ (
              if is_source kind && str_eq u.entity_id k
              then some (u.alpha_after, u.beta_after)
              else get k d)
      of_kind source = get-assign u.entity_id k (u.alpha_after, u.beta_after) d
      of_kind edge = refl

  pub get_source_state-apply_updates :
      (k : String) (id : ℕ) (us : List (WeightUpdate R)) (t : Tables R)
      → get_source_state k (apply_updates id us t) ≡ counts_after k us (get_source_state k t)
  unfolding apply_updates counts_after get_source_state
  get_source_state-apply_updates k id [] t = refl
  get_source_state-apply_updates k id (u ∷ us) t =
      get_source_state-apply_updates k id us _ ∙ ap (counts_after k us) (get-upsert k u t.sources)

  pub get_source_state-claimed :
      (k : String) (id : ℕ) (us : List (WeightUpdate R)) (t : Tables R)
      → get_source_state k (apply_updates id us (record t { processed = id ∷ t.processed }))
        ≡ counts_after k us (get_source_state k t)
  unfolding get_source_state
  get_source_state-claimed k id us t =
      get_source_state-apply_updates k id us (record t { processed = id ∷ t.processed })
