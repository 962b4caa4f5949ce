-- ===== src/Prediction/Stance/Outcomes.antt =====
-- What `_store_prediction` leaves behind.
use Prim.Native.String.{String}
use stock_prediction.Base.{ℕ, ◌≡◌, inl, inr, refl, Bool, true, false, List, ◌∷◌, any, Bool-cases}
use stock_prediction.Prediction.Decision.{Decision}
use stock_prediction.Prediction.Repository.{
  Context, ContextEvent, predicted, set_state, Hop, PredictionMade, Tables, same_key,
  store_prediction_with_outbox,
}
use stock_prediction.Prediction.Stance.{
  World, Settings, Outcome, contradicts, unchanged, limited, stores, made, key_of, store_if,
  store_prediction,
}

module _ {R : Type 0} where
  -- A new message stands first in the outbox, or nothing was stored.
  pub data Stored (asset : String) (depth : ℕ) (old : List (PredictionMade R))
      : List (PredictionMade R) → Bool → Type 0 where
    kept : Stored asset depth old old false
    sent :
        (m : PredictionMade R)
        → m.asset_id ≡ asset
        → m.propagation_depth ≡ depth
        → Stored asset depth old (m ∷ old) true

  module _ (w : World R) (record_ : Context) (d : Decision R) (now : ℕ) (events : List ContextEvent)
      (depth : ℕ) (chain : List (Hop R)) (t : Tables R) where
    store_if-Stored :
        (o : Outcome)
        → let (t', stored) = store_if w record_ d now events depth chain t o in
          Stored record_.asset_id depth t.outbox t'.outbox stored
    unfolding store_if made store_prediction_with_outbox
    store_if-Stored contradicts = kept
    store_if-Stored unchanged = kept
    store_if-Stored limited = kept
    store_if-Stored (stores supersedes) =
        elim (Bool-cases (any (λ r. same_key r.key (key_of record_ depth)) t.predictions)) [
          | inl e ↦ rw e kept
          | inr e ↦ rw e (sent (made w record_ d now events depth chain supersedes t) refl refl)
        ]

    pub store_prediction-Stored :
        (s : Settings R)
        → let (t', stored) = store_prediction w s record_ d now events depth chain t in
          Stored record_.asset_id depth t.outbox t'.outbox stored
    unfolding store_prediction
    store_prediction-Stored s = store_if-Stored _

-- A property of the contexts that survives when one of them is predicted.
abbrev pub IsClosed : (List Context → Type 0) → Type 0
IsClosed P = (id : ℕ) (cs : List Context) → P cs → P (set_state id predicted cs)

module _ {R : Type 0} (P : List Context → Type 0) (closed : IsClosed P) where
  store_if-closed :
      (w : World R) (record_ : Context) (d : Decision R) (now : ℕ) (events : List ContextEvent)
      (depth : ℕ) (chain : List (Hop R)) (t : Tables R) (o : Outcome)
      → P t.contexts
      → P (store_if w record_ d now events depth chain t o).0.contexts
  unfolding store_if made store_prediction_with_outbox
  store_if-closed w record_ d now events depth chain t contradicts h = h
  store_if-closed w record_ d now events depth chain t unchanged h = h
  store_if-closed w record_ d now events depth chain t limited h = h
  store_if-closed w record_ d now events depth chain t (stores supersedes) h =
      elim (Bool-cases (any (λ r. same_key r.key (key_of record_ depth)) t.predictions)) [
        | inl e ↦ rw e (closed record_.context_id t.contexts h)
        | inr e ↦ rw e (closed record_.context_id t.contexts h)
      ]

  pub store_prediction-closed :
      (w : World R) (s : Settings R) (record_ : Context) (d : Decision R) (now : ℕ)
      (events : List ContextEvent) (depth : ℕ) (chain : List (Hop R)) (t : Tables R)
      → P t.contexts
      → P (store_prediction w s record_ d now events depth chain t).0.contexts
  unfolding store_prediction
  store_prediction-closed w s record_ d now events depth chain t h =
      store_if-closed w record_ d now events depth chain t _ h
