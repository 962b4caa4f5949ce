-- ===== src/Prediction/Stance/Limit.antt =====
-- An asset takes at most so many stances on a day.
use Prim.Native.String.{String}
use text.Mathlib.Text.{◌==◌ as str_eq}
use text.Mathlib.TextEquality.{eq_iff}
use mathlib.Core.Path.{subst}
use stock_prediction.Base.{
  ℕ, ◌≤◌, ◌<◌, ◌≡◌, ◌⊎◌, inl, inr, refl, sym, ap, Bool, true, false, Option, none, some, List, [],
  ◌∷◌, any, All, ltb→lt, ◌==◌, arith, ==_iff, Bool-cases,
}
use stock_prediction.Schema.{Direction}
use stock_prediction.Prediction.Decision.{Decision}
use stock_prediction.Prediction.Repository.{
  ActivePrediction, Context, ContextEvent, Hop, Key, PredictionMade, Row, Tables, pending,
  is_stance, same_key, active_of, latest_active_prediction, count_predictions_on, withdraw,
  store_prediction_with_outbox,
}
use stock_prediction.Prediction.Stance.{
  World, Settings, Outcome, contradicts, unchanged, limited, stores, outcome_of, id_of, is_some,
  is_market_open, within_daily_limit, within_in, made, key_of, store_if, store_prediction,
}
use stock_prediction.Prediction.Stance.Latest.{
  stances_on, stances_on-withdraw, Latest, no_stance, stands, latest_row-Latest,
}

module _ {R : Type 0} (date : ℕ → ℕ) (asset : String) where
  -- Every prediction was decided by now, and no day has more stances than the limit.
  pub record IsWithin (limit now : ℕ) (rows : List (Row R)) : Type 0 where
    pub past : All (λ r. r.message.decision_at ≤ now) rows
    pub few : (d : ℕ) → stances_on date asset d rows ≤ limit

  past-withdraw :
      (now : ℕ) (o : Option ℕ) (rows : List (Row R))
      → All (λ r. r.message.decision_at ≤ now) rows
      → All (λ r. r.message.decision_at ≤ now) (withdraw o rows)
  unfolding withdraw
  past-withdraw now none rows h = h
  past-withdraw now (some id) [] h = tt
  past-withdraw now (some id) (r ∷ rs) h = (ground (arith, h.0), past-withdraw now (some id) rs h.1)

  -- Before a day on which the latest stance was taken there are none on a later one.
  none_after :
      (a d : ℕ) (rows : List (Row R))
      → ((x y : ℕ) → x ≤ y → date x ≤ date y)
      → date a < d
      → All (λ x. is_stance asset x ≡ true → x.message.decision_at ≤ a) rows
      → stances_on date asset d rows ≡ 0
  none_after a d [] mono h k = refl
  none_after a d (r ∷ rs) mono h k = ground (
    arith,
    none_after a d rs mono h k.1,
    k.0,
    mono r.message.decision_at a,
    ==_iff (date r.message.decision_at) d,
  )

  -- A prediction that supersedes the latest stance leaves room for itself.
  room :
      (limit now d : ℕ) (rows : List (Row R)) (o : Option (Row R))
      → ((x y : ℕ) → x ≤ y → date x ≤ date y)
      → 0 < limit
      → IsWithin limit now rows
      → Latest date asset rows o
      → date now ≡ d
      → stances_on date asset d (withdraw (id_of (active_of o)) rows) < limit
  unfolding active_of withdraw
  room limit now d rows _ mono pos v (no_stance h) e = omega (arith, h d)
  room limit now d rows _ mono pos v (stands r l) e =
      elim (Bool-cases (date r.message.decision_at == d)) [
        | inl t ↦ ground (arith, l.freed d, v.few d)
        | inr t ↦ ground (
          arith,
          stances_on-withdraw date asset d (some (r.message).prediction_id) rows,
          none_after r.message.decision_at d rows mono (earlier r t (l.bounded now v.past)) l.last,
        )
      ]
    where
      earlier :
          (r : Row R)
          → (date r.message.decision_at == d) ≡ false
          → r.message.decision_at ≤ now
          → date r.message.decision_at < d
      earlier r t b = ground (arith, mono r.message.decision_at now, e)

  -- The rows after a prediction of this asset, or of another one.
  IsWithin-store :
      (limit now : ℕ) (rows : List (Row R)) (m : PredictionMade R) (key : Key) (o : Option ℕ)
      → m.decision_at ≡ now
      → IsWithin limit now rows
      → (str_eq m.asset_id asset ≡ true
          → stances_on date asset (date now) (withdraw o rows) < limit)
      → IsWithin limit now (record { message = m; key = key; status = pending } ∷ withdraw o rows)
  IsWithin-store limit now rows m key o e v free = record {
    past = (omega (arith, e), past-withdraw now o rows v.past);
    few = λ d. ground (
      arith,
      e,
      ap date e,
      v.few d,
      stances_on-withdraw date asset d o rows,
      ==_iff (date m.decision_at) d,
      free,
    );
  }

module _ {R : Type 0} (w : World R) (asset zone : String) (known : w.timezone asset ≡ some zone)
    (mono : (x y : ℕ) → x ≤ y → w.local_date zone x ≤ w.local_date zone y) where
  -- What the outcome lets the prediction do.
  store_if-IsWithin :
      (limit : ℕ) (record_ : Context) (d : Decision R) (now : ℕ) (events : List ContextEvent)
      (depth : ℕ) (chain : List (Hop R)) (t : Tables R) (o : Outcome)
      → IsWithin (w.local_date zone) asset limit now t.predictions
      → ((supersedes : Option ℕ)
          → o ≡ stores supersedes
          → str_eq record_.asset_id asset ≡ true
          → stances_on
              (w.local_date zone)
              asset
              (w.local_date zone now)
              (withdraw supersedes t.predictions)
            < limit)
      → IsWithin
          (w.local_date zone)
          asset
          limit
          now
          (store_if w record_ d now events depth chain t o).0.predictions
  unfolding store_if store_prediction_with_outbox made withdraw is_some
  store_if-IsWithin limit record_ d now events depth chain t contradicts v free = v
  store_if-IsWithin limit record_ d now events depth chain t unchanged v free = v
  store_if-IsWithin limit record_ d now events depth chain t limited v free = v
  store_if-IsWithin limit record_ d now events depth chain t (stores none) v free =
      elim (Bool-cases (any (λ r. same_key r.key (key_of record_ depth)) t.predictions)) [
        | inl e ↦ rw e v
        | inr e ↦ rw e (
            IsWithin-store (w.local_date zone) asset limit now t.predictions
              (made w record_ d now events depth chain none t) (key_of record_ depth) none refl v
              (free none refl))
      ]
  store_if-IsWithin limit record_ d now events depth chain t (stores (some id)) v free =
      elim (Bool-cases (any (λ r. same_key r.key (key_of record_ depth)) t.predictions)) [
        | inl e ↦ rw e v
        | inr e ↦ rw e (
            IsWithin-store (w.local_date zone) asset limit now t.predictions
              (made w record_ d now events depth chain (some id) t) (key_of record_ depth) (some id)
              refl v (free (some id) refl))
      ]

  outcome-stores :
      (market_open within_limit : Bool) (depth : ℕ) (direction : Direction)
      (active : Option ActivePrediction) (supersedes : Option ℕ)
      → outcome_of market_open within_limit depth direction active ≡ stores supersedes
      → ((within_limit ≡ true) × (supersedes ≡ none)) ⊎ (supersedes ≡ id_of active)
  unfolding outcome_of
  outcome-stores market_open within_limit depth direction active supersedes e = ground arith

  -- The daily limit, or the withdrawal of the latest stance, leaves room for the prediction.
  allowed :
      (limit now : ℕ) (t : Tables R) (market_open : Bool) (depth : ℕ) (direction : Direction)
      (supersedes : Option ℕ)
      → 0 < limit
      → IsWithin (w.local_date zone) asset limit now t.predictions
      → outcome_of market_open
          (within_daily_limit w limit asset now t)
          depth
          direction
          (latest_active_prediction asset t)
        ≡ stores supersedes
      → stances_on
          (w.local_date zone)
          asset
          (w.local_date zone now)
          (withdraw supersedes t.predictions)
        < limit
  unfolding within_daily_limit within_in count_predictions_on latest_active_prediction withdraw
  allowed limit now t market_open depth direction supersedes pos v e =
      elim (outcome-stores _ _ depth direction _ supersedes e) [
        | inl (within, none_) ↦
            rw none_ (ltb→lt _ _ (subst (λ z. within_in w limit asset now t z ≡ true) known within))
        | inr same ↦
            subst
              (λ o.
                stances_on (w.local_date zone) asset (w.local_date zone now)
                  (withdraw o t.predictions)
                < limit)
              (sym same)
              (room (w.local_date zone) asset limit now _ t.predictions _ mono pos v
                (latest_row-Latest (w.local_date zone) asset t.predictions) refl)
      ]

  pub store_prediction-IsWithin :
      (s : Settings R) (record_ : Context) (d : Decision R) (now : ℕ) (events : List ContextEvent)
      (depth : ℕ) (chain : List (Hop R)) (t : Tables R)
      → 0 < s.max_daily_predictions_per_asset
      → IsWithin (w.local_date zone) asset s.max_daily_predictions_per_asset now t.predictions
      → IsWithin
          (w.local_date zone)
          asset
          s.max_daily_predictions_per_asset
          now
          (store_prediction w s record_ d now events depth chain t).0.predictions
  unfolding store_prediction
  store_prediction-IsWithin s record_ d now events depth chain t pos v =
      store_if-IsWithin s.max_daily_predictions_per_asset record_ d now events depth chain t _ v
        (λ supersedes e same.
          allowed s.max_daily_predictions_per_asset now t (is_market_open w asset now) depth
            d.direction supersedes pos v
            (subst
              (λ a.
                outcome_of (is_market_open w a now)
                  (within_daily_limit w s.max_daily_predictions_per_asset a now t) depth d.direction
                  (latest_active_prediction a t)
                ≡ stores supersedes)
              ((eq_iff record_.asset_id asset).0 same) e))

-- One call of `_store_prediction`, at its time and with what Market Data answers then.
pub record StoreCall (R : Type 0) : Type 0 where
  pub now : ℕ
  pub is_price_available : String → Bool
  pub context : Context
  pub decision : Decision R
  pub events : List ContextEvent
  pub depth : ℕ
  pub chain : List (Hop R)

abbrev pub InOrder : {R : Type 0} → ℕ → List (StoreCall R) → Type 0
InOrder now [] = Unit
InOrder now (c ∷ rest) = (now ≤ c.now) × InOrder c.now rest

abbrev pub run_stores :
    {R : Type 0} → World R → Settings R → List (StoreCall R) → Tables R → Tables R
run_stores w s [] t = t
run_stores w s (c ∷ rest) t =
    run_stores w s rest
      (store_prediction (record w { is_price_available = c.is_price_available }) s c.context
        c.decision c.now c.events c.depth c.chain t).0

later_past :
    {R : Type 0} (a b : ℕ) (rows : List (Row R))
    → a ≤ b
    → All (λ r. r.message.decision_at ≤ a) rows
    → All (λ r. r.message.decision_at ≤ b) rows
later_past a b [] h k = tt
later_past a b (r ∷ rs) h k = (omega (arith, k.0), later_past a b rs h k.1)

-- An asset that the registry knows never has more stances on one local date than the daily limit, which
-- is positive: whatever decisions of any assets are stored, direct or propagated, with the market open
-- or closed, in the order of their times, on dates that do not run backwards, from tables that keep the
-- limit.
pub run_stores-stances_on :
    {R : Type 0} (w : World R) (s : Settings R) (asset zone : String) (calls : List (StoreCall R))
    (t : Tables R) (now d : ℕ)
    → w.timezone asset ≡ some zone
    → ((x y : ℕ) → x ≤ y → w.local_date zone x ≤ w.local_date zone y)
    → 0 < s.max_daily_predictions_per_asset
    → IsWithin (w.local_date zone) asset s.max_daily_predictions_per_asset now t.predictions
    → InOrder now calls
    → stances_on (w.local_date zone) asset d (run_stores w s calls t).predictions
      ≤ s.max_daily_predictions_per_asset
run_stores-stances_on w s asset zone [] t now d known mono pos v o = v.few d
run_stores-stances_on w s asset zone (c ∷ rest) t now d known mono pos v o =
    run_stores-stances_on w s asset zone rest _ c.now d known mono pos
      (store_prediction-IsWithin (record w { is_price_available = c.is_price_available }) asset zone
        known mono s c.context c.decision c.now c.events c.depth c.chain t pos
        (record { past = later_past now c.now t.predictions o.0 v.past; few = v.few }))
      o.1
