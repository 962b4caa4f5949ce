-- ===== src/Verification/Pipeline/Once.antt =====
-- Each prediction is asked about once and scored once, whatever arrives in whatever order.
use Prim.Native.String.{String}
use mathlib.Core.Path.{subst}
use stock_prediction.Base.{
  ℕ, ◌≤◌, ◌≡◌, refl, sym, ap, Bool, true, false, ◌&&◌, Option, none, some, List, [], ◌∷◌, map, any,
  find_first, filter_by, length, All, ◌==◌, ==_iff, arith, Bool-cases, Option-cases, inl, inr,
  if◌then◌else◌,
}
use stock_prediction.Calendar
use stock_prediction.Calendar.{ZoneDatabase}
use stock_prediction.Number.{Number}
use stock_prediction.Verification.Scoring.{Scored, ScoreOutcome, division_by_zero}
use stock_prediction.Verification.Evaluations.{
  scored, withdrawn, is_pending, is_withdrawn, PriceObserved, Evaluation, PriceRequested,
  PredictionScored, Tables, create_evaluation_with_outbox, store_price_observation,
  load_evaluation_by_request_id, withdraw_evaluation, store_score_with_outbox,
}
use stock_prediction.Verification.Pipeline.{
  Series, PredictionMade, Policy, Message, made, observed, withdraw_superseded, finish_creation,
  create, for_series, process_prediction, is_valid, scored_message, outcome_for, store_outcome,
  check, for_evaluation, process_price, receive, receive_all, answer, evaluation_of, request_of,
}

pub data Exists {A : Type 0} (P : A → Type 0) : List A → Type 0 where
  here : (x : A) (xs : List A) → P x → Exists P (x ∷ xs)
  there : (x : A) (xs : List A) → Exists P xs → Exists P (x ∷ xs)

module _ {A : Type 0} where
  Exists-map :
      (P Q : A → Type 0) (f : A → A) (xs : List A)
      → ((x : A) → P x → Q (f x))
      → Exists P xs
      → Exists Q (map f xs)
  Exists-map P Q f _ h (here x xs p) = here _ _ (h x p)
  Exists-map P Q f _ h (there x xs e) = there _ _ (Exists-map P Q f xs h e)

  found : (p : A → Bool) (x : A) (xs : List A) → find_first p xs ≡ some x → Exists (λ y. y ≡ x) xs
  found p x [] e = absurd (ground arith)
  found p x (y ∷ ys) e = elim (Bool-cases (p y)) [
    | inl t ↦ here y ys (ground arith)
    | inr t ↦ there y ys (found p x ys (ground arith))
  ]

module _ {A : Type 0} (key : A → ℕ) where
  none_counted :
      (id : ℕ) (xs : List A)
      → any (λ x. key x == id) xs ≡ false
      → length (filter_by (λ x. key x == id) xs) ≡ 0
  none_counted id [] h = refl
  none_counted id (x ∷ xs) h = ground (arith, none_counted id xs)

  -- A new key is counted once.
  counted :
      (id : ℕ) (x : A) (xs : List A)
      → any (λ y. key y == key x) xs ≡ false
      → length (filter_by (λ y. key y == id) xs) ≤ 1
      → length (filter_by (λ y. key y == id) (x ∷ xs)) ≤ 1
  counted id x xs new h = elim (Bool-cases (key x == id)) [
    | inl t ↦ ground (
      arith,
      subst (λ i. length (filter_by (λ y. key y == i) xs) ≡ 0) ((==_iff (key x) id).0 t)
          (none_counted (key x) xs new),
    )
    | inr t ↦ ground arith
  ]

module _ {D F : Type 0} ⦃d : Number D⦄ ⦃f : Number F⦄ (to_float : D → F) (p : Policy F) where
  -- The message is the score of an observation for the sessions of the evaluation, which is scored.
  pub record IsScoreOf (m : PredictionScored D F) (e : Evaluation F) : Type 0 where
    pub same_prediction : m.prediction_id ≡ e.prediction_id
    pub baseline : m.baseline.session ≡ e.baseline_session
    pub settlement : m.settlement.session ≡ e.settlement_session
    pub predicted : m.predicted_direction ≡ e.predicted_direction
    pub is_scored : e.status ≡ scored
    pub observation : PriceObserved D
    pub outcome : ScoreOutcome F
    pub computed : outcome_for to_float p observation e ≡ Scored.scored outcome
    pub sent : m ≡ scored_message to_float observation e outcome

  abbrev pub HasEvaluation : List (Evaluation F) → PredictionScored D F → Type 0
  HasEvaluation evaluations m = Exists (IsScoreOf m) evaluations

  -- The tables so far.
  pub record IsSound (t : Tables D F) : Type 0 where
    pub same_outbox : t.outbox_scored ≡ t.scores
    pub one_request :
        (id : ℕ)
        → length (filter_by (λ m. m.prediction_id == id) t.requested)
          ≡ length (filter_by (λ e. e.prediction_id == id) t.evaluations)
    pub one_evaluation :
        (id : ℕ) → length (filter_by (λ e. e.prediction_id == id) t.evaluations) ≤ 1
    pub one_score : (id : ℕ) → length (filter_by (λ m. m.prediction_id == id) t.scores) ≤ 1
    pub backed : All (HasEvaluation t.evaluations) t.scores

  -- A change of the evaluations that leaves the scored ones as they are.
  record Keeps (g : Evaluation F → Evaluation F) : Type 0 where
    same_id : (e : Evaluation F) → (g e).prediction_id ≡ e.prediction_id
    same_score : (m : PredictionScored D F) (e : Evaluation F) → IsScoreOf m e → IsScoreOf m (g e)

  All-Keeps :
      (g : Evaluation F → Evaluation F) (evaluations : List (Evaluation F))
      (ms : List (PredictionScored D F))
      → Keeps g
      → All (HasEvaluation evaluations) ms
      → All (HasEvaluation (map g evaluations)) ms
  All-Keeps g evaluations [] k h = tt
  All-Keeps g evaluations (m ∷ ms) k h =
      (Exists-map _ _ g evaluations (k.same_score m) h.0, All-Keeps g evaluations ms k h.1)

  count-Keeps :
      (g : Evaluation F → Evaluation F) (evaluations : List (Evaluation F)) (id : ℕ)
      → Keeps g
      → length (filter_by (λ e. e.prediction_id == id) (map g evaluations))
        ≡ length (filter_by (λ e. e.prediction_id == id) evaluations)
  count-Keeps g [] id k = refl
  count-Keeps g (e ∷ es) id k = ground (arith, count-Keeps g es id k, k.same_id e)

  IsSound-Keeps :
      (g : Evaluation F → Evaluation F) (t : Tables D F)
      → Keeps g
      → IsSound t
      → IsSound (record t { evaluations = map g t.evaluations })
  IsSound-Keeps g t k v = record {
    same_outbox = v.same_outbox;
    one_request = λ id. omega (arith, v.one_request id, count-Keeps g t.evaluations id k);
    one_evaluation = λ id. omega (arith, v.one_evaluation id, count-Keeps g t.evaluations id k);
    one_score = v.one_score;
    backed = All-Keeps g t.evaluations t.scores k v.backed;
  }

  withdrawing-Keeps :
      (id : ℕ)
      → Keeps (λ e.
        if (e.prediction_id == id) && is_pending e.status
        then record e { status = withdrawn }
        else e)
  withdrawing-Keeps id = record {
    same_id = λ e. ground arith;
    same_score = λ m e h. elim (Bool-cases ((e.prediction_id == id) && is_pending e.status)) [
      | inl t ↦ absurd (ground (arith, ap is_pending h.is_scored))
      | inr t ↦ rw t h
    ];
  }

  IsScoreOf-scored :
      (m : PredictionScored D F) (e : Evaluation F)
      → IsScoreOf m e
      → IsScoreOf m (record e { status = scored })
  unfolding outcome_for scored_message
  IsScoreOf-scored m e h = record {
    same_prediction = h.same_prediction;
    baseline = h.baseline;
    settlement = h.settlement;
    predicted = h.predicted;
    is_scored = refl;
    observation = h.observation;
    outcome = h.outcome;
    computed = h.computed;
    sent = h.sent;
  }

  scoring-Keeps :
      (id : ℕ) → Keeps (λ e. if e.prediction_id == id then record e { status = scored } else e)
  scoring-Keeps id = record {
    same_id = λ e. ground arith;
    same_score = λ m e h. elim (Bool-cases (e.prediction_id == id)) [
      | inl t ↦ rw t (IsScoreOf-scored m e h)
      | inr t ↦ rw t h
    ];
  }

  new_score :
      (series : Series) (m : PriceObserved D) (e : Evaluation F) (o : ScoreOutcome F)
      → is_valid series m e ≡ true
      → outcome_for to_float p m e ≡ Scored.scored o
      → IsScoreOf (scored_message to_float m e o) (record e { status = scored })
  unfolding is_valid outcome_for scored_message
  new_score series m e o valid computed = record {
    same_prediction = refl;
    baseline = ground (arith, ==_iff m.baseline.session e.baseline_session);
    settlement = ground (arith, ==_iff m.settlement.session e.settlement_session);
    predicted = refl;
    is_scored = refl;
    observation = m;
    outcome = o;
    computed = computed;
    sent = refl;
  }

  marked :
      (e : Evaluation F) (msg : PredictionScored D F)
      → IsScoreOf msg (record e { status = scored })
      → IsScoreOf msg
          (if e.prediction_id == e.prediction_id then record e { status = scored } else e)
  marked e msg h = rw ((==_iff e.prediction_id e.prediction_id).1 refl) h

  IsSound-score :
      (series : Series) (m : PriceObserved D) (e : Evaluation F) (o : ScoreOutcome F)
      (t : Tables D F)
      → is_valid series m e ≡ true
      → outcome_for to_float p m e ≡ Scored.scored o
      → Exists (λ y. y ≡ e) t.evaluations
      → IsSound t
      → IsSound (store_score_with_outbox (scored_message to_float m e o) t).0
  unfolding store_score_with_outbox scored_message
  IsSound-score series m e o t valid computed h v =
      let msg = scored_message to_float m e o in
      let mark : Evaluation F → Evaluation F =
        λ x. if x.prediction_id == e.prediction_id then record x { status = scored } else x in
      let k = IsSound-Keeps mark t (scoring-Keeps e.prediction_id) v in
      elim (Bool-cases (any (λ x. x.prediction_id == e.prediction_id) t.scores)) [
        | inl dup ↦ rw dup k
        | inr new ↦ rw new (record {
          same_outbox = ap (λ ms. msg ∷ ms) v.same_outbox;
          one_request = k.one_request;
          one_evaluation = k.one_evaluation;
          one_score = λ id. counted (λ x. x.prediction_id) id msg t.scores new (v.one_score id);
          backed = (
            Exists-map _ _ mark t.evaluations
                (λ y q.
                  subst (λ x. IsScoreOf msg (mark x)) (sym q)
                    (marked e msg (new_score series m e o valid computed)))
                h,
            k.backed,
          );
        })
      ]

  IsSound-observation :
      (m : PriceObserved D) (t : Tables D F) → IsSound t → IsSound (store_price_observation m t)
  unfolding store_price_observation
  IsSound-observation m t v =
      elim (Bool-cases (any (λ x. x.request_id == m.request_id) t.observations)) [
        | inl e ↦ rw e v
        | inr e ↦ rw e (record {
          same_outbox = v.same_outbox;
          one_request = v.one_request;
          one_evaluation = v.one_evaluation;
          one_score = v.one_score;
          backed = v.backed;
        })
      ]

  All-there :
      (e : Evaluation F) (evaluations : List (Evaluation F)) (ms : List (PredictionScored D F))
      → All (HasEvaluation evaluations) ms
      → All (HasEvaluation (e ∷ evaluations)) ms
  All-there e evaluations [] h = tt
  All-there e evaluations (m ∷ ms) h = (there e evaluations h.0, All-there e evaluations ms h.1)

  new_evaluation :
      (e : Evaluation F) (request : PriceRequested) (t : Tables D F)
      → request.prediction_id ≡ e.prediction_id
      → any (λ x. x.prediction_id == e.prediction_id) t.evaluations ≡ false
      → IsSound t
      → IsSound (record t { evaluations = e ∷ t.evaluations; requested = request ∷ t.requested })
  new_evaluation e request t q new v = record {
    same_outbox = v.same_outbox;
    one_request = λ id. ground (arith, v.one_request id, ap (λ i. i == id) q);
    one_evaluation =
        λ id. counted (λ x. x.prediction_id) id e t.evaluations new (v.one_evaluation id);
    one_score = v.one_score;
    backed = All-there e t.evaluations t.scores v.backed;
  }

  IsSound-withdraw : (o : Option ℕ) (t : Tables D F) → IsSound t → IsSound (withdraw_superseded o t)
  unfolding withdraw_superseded withdraw_evaluation
  IsSound-withdraw none t v = v
  IsSound-withdraw (some id) t v = IsSound-Keeps _ t (withdrawing-Keeps id) v

  create-IsSound :
      (request_id : ℕ) (m : PredictionMade F) (series : Series) (sessions : Calendar.Result (ℕ × ℕ))
      (t : Tables D F)
      → IsSound t
      → IsSound (create request_id m series sessions t).0
  unfolding create finish_creation create_evaluation_with_outbox evaluation_of request_of
  create-IsSound request_id m series (Calendar.Result.ok (b, s)) t v =
      elim (Bool-cases (any (λ x. x.prediction_id == m.prediction_id) t.evaluations)) [
        | inl old ↦ rw old (IsSound-withdraw m.supersedes_prediction_id t v)
        | inr new ↦ elim (Bool-cases (any (λ x. x.request_id == request_id) t.evaluations)) [
          | inl clash ↦ rw new (rw clash v)
          | inr free ↦ rw new (
              rw free (
                IsSound-withdraw m.supersedes_prediction_id _ (
                  new_evaluation (evaluation_of request_id m series (b, s))
                    (request_of request_id m series (b, s)) t refl new v)))
        ]
      ]
  create-IsSound request_id m series (Calendar.Result.unsupported_timezone z) t v = v
  create-IsSound request_id m series Calendar.Result.date_overflow t v = v

  process_prediction-IsSound :
      (database : ZoneDatabase) (resolve : String → Option Series) (request_id_of : ℕ → String → ℕ)
      (m : PredictionMade F) (t : Tables D F)
      → IsSound t
      → IsSound (process_prediction database resolve request_id_of m t).0
  unfolding process_prediction for_series
  process_prediction-IsSound database resolve request_id_of m t v =
      elim (Option-cases (resolve m.asset_id)) [
        | inl e ↦ rw e v
        | inr (series, e) ↦ rw e (create-IsSound _ m series _ t v)
      ]

  store_outcome-IsSound :
      (series : Series) (m : PriceObserved D) (e : Evaluation F) (o : Scored F) (t : Tables D F)
      → is_valid series m e ≡ true
      → outcome_for to_float p m e ≡ o
      → Exists (λ y. y ≡ e) t.evaluations
      → IsSound t
      → IsSound (store_outcome to_float m e o t).0
  unfolding store_outcome answer
  store_outcome-IsSound series m e division_by_zero t valid computed h v = v
  store_outcome-IsSound series m e (Scored.scored o) t valid computed h v =
      IsSound-score series m e o t valid computed h v

  same_evaluations :
      (m : PriceObserved D) (t : Tables D F)
      → (store_price_observation m t).evaluations ≡ t.evaluations
  unfolding store_price_observation
  same_evaluations m t = ground arith

  check-IsSound :
      (m : PriceObserved D) (e : Evaluation F) (o : Option Series) (t : Tables D F)
      → Exists (λ y. y ≡ e) t.evaluations
      → IsSound t
      → IsSound (check to_float p m e o t).0
  unfolding check
  check-IsSound m e none t h v = v
  check-IsSound m e (some series) t h v = elim (Bool-cases (is_valid series m e)) [
    | inl valid ↦ rw valid (
        store_outcome-IsSound series m e _ _ valid refl
          (subst (Exists (λ y. y ≡ e)) (sym (same_evaluations m t)) h) (IsSound-observation m t v))
    | inr invalid ↦ rw invalid v
  ]

  process_price-IsSound :
      (resolve : String → Option Series) (m : PriceObserved D) (t : Tables D F)
      → IsSound t
      → IsSound (process_price to_float p resolve m t).0
  unfolding process_price for_evaluation load_evaluation_by_request_id
  process_price-IsSound resolve m t v =
      elim (Option-cases (find_first (λ x. x.request_id == m.request_id) t.evaluations)) [
        | inl missing ↦ rw missing v
        | inr (e, there_) ↦ elim (Bool-cases (is_withdrawn e.status)) [
          | inl gone ↦ rw there_ (rw gone v)
          | inr stands ↦ rw there_ (
              rw stands
                (check-IsSound m e (resolve e.asset_id) t (found _ e t.evaluations there_) v))
        ]
      ]

-- From tables that are sound, and so from empty ones, whatever predictions and prices arrive in whatever
-- order and however often: the tables stay sound. That is, each prediction has at most one evaluation,
-- with one request for prices to each, and at most one score, the scores being what is sent. Each score
-- is of an evaluation that is marked as scored, of observed closes of the evaluation's two sessions,
-- and says what the scoring policy computes of them.
pub receive_all-IsSound :
    {D F : Type 0} ⦃d : Number D⦄ ⦃f : Number F⦄ (to_float : D → F) (database : ZoneDatabase)
    (resolve : String → Option Series) (request_id_of : ℕ → String → ℕ) (p : Policy F)
    (messages : List (Message D F)) (t : Tables D F)
    → IsSound to_float p t
    → IsSound to_float p (receive_all to_float database resolve request_id_of p messages t)
unfolding receive_all receive
receive_all-IsSound to_float database resolve request_id_of p [] t v = v
receive_all-IsSound to_float database resolve request_id_of p (made m ∷ rest) t v =
    receive_all-IsSound to_float database resolve request_id_of p rest _
      (process_prediction-IsSound to_float p database resolve request_id_of m t v)
receive_all-IsSound to_float database resolve request_id_of p (observed m ∷ rest) t v =
    receive_all-IsSound to_float database resolve request_id_of p rest _
      (process_price-IsSound to_float p resolve m t v)
