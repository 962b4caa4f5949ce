-- ===== src/Prediction/Sweep/Settled.antt =====
-- A sweep ends, and settles every context that it claimed.
use Prim.Native.String.{String}
use stock_prediction.Base.{
  ℕ, ◌*◌, ◌≡◌, ◌⊎◌, inl, inr, refl, Bool, true, false, not, ◌&&◌, Option, none, some, List, [], ◌∷◌,
  ◌++◌, any, All-append, ◌==◌, arith, Bool-cases, if◌then◌else◌,
}
use stock_prediction.Number.{Number, lt}
use stock_prediction.Schema.{neutral, same_direction}
use stock_prediction.Prediction.Edge.{FiringEdge}
use stock_prediction.Prediction.Decision.{Decision, Decided}
use stock_prediction.Prediction.Decision.Support.{IsEdge, IsReal}
use stock_prediction.Prediction.Context.{minute}
use stock_prediction.Prediction.Repository.{
  Context, ContextEvent, ContextState, predicted, error_retryable, Tables, set_state,
  set_context_state,
}
use stock_prediction.Prediction.Repository.Contexts.{claim_ready_contexts}
use stock_prediction.Prediction.Stance.{World, Settings}
use stock_prediction.Prediction.Stance.Outcomes.{IsClosed, store_prediction-closed}
use stock_prediction.Prediction.Propagation.{Propagated}
use stock_prediction.Prediction.Propagation.Returns.{
  Answers, IsSchema, Returns, abstains, decides, decide-Returns, Went, went, run_propagation-Went,
}
use stock_prediction.Prediction.Sweep.{
  Conditions, conditions_by_type, extend, edges_of, firing_edges, polarity_by_type, Deferred, Swept,
  Sweep, runs, keep_direct, decide_context, infer_context, direct_pass, settle_context,
  propagate_one, propagation_pass, both_passes, close_ready_contexts,
}

abbrev pub is_settled : ContextState → Bool
is_settled predicted = true
is_settled error_retryable = true
is_settled _ = false

-- Some row of the context is neither predicted nor in error.
abbrev pub unsettled : ℕ → List Context → Bool
unsettled id cs = any (λ c. (c.context_id == id) && not (is_settled c.state)) cs

unsettled-set_state :
    (id other : ℕ) (state : ContextState) (cs : List Context)
    → is_settled state ≡ true
    → (unsettled id cs ≡ false) ⊎ (other ≡ id)
    → unsettled id (set_state other state cs) ≡ false
unfolding set_state
unsettled-set_state id other state [] h k = refl
unsettled-set_state id other state (c ∷ cs) h k =
    ground (arith, unsettled-set_state id other state cs h)

settled-IsClosed : (id : ℕ) → IsClosed (λ cs. unsettled id cs ≡ false)
settled-IsClosed id other cs h = unsettled-set_state id other predicted cs refl (inl h)

abbrev pub has_id : ℕ → List Context → Bool
has_id id cs = any (λ c. c.context_id == id) cs

module _ {R : Type 0} where
  -- The context waits for its propagation.
  abbrev waits : ℕ → List (Deferred R) → Bool
  waits id ps = any (λ p. p.context.context_id == id) ps

  abbrev IsHandled : ℕ → Swept R → Type 0
  IsHandled id a = (unsettled id a.tables.contexts ≡ false) ⊎ (waits id a.deferred ≡ true)

  -- The sweep goes on.
  data Runs (P : Swept R → Type 0) : Sweep R → Type 0 where
    running : (a : Swept R) → P a → Runs P (runs a)

  weaken :
      (P Q : Swept R → Type 0) (r : Sweep R) → ((a : Swept R) → P a → Q a) → Runs P r → Runs Q r
  weaken P Q _ f (running a p) = running a (f a p)

  waits-append :
      (id : ℕ) (ps : List (Deferred R)) (p : Deferred R)
      → (waits id ps ≡ true) ⊎ (p.context.context_id ≡ id)
      → waits id (ps ++ (p ∷ [])) ≡ true
  waits-append id [] p h = ground arith
  waits-append id (q ∷ qs) p h = ground (arith, waits-append id qs p)

  edges_of-Answers :
      ⦃n : Number R⦄ (w : World R) (s : Settings R) (v : IsSchema w s) (asset : String)
      (extra : List String) (by_type : Conditions)
      → Answers IsEdge (edges_of w asset extra by_type)
  unfolding edges_of
  edges_of-Answers w s v asset extra [] = tt
  edges_of-Answers w s v asset extra ((type_, conditions) ∷ rest) =
      extended _ _ (v.firing type_ asset _) (edges_of-Answers w s v asset extra rest)
    where
      extended :
          (a b : Option (List (FiringEdge R)))
          → Answers IsEdge a
          → Answers IsEdge b
          → Answers IsEdge (extend a b)
      extended none b h k = tt
      extended (some xs) none h k = tt
      extended (some xs) (some ys) h k = All-append IsEdge xs ys h k

module _ {R : Type 0} ⦃n : Number R⦄ (laws : IsReal R) (w : World R) (s : Settings R)
    (v : IsSchema w s) (now : ℕ) where
  -- What one context leaves: it is handled, and so are those that were.
  Handles : Context → Swept R → Swept R → Type 0
  Handles c a b = (id : ℕ) → IsHandled id a ⊎ (c.context_id ≡ id) → IsHandled id b

  -- A state is set: one of those that settle a context.
  set_then :
      (id other : ℕ) (state : ContextState) (a : Swept R) (cs : List Context)
      → is_settled state ≡ true
      → (unsettled id a.tables.contexts ≡ false → unsettled id cs ≡ false)
      → IsHandled id a ⊎ (other ≡ id)
      → (unsettled id (set_state other state cs) ≡ false) ⊎ (waits id a.deferred ≡ true)
  set_then id other state a cs e closed (inl (inl u)) =
      inl (unsettled-set_state id other state cs e (inl (closed u)))
  set_then id other state a cs e closed (inl (inr q)) = inr q
  set_then id other state a cs e closed (inr same) =
      inl (unsettled-set_state id other state cs e (inr same))

  defer_then :
      (id : ℕ) (p : Deferred R) (a : Swept R) (cs : List Context)
      → (unsettled id a.tables.contexts ≡ false → unsettled id cs ≡ false)
      → IsHandled id a ⊎ (p.context.context_id ≡ id)
      → (unsettled id cs ≡ false) ⊎ (waits id (a.deferred ++ (p ∷ [])) ≡ true)
  defer_then id p a cs closed (inl (inl u)) = inl (closed u)
  defer_then id p a cs closed (inl (inr q)) = inr (waits-append id a.deferred p (inl q))
  defer_then id p a cs closed (inr same) = inr (waits-append id a.deferred p (inr same))

  keep_direct-Handles :
      (c : Context) (d : Decision R) (events : List ContextEvent) (a : Swept R)
      (r : Tables R × Bool)
      → ((id : ℕ) → unsettled id a.tables.contexts ≡ false → unsettled id r.0.contexts ≡ false)
      → Handles c a (keep_direct c d events a r)
  unfolding keep_direct set_context_state Handles
  keep_direct-Handles c d events a (t, stored) closed id h =
      elim (Bool-cases (same_direction d.direction neutral)) [
        | inl e ↦ rw e (set_then id c.context_id predicted a t.contexts refl (closed id) h)
        | inr e ↦ rw e (
            defer_then id (record { context = c; decision = d; events = events }) a t.contexts
              (closed id) h)
      ]

  decide_context-Runs :
      (c : Context) (events : List ContextEvent) (d : Decided R) (a : Swept R)
      → Returns d
      → Runs (Handles c a) (decide_context w s now c events d a)
  unfolding decide_context set_context_state Handles
  decide_context-Runs c events _ a abstains =
      running _ (λ id h. set_then id c.context_id predicted a a.tables.contexts refl (λ u. u) h)
  decide_context-Runs c events _ a (decides d) = running _ (
      keep_direct-Handles c d events a _ (λ id u.
        store_prediction-closed _ (settled-IsClosed id) w s c d now events 0 [] a.tables u))

  infer_context-Runs :
      (c : Context) (events : List ContextEvent) (edges : Option (List (FiringEdge R)))
      (a : Swept R)
      → Answers IsEdge edges
      → Runs (Handles c a) (infer_context w s now c events edges a)
  unfolding infer_context set_context_state Handles
  infer_context-Runs c events none a h =
      running _
        (λ id k. set_then id c.context_id error_retryable a a.tables.contexts refl (λ u. u) k)
  infer_context-Runs c events (some edges) a h =
      decide_context-Runs c events _ a
        (decide-Returns laws w s (polarity_by_type events) (w.is_elevated c.asset_id) edges v h)

  firing_edges-Answers :
      (c : Context) (events : List ContextEvent) (elevated : Bool)
      → Answers IsEdge (firing_edges w c.asset_id events elevated)
  unfolding firing_edges
  firing_edges-Answers c events elevated =
      edges_of-Answers w s v c.asset_id (if elevated then "RISK_PREMIUM_ELEVATED" ∷ [] else [])
        (conditions_by_type events)

  -- What a list of contexts leaves.
  HandleAll : List Context → Swept R → Swept R → Type 0
  HandleAll cs a b = (id : ℕ) → IsHandled id a ⊎ (has_id id cs ≡ true) → IsHandled id b

  HandleAll-cons :
      (c : Context) (rest : List Context) (a b d : Swept R)
      → Handles c a b
      → HandleAll rest b d
      → HandleAll (c ∷ rest) a d
  unfolding Handles HandleAll
  HandleAll-cons c rest a b d h k id (inl before) = k id (inl (h id (inl before)))
  HandleAll-cons c rest a b d h k id (inr e) = elim (Bool-cases (c.context_id == id)) [
    | inl t ↦ k id (inl (h id (inr (ground arith))))
    | inr t ↦ k id (inr (ground arith))
  ]

  direct_next :
      (c : Context) (rest : List Context) (a : Swept R) (r : Sweep R)
      → ((b : Swept R) → Runs (HandleAll rest b) (direct_pass w s now rest (runs b)))
      → Runs (Handles c a) r
      → Runs (HandleAll (c ∷ rest) a) (direct_pass w s now rest r)
  direct_next c rest a _ later (running b h) =
      weaken _ _ _ (λ d k. HandleAll-cons c rest a b d h k) (later b)

  direct_pass-Runs :
      (cs : List Context) (a : Swept R) → Runs (HandleAll cs a) (direct_pass w s now cs (runs a))
  unfolding direct_pass HandleAll
  direct_pass-Runs [] a = running a (λ id h. elim h [ inl k ↦ k | inr k ↦ absurd (ground arith) ])
  direct_pass-Runs (c ∷ rest) a =
      direct_next c rest a _ (λ b. direct_pass-Runs rest b)
        (infer_context-Runs c _ _ a (firing_edges-Answers c _ _))

  -- What a list of deferred contexts leaves: those that were settled or waited in it are settled.
  SettleAll : List (Deferred R) → Swept R → Swept R → Type 0
  SettleAll ps a b =
      (id : ℕ)
      → (unsettled id a.tables.contexts ≡ false) ⊎ (waits id ps ≡ true)
      → unsettled id b.tables.contexts ≡ false

  SettleOne : Deferred R → Swept R → Swept R → Type 0
  SettleOne p a b =
      (id : ℕ)
      → (unsettled id a.tables.contexts ≡ false) ⊎ (p.context.context_id ≡ id)
      → unsettled id b.tables.contexts ≡ false

  -- What was settled stays so.
  Keeps : Swept R → List Context → Type 0
  Keeps a cs = (id : ℕ) → unsettled id a.tables.contexts ≡ false → unsettled id cs ≡ false

  Keeps-IsClosed : (a : Swept R) → IsClosed (Keeps a)
  unfolding Keeps
  Keeps-IsClosed a other cs h id u = settled-IsClosed id other cs (h id u)

  settle_one :
      (p : Deferred R) (a : Swept R) (cs : List Context)
      → Keeps a cs
      → (id : ℕ) → (unsettled id a.tables.contexts ≡ false) ⊎ (p.context.context_id ≡ id)
      → unsettled id (set_state p.context.context_id predicted cs) ≡ false
  unfolding Keeps
  settle_one p a cs h id (inl u) =
      unsettled-set_state id p.context.context_id predicted cs refl (inl (h id u))
  settle_one p a cs h id (inr e) =
      unsettled-set_state id p.context.context_id predicted cs refl (inr e)

  settle_context-Runs :
      (p : Deferred R) (a : Swept R) (r : Propagated R)
      → Went (Keeps a) r
      → Runs (SettleOne p a) (settle_context p.context.context_id a r)
  unfolding settle_context SettleOne set_context_state
  settle_context-Runs p a _ (went l h) = running _ (settle_one p a l.tables.contexts h)

  propagate_one-Runs :
      (p : Deferred R) (a : Swept R) → Runs (SettleOne p a) (propagate_one w s now p a)
  unfolding propagate_one SettleOne set_context_state Keeps
  propagate_one-Runs p a =
      elim (Bool-cases (lt p.decision.confidence s.propagation_min_confidence)) [
        | inl t ↦ rw t (running _ (settle_one p a a.tables.contexts (λ id u. u)))
        | inr t ↦ rw t (
            settle_context-Runs p a _ (
              run_propagation-Went laws (Keeps a) (Keeps-IsClosed a) w s v p.context now p.events _
                _ a.tables (λ id u. u)))
      ]

  SettleAll-cons :
      (p : Deferred R) (rest : List (Deferred R)) (a b d : Swept R)
      → SettleOne p a b
      → SettleAll rest b d
      → SettleAll (p ∷ rest) a d
  unfolding SettleOne SettleAll
  SettleAll-cons p rest a b d h k id (inl before) = k id (inl (h id (inl before)))
  SettleAll-cons p rest a b d h k id (inr e) = elim (Bool-cases (p.context.context_id == id)) [
    | inl t ↦ k id (inl (h id (inr (ground arith))))
    | inr t ↦ k id (inr (ground arith))
  ]

  propagate_next :
      (p : Deferred R) (rest : List (Deferred R)) (a : Swept R) (r : Sweep R)
      → ((b : Swept R) → Runs (SettleAll rest b) (propagation_pass w s now rest (runs b)))
      → Runs (SettleOne p a) r
      → Runs (SettleAll (p ∷ rest) a) (propagation_pass w s now rest r)
  propagate_next p rest a _ later (running b h) =
      weaken _ _ _ (λ d k. SettleAll-cons p rest a b d h k) (later b)

  propagation_pass-Runs :
      (ps : List (Deferred R)) (a : Swept R)
      → Runs (SettleAll ps a) (propagation_pass w s now ps (runs a))
  unfolding propagation_pass SettleAll
  propagation_pass-Runs [] a =
      running a (λ id h. elim h [ inl k ↦ k | inr k ↦ absurd (ground arith) ])
  propagation_pass-Runs (p ∷ rest) a =
      propagate_next p rest a _ (λ b. propagation_pass-Runs rest b) (propagate_one-Runs p a)

  both_passes-Runs :
      (cs : List Context) (a : Swept R) (r : Sweep R)
      → Runs (HandleAll cs a) r
      → Runs
          (λ b. (id : ℕ) → has_id id cs ≡ true → unsettled id b.tables.contexts ≡ false)
          (both_passes w s now r)
  unfolding both_passes HandleAll SettleAll
  both_passes-Runs cs a _ (running b h) =
      weaken _ _ _ (λ d k id e. k id (h id (inr e))) (propagation_pass-Runs b.deferred b)

returned :
    {R : Type 0} (cs : List Context) (r : Sweep R)
    → Runs (λ b. (id : ℕ) → has_id id cs ≡ true → unsettled id b.tables.contexts ≡ false) r
    → (a : Swept R) × (r ≡ runs a)
      × ((id : ℕ) → has_id id cs ≡ true → unsettled id a.tables.contexts ≡ false)
returned cs _ (running a h) = (a, refl, h)

-- The contexts that a sweep claims.
abbrev pub claimed_by : {R : Type 0} → Settings R → ℕ → Tables R → List Context
claimed_by s now t = (claim_ready_contexts now (s.close_grace_minutes * minute) 20 t).1

-- A sweep over answers of the graph that keep the schema returns, and every context that it claimed
-- is then predicted or in error, whatever was decided, stored, suppressed or propagated. The deadband
-- is positive and the half-point not negative.
pub close_ready_contexts-settled :
    {R : Type 0} ⦃n : Number R⦄ (laws : IsReal R) (w : World R) (s : Settings R) (now : ℕ)
    (t : Tables R)
    → IsSchema w s
    → (a : Swept R) × (close_ready_contexts w s now t ≡ runs a)
      × ((id : ℕ) → has_id id (claimed_by s now t) ≡ true → unsettled id a.tables.contexts ≡ false)
unfolding close_ready_contexts
close_ready_contexts-settled laws w s now t v = returned (claimed_by s now t) _ (
    both_passes-Runs laws w s v now (claimed_by s now t) _ _
      (direct_pass-Runs laws w s v now (claimed_by s now t) _))
