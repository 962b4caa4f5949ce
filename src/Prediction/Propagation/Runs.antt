-- ===== src/Prediction/Propagation/Runs.antt =====
-- The loops of the propagation keep the cascade.
use Prim.Native.String.{String}
use mathlib.Core.Path.{subst}
use stock_prediction.Base.{
  ℕ, zero, suc, ◌+◌, ◌≤◌, ◌<◌, ◌≡◌, refl, sym, Bool, true, false, List, [], ◌∷◌, ◌++◌, length,
  arith, Bool-cases, inl, inr,
}
use stock_prediction.Number.{Number}
use stock_prediction.Schema.{Direction, neutral, same_direction}
use stock_prediction.Prediction.Decision.{Decided, no_decision, decided, zero_division}
use stock_prediction.Prediction.Repository.{Context, ContextEvent, Hop, PredictionMade, Tables}
use stock_prediction.Prediction.Stance.{World, Settings}
use stock_prediction.Prediction.Stance.Outcomes.{Stored, store_prediction-Stored}
use stock_prediction.Prediction.Propagation.{
  Arrival, Inbound, is_in, collect_inbound, Level, Propagated, went_on, raised, decision_of,
  left_behind, keep_target, keep_target, store_target, decide_target, run_level, run_levels,
  run_propagation, is_none,
}
use stock_prediction.Prediction.Propagation.Cascade.{
  KeysAreNew, KeysAreNew-collect, IsCascade, Invariant, Invariant-target, IsKept, in_time,
  cut_short, still_seen,
}

module _ {R : Type 0} ⦃n : Number R⦄ where
  keep_target-IsKept :
      (start : List String) (deepest : ℕ) (old : List (PredictionMade R)) (target : String)
      (direction : Direction) (chain : List (Hop R)) (depth : ℕ) (l : Level R) (r : Tables R × Bool)
      → 0 < depth
      → depth ≤ deepest
      → is_in target l.visited ≡ false
      → Stored target depth l.tables.outbox r.0.outbox r.1
      → Invariant start deepest old l.tables.outbox l.produced l.visited
      → IsKept start deepest old (target ∷ l.visited) (
          went_on
            (keep_target target direction chain (record l { visited = target ∷ l.visited }) r))
  unfolding keep_target
  keep_target-IsKept start deepest old target direction chain depth l (t, true) p q new m v =
      in_time _ refl (Invariant-target start deepest old target depth _ _ true _ _ p q new m v)
  keep_target-IsKept start deepest old target direction chain depth l (t, false) p q new m v =
      in_time _ refl (Invariant-target start deepest old target depth _ _ false _ _ p q new m v)

module _ {R : Type 0} ⦃n : Number R⦄ (w : World R) (s : Settings R) (record_ : Context) (now : ℕ)
    (events : List ContextEvent) (start : List String) (deepest : ℕ)
    (old : List (PredictionMade R)) where
  skip_target :
      (target : String) (outbox : List (PredictionMade R)) (produced : ℕ) (visited : List String)
      → Invariant start deepest old outbox produced visited
      → Invariant start deepest old outbox produced (target ∷ visited)
  skip_target target outbox produced visited v = record {
    sent_since = v.sent_since;
    split = v.split;
    counted = v.counted;
    cascade = v.cascade;
    seen = still_seen target visited _ v.seen;
    grown = λ a h. ground (arith, v.grown a h);
  }

  decide_target-IsKept :
      (depth : ℕ) (target : String) (arrivals : List (Arrival R)) (d : Decided R) (l : Level R)
      → 0 < depth
      → depth ≤ deepest
      → is_in target l.visited ≡ false
      → Invariant start deepest old l.tables.outbox l.produced l.visited
      → IsKept start deepest old (target ∷ l.visited) (
          decide_target w s record_ now events depth target arrivals d
            (record l { visited = target ∷ l.visited }))
  unfolding decide_target store_target
  decide_target-IsKept depth target arrivals no_decision l p q new v =
      in_time _ refl (skip_target target _ _ _ v)
  decide_target-IsKept depth target arrivals zero_division l p q new v =
      cut_short _ _ (skip_target target _ _ _ v)
  decide_target-IsKept depth target arrivals (decided d) l p q new v =
      elim (Bool-cases (same_direction d.direction neutral)) [
        | inl t ↦ rw t (in_time _ refl (skip_target target _ _ _ v))
        | inr t ↦ rw t (
            keep_target-IsKept start deepest old target d.direction _ depth l _ p q new
              (store_prediction-Stored w _ d now events depth _ l.tables s) v)
      ]

  -- The assets that have been visited after a level.
  abbrev seen_after : List String → Inbound R → List String
  seen_after visited [] = visited
  seen_after visited ((target, _) ∷ rest) = seen_after (target ∷ visited) rest

  run_level-IsKept :
      (depth : ℕ) (inbound : Inbound R) (visited : List String) (r : Propagated R)
      → 0 < depth
      → depth ≤ deepest
      → KeysAreNew visited inbound
      → IsKept start deepest old visited r
      → IsKept start deepest old
          (seen_after visited inbound)
          (run_level w s record_ now events depth inbound r)
  unfolding run_level
  run_level-IsKept depth [] visited _ p q k (cut_short t produced v) = cut_short t produced v
  run_level-IsKept depth [] visited _ p q k (in_time l e v) = in_time l e v
  run_level-IsKept depth ((target, arrivals) ∷ rest) visited _ p q k (cut_short t produced v) =
      run_level-IsKept depth rest (target ∷ visited) (raised t) p q k.1
        (cut_short t produced (skip_target target _ _ _ v))
  run_level-IsKept depth ((target, arrivals) ∷ rest) visited _ p q k (in_time l e v) =
      run_level-IsKept depth rest (target ∷ visited) _ p q k.1 (
        subst
          (λ seen. IsKept start deepest old (target ∷ seen) (
            decide_target w s record_ now events depth target arrivals (decision_of s arrivals)
              (record l { visited = target ∷ l.visited })))
          e
          (decide_target-IsKept depth target arrivals (decision_of s arrivals) l p q
            (subst (λ seen. is_in target seen ≡ false) (sym e) k.0)
            (subst (Invariant start deepest old l.tables.outbox l.produced) (sym e) v)))

  run_levels-IsKept :
      (left depth : ℕ) (visited : List String) (r : Propagated R)
      → left + depth ≡ deepest
      → IsKept start deepest old visited r
      → (seen : List String) × IsKept start deepest old seen
          (run_levels w s record_ now events left depth r)
  unfolding run_levels collect_inbound
  run_levels-IsKept left depth visited _ h (cut_short t produced v) =
      (visited, cut_short t produced v)
  run_levels-IsKept zero depth visited _ h (in_time l e v) = (visited, in_time l e v)
  run_levels-IsKept (suc left) depth visited _ h (in_time l e v) =
      elim (Bool-cases (is_none l.next_pass)) [
        | inl t ↦ rw t (visited, in_time l e v)
        | inr t ↦ rw t (
            run_levels-IsKept left (depth + 1) _ _ (omega (arith, h)) (
              run_level-IsKept (depth + 1) _ l.visited _ (omega arith) (omega (arith, h))
                (KeysAreNew-collect w l.visited l.next_pass [] tt)
                (in_time (record l { next_pass = [] }) refl
                  (subst (Invariant start deepest old l.tables.outbox l.produced) (sym e) v))))
      ]

-- What the count of a propagation that returned is.
abbrev pub Counts : {R : Type 0} → Propagated R → ℕ → Type 0
Counts (went_on l) k = l.produced ≡ k
Counts (raised t) k = Unit

-- A propagation ends, and the predictions that it stores, also where a decision raises, are for
-- different assets, none of them decided directly or visited before, each between one level deep and
-- the maximum. They are new in the outbox, which loses none, and a propagation that returns counts
-- exactly them.
pub run_propagation-IsCascade :
    {R : Type 0} ⦃n : Number R⦄ (w : World R) (s : Settings R) (record_ : Context)
    (direction : Direction) (visited : List String) (now : ℕ) (events : List ContextEvent)
    (t : Tables R)
    → let r = run_propagation w s record_ direction visited now events t in
      (new : List (PredictionMade R)) × ((left_behind r).outbox ≡ new ++ t.outbox)
      × IsCascade visited s.max_propagation_depth new
      × Counts r (length new)
unfolding run_propagation left_behind
run_propagation-IsCascade w s record_ direction visited now events t =
    let start : Invariant visited s.max_propagation_depth t.outbox t.outbox 0 visited = record {
      sent_since = [];
      split = refl;
      counted = refl;
      cascade = tt;
      seen = tt;
      grown = λ a h. h;
    } in
    kept _
      (run_levels-IsKept w s record_ now events visited s.max_propagation_depth t.outbox
        s.max_propagation_depth 0 visited _ (omega arith) (in_time _ refl start)).1
  where
    kept :
        {seen : List String} (r : Propagated _)
        → IsKept visited s.max_propagation_depth t.outbox seen r
        → (new : List (PredictionMade _)) × ((left_behind r).outbox ≡ new ++ t.outbox)
          × IsCascade visited s.max_propagation_depth new
          × Counts r (length new)
    kept _ (in_time l e v) = (v.sent_since, v.split, v.cascade, v.counted)
    kept _ (cut_short u produced v) = (v.sent_since, v.split, v.cascade, tt)
