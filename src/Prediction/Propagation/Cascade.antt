-- ===== src/Prediction/Propagation/Cascade.antt =====
-- Propagation reaches each asset at most once, never one that has been decided, and ends.
use Prim.Native.String.{String}
use text.Mathlib.Text.{◌==◌ as str_eq}
use text.Mathlib.TextEquality.{eq_iff}
use mathlib.Core.Path.{subst}
use stock_prediction.Base.{
  ℕ, ◌+◌, ◌≤◌, ◌<◌, ◌≡◌, refl, sym, ap, Bool, true, false, Option, none, some, List, [], ◌∷◌, ◌++◌,
  map, length, All, arith, Bool-cases, inl, inr, if◌then◌else◌,
}
use stock_prediction.Prediction.Edge.{CorrelationEdge}
use stock_prediction.Prediction.Repository.{Hop, PredictionMade, Tables}
use stock_prediction.Prediction.Stance.{World}
use stock_prediction.Prediction.Stance.Outcomes.{Stored, kept, sent}
use stock_prediction.Prediction.Propagation.{
  Pass, Arrival, Inbound, is_in, append_to, add_edges, add_answer, collect_from, Level, Propagated,
  went_on, raised,
}

not_among :
    (asset : String) (visited known : List String)
    → All (λ a. is_in a visited ≡ true) known
    → is_in asset visited ≡ false
    → is_in asset known ≡ false
not_among asset visited [] h e = refl
not_among asset visited (a ∷ rest) h e =
    ground (arith, h.0, eq_iff asset a, not_among asset visited rest h.1 e)

pub still_seen :
    (asset : String) (visited known : List String)
    → All (λ a. is_in a visited ≡ true) known
    → All (λ a. is_in a (asset ∷ visited) ≡ true) known
still_seen asset visited [] h = tt
still_seen asset visited (a ∷ rest) h = (ground (arith, h.0), still_seen asset visited rest h.1)

module _ {R : Type 0} where
  -- The targets are new, one after another.
  abbrev pub KeysAreNew : List String → Inbound R → Type 0
  KeysAreNew visited [] = Unit
  KeysAreNew visited ((t, _) ∷ rest) = (is_in t visited ≡ false) × KeysAreNew (t ∷ visited) rest

  KeysAreNew-append_to :
      (target : String) (a : Arrival R) (visited : List String) (inbound : Inbound R)
      → is_in target visited ≡ false
      → KeysAreNew visited inbound
      → KeysAreNew visited (append_to target a inbound)
  unfolding append_to
  KeysAreNew-append_to target a visited [] h k = (h, tt)
  KeysAreNew-append_to target a visited ((t, arrivals) ∷ rest) h k =
      elim (Bool-cases (str_eq t target)) [
        | inl e ↦ rw e k
        | inr e ↦ rw e (
          k.0,
          KeysAreNew-append_to target a (t ∷ visited) rest
              (ground (arith, eq_iff t target, eq_iff target t)) k.1,
        )
      ]

  KeysAreNew-add_edges :
      (source condition : String) (chain : List (Hop R)) (visited : List String)
      (edges : List (CorrelationEdge R)) (inbound : Inbound R)
      → KeysAreNew visited inbound
      → KeysAreNew visited (add_edges source condition chain visited edges inbound)
  unfolding add_edges
  KeysAreNew-add_edges source condition chain visited [] inbound k = k
  KeysAreNew-add_edges source condition chain visited (e ∷ es) inbound k =
      elim (Bool-cases (is_in e.target_asset_id visited)) [
        | inl t ↦ rw t (KeysAreNew-add_edges source condition chain visited es inbound k)
        | inr t ↦ rw t (
            KeysAreNew-add_edges source condition chain visited es _
              (KeysAreNew-append_to e.target_asset_id _ visited inbound t k))
      ]

  KeysAreNew-add_answer :
      (source condition : String) (chain : List (Hop R)) (visited : List String)
      (answer : Option (List (CorrelationEdge R))) (inbound : Inbound R)
      → KeysAreNew visited inbound
      → KeysAreNew visited (add_answer source condition chain visited answer inbound)
  unfolding add_answer
  KeysAreNew-add_answer source condition chain visited none inbound k = k
  KeysAreNew-add_answer source condition chain visited (some edges) inbound k =
      KeysAreNew-add_edges source condition chain visited edges inbound k

  pub KeysAreNew-collect :
      (w : World R) (visited : List String) (pass_ : Pass R) (inbound : Inbound R)
      → KeysAreNew visited inbound
      → KeysAreNew visited (collect_from w visited pass_ inbound)
  unfolding collect_from
  KeysAreNew-collect w visited [] inbound k = k
  KeysAreNew-collect w visited ((source, (direction, chain)) ∷ rest) inbound k =
      KeysAreNew-collect w visited rest _ (KeysAreNew-add_answer source _ chain visited _ inbound k)

  abbrev pub assets : List (PredictionMade R) → List String
  assets messages = map (λ m. m.asset_id) messages

  -- Predictions for different assets, none of which had been visited, at most so many levels deep. The
  -- latest stands first.
  abbrev pub IsCascade : List String → ℕ → List (PredictionMade R) → Type 0
  IsCascade visited deepest [] = Unit
  IsCascade visited deepest (m ∷ ms) =
      (is_in m.asset_id visited ≡ false)
      × (is_in m.asset_id (assets ms) ≡ false)
      × (0 < m.propagation_depth)
      × (m.propagation_depth ≤ deepest)
      × IsCascade visited deepest ms

  -- Where the propagation stands, from `old` on.
  pub record Invariant (start : List String) (deepest : ℕ) (old outbox : List (PredictionMade R))
      (produced : ℕ) (visited : List String) : Type 0 where
    pub sent_since : List (PredictionMade R)
    pub split : outbox ≡ sent_since ++ old
    pub counted : produced ≡ length sent_since
    pub cascade : IsCascade start deepest sent_since
    pub seen : All (λ a. is_in a visited ≡ true) (assets sent_since)
    pub grown : (a : String) → is_in a start ≡ true → is_in a visited ≡ true

  module _ (start : List String) (deepest : ℕ) (old : List (PredictionMade R)) where
    -- A target that is new is visited, and a prediction for it sent or not.
    pub Invariant-target :
        (target : String) (depth : ℕ) (outbox outbox' : List (PredictionMade R)) (stored : Bool)
        (produced : ℕ) (visited : List String)
        → 0 < depth
        → depth ≤ deepest
        → is_in target visited ≡ false
        → Stored target depth outbox outbox' stored
        → Invariant start deepest old outbox produced visited
        → Invariant start deepest old outbox'
            (if stored then produced + 1 else produced)
            (target ∷ visited)
    Invariant-target target depth outbox _ _ produced visited p q new kept v = record {
      sent_since = v.sent_since;
      split = v.split;
      counted = v.counted;
      cascade = v.cascade;
      seen = still_seen target visited _ v.seen;
      grown = λ a h. ground (arith, v.grown a h);
    }
    Invariant-target target depth outbox _ _ produced visited p q new (sent m e f) v = record {
      sent_since = m ∷ v.sent_since;
      split = ap (λ ms. m ∷ ms) v.split;
      counted = omega (arith, v.counted);
      cascade = (
        subst (λ a. is_in a start ≡ false) (sym e) (ground (arith, v.grown target)),
        subst (λ a. is_in a (assets v.sent_since) ≡ false) (sym e)
            (not_among target visited _ v.seen new),
        omega (arith, f),
        omega (arith, f),
        v.cascade,
      );
      seen = (ground (arith, eq_iff m.asset_id target), still_seen target visited _ v.seen);
      grown = λ a h. ground (arith, v.grown a h);
    }

    -- With these assets visited, or where `decide` raised.
    pub data IsKept (visited : List String) : Propagated R → Type 0 where
      in_time :
          (l : Level R)
          → l.visited ≡ visited
          → Invariant start deepest old l.tables.outbox l.produced visited
          → IsKept visited (went_on l)
      cut_short :
          (t : Tables R) (produced : ℕ)
          → Invariant start deepest old t.outbox produced visited
          → IsKept visited (raised t)
