-- ===== src/Credibility/Updater/Counts.antt =====
-- The counts of a source over observations.
use stock_prediction.Base.{
  ◌≡◌, refl, ◌⊎◌, inl, inr, Bool, true, false, List, [], ◌∷◌, All, Bool-cases,
}
use stock_prediction.Number.{Number, ◌≼◌, ◌≺◌, nought, max_of}
use stock_prediction.Number.Laws.{IsOrdered, IsSteady}
use stock_prediction.Number.Order.{le-max_of_right}
use stock_prediction.Credibility.Updater.{apply_bernoulli}

module _ {R : Type 0} where
  -- The count that an outcome is credited to, and the other one.
  abbrev pub credited : Bool → R × R → R
  credited true (alpha, beta) = alpha
  credited false (alpha, beta) = beta

  abbrev pub spared : Bool → R × R → R
  spared true (alpha, beta) = beta
  spared false (alpha, beta) = alpha

module _ {R : Type 0} ⦃n : Number R⦄ where
  -- The count is what it should be, or lifted to the floor from below.
  abbrev pub IsLifted : R → R → R → Type 0
  IsLifted floor due count = ((floor ≼ due) × (count ≡ due)) ⊎ ((due ≺ floor) × (count ≡ floor))

  -- One observation: its credit goes to one count, and both end at the floor at least.
  pub record IsObserved (floor credit : R) (hit : Bool) (before after : R × R) : Type 0 where
    pub added : IsLifted floor (n.add (credited hit before) credit) (credited hit after)
    pub kept : IsLifted floor (spared hit before) (spared hit after)

  pub observe_all : R → List (R × Bool) → R × R → R × R
  observe_all floor [] counts = counts
  observe_all floor ((credit, hit) ∷ later) counts =
      observe_all floor later (apply_bernoulli counts.0 counts.1 credit hit floor)

  -- The counts with each credit added to its side.
  pub add_all : List (R × Bool) → R × R → R × R
  add_all [] counts = counts
  add_all ((credit, true) ∷ later) (alpha, beta) = add_all later (n.add alpha credit, beta)
  add_all ((credit, false) ∷ later) (alpha, beta) = add_all later (alpha, n.add beta credit)

  abbrev pub NonnegCredit : R × Bool → Type 0
  NonnegCredit o = nought ≼ o.0

  max_of-IsLifted : (due floor : R) → IsLifted floor due (max_of due floor)
  max_of-IsLifted due floor = elim (Bool-cases (n.le floor due)) [
    | inl t ↦ inl (t, rw t refl)
    | inr t ↦ inr (rw t refl, rw t refl)
  ]

  apply_bernoulli-IsObserved :
      (alpha beta credit : R) (hit : Bool) (floor : R)
      → IsObserved floor credit hit (alpha, beta) (apply_bernoulli alpha beta credit hit floor)
  unfolding apply_bernoulli
  apply_bernoulli-IsObserved alpha beta credit true floor = record {
    added = max_of-IsLifted (n.add alpha credit) floor;
    kept = max_of-IsLifted beta floor;
  }
  apply_bernoulli-IsObserved alpha beta credit false floor = record {
    added = max_of-IsLifted (n.add beta credit) floor;
    kept = max_of-IsLifted alpha floor;
  }

  max_of_high : (a floor : R) → floor ≼ a → max_of a floor ≡ a
  max_of_high a floor h = rw h refl

  module _ (order : IsOrdered R) (steady : IsSteady R) where
    observe_all-add_all :
        (floor : R) (later : List (R × Bool)) (alpha beta : R)
        → All NonnegCredit later
        → floor ≼ alpha
        → floor ≼ beta
        → observe_all floor later (alpha, beta) ≡ add_all later (alpha, beta)
    unfolding observe_all add_all apply_bernoulli
    observe_all-add_all floor [] alpha beta h la lb = refl
    observe_all-add_all floor ((credit, true) ∷ later) alpha beta (h, hs) la lb =
        let up = order.le_trans _ _ _ la (steady.le-add alpha credit h) in
        rw (max_of_high (n.add alpha credit) floor up) (
          rw (max_of_high beta floor lb)
            (observe_all-add_all floor later (n.add alpha credit) beta hs up lb))
    observe_all-add_all floor ((credit, false) ∷ later) alpha beta (h, hs) la lb =
        let up = order.le_trans _ _ _ lb (steady.le-add beta credit h) in
        rw (max_of_high (n.add beta credit) floor up) (
          rw (max_of_high alpha floor la)
            (observe_all-add_all floor later alpha (n.add beta credit) hs la up))

    apply_bernoulli-floor :
        (alpha beta credit : R) (hit : Bool) (floor : R)
        → let after = apply_bernoulli alpha beta credit hit floor in
          (floor ≼ after.0) × (floor ≼ after.1)
    unfolding apply_bernoulli
    apply_bernoulli-floor alpha beta credit true floor =
        (le-max_of_right order _ _, le-max_of_right order _ _)
    apply_bernoulli-floor alpha beta credit false floor =
        (le-max_of_right order _ _, le-max_of_right order _ _)

    -- From any counts, also below the floor: an observation adds its credit to the first count for a hit
    -- and to the second for a miss, keeps the other, and lifts to the floor what is then below it. Any later
    -- observations, whose credits are not negative, add each credit to its count and lift nothing.
    pub apply_bernoulli_lem :
        (alpha beta credit : R) (hit : Bool) (floor : R) (later : List (R × Bool))
        → All NonnegCredit later
        → let after = apply_bernoulli alpha beta credit hit floor in
          IsObserved floor credit hit (alpha, beta) after
          × (observe_all floor later after ≡ add_all later after)
    apply_bernoulli_lem alpha beta credit hit floor later h =
        let (l, r) = apply_bernoulli-floor alpha beta credit hit floor in
        (
          apply_bernoulli-IsObserved alpha beta credit hit floor,
          observe_all-add_all floor later _ _ h l r,
        )
