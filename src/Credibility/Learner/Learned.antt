-- ===== src/Credibility/Learner/Learned.antt =====
-- src/services/credibility/credibility/learning/estimator.py: the estimates that are returned for samples.
use mathlib.Core.Path.{subst, fun_ext}
use stock_prediction.Base.{
  ℕ, ◌<◌, Bool, not, Option, none, some, List, [], ◌∷◌, ◌≡◌, refl, sym, ap, ◌∙◌, arith, map, length,
  filter_by, All, if◌then◌else◌, Bool-cases, inl, inr,
}
use stock_prediction.Number.{Number, nought, ◌≺◌}
use stock_prediction.Number.Laws.{IsOrdered, IsSteady, IsPositive}
use stock_prediction.Schema.{EventPolarity, occurrence, resolution}
use stock_prediction.Credibility.Learner.{
  GroupKey, EdgeEstimate, Sample, CorrelationSample, same_key, group_from, weight_return_scale,
  estimate_of, estimate_group, estimate_groups, key_lt, insert, sort, estimate_edges,
  estimate_correlation_edges, signed_return,
}
use stock_prediction.Credibility.Learner.Groups.{
  lookup, members, extend, Distinct, IsEntry, group_from-Distinct, Distinct-IsEntry, lookup-group,
  same_key_iff,
}
use stock_prediction.Credibility.Learner.Estimates.{
  is_enough, few-is_enough, is_enough-positive, IsEstimateOf, estimate_group-IsEstimateOf,
}

module _ {R : Type 0} ⦃n : Number R⦄ where
  -- The estimates of a key.
  abbrev pub of_key : GroupKey → List (EdgeEstimate R) → ℕ
  of_key i es = length (filter_by (λ e. same_key e.key i) es)

  insert-All :
      (P : EdgeEstimate R → Type 0) (e : EdgeEstimate R) (es : List (EdgeEstimate R))
      → P e
      → All P es
      → All P (insert e es)
  unfolding insert
  insert-All P e [] p ps = (p, tt)
  insert-All P e (x ∷ xs) p (q, qs) = elim (Bool-cases (key_lt x.key e.key)) [
    | inl t ↦ rw t (q, insert-All P e xs p qs)
    | inr t ↦ rw t (p, (q, qs))
  ]

  sort-All : (P : EdgeEstimate R → Type 0) (es : List (EdgeEstimate R)) → All P es → All P (sort es)
  unfolding sort
  sort-All P [] ps = tt
  sort-All P (e ∷ es) (p, ps) = insert-All P e (sort es) p (sort-All P es ps)

  of_key-insert :
      (i : GroupKey) (e : EdgeEstimate R) (es : List (EdgeEstimate R))
      → of_key i (insert e es) ≡ of_key i (e ∷ es)
  unfolding insert
  of_key-insert i e [] = refl
  of_key-insert i e (x ∷ xs) = ground (arith, of_key-insert i e xs)

  of_key-sort : (i : GroupKey) (es : List (EdgeEstimate R)) → of_key i (sort es) ≡ of_key i es
  unfolding sort
  of_key-sort i [] = refl
  of_key-sort i (e ∷ es) = ground (arith, of_key-insert i e (sort es), of_key-sort i es)

  length-map : {S : Type 0} (f : S → R) (xs : List S) → length (map f xs) ≡ length xs
  length-map f [] = refl
  length-map f (x ∷ xs) = omega (arith, length-map f xs)

  module _ {S : Type 0} (oriented : S → R) (is_abnormal : S → Bool) (deadband : R) (k j : ℕ) where
    -- How many estimates a group gives.
    abbrev one_if : Option (List S) → ℕ
    one_if none = 0
    one_if (some own) = if is_enough is_abnormal k j own then 1 else 0

    of_key-estimate_groups :
        (i : GroupKey) (d : List (GroupKey × List S))
        → Distinct same_key same_key_iff d
        → of_key i (estimate_groups oriented is_abnormal deadband k j d)
          ≡ one_if (lookup same_key i d)
    unfolding estimate_groups estimate_group estimate_of
    of_key-estimate_groups i [] h = refl
    of_key-estimate_groups i ((key, own) ∷ d) (h, hs) =
        let rest = of_key-estimate_groups i d hs in
        let few = few-is_enough is_abnormal k j own in
        elim (Bool-cases (same_key key i)) [
          | inl t ↦
              let gone : lookup same_key i d ≡ none =
                subst (λ l. lookup same_key l d ≡ none) ((same_key_iff key i).0 t) h in
              let none_left = rest ∙ ap one_if gone in
              elim (Bool-cases (is_enough is_abnormal k j own)) [
                | inl e ↦ rw (few ∙ ap not e) (rw t (rw e (ground (arith, none_left))))
                | inr e ↦ rw (few ∙ ap not e) (rw t (rw e (ground (arith, none_left))))
              ]
          | inr t ↦ elim (Bool-cases (is_enough is_abnormal k j own)) [
            | inl e ↦ rw (few ∙ ap not e) (rw t rest)
            | inr e ↦ rw (few ∙ ap not e) (rw t rest)
          ]
        ]

    one_if-extend :
        (own : List S)
        → 0 < k
        → 0 < j
        → one_if (extend same_key none own) ≡ (if is_enough is_abnormal k j own then 1 else 0)
    one_if-extend [] hk hj = elim (Bool-cases (is_enough is_abnormal k j [])) [
      | inl e ↦ absurd (ground (arith, is_enough-positive is_abnormal k j [] hk hj e))
      | inr e ↦ rw e refl
    ]
    one_if-extend (s ∷ ss) hk hj = refl

    module _ (order : IsOrdered R) (steady : IsSteady R) (positive : IsPositive R)
        (scale : ◌≺◌ {R = R} nought weight_return_scale) where
      estimate_groups-IsEstimateOf :
          (own_of : GroupKey → List S) (d : List (GroupKey × List S))
          → 0 < k
          → 0 < j
          → All (λ g. g.1 ≡ own_of g.0) d
          → All
              (λ e. IsEstimateOf deadband (map oriented (own_of e.key)) e)
              (estimate_groups oriented is_abnormal deadband k j d)
      unfolding estimate_groups
      estimate_groups-IsEstimateOf own_of [] hk hj h = tt
      estimate_groups-IsEstimateOf own_of ((key, own) ∷ d) hk hj (q, h) =
          let rest = estimate_groups-IsEstimateOf own_of d hk hj h in
          let few = few-is_enough is_abnormal k j own in
          elim (Bool-cases (is_enough is_abnormal k j own)) [
            | inl e ↦ rw (few ∙ ap not e) (
              subst
                  (λ o.
                    IsEstimateOf deadband (map oriented o)
                      (estimate_group key deadband (map oriented own)))
                  q
                  (estimate_group-IsEstimateOf order steady positive scale key deadband
                    (map oriented own)
                    (ground (
                      arith,
                      length-map oriented own,
                      is_enough-positive is_abnormal k j own hk hj e,
                    ))),
              rest,
            )
            | inr e ↦ rw (few ∙ ap not e) rest
          ]

module _ {R : Type 0} ⦃n : Number R⦄ where
  -- What is learned from samples with a key and a return: one estimate of each key that has enough samples,
  -- and each estimate is that of exactly the samples of its key.
  pub record AreLearned {S : Type 0} (key : S → GroupKey) (oriented : S → R)
      (is_abnormal : S → Bool) (deadband : R) (k j : ℕ) (samples : List S)
      (es : List (EdgeEstimate R)) : Type 0 where
    pub each :
        All (λ e. IsEstimateOf deadband (map oriented (members same_key key e.key samples)) e) es
    pub once :
        (i : GroupKey)
        → of_key i es
          ≡ (if is_enough is_abnormal k j (members same_key key i samples) then 1 else 0)

  -- The return of a sample in the orientation of an occurrence: that of a resolution is turned round.
  pub as_occurrence : Sample R → R
  as_occurrence s = elim s.polarity [
    | occurrence ↦ s.actual_return
    | resolution ↦ n.neg s.actual_return
  ]

  module _ (order : IsOrdered R) (steady : IsSteady R) (positive : IsPositive R) where
    group-members :
        {S : Type 0} (key : S → GroupKey) (samples : List S) (g : GroupKey × List S)
        → IsEntry same_key same_key_iff (group_from same_key key [] samples) g
        → g.1 ≡ members same_key key g.0 samples
    group-members {S = S} key samples (i, own) h =
        same (members same_key key i samples) (sym h ∙ lookup-group key i samples)
      where
        same : (ms : List S) → some own ≡ extend same_key none ms → own ≡ ms
        same [] e = absurd (ground arith)
        same (x ∷ xs) e = ground arith

    All-members :
        {S : Type 0} (key : S → GroupKey) (samples : List S) (es : List (GroupKey × List S))
        → All (IsEntry same_key same_key_iff (group_from same_key key [] samples)) es
        → All (λ g. g.1 ≡ members same_key key g.0 samples) es
    All-members key samples [] h = tt
    All-members key samples (g ∷ es) (h, hs) =
        (group-members key samples g h, All-members key samples es hs)

    sorted-AreLearned :
        {S : Type 0} (key : S → GroupKey) (oriented : S → R) (is_abnormal : S → Bool) (deadband : R)
        (k j : ℕ) (samples : List S)
        → ◌≺◌ {R = R} nought weight_return_scale
        → 0 < k
        → 0 < j
        → AreLearned key oriented is_abnormal deadband k j samples (
            sort (
              estimate_groups oriented is_abnormal deadband k j
                (group_from same_key key [] samples)))
    sorted-AreLearned key oriented is_abnormal deadband k j samples scale hk hj =
        let d = group_from same_key key [] samples in
        let distinct = group_from-Distinct same_key same_key_iff key [] samples tt in
        record {
          each = sort-All _ _ (
              estimate_groups-IsEstimateOf oriented is_abnormal deadband k j order steady positive
                scale (λ i. members same_key key i samples) d hk hj
                (All-members key samples d (Distinct-IsEntry same_key same_key_iff d distinct)));
          once = λ i.
              of_key-sort i (estimate_groups oriented is_abnormal deadband k j d)
              ∙ of_key-estimate_groups oriented is_abnormal deadband k j i d distinct
              ∙ ap (one_if oriented is_abnormal deadband k j) (lookup-group key i samples)
              ∙ one_if-extend oriented is_abnormal deadband k j (members same_key key i samples) hk
                  hj;
        }

    signed-as_occurrence :
        (p : EventPolarity) (r : R)
        → (elim p [ occurrence ↦ r | resolution ↦ n.neg r ]) ≡ signed_return p r
    unfolding signed_return
    signed-as_occurrence occurrence r = refl
    signed-as_occurrence resolution r = refl

    oriented : (s : Sample R) → as_occurrence s ≡ signed_return s.polarity s.actual_return
    unfolding as_occurrence
    oriented s = signed-as_occurrence s.polarity s.actual_return

    -- For positive bars and a positive scale, of the samples of each factor, condition and asset: there is one
    -- estimate if there are enough of them, the lower bar counting where one is abnormal, and otherwise none.
    -- Its direction is that of their mean return beyond the deadband, the returns of resolutions turned round;
    -- its counts are one more than the number of the samples whose return has the sign of the direction, and one
    -- more than that of the others; its confidence is the share of the former. Its weight is the size of the
    -- mean over the scale, and weight and confidence lie between zero and one.
    pub estimate_edges-AreLearned :
        (deadband : R) (min_samples abnormal_min : ℕ) (samples : List (Sample R))
        → ◌≺◌ {R = R} nought weight_return_scale
        → 0 < min_samples
        → 0 < abnormal_min
        → AreLearned
            (λ s. (s.factor, s.condition, s.asset))
            as_occurrence
            (λ s. s.is_abnormal)
            deadband
            min_samples
            abnormal_min
            samples
            (estimate_edges deadband min_samples abnormal_min samples)
    unfolding estimate_edges
    estimate_edges-AreLearned deadband k j samples scale hk hj =
        subst
          (λ (f : Sample R → R).
            AreLearned (λ s. (s.factor, s.condition, s.asset)) as_occurrence (λ s. s.is_abnormal)
              deadband k j samples
              (sort (
                estimate_groups f (λ s. s.is_abnormal) deadband k j
                  (group_from same_key (λ s. (s.factor, s.condition, s.asset)) [] samples))))
          (fun_ext oriented)
          (sorted-AreLearned (λ s. (s.factor, s.condition, s.asset)) as_occurrence
            (λ s. s.is_abnormal) deadband k j samples scale hk hj)

    -- For positive bars and a positive scale, of the samples of each source, condition and target: there is one
    -- estimate if there are enough of them, the lower bar counting where one is abnormal, and otherwise none;
    -- also where it is neutral. Its direction is that of their mean return beyond the deadband, as it is; its
    -- counts are one more than the number of the samples whose return has the sign of the direction, and one
    -- more than that of the others; its confidence is the share of the former. Its weight is the size of the
    -- mean over the scale, and weight and confidence lie between zero and one.
    pub estimate_correlation_edges-AreLearned :
        (deadband : R) (min_samples abnormal_min : ℕ) (samples : List (CorrelationSample R))
        → ◌≺◌ {R = R} nought weight_return_scale
        → 0 < min_samples
        → 0 < abnormal_min
        → AreLearned
            (λ s. (s.source_asset, some s.condition, s.target_asset))
            (λ s. s.actual_return)
            (λ s. s.is_abnormal)
            deadband
            min_samples
            abnormal_min
            samples
            (estimate_correlation_edges deadband min_samples abnormal_min samples)
    unfolding estimate_correlation_edges
    estimate_correlation_edges-AreLearned deadband k j samples scale hk hj =
        sorted-AreLearned (λ s. (s.source_asset, some s.condition, s.target_asset))
          (λ s. s.actual_return) (λ s. s.is_abnormal) deadband k j samples scale hk hj
