-- ===== src/Credibility/Learner/Groups.antt =====
-- src/services/credibility/credibility/learning/estimator.py: the group of a key.
use Prim.Native.String.{String}
use text.Mathlib.TextEquality.{eq_iff}
use mathlib.Core.List.{append_assoc}
use stock_prediction.Base.{
  Bool, true, false, Option, none, some, List, [], ◌∷◌, ◌++◌, ◌≡◌, ◌↔◌, refl, ap, ◌∙◌, arith,
  filter_by, if◌then◌else◌, All, Bool-cases, inl, inr,
}
use stock_prediction.Credibility.Learner.{
  add_sample, group_from, GroupKey, same_condition, same_key,
}

module _ {S K : Type 0} (same : K → K → Bool) where
  -- The list under a key.
  abbrev pub lookup : K → List (K × List S) → Option (List S)
  lookup j [] = none
  lookup j ((i, xs) ∷ d) = let rest = lookup j d in if same i j then some xs else rest

  -- The samples of a key.
  abbrev pub members : (S → K) → K → List S → List S
  members key j ss = filter_by (λ s. same (key s) j) ss

  -- A list that is there, and more samples behind it; none if there is nothing.
  abbrev pub extend : Option (List S) → List S → Option (List S)
  extend o [] = o
  extend none (x ∷ xs) = some (x ∷ xs)
  extend (some ys) (x ∷ xs) = some (ys ++ (x ∷ xs))

  module _ (same_iff : (j k : K) → (same j k ≡ true) ↔ (j ≡ k)) where
    lookup-add_sample :
        (j k : K) (s : S) (d : List (K × List S))
        → lookup j (add_sample same k s d)
          ≡ (if same k j then extend (lookup j d) (s ∷ []) else lookup j d)
    unfolding add_sample
    lookup-add_sample j k s [] = ground arith
    lookup-add_sample j k s ((i, xs) ∷ d) =
        ground (arith, same_iff i k, same_iff i j, same_iff k j, lookup-add_sample j k s d)

    extend-extend :
        (o : Option (List S)) (s : S) (xs : List S)
        → extend (extend o (s ∷ [])) xs ≡ extend o (s ∷ xs)
    extend-extend none s [] = refl
    extend-extend none s (x ∷ xs) = refl
    extend-extend (some ys) s [] = refl
    extend-extend (some ys) s (x ∷ xs) = ap (λ l. some l) (append_assoc ys (s ∷ []) (x ∷ xs))

    lookup-group_from :
        (key : S → K) (j : K) (d : List (K × List S)) (ss : List S)
        → lookup j (group_from same key d ss) ≡ extend (lookup j d) (members key j ss)
    unfolding group_from
    lookup-group_from key j d [] = refl
    lookup-group_from key j d (s ∷ ss) =
        lookup-group_from key j (add_sample same (key s) s d) ss
        ∙ ap (λ o. extend o (members key j ss)) (lookup-add_sample j (key s) s d)
        ∙ step (same (key s) j)
      where
        step :
            (b : Bool)
            → extend (if b then extend (lookup j d) (s ∷ []) else lookup j d) (members key j ss)
              ≡ extend (lookup j d) (if b then s ∷ members key j ss else members key j ss)
        step true = extend-extend (lookup j d) s (members key j ss)
        step false = refl

    -- Each key has one group.
    abbrev pub Distinct : List (K × List S) → Type 0
    Distinct [] = Unit
    Distinct ((k, xs) ∷ d) = (lookup k d ≡ none) × Distinct d

    lookup_other :
        (j k : K) (s : S) (d : List (K × List S))
        → same j k ≡ false
        → lookup j d ≡ none
        → lookup j (add_sample same k s d) ≡ none
    lookup_other j k s d h q =
        let flip : same k j ≡ false = ground (arith, h, same_iff j k, same_iff k j) in
        lookup-add_sample j k s d ∙ rw flip q

    add_sample-Distinct :
        (k : K) (s : S) (d : List (K × List S)) → Distinct d → Distinct (add_sample same k s d)
    unfolding add_sample
    add_sample-Distinct k s [] h = (refl, tt)
    add_sample-Distinct k s ((j, xs) ∷ d) (h, hs) = elim (Bool-cases (same j k)) [
      | inl t ↦ rw t (h, hs)
      | inr t ↦ rw t (lookup_other j k s d t h, add_sample-Distinct k s d hs)
    ]

    pub group_from-Distinct :
        (key : S → K) (d : List (K × List S)) (ss : List S)
        → Distinct d
        → Distinct (group_from same key d ss)
    unfolding group_from
    group_from-Distinct key d [] h = h
    group_from-Distinct key d (s ∷ ss) h =
        group_from-Distinct key (add_sample same (key s) s d) ss (add_sample-Distinct (key s) s d h)

    -- The group of each entry is the one under its key.
    abbrev pub IsEntry : List (K × List S) → K × List S → Type 0
    IsEntry d (k, xs) = lookup k d ≡ some xs

    later-IsEntry :
        (j : K) (ys : List S) (d es : List (K × List S))
        → lookup j d ≡ none
        → All (IsEntry d) es
        → All (IsEntry ((j, ys) ∷ d)) es
    later-IsEntry j ys d [] h ks = tt
    later-IsEntry j ys d ((k, xs) ∷ es) h (q, ks) = (
      elim (Bool-cases (same j k)) [
        | inl t ↦ absurd (ground (arith, h, q, ap (λ i. lookup i d) ((same_iff j k).0 t)))
        | inr t ↦ rw t q
      ],
      later-IsEntry j ys d es h ks,
    )

    pub Distinct-IsEntry : (d : List (K × List S)) → Distinct d → All (IsEntry d) d
    Distinct-IsEntry [] h = tt
    Distinct-IsEntry ((k, xs) ∷ d) (h, hs) =
        (rw ((same_iff k k).1 refl) refl, later-IsEntry k xs d d h (Distinct-IsEntry d hs))

same_condition_iff : (c d : Option String) → (same_condition c d ≡ true) ↔ (c ≡ d)
unfolding same_condition
same_condition_iff none none = ground arith
same_condition_iff none (some d) = ground arith
same_condition_iff (some c) none = ground arith
same_condition_iff (some c) (some d) = ground (arith, eq_iff c d)

pub same_key_iff : (j k : GroupKey) → (same_key j k ≡ true) ↔ (j ≡ k)
unfolding same_key
same_key_iff (f, c, a) (g, d, b) = ground (arith, eq_iff f g, eq_iff a b, same_condition_iff c d)

-- The group of a key holds exactly the samples of the key, in their order; there is no group without
-- samples.
pub lookup-group :
    {S : Type 0} (key : S → GroupKey) (j : GroupKey) (samples : List S)
    → lookup same_key j (group_from same_key key [] samples)
      ≡ extend same_key none (members same_key key j samples)
lookup-group key j samples = lookup-group_from same_key same_key_iff key j [] samples
