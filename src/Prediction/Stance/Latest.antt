-- ===== src/Prediction/Stance/Latest.antt =====
-- The latest stance of an asset, and what its withdrawal does to the count of a day.
use Prim.Native.String.{String}
use stock_prediction.Base.{
  ℕ, ◌+◌, ◌≤◌, ◌≡◌, inl, inr, refl, true, false, ◌&&◌, Option, none, some, List, [], ◌∷◌, length,
  filter_by, All, ltb, ◌==◌, arith, ==_iff, Bool-cases, if◌then◌else◌,
}
use stock_prediction.Prediction.Repository.{Row, is_stance, later_row, latest_row, withdraw}

module _ {R : Type 0} (date : ℕ → ℕ) (asset : String) where
  -- The stances of a day.
  abbrev pub stances_on : ℕ → List (Row R) → ℕ
  stances_on d rows =
      length (filter_by (λ r. is_stance asset r && (date r.message.decision_at == d)) rows)

  pub stances_on-withdraw :
      (d : ℕ) (o : Option ℕ) (rows : List (Row R))
      → stances_on d (withdraw o rows) ≤ stances_on d rows
  unfolding withdraw
  stances_on-withdraw d none rows = ground arith
  stances_on-withdraw d (some id) [] = ground arith
  stances_on-withdraw d (some id) (r ∷ rs) = ground (arith, stances_on-withdraw d (some id) rs)

  abbrev pub one_on : ℕ → Row R → ℕ
  one_on d r = if date r.message.decision_at == d then 1 else 0

  -- The row is the latest stance in the list.
  pub record IsLatest (r : Row R) (rows : List (Row R)) : Type 0 where
    pub stance : is_stance asset r ≡ true
    pub freed :
        (d : ℕ)
        → stances_on d (withdraw (some (r.message).prediction_id) rows) + one_on d r
          ≤ stances_on d rows
    pub bounded :
        (now : ℕ) → All (λ x. x.message.decision_at ≤ now) rows → r.message.decision_at ≤ now
    pub last :
        All (λ x. is_stance asset x ≡ true → x.message.decision_at ≤ r.message.decision_at) rows

  pub data Latest (rows : List (Row R)) : Option (Row R) → Type 0 where
    no_stance : ((d : ℕ) → stances_on d rows ≡ 0) → Latest rows none
    stands : (r : Row R) → IsLatest r rows → Latest rows (some r)

  raise_bound :
      (a b : ℕ) (rows : List (Row R))
      → a ≤ b
      → All (λ x. is_stance asset x ≡ true → x.message.decision_at ≤ a) rows
      → All (λ x. is_stance asset x ≡ true → x.message.decision_at ≤ b) rows
  raise_bound a b [] h k = tt
  raise_bound a b (r ∷ rs) h k = (λ e. omega (arith, k.0 e), raise_bound a b rs h k.1)

  none_up_to :
      (a : ℕ) (rows : List (Row R))
      → ((d : ℕ) → stances_on d rows ≡ 0)
      → All (λ x. is_stance asset x ≡ true → x.message.decision_at ≤ a) rows
  none_up_to a [] h = tt
  none_up_to a (r ∷ rs) h = (
    λ e. absurd (
        ground (
          arith,
          h (date r.message.decision_at),
          ==_iff (date r.message.decision_at) (date r.message.decision_at),
        )),
    none_up_to a rs (λ d. ground (arith, h d)),
  )

  freed_first :
      (d : ℕ) (r : Row R) (rs : List (Row R))
      → is_stance asset r ≡ true
      → stances_on d (withdraw (some (r.message).prediction_id) (r ∷ rs)) + one_on d r
        ≤ stances_on d (r ∷ rs)
  unfolding withdraw
  freed_first d r rs e = ground (
    arith,
    stances_on-withdraw d (some (r.message).prediction_id) rs,
    ==_iff (r.message).prediction_id (r.message).prediction_id,
  )

  freed_later :
      (d k id : ℕ) (r : Row R) (rs : List (Row R))
      → stances_on d (withdraw (some id) rs) + k ≤ stances_on d rs
      → stances_on d (withdraw (some id) (r ∷ rs)) + k ≤ stances_on d (r ∷ rs)
  unfolding withdraw
  freed_later d k id r rs h = ground arith

  Latest-cons :
      (r : Row R) (rs : List (Row R)) (o : Option (Row R))
      → is_stance asset r ≡ true
      → Latest rs o
      → Latest (r ∷ rs) (later_row r o)
  unfolding later_row withdraw
  Latest-cons r rs _ e (no_stance h) = stands r (record {
    stance = e;
    freed = λ d. freed_first d r rs e;
    bounded = λ now b. b.0;
    last = (λ x. omega arith, none_up_to _ rs h);
  })
  Latest-cons r rs _ e (stands q v) =
      elim (Bool-cases (ltb r.message.decision_at q.message.decision_at)) [
        | inl t ↦ rw t (
            stands q (record {
              stance = v.stance;
              freed = λ d. freed_later d _ _ r rs (v.freed d);
              bounded = λ now b. v.bounded now b.1;
              last = (λ x. ground arith, v.last);
            }))
        | inr t ↦ rw t (
            stands r (record {
              stance = e;
              freed = λ d. freed_first d r rs e;
              bounded = λ now b. b.0;
              last = (λ x. omega arith, raise_bound _ _ rs (ground arith) v.last);
            }))
      ]

  pub latest_row-Latest : (rows : List (Row R)) → Latest rows (latest_row asset rows)
  unfolding latest_row
  latest_row-Latest [] = no_stance (λ d. refl)
  latest_row-Latest (r ∷ rs) = elim (Bool-cases (is_stance asset r)) [
    | inl e ↦ rw e (Latest-cons r rs _ e (latest_row-Latest rs))
    | inr e ↦ rw e (skip r rs _ e (latest_row-Latest rs))
  ]
    where
      skip :
          (r : Row R) (rs : List (Row R)) (o : Option (Row R))
          → is_stance asset r ≡ false
          → Latest rs o
          → Latest (r ∷ rs) o
      skip r rs _ e (no_stance h) = no_stance (λ d. rw e (h d))
      skip r rs _ e (stands q v) = stands q (record {
        stance = v.stance;
        freed = λ d. freed_later d _ _ r rs (v.freed d);
        bounded = λ now b. v.bounded now b.1;
        last = (λ x. absurd (ground arith), v.last);
      })
