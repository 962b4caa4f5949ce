-- ===== src/Number.antt =====
-- The numbers that the services compute with: Python's `float`, and `Decimal` for prices. Their
-- arithmetic rounds, so a model takes the type and its operations as an instance argument, and a
-- theorem names the laws that it needs. The values are the finite ones, up to `==`: no NaN, and
-- `-0.0` is `0.0`. Division is asked for at a divisor that is not zero only; where the code does
-- not test the divisor the model does, and raises.
pub mod Order
pub mod Laws
pub mod Fixed
use stock_prediction.Base.{ℕ, Bool, not, ◌&&◌, ◌≡◌, true, List, [], ◌∷◌, if◌then◌else◌}

pub record Number (R : Type 0) : Type 0 where
  -- The number that a natural number stands for.
  pub of_ℕ : ℕ → R
  pub add : R → R → R
  pub sub : R → R → R
  pub mul : R → R → R
  pub div : R → R → R
  pub neg : R → R
  pub le : R → R → Bool
  -- `round(x, places)`
  pub round : ℕ → R → R

module _ {R : Type 0} ⦃n : Number R⦄ where
  infix 4 ◌≼◌ ◌≺◌
  abbrev pub ◌≼◌ : R → R → Type 0
  x ≼ y = n.le x y ≡ true

  abbrev pub lt : R → R → Bool
  lt x y = not (n.le y x)

  abbrev pub ◌≺◌ : R → R → Type 0
  x ≺ y = lt x y ≡ true

  abbrev pub num_eq : R → R → Bool
  num_eq x y = n.le x y && n.le y x

  abbrev pub nought : R
  nought = n.of_ℕ 0

  abbrev pub one : R
  one = n.of_ℕ 1

  abbrev pub abs : R → R
  abs x = if lt x nought then n.neg x else x

  -- `min(a, b)` and `max(a, b)`: the first argument unless the second beats it.
  abbrev pub min_of : R → R → R
  min_of a b = if lt b a then b else a

  abbrev pub max_of : R → R → R
  max_of a b = if lt a b then b else a

  abbrev pub sum_from : R → List R → R
  sum_from acc [] = acc
  sum_from acc (x ∷ xs) = sum_from (n.add acc x) xs

  -- `sum(xs)`
  abbrev pub sum : List R → R
  sum = sum_from nought
