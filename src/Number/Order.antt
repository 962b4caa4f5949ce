-- ===== src/Number/Order.antt =====
-- Consequences of the order alone.
use stock_prediction.Base.{◌≡◌, false, arith}
use stock_prediction.Number.{Number, ◌≼◌, ◌≺◌, min_of, max_of}
use stock_prediction.Number.Laws.{IsOrdered}

module _ {R : Type 0} ⦃n : Number R⦄ (laws : IsOrdered R) where
  open laws use {le_refl, le_trans, le_total}

  pub le_of_lt : (x y : R) → x ≺ y → x ≼ y
  le_of_lt x y h = ground (arith, le_total x y)

  pub lt_of_not_le : (x y : R) → n.le x y ≡ false → y ≺ x
  lt_of_not_le x y h = ground arith

  pub lt_of_lt_of_le : (x y z : R) → x ≺ y → y ≼ z → x ≺ z
  lt_of_lt_of_le x y z h k = ground (arith, le_trans y z x)

  pub lt_of_le_of_lt : (x y z : R) → x ≼ y → y ≺ z → x ≺ z
  lt_of_le_of_lt x y z h k = ground (arith, le_trans z x y)

  pub min_of-le_left : (a b : R) → min_of a b ≼ a
  min_of-le_left a b = ground (arith, le_refl a, le_total a b)

  pub min_of-le_right : (a b : R) → min_of a b ≼ b
  min_of-le_right a b = ground (arith, le_refl b, le_total a b)

  pub le-min_of : (c a b : R) → c ≼ a → c ≼ b → c ≼ min_of a b
  le-min_of c a b h k = ground arith

  pub le-max_of_left : (a b : R) → a ≼ max_of a b
  le-max_of_left a b = ground (arith, le_refl a, le_total a b)

  pub le-max_of_right : (a b : R) → b ≼ max_of a b
  le-max_of_right a b = ground (arith, le_refl b, le_total a b)

  pub max_of-le : (c a b : R) → a ≼ c → b ≼ c → max_of a b ≼ c
  max_of-le c a b h k = ground arith
