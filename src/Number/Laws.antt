-- ===== src/Number/Laws.antt =====
-- The laws of rounded arithmetic that theorems ask for. Each holds of finite IEEE doubles and of
-- decimals: rounding is monotone and keeps 0 and 1.
use stock_prediction.Base.{ℕ, ◌<◌, ◌≤◌, ◌⊎◌, ◌≡◌}
use stock_prediction.Number.{Number, ◌≼◌, ◌≺◌, nought, one}

module _ (R : Type 0) ⦃n : Number R⦄ where
  pub record IsOrdered : Type 0 where
    pub le_refl : (x : R) → x ≼ x
    pub le_trans : (x y z : R) → x ≼ y → y ≼ z → x ≼ z
    pub le_total : (x y : R) → (x ≼ y) ⊎ (y ≼ x)

  -- How the sign of a summand moves a sum.
  pub record IsSteady : Type 0 where
    pub le-add : (a d : R) → nought ≼ d → a ≼ n.add a d
    pub le-add_left : (a d : R) → nought ≼ a → d ≼ n.add a d
    pub le-add_neg : (a d : R) → d ≼ nought → n.add a d ≼ a
    pub sub-le : (a d : R) → nought ≼ d → n.sub a d ≼ a
    pub neg_flips : (a : R) → nought ≼ a → n.neg a ≼ nought
    pub neg_lifts : (a : R) → a ≼ nought → nought ≼ n.neg a

  -- Products and quotients of numbers that are not negative.
  pub record IsPositive : Type 0 where
    pub mul_nonneg : (a b : R) → nought ≼ a → nought ≼ b → nought ≼ n.mul a b
    pub mul_zero : (a b : R) → nought ≼ a → a ≼ nought → n.mul a b ≼ nought
    pub div_nonneg : (a b : R) → nought ≼ a → nought ≺ b → nought ≼ n.div a b
    pub div_zero : (a b : R) → a ≼ nought → nought ≺ b → n.div a b ≼ nought
    pub one_le : (k : ℕ) → 0 < k → one ≼ n.of_ℕ k
    pub of_ℕ_mono : (j k : ℕ) → j ≤ k → n.of_ℕ j ≼ n.of_ℕ k
    pub one_pos : ◌≺◌ {R = R} nought one
    pub div-le-one : (a b : R) → a ≼ b → nought ≺ b → n.div a b ≼ one

  -- `round`
  pub record IsRounding : Type 0 where
    pub round_mono : (places : ℕ) (a b : R) → a ≼ b → n.round places a ≼ n.round places b
    pub round_nought : (places : ℕ) → n.round places nought ≡ nought
    pub round_one : (places : ℕ) → n.round places one ≡ one

  -- Arithmetic keeps the order.
  pub record IsMonotone : Type 0 where
    pub sub_mono : (a b c : R) → a ≼ b → n.sub a c ≼ n.sub b c
    pub div_mono : (a b c : R) → a ≼ b → nought ≺ c → n.div a c ≼ n.div b c
    pub neg_anti : (a b : R) → a ≼ b → n.neg b ≼ n.neg a

  -- Multiplication by a sign.
  pub record IsSigned : Type 0 where
    pub one_mul : (a : R) → nought ≼ a → nought ≼ n.mul one a
    pub neg_one_mul : (a : R) → nought ≼ a → n.mul (n.neg one) a ≼ nought
