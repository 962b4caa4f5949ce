-- ===== src/Number/Fixed.antt =====
-- Fixed-point numbers with six decimal places, an instance at which the laws hold.
use stock_prediction.Base.{ℕ, zero, suc, ◌≤◌, ◌<◌, ◌≡◌, true, not, refl, ◌*◌, ◌/◌, arith}
use stock_prediction.Base.Int.{ℤ, pos, negsuc, ◌+ℤ◌, ◌-ℤ◌, leb_ℤ, mul_scaled, div_scaled}
use stock_prediction.Number.{Number}
use stock_prediction.Number.Laws.{IsOrdered, IsSteady, IsPositive, IsRounding, IsMonotone, IsSigned}

abbrev pub scale : ℕ
scale = 1_000_000

-- A value of so many millionths. All its places are kept by `round`.
instance abbrev pub fixed : Number ℤ
fixed = record {
  of_ℕ = λ k. pos (k * scale);
  add = ◌+ℤ◌;
  sub = ◌-ℤ◌;
  mul = mul_scaled scale;
  div = div_scaled scale;
  neg = λ a. pos 0 -ℤ a;
  le = leb_ℤ;
  round = λ places a. a;
}

pub fixed-IsOrdered : IsOrdered ℤ
fixed-IsOrdered = record {
  le_refl = λ x. ground arith;
  le_trans = λ x y z h k. ground arith;
  le_total = λ x y. ground arith;
}

pub fixed-IsSteady : IsSteady ℤ
unfolding ◌+ℤ◌ ◌-ℤ◌
fixed-IsSteady = record {
  le-add = λ a d h. ground arith;
  le-add_left = λ a d h. ground arith;
  le-add_neg = λ a d h. ground arith;
  sub-le = λ a d h. ground arith;
  neg_flips = λ a h. ground arith;
  neg_lifts = λ a h. ground arith;
}

pub fixed-IsRounding : IsRounding ℤ
fixed-IsRounding = record {
  round_mono = λ places a b h. h;
  round_nought = λ places. refl;
  round_one = λ places. refl;
}

div-le : (a b c : ℕ) → a ≤ b * c → 0 < b → a / b ≤ c
div-le a b c h k = grind arith

fixed-mul_nonneg :
    (a b : ℤ)
    → leb_ℤ (pos 0) a ≡ true
    → leb_ℤ (pos 0) b ≡ true
    → leb_ℤ (pos 0) (mul_scaled scale a b) ≡ true
unfolding mul_scaled
fixed-mul_nonneg (pos a) (pos b) h k = ground arith
fixed-mul_nonneg (pos a) (negsuc b) h k = absurd (ground arith)
fixed-mul_nonneg (negsuc a) b h k = absurd (ground arith)

fixed-mul_zero :
    (a b : ℤ)
    → leb_ℤ (pos 0) a ≡ true
    → leb_ℤ a (pos 0) ≡ true
    → leb_ℤ (mul_scaled scale a b) (pos 0) ≡ true
unfolding mul_scaled
fixed-mul_zero (pos zero) (pos b) h k = ground arith
fixed-mul_zero (pos zero) (negsuc b) h k = ground arith
fixed-mul_zero (pos (suc a)) b h k = absurd (ground arith)
fixed-mul_zero (negsuc a) b h k = absurd (ground arith)

fixed-div_nonneg :
    (a b : ℤ)
    → leb_ℤ (pos 0) a ≡ true
    → not (leb_ℤ b (pos 0)) ≡ true
    → leb_ℤ (pos 0) (div_scaled scale a b) ≡ true
unfolding div_scaled
fixed-div_nonneg (pos a) (pos b) h k = ground arith
fixed-div_nonneg (pos a) (negsuc b) h k = absurd (ground arith)
fixed-div_nonneg (negsuc a) b h k = absurd (ground arith)

fixed-div_zero :
    (a b : ℤ)
    → leb_ℤ a (pos 0) ≡ true
    → not (leb_ℤ b (pos 0)) ≡ true
    → leb_ℤ (div_scaled scale a b) (pos 0) ≡ true
unfolding div_scaled
fixed-div_zero (pos zero) (pos b) h k = ground (arith, div-le 0 b 0)
fixed-div_zero (pos (suc a)) b h k = absurd (ground arith)
fixed-div_zero (negsuc a) (pos b) h k = ground arith
fixed-div_zero a (negsuc b) h k = absurd (ground arith)

fixed-div-le-one :
    (a b : ℤ)
    → leb_ℤ a b ≡ true
    → not (leb_ℤ b (pos 0)) ≡ true
    → leb_ℤ (div_scaled scale a b) (pos scale) ≡ true
unfolding div_scaled
fixed-div-le-one (pos a) (pos b) h k = ground (arith, div-le (a * scale) b scale)
fixed-div-le-one (negsuc a) (pos b) h k = ground arith
fixed-div-le-one a (negsuc b) h k = absurd (ground arith)

pub fixed-IsPositive : IsPositive ℤ
fixed-IsPositive = record {
  mul_nonneg = fixed-mul_nonneg;
  mul_zero = fixed-mul_zero;
  div_nonneg = fixed-div_nonneg;
  div_zero = fixed-div_zero;
  one_le = λ k h. ground arith;
  of_ℕ_mono = λ j k h. ground arith;
  one_pos = refl;
  div-le-one = fixed-div-le-one;
}

fixed-one_mul :
    (a : ℤ) → leb_ℤ (pos 0) a ≡ true → leb_ℤ (pos 0) (mul_scaled scale (pos scale) a) ≡ true
fixed-one_mul a h = fixed-mul_nonneg (pos scale) a refl h

fixed-neg_one_mul :
    (a : ℤ)
    → leb_ℤ (pos 0) a ≡ true
    → leb_ℤ (mul_scaled scale (pos 0 -ℤ pos scale) a) (pos 0) ≡ true
unfolding mul_scaled ◌-ℤ◌
fixed-neg_one_mul (pos a) h = ground arith
fixed-neg_one_mul (negsuc a) h = absurd (ground arith)

pub fixed-IsSigned : IsSigned ℤ
fixed-IsSigned = record { one_mul = fixed-one_mul; neg_one_mul = fixed-neg_one_mul }

div_le_div : (a b c : ℕ) → a ≤ b → 0 < c → a / c ≤ b / c
div_le_div a b c h k = grind arith

fixed-div_mono :
    (a b c : ℤ)
    → leb_ℤ a b ≡ true
    → not (leb_ℤ c (pos 0)) ≡ true
    → leb_ℤ (div_scaled scale a c) (div_scaled scale b c) ≡ true
unfolding div_scaled
fixed-div_mono (pos a) (pos b) (pos c) h k = ground (arith, div_le_div (a * scale) (b * scale) c)
fixed-div_mono (negsuc a) (pos b) (pos c) h k = ground arith
fixed-div_mono (pos a) (negsuc b) (pos c) h k = absurd (ground arith)
fixed-div_mono (negsuc a) (negsuc b) (pos c) h k =
    ground (arith, div_le_div (suc b * scale) (suc a * scale) c)
fixed-div_mono a b (negsuc c) h k = absurd (ground arith)

pub fixed-IsMonotone : IsMonotone ℤ
unfolding ◌-ℤ◌
fixed-IsMonotone = record {
  sub_mono = λ a b c h. ground arith;
  div_mono = fixed-div_mono;
  neg_anti = λ a b h. ground arith;
}
