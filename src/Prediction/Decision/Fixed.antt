-- ===== src/Prediction/Decision/Fixed.antt =====
-- The laws that the decision needs, of the fixed-point numbers.
use stock_prediction.Base.Int.{ℤ}
use stock_prediction.Number.Fixed.{
  fixed, fixed-IsOrdered, fixed-IsSteady, fixed-IsPositive, fixed-IsRounding, fixed-IsSigned,
}
use stock_prediction.Prediction.Decision.Support.{IsReal}

pub fixed-IsReal : IsReal ℤ
fixed-IsReal = record {
  order = fixed-IsOrdered;
  steady = fixed-IsSteady;
  positive = fixed-IsPositive;
  rounding = fixed-IsRounding;
  signed = fixed-IsSigned;
}
