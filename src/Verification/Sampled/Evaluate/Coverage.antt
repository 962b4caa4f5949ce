-- ===== src/Verification/Sampled/Evaluate/Coverage.antt =====
-- src/services/verification/verification/sampled_policy.py: the instants at which a sample is expected.
use stock_prediction.Base.{ℕ, ◌*◌, ◌<◌, ◌≡◌, ◌↔◌, Bool, true, arith}
use stock_prediction.Number.{Number}
use stock_prediction.Verification.Sampled.{second, SessionWindow, PriceSample, SamplePolicy}
use stock_prediction.Verification.Sampled.Slots.{IsSlot, has, slots_iff, enough_fuel}
use stock_prediction.Verification.Sampled.Evaluate.{expected_slots}

-- For a positive interval, the expected instants are those that a whole number of intervals leads to
-- from the opening of the session, from the start on and before the close, and all of them.
pub expected_slots_iff :
    {D : Type 0} ⦃n : Number D⦄ (differs : PriceSample D → PriceSample D → Bool) (start : ℕ)
    (window : SessionWindow) (policy : SamplePolicy D) (s : ℕ)
    → 0 < policy.interval_seconds
    → (has s (expected_slots differs start window policy) ≡ true)
      ↔ IsSlot start window.closes_at (policy.interval_seconds * second) window.opens_at s
unfolding expected_slots
expected_slots_iff differs start window policy s h =
    slots_iff _ start window.closes_at (policy.interval_seconds * second) window.opens_at s (
      enough_fuel window.opens_at window.closes_at (policy.interval_seconds * second) (omega arith))
