-- ===== src/Verification/Sampled/Slots.antt =====
-- src/services/verification/verification/sampled_policy.py: the scheduled instants of a session.
use mathlib.Core.Path.{subst}
use stock_prediction.Base.{
  sym, ℕ, zero, suc, ◌+◌, ◌*◌, ◌-◌, ◌/◌, ◌≤◌, ◌<◌, Bool, true, List, ◌≡◌, ◌↔◌, ◌⊎◌, inl, inr, arith,
  any, ◌==◌, ==_iff,
}
use stock_prediction.Verification.Sampled.{slots}

-- An instant of the grid that starts at `at`, from the start on and before the close.
abbrev pub IsSlot : ℕ → ℕ → ℕ → ℕ → ℕ → Type 0
IsSlot start closes interval at s = (start ≤ s) × (s < closes) × ((k : ℕ) × (s ≡ at + k * interval))

abbrev pub has : ℕ → List ℕ → Bool
has s ts = any (λ t. t == s) ts

next-IsSlot :
    (start closes interval at s : ℕ)
    → IsSlot start closes interval (at + interval) s
    → IsSlot start closes interval at s
next-IsSlot start closes interval at s (a, b, (k, e)) = (a, b, (suc k, grind arith))

has-slots :
    (fuel start closes interval at s : ℕ)
    → has s (slots (suc fuel) start closes interval at) ≡ true
    → ((start ≤ at) × (at < closes) × (at ≡ s))
      ⊎ (has s (slots fuel start closes interval (at + interval)) ≡ true)
unfolding slots
has-slots fuel start closes interval at s h = ground (arith, ==_iff at s)

has-IsSlot :
    (fuel start closes interval at s : ℕ)
    → has s (slots fuel start closes interval at) ≡ true
    → IsSlot start closes interval at s
unfolding slots
has-IsSlot zero start closes interval at s h = absurd (ground arith)
has-IsSlot (suc fuel) start closes interval at s h =
    elim (has-slots fuel start closes interval at s h) [
      | inl (a, b, e) ↦ (omega arith, omega arith, (0, omega arith))
      | inr r ↦
          next-IsSlot start closes interval at s
            (has-IsSlot fuel start closes interval (at + interval) s r)
    ]

slots-has :
    (fuel start closes interval at k : ℕ)
    → closes ≤ at + fuel * interval
    → start ≤ at + k * interval
    → at + k * interval < closes
    → has (at + k * interval) (slots fuel start closes interval at) ≡ true
unfolding slots
slots-has zero start closes interval at k f a b = absurd (ground arith)
slots-has (suc fuel) start closes interval at zero f a b = ground (arith, ==_iff at at)
slots-has (suc fuel) start closes interval at (suc k) f a b =
    ground (arith, slots-has fuel start closes interval (at + interval) k)

-- With fuel for every step up to the close, the slots are the instants of the grid from the start on and
-- before the close, all of them.
pub slots_iff :
    (fuel start closes interval at s : ℕ)
    → closes ≤ at + fuel * interval
    → (has s (slots fuel start closes interval at) ≡ true) ↔ IsSlot start closes interval at s
slots_iff fuel start closes interval at s f = (
  has-IsSlot fuel start closes interval at s,
  λ (a, b, (k, e)).
      subst (λ x. has x (slots fuel start closes interval at) ≡ true) (sym e)
        (slots-has fuel start closes interval at k f (omega arith) (omega arith)),
)

-- The fuel that is given is enough.
pub enough_fuel :
    (opens closes interval : ℕ)
    → 0 < interval
    → closes ≤ opens + ((closes - opens) / interval + 1) * interval
enough_fuel opens closes interval h = grind arith
