-- ===== src/Gateway/Engine/Deadline.antt =====
-- Every request ends.
use Prim.Native.String.{String}
use stock_prediction.Base.{
  ℕ, zero, suc, ◌+◌, ◌*◌, ◌≤◌, ◌≢◌, true, false, Option, none, List, [], ◌∷◌, ltb, arith,
  Bool-cases, inl, inr,
}
use stock_prediction.Gateway.Engine.{
  Settings, Adapter, Event, Ending, Look, passed, done, Round, pause, conclude, rounds,
  eligible_adapters, unless_none, route,
}

-- A round starts after the one before it has slept.
abbrev pub IsPaced : ℕ → (ℕ → Round) → Type 0
IsPaced deadline round =
    (i : ℕ) → (round i).now + pause deadline (round i).now ≤ (round (i + 1)).now

HasEnded : List Event × Option Ending → Type 0
HasEnded r = r.1 ≢ none

conclude-HasEnded :
    (looked : List Event × Look) (rest : List Event × Option Ending)
    → HasEnded rest
    → HasEnded (conclude looked rest)
unfolding conclude HasEnded
conclude-HasEnded (events, done ending) rest h = λ e. ground arith
conclude-HasEnded (events, passed true limited) (more, ending) h = h
conclude-HasEnded (events, passed false limited) rest h = λ e. ground arith

unless_none-HasEnded :
    (adapters : List Adapter) (rest : List Event × Option Ending)
    → HasEnded rest
    → HasEnded (unless_none adapters rest)
unfolding unless_none HasEnded
unless_none-HasEnded [] rest h = λ e. ground arith
unless_none-HasEnded (a ∷ adapters) rest h = h

module _ (deadline tabs : ℕ) (round : ℕ → Round) (paced : IsPaced deadline round)
    (adapters : List Adapter) where
  rounds-HasEnded :
      (fuel i : ℕ)
      → deadline ≤ (round i).now + 100000 * fuel
      → HasEnded (rounds (suc fuel) deadline tabs round adapters i)
  unfolding rounds HasEnded
  rounds-HasEnded zero i enough = elim (Bool-cases (ltb (round i).now deadline)) [
    | inr t ↦ rw t (λ e. ground arith)
    | inl t ↦ absurd (ground arith)
  ]
  rounds-HasEnded (suc fuel) i enough = elim (Bool-cases (ltb (round i).now deadline)) [
    | inr t ↦ rw t (λ e. ground arith)
    | inl t ↦ rw t (conclude-HasEnded _ _ (rounds-HasEnded fuel (i + 1) (ground (arith, paced i))))
  ]

-- Every request ends, with a result or an error: if each round that found only busy providers sleeps
-- at least a tenth of a second, or up to the deadline, then one round for each tenth of a second up to
-- the deadline, and one more, are enough, whatever the store and the adapters answer.
pub route-ended :
    (fuel deadline : ℕ) (s : Settings) (adapters : String → Adapter) (required : List String)
    (round : ℕ → Round)
    → IsPaced deadline round
    → deadline ≤ (round 0).now + 100000 * fuel
    → (route (suc fuel) deadline s adapters required round).1 ≢ none
unfolding route HasEnded
route-ended fuel deadline s adapters required round paced enough =
    unless_none-HasEnded (eligible_adapters adapters required s.providers) _
      (rounds-HasEnded deadline s.tabs_per_provider round paced _ fuel 0 enough)
