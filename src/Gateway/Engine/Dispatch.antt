-- ===== src/Gateway/Engine/Dispatch.antt =====
-- A request is dispatched at most once, and an attempt that was reserved is finished.
use Prim.Native.String.{String}
use stock_prediction.Base.{
  ℕ, zero, suc, ◌+◌, Bool, true, false, Option, none, some, List, [], ◌∷◌, ltb, Bool-cases,
  Option-cases, inl, inr,
}
use stock_prediction.Gateway.Types.{
  unknown, disconnected, Result, BrowserResult, failure, is_success,
}
use stock_prediction.Gateway.Engine.{
  Settings, Adapter, Reaction, returns, interrupted, crashes, Answers, Event, reserved, executed,
  finished, Ending, returned, reraised, unsupported_capability, deadline_exceeded, try_slots,
  executes, dispatch, Look, passed, done, blocked_reason, settle, then_events, pass, Round,
  unavailable, conclude, rounds, eligible_adapters, unless_none, route,
}

-- The request ends without an attempt.
pub data WithoutAttempt : Ending → Type 0 where
  expired : WithoutAttempt deadline_exceeded
  unsupported : WithoutAttempt unsupported_capability
  exhausted : (limited : Bool) → WithoutAttempt (returned (unavailable limited))

-- What is stored of the attempt is what is returned; an interrupted one is in doubt once its
-- execution has begun, and otherwise not.
pub data Closes : (executing : Bool) → Result → Ending → Type 0 where
  closed : (executing : Bool) (r : Result) → Closes executing r (returned r)
  in_doubt : Closes true (failure unknown none) reraised
  unsent : Closes false (failure disconnected (some false)) reraised

-- The calls of one request: reservations that are refused, and then nothing, or one that is granted,
-- at most one execution of it, and its end.
pub data Protocol : List Event → Ending → Type 0 where
  turned_away : (ending : Ending) → WithoutAttempt ending → Protocol [] ending
  refused :
      (provider attempt : String) (slot : ℕ) (events : List Event) (ending : Ending)
      → Protocol events ending
      → Protocol (reserved provider attempt slot false ∷ events) ending
  probed :
      (provider attempt : String) (slot : ℕ) (r : Result) (ending : Ending)
      → Closes false r ending
      → Protocol (reserved provider attempt slot true ∷ finished provider attempt r ∷ []) ending
  dispatched :
      (provider attempt : String) (slot : ℕ) (r : Result) (ending : Ending)
      → Closes true r ending
      → Protocol
          (reserved provider attempt slot true
            ∷ executed provider attempt slot
            ∷ finished provider attempt r
            ∷ [])
          ending

-- The reservations that one look at a provider asks for.
data Tried (provider attempt : String) : List Event × Option ℕ → Type 0 where
  nothing : Tried provider attempt ([], none)
  granted :
      (slot : ℕ) → Tried provider attempt (reserved provider attempt slot true ∷ [], some slot)
  later :
      (slot : ℕ) (events : List Event) (found : Option ℕ)
      → Tried provider attempt (events, found)
      → Tried provider attempt (reserved provider attempt slot false ∷ events, found)

try_slots-Tried :
    (provider : String) (w : Answers) (left slot : ℕ)
    → Tried provider w.attempt (try_slots provider w left slot)
unfolding try_slots
try_slots-Tried provider w zero slot = nothing
try_slots-Tried provider w (suc left) slot = elim (Bool-cases (w.reserve slot)) [
  | inl t ↦ rw t (granted slot)
  | inr t ↦ rw t (later slot _ _ (try_slots-Tried provider w left (slot + 1)))
]

-- The calls up to the end of a pass: refused reservations, or those of the whole request.
data Passed : List Event × Look → Type 0 where
  over : (busy limited : Bool) → Passed ([], passed busy limited)
  ended :
      (events : List Event) (ending : Ending)
      → Protocol events ending
      → Passed (events, done ending)
  again :
      (provider attempt : String) (slot : ℕ) (events : List Event) (look : Look)
      → Passed (events, look)
      → Passed (reserved provider attempt slot false ∷ events, look)

executes-Protocol :
    (provider attempt : String) (slot : ℕ) (r : Reaction Result)
    → let (events, ending) = executes provider attempt slot r in
      Protocol (reserved provider attempt slot true ∷ events) ending
unfolding executes
executes-Protocol provider attempt slot (returns last) = dispatched _ _ _ _ _ (closed true last)
executes-Protocol provider attempt slot interrupted = dispatched _ _ _ _ _ in_doubt
executes-Protocol provider attempt slot crashes = dispatched _ _ _ _ _ (closed true _)

dispatch-Protocol :
    (provider : String) (slot : ℕ) (w : Answers) (r : Reaction BrowserResult)
    → let (events, ending) = dispatch provider slot w r in
      Protocol (reserved provider w.attempt slot true ∷ events) ending
unfolding dispatch
dispatch-Protocol provider slot w interrupted = probed _ _ _ _ _ unsent
dispatch-Protocol provider slot w crashes = probed _ _ _ _ _ (closed false _)
dispatch-Protocol provider slot w (returns ready) = elim (Bool-cases (is_success ready.status)) [
  | inl t ↦ rw t (executes-Protocol provider w.attempt slot w.execute)
  | inr t ↦ rw t (probed _ _ _ _ _ (closed false _))
]

settle-Passed :
    (provider : String) (w : Answers) (tried : List Event × Option ℕ) (rest : List Event × Look)
    → Tried provider w.attempt tried
    → Passed rest
    → Passed (settle provider w tried rest)
unfolding settle then_events
settle-Passed provider w _ (more, look) nothing p = p
settle-Passed provider w _ rest (granted slot) p =
    ended _ _ (dispatch-Protocol provider slot w w.ready)
settle-Passed provider w _ rest (later slot events none t) p =
    again _ _ _ _ _ (settle-Passed provider w (events, none) rest t p)
settle-Passed provider w _ rest (later slot events (some s) t) p =
    again _ _ _ _ _ (settle-Passed provider w (events, some s) rest t p)

pass-Passed :
    (tabs : ℕ) (answers : String → Answers) (busy limited : Bool) (adapters : List Adapter)
    → Passed (pass tabs answers busy limited adapters)
unfolding pass
pass-Passed tabs answers busy limited [] = over busy limited
pass-Passed tabs answers busy limited (a ∷ rest) =
    let w = answers a.name in
    elim (Option-cases (blocked_reason w.clock w.availability)) [
      | inr (reason, e) ↦ rw (e, pass) (pass-Passed tabs answers busy _ rest)
      | inl e ↦
          rw (e, pass)
            (settle-Passed a.name w (try_slots a.name w tabs 0) _ (try_slots-Tried a.name w tabs 0)
              (pass-Passed tabs answers true false rest))
    ]

-- So far as the request has come: it waits after refused reservations, or has ended.
pub data Progress : List Event × Option Ending → Type 0 where
  waiting : Progress ([], none)
  over :
      (events : List Event) (ending : Ending)
      → Protocol events ending
      → Progress (events, some ending)
  again :
      (provider attempt : String) (slot : ℕ) (events : List Event) (ending : Option Ending)
      → Progress (events, ending)
      → Progress (reserved provider attempt slot false ∷ events, ending)

conclude-Progress :
    (looked : List Event × Look) (rest : List Event × Option Ending)
    → Passed looked
    → Progress rest
    → Progress (conclude looked rest)
unfolding conclude
conclude-Progress _ (more, ending) (Passed.over true limited) p = p
conclude-Progress _ rest (Passed.over false limited) p =
    Progress.over _ _ (turned_away _ (exhausted limited))
conclude-Progress _ rest (ended events ending q) p = Progress.over _ _ q
conclude-Progress _ rest (Passed.again provider attempt slot events (done ending) q) p =
    Progress.again _ _ _ _ _ (conclude-Progress (events, done ending) rest q p)
conclude-Progress _ rest (Passed.again provider attempt slot events (passed true limited) q) p =
    Progress.again _ _ _ _ _ (conclude-Progress (events, passed true limited) rest q p)
conclude-Progress _ rest (Passed.again provider attempt slot events (passed false limited) q) p =
    Progress.again _ _ _ _ _ (conclude-Progress (events, passed false limited) rest q p)

rounds-Progress :
    (fuel deadline tabs : ℕ) (round : ℕ → Round) (adapters : List Adapter) (i : ℕ)
    → Progress (rounds fuel deadline tabs round adapters i)
unfolding rounds
rounds-Progress zero deadline tabs round adapters i = waiting
rounds-Progress (suc fuel) deadline tabs round adapters i =
    elim (Bool-cases (ltb (round i).now deadline)) [
      | inl t ↦ rw t (
          conclude-Progress _ _ (pass-Passed tabs (round i).answers false true adapters)
            (rounds-Progress fuel deadline tabs round adapters (i + 1)))
      | inr t ↦ rw t (Progress.over _ _ (turned_away _ expired))
    ]

unless_none-Progress :
    (adapters : List Adapter) (rest : List Event × Option Ending)
    → Progress rest
    → Progress (unless_none adapters rest)
unfolding unless_none
unless_none-Progress [] rest p = Progress.over _ _ (turned_away _ unsupported)
unless_none-Progress (a ∷ adapters) rest p = p

-- Whatever the store and the adapters answer, a request asks for reservations, which are refused, until
-- one is granted or it ends or still waits. The first reservation that is granted is followed by at
-- most one execution and the end of that attempt, and no other call: no second provider or tab is
-- tried. What is stored of the attempt is what the caller gets; a call that is interrupted is stored as
-- in doubt once its execution has begun, and as disconnected before.
pub route-Progress :
    (fuel deadline : ℕ) (s : Settings) (adapters : String → Adapter) (required : List String)
    (round : ℕ → Round)
    → Progress (route fuel deadline s adapters required round)
unfolding route
route-Progress fuel deadline s adapters required round =
    let usable = eligible_adapters adapters required s.providers in
    unless_none-Progress usable _ (rounds-Progress fuel deadline s.tabs_per_provider round usable 0)
