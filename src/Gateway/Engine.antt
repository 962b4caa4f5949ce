-- ===== src/Gateway/Engine.antt =====
-- src/services/llm-browser-gateway/llm_browser_gateway/engine.py: how a request is routed to a provider.
-- Requests run beside each other, so `route` is a function of what the store and the adapter answer at
-- each call, whatever other requests have done in between, and says which calls it makes. Calls of the
-- store return. The deadline and the clock are in microseconds.
pub mod Dispatch
pub mod Deadline
mod Tests
use Prim.Native.String.{String}
use text.Mathlib.Text.{◌==◌ as str_eq}
use stock_prediction.Base.{
  ℕ, zero, suc, ◌+◌, ◌-◌, Bool, true, false, not, ◌&&◌, ◌||◌, Option, none, some, List, [], ◌∷◌,
  ◌++◌, map, any, filter_by, ltb, leb, if◌then◌else◌,
}
use stock_prediction.Gateway.Types.{
  Status, success, rate_limited, temporary, disconnected, unknown, is_rate_limited, is_success,
  Result, BrowserResult, failure,
}
use stock_prediction.Gateway.Availability.{Availability, eligible}

-- `Settings`, as far as it is read.
pub record Settings : Type 0 where
  pub providers : List String
  pub queue_size : ℕ
  pub tabs_per_provider : ℕ

-- `Adapter`, by its name and what it can do.
pub record Adapter : Type 0 where
  pub name : String
  pub capabilities : List String

-- How a call of an adapter ends. A cancelled call and one that timed out are caught together.
pub data Reaction {ℓ} (A : Type ℓ) : Type ℓ where
  returns : A → Reaction A
  interrupted crashes : Reaction A

-- What is answered on one look at a provider.
pub record Answers : Type 0 where
  -- `datetime.now`
  pub clock : ℕ
  pub availability : Option Availability
  -- `uuid4().hex`
  pub attempt : String
  pub reserve : ℕ → Bool
  pub ready : Reaction BrowserResult
  pub execute : Reaction Result

-- The calls that matter: of `store.reserve`, of `adapter.execute` and of `store.finish`.
pub data Event : Type 0 where
  reserved : (provider attempt : String) (slot : ℕ) (granted : Bool) → Event
  executed : (provider attempt : String) (slot : ℕ) → Event
  finished : (provider attempt : String) (result : Result) → Event

-- How `route` ends: it returns, it raises what the adapter's call raised, or a `GatewayError`.
pub data Ending : Type 0 where
  returned : Result → Ending
  reraised queue_full unsupported_capability deadline_exceeded : Ending

-- The loop over the slots, from one on.
pub try_slots : String → Answers → ℕ → ℕ → List Event × Option ℕ
try_slots provider w zero slot = ([], none)
try_slots provider w (suc left) slot =
    let (events, found) = try_slots provider w left (slot + 1) in
    if w.reserve slot
    then (reserved provider w.attempt slot true ∷ [], some slot)
    else (reserved provider w.attempt slot false ∷ events, found)

-- The result that is made of a page that is not ready.
not_ready : BrowserResult → Result
not_ready ready = record (failure ready.status ready.submitted) { reset_at = ready.reset_at }

-- From the call of `execute` on, and the calls it makes.
pub executes : String → String → ℕ → Reaction Result → List Event × Ending
executes provider attempt slot (returns last) =
    (executed provider attempt slot ∷ finished provider attempt last ∷ [], returned last)
executes provider attempt slot interrupted = (
  executed provider attempt slot ∷ finished provider attempt (failure unknown none) ∷ [],
  reraised,
)
executes provider attempt slot crashes = (
  executed provider attempt slot ∷ finished provider attempt (failure unknown none) ∷ [],
  returned (failure unknown none),
)

-- From the call of `ready` on.
unfoldable pub dispatch : String → ℕ → Answers → Reaction BrowserResult → List Event × Ending
unfolding executes not_ready
dispatch provider slot w (returns ready) =
    let last = not_ready ready in
    if is_success ready.status
    then executes provider w.attempt slot w.execute
    else (finished provider w.attempt last ∷ [], returned last)
dispatch provider slot w interrupted =
    (finished provider w.attempt (failure disconnected (some false)) ∷ [], reraised)
dispatch provider slot w crashes =
    (finished provider w.attempt (failure unknown none) ∷ [], returned (failure unknown none))

-- What comes of one provider, or of all of them: the two flags, or the end of the request.
pub data Look : Type 0 where
  passed : (busy limited : Bool) → Look
  done : Ending → Look

-- Why the provider is blocked, if it is.
pub blocked_reason : ℕ → Option Availability → Option Status
unfolding eligible
blocked_reason clock none = none
blocked_reason clock (some a) = if eligible clock a then none else some a.reason

then_events : List Event → List Event × Look → List Event × Look
then_events events (more, look) = (events ++ more, look)

-- A slot was found, or none.
pub settle : String → Answers → List Event × Option ℕ → List Event × Look → List Event × Look
unfolding dispatch then_events
settle provider w (events, none) rest = then_events events rest
settle provider w (events, some slot) rest =
    let (more, ending) = dispatch provider slot w w.ready in (events ++ more, done ending)

-- The loop over the providers, with the flags `busy` and `limited`. A blocked provider keeps `busy`, a
-- provider without a free slot sets it; only a blocked one keeps `limited`.
pub pass : ℕ → (String → Answers) → Bool → Bool → List Adapter → List Event × Look
pass tabs answers busy limited [] = ([], passed busy limited)
pass tabs answers busy limited (a ∷ rest) =
    let w = answers a.name in
    elim (blocked_reason w.clock w.availability) [
      | some reason ↦ pass tabs answers busy (limited && is_rate_limited reason) rest
      | none ↦ settle a.name w (try_slots a.name w tabs 0) (pass tabs answers true false rest)
    ]

-- One round of the loop: the clock at its start, and the answers in it.
pub record Round : Type 0 where
  pub now : ℕ
  pub answers : String → Answers

pub unavailable : Bool → Result
unavailable true = failure rate_limited (some false)
unavailable false = failure temporary (some false)

-- The end of a round: wait and go on, or answer.
pub conclude : List Event × Look → List Event × Option Ending → List Event × Option Ending
unfolding unavailable
conclude (events, done ending) rest = (events, some ending)
conclude (events, passed true limited) (more, ending) = (events ++ more, ending)
conclude (events, passed false limited) rest = (events, some (returned (unavailable limited)))

-- `min(0.1, remaining(context))`, how long a round that found only busy providers sleeps at its end.
abbrev pub pause : ℕ → ℕ → ℕ
pause deadline now = if ltb (deadline - now) 100000 then deadline - now else 100000

-- The loop until the deadline, with fuel; `round i` is the i-th round. No ending means no more fuel.
pub rounds : ℕ → ℕ → ℕ → (ℕ → Round) → List Adapter → ℕ → List Event × Option Ending
unfolding pass conclude
rounds zero deadline tabs round adapters i = ([], none)
rounds (suc fuel) deadline tabs round adapters i =
    let rest = rounds fuel deadline tabs round adapters (i + 1) in
    if ltb (round i).now deadline
    then conclude (pass tabs (round i).answers false true adapters) rest
    else ([], some deadline_exceeded)

abbrev pub includes : List String → List String → Bool
includes [] capabilities = true
includes (r ∷ required) capabilities = any (str_eq r) capabilities && includes required capabilities

pub eligible_adapters : (String → Adapter) → List String → List String → List Adapter
eligible_adapters adapters required providers =
    filter_by (λ a. includes required a.capabilities) (map adapters providers)

pub unless_none : List Adapter → List Event × Option Ending → List Event × Option Ending
unless_none [] rest = ([], some unsupported_capability)
unless_none (a ∷ adapters) rest = rest

unfoldable pub route :
    ℕ → ℕ → Settings → (String → Adapter) → List String → (ℕ → Round) → List Event × Option Ending
unfolding rounds eligible_adapters unless_none
route fuel deadline s adapters required round =
    let usable = eligible_adapters adapters required s.providers in
    unless_none usable (rounds fuel deadline s.tabs_per_provider round usable 0)

-- `complete` on the count of active requests: refused, or counted while `route` runs.
unfoldable pub enter : Settings → ℕ → Option ℕ
enter s active = if leb s.queue_size active then none else some (active + 1)

unfoldable pub leave : ℕ → ℕ
leave active = active - 1
