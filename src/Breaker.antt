-- ===== src/Breaker.antt =====
-- src/services/ingestion/ingestion/resilience.py: `CircuitBreaker`, `ResilientAdapter` and
-- `wrap_with_breakers`. `time.monotonic()` is a number of ticks that each call takes as an
-- argument; the inner adapter is not in view, so what it does is the argument `Outcome`.
-- The pipeline awaits one fetch before the next, so the fetches of a source form a sequence.
pub mod Reach
pub mod Window
mod Tests
use Prim.Native.String.{String}
use stock_prediction.Base.{ℕ, ◌+◌, Bool, true, false, ◌||◌, List, [], ◌∷◌, leb, if◌then◌else◌}

pub data CircuitState : Type 0 where
  closed open_circuit half_open : CircuitState

pub record CircuitBreaker : Type 0 where
  pub failure_threshold : ℕ
  pub reset_timeout : ℕ
  pub name : String
  pub state : CircuitState
  pub failures : ℕ
  pub opened_at : ℕ

abbrev pub new_breaker : ℕ → ℕ → String → CircuitBreaker
new_breaker threshold timeout name = record {
  failure_threshold = threshold;
  reset_timeout = timeout;
  name = name;
  state = closed;
  failures = 0;
  opened_at = 0;
}

abbrev pub is_open : CircuitState → Bool
is_open open_circuit = true
is_open _ = false

abbrev pub is_half_open : CircuitState → Bool
is_half_open half_open = true
is_half_open _ = false

-- `self._now() - self._opened_at >= self.reset_timeout_seconds`
abbrev pub cooled_down : ℕ → CircuitBreaker → Bool
cooled_down now b = leb (b.opened_at + b.reset_timeout) now

pub allows_request : ℕ → CircuitBreaker → CircuitBreaker × Bool
allows_request now b =
    if is_open b.state
    then (if cooled_down now b then (record b { state = half_open }, true) else (b, false))
    else (b, true)

pub record_success : CircuitBreaker → CircuitBreaker
record_success b = record b { state = closed; failures = 0 }

pub record_failure : ℕ → CircuitBreaker → CircuitBreaker
record_failure now b =
    if is_half_open b.state || leb b.failure_threshold (b.failures + 1)
    then record b { state = open_circuit; failures = b.failures + 1; opened_at = now }
    else record b { failures = b.failures + 1 }

-- What `await self._adapter.fetch()` does: return, raise an `AdapterError`, or raise anything else.
pub data Outcome {ℓ} (A : Type ℓ) : Type ℓ where
  fetched : A → Outcome A
  adapter_error crashed : Outcome A

-- What the guarded `fetch` does; `circuit_open` is `CircuitOpenError`, also an `AdapterError`.
pub data Reply {ℓ} (A : Type ℓ) : Type ℓ where
  articles : A → Reply A
  circuit_open failed escaped : Reply A

module _ {ℓ} {A : Type ℓ} where
  -- The part of `fetch` after the request was let through.
  pub settle : ℕ → Outcome A → CircuitBreaker → CircuitBreaker × Reply A
  unfolding record_success record_failure
  settle now (fetched a) b = (record_success b, articles a)
  settle now adapter_error b = (record_failure now b, failed)
  settle now crashed b = (b, escaped)

  -- `ResilientAdapter.fetch`, called at `now`; the inner call ends at `later`.
  pub fetch : ℕ → ℕ → Outcome A → CircuitBreaker → CircuitBreaker × Reply A
  unfolding allows_request settle
  fetch now later outcome b =
      let (b', allowed) = allows_request now b in
      if allowed then settle later outcome b' else (b', circuit_open)

-- `wrap_with_breakers`, on the source ids of the adapters.
pub wrap_with_breakers : ℕ → ℕ → List String → List CircuitBreaker
wrap_with_breakers threshold timeout [] = []
wrap_with_breakers threshold timeout (name ∷ names) =
    new_breaker threshold timeout name ∷ wrap_with_breakers threshold timeout names

-- One turn of the polling loop on a source: when it fetches, when the inner call ends, and how.
pub record Attempt {ℓ} (A : Type ℓ) : Type ℓ where
  pub start : ℕ
  pub stop : ℕ
  pub outcome : Outcome A

-- The fetches of a source, one after another, with their replies in order.
pub run {ℓ} : {A : Type ℓ} → List (Attempt A) → CircuitBreaker → CircuitBreaker × List (Reply A)
run [] b = (b, [])
run (a ∷ rest) b =
    let (b', reply) = fetch a.start a.stop a.outcome b in
    let (last, replies) = run rest b' in (last, reply ∷ replies)
