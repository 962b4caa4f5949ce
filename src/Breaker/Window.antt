-- ===== src/Breaker/Window.antt =====
-- How long an open circuit rejects, and what the first fetch after that does.
use stock_prediction.Base.{ℕ, ◌+◌, ◌≤◌, ◌<◌, ◌≡◌, refl, List, [], ◌∷◌, arith}
use stock_prediction.Breaker.{
  closed, open_circuit, half_open, CircuitBreaker, Outcome, fetched, adapter_error, crashed, Reply,
  articles, circuit_open, failed, escaped, fetch, Attempt, run,
}

module _ {ℓ} {A : Type ℓ} where
  -- Every attempt starts before the instant.
  abbrev pub StartBefore : ℕ → List (Attempt A) → Type 0
  StartBefore limit [] = Unit
  StartBefore limit (a ∷ rest) = (a.start < limit) × StartBefore limit rest

  abbrev pub rejections : List (Attempt A) → List (Reply A)
  rejections [] = []
  rejections (a ∷ rest) = circuit_open ∷ rejections rest

  fetch-rejected :
      (start stop : ℕ) (outcome : Outcome A) (b : CircuitBreaker)
      → b.state ≡ open_circuit
      → start < b.opened_at + b.reset_timeout
      → fetch start stop outcome b ≡ (b, circuit_open)
  unfolding fetch
  fetch-rejected start stop outcome b e h = ground arith

  -- While the circuit is open, every fetch that starts before the cooldown has elapsed since it was
  -- opened is rejected, whatever its source would have done, and the breaker does not change.
  pub run-rejected :
      (attempts : List (Attempt A)) (b : CircuitBreaker)
      → b.state ≡ open_circuit
      → StartBefore (b.opened_at + b.reset_timeout) attempts
      → run attempts b ≡ (b, rejections attempts)
  unfolding run
  run-rejected [] b e h = refl
  run-rejected (a ∷ rest) b e h =
      rw (fetch-rejected a.start a.stop a.outcome b e h.0) (rw (run-rejected rest b e h.1))

  -- What the breaker must be after a probe that ended at an instant, by how the probe ended.
  abbrev pub AfterProbe : CircuitBreaker → ℕ → Outcome A → CircuitBreaker × Reply A → Type ℓ
  AfterProbe b stop (fetched a) (b', reply) =
      (b'.state ≡ closed) × (b'.failures ≡ 0) × (reply ≡ articles a)
  AfterProbe b stop adapter_error (b', reply) =
      (b'.state ≡ open_circuit) × (b'.opened_at ≡ stop) × (reply ≡ failed)
  AfterProbe b stop crashed (b', reply) = (b'.state ≡ half_open) × (reply ≡ escaped)

  fetch-probe :
      (start stop : ℕ) (outcome : Outcome A) (b : CircuitBreaker)
      → b.state ≡ open_circuit
      → b.opened_at + b.reset_timeout ≤ start
      → AfterProbe b stop outcome (fetch start stop outcome b)
  unfolding fetch
  fetch-probe start stop (fetched a) b e h = ground arith
  fetch-probe start stop adapter_error b e h = ground arith
  fetch-probe start stop crashed b e h = ground arith

  -- After any number of rejected fetches, the first fetch that starts once the cooldown has elapsed
  -- reaches the source. If it returns articles the circuit closes with no failures counted, if it
  -- raises an `AdapterError` the circuit is open again from the end of that fetch, and if it raises
  -- another exception the circuit stays half open.
  pub run-probe :
      (attempts : List (Attempt A)) (a : Attempt A) (b : CircuitBreaker)
      → b.state ≡ open_circuit
      → StartBefore (b.opened_at + b.reset_timeout) attempts
      → b.opened_at + b.reset_timeout ≤ a.start
      → AfterProbe b a.stop a.outcome (fetch a.start a.stop a.outcome (run attempts b).0)
  run-probe attempts a b e h cooled =
      rw (run-rejected attempts b e h) (fetch-probe a.start a.stop a.outcome b e cooled)
