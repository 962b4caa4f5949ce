-- ===== src/Breaker/Reach.antt =====
-- The breaker over a sequence of fetches: an invariant, and what the failure count counts.
use Prim.Native.String.{String}
use stock_prediction.Base.{
  sym, ◌∙◌, ℕ, ◌+◌, ◌≤◌, ◌<◌, ◌≡◌, ◌⊎◌, inl, inr, ◌≢◌, ◌↔◌, refl, List, [], ◌∷◌, arith,
}
use stock_prediction.Breaker.{
  CircuitState, closed, open_circuit, half_open, CircuitBreaker, new_breaker, Outcome, fetched,
  adapter_error, crashed, Reply, articles, circuit_open, failed, escaped, fetch, Attempt, run,
}

-- The circuit is closed exactly below the threshold, and was last opened in the past.
pub record IsValid (now : ℕ) (b : CircuitBreaker) : Type 0 where
  pub threshold : 0 < b.failure_threshold
  pub below : b.state ≡ closed → b.failures < b.failure_threshold
  pub reached : b.state ≢ closed → b.failure_threshold ≤ b.failures
  pub past : b.opened_at ≤ now

pub IsValid-new :
    (threshold timeout : ℕ) {name : String}
    → 0 < threshold
    → IsValid 0 (new_breaker threshold timeout name)
IsValid-new threshold timeout h = ground arith

closed_cases : (s : CircuitState) → (s ≡ closed) ⊎ (s ≢ closed)
closed_cases closed = inl refl
closed_cases open_circuit = inr (λ e. cc)
closed_cases half_open = inr (λ e. cc)

IsValid-closed :
    {now : ℕ} {b : CircuitBreaker}
    → IsValid now b
    → b.failures < b.failure_threshold
    → b.state ≡ closed
IsValid-closed {b = b} v h = elim (closed_cases b.state) [
  | inl e ↦ e
  | inr n ↦ absurd (omega (arith, v.reached n))
]

module _ {ℓ} {A : Type ℓ} where
  -- The attempts come one after another, each ending after it starts.
  abbrev pub IsSequence : ℕ → List (Attempt A) → Type 0
  IsSequence now [] = Unit
  IsSequence now (a ∷ rest) = (now ≤ a.start) × (a.start ≤ a.stop) × IsSequence a.stop rest

  -- The instant at which the last attempt ended.
  abbrev pub end_of : ℕ → List (Attempt A) → ℕ
  end_of now [] = now
  end_of now (a ∷ rest) = end_of a.stop rest

  -- The failures since the last reply with articles; rejected and crashed fetches do not count.
  abbrev pub streak : ℕ → List (Reply A) → ℕ
  streak n [] = n
  streak n (articles _ ∷ rest) = streak 0 rest
  streak n (failed ∷ rest) = streak (n + 1) rest
  streak n (circuit_open ∷ rest) = streak n rest
  streak n (escaped ∷ rest) = streak n rest

  fetch-IsValid :
      (now start stop : ℕ) (outcome : Outcome A) (b : CircuitBreaker)
      → IsValid now b
      → now ≤ start
      → start ≤ stop
      → IsValid stop (fetch start stop outcome b).0
  unfolding fetch
  fetch-IsValid now start stop (fetched a) b v h k = ground arith
  fetch-IsValid now start stop adapter_error b v h k = ground arith
  fetch-IsValid now start stop crashed b v h k = ground arith

  run-IsValid :
      (now : ℕ) (attempts : List (Attempt A)) (b : CircuitBreaker)
      → IsValid now b
      → IsSequence now attempts
      → IsValid (end_of now attempts) (run attempts b).0
  unfolding run
  run-IsValid now [] b v s = v
  run-IsValid now (a ∷ rest) b v s =
      run-IsValid a.stop rest (fetch a.start a.stop a.outcome b).0
        (fetch-IsValid now a.start a.stop a.outcome b v s.0 s.1) s.2

  fetch-streak :
      (start stop : ℕ) (outcome : Outcome A) (b : CircuitBreaker) (rest : List (Reply A))
      → let (b', reply) = fetch start stop outcome b in
        (streak b.failures (reply ∷ rest) ≡ streak b'.failures rest)
        × (b'.failure_threshold ≡ b.failure_threshold)
  unfolding fetch
  fetch-streak start stop (fetched a) b rest = ground arith
  fetch-streak start stop adapter_error b rest = ground arith
  fetch-streak start stop crashed b rest = ground arith

  run-streak :
      (attempts : List (Attempt A)) (b : CircuitBreaker)
      → ((run attempts b).0.failures ≡ streak b.failures (run attempts b).1)
        × ((run attempts b).0.failure_threshold ≡ b.failure_threshold)
  unfolding run
  run-streak [] b = (refl, refl)
  run-streak (a ∷ rest) b =
      let b' = (fetch a.start a.stop a.outcome b).0 in
      let (ih, kept) = run-streak rest b' in
      let (step, same) = fetch-streak a.start a.stop a.outcome b (run rest b').1 in
      (ih ∙ sym step, kept ∙ same)

  -- After any sequence of fetches of a new breaker with a positive threshold, the circuit is closed
  -- exactly if fewer fetches than the threshold have failed since the last one that returned
  -- articles; fetches that were rejected or that raised another exception do not count. The
  -- breaker's own count is that number.
  pub run-closed_iff :
      (threshold timeout : ℕ) (name : String) (attempts : List (Attempt A))
      → 0 < threshold
      → IsSequence 0 attempts
      → let (b, replies) = run attempts (new_breaker threshold timeout name) in
        (b.failures ≡ streak 0 replies) × ((b.state ≡ closed) ↔ (streak 0 replies < threshold))
  run-closed_iff threshold timeout name attempts h s =
      let b0 = new_breaker threshold timeout name in
      let v = run-IsValid 0 attempts b0 (IsValid-new threshold timeout h) s in
      let (count, kept) = run-streak attempts b0 in
      (count, (λ e. omega (arith, v.below e), λ lt. IsValid-closed v (omega arith)))
