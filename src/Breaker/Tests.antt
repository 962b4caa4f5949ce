-- ===== src/Breaker/Tests.antt =====
-- Tests of the circuit breaker, and its theorems at concrete sequences of fetches.
use stock_prediction.Base.{ℕ, ◌+◌, ◌<◌, ◌≡◌, ◌↔◌, refl, List, [], ◌∷◌, arith}
use stock_prediction.Breaker.{
  closed, open_circuit, CircuitBreaker, new_breaker, Outcome, fetched, adapter_error, articles,
  circuit_open, failed, fetch, Attempt, run,
}
use stock_prediction.Breaker.Reach.{streak, run-closed_iff}
use stock_prediction.Breaker.Window.{rejections, AfterProbe, run-rejected, run-probe}

abbrev attempt : ℕ → Outcome ℕ → Attempt ℕ
attempt start outcome = record { start = start; stop = start + 1; outcome = outcome }

-- Two failures open a breaker of threshold 2; the third fetch comes too early.
abbrev flaky : List (Attempt ℕ)
flaky =
    attempt 10 (fetched 3)
    ∷ attempt 20 adapter_error
    ∷ attempt 30 adapter_error
    ∷ attempt 40 (fetched 5)
    ∷ []

abbrev tripped : CircuitBreaker
tripped = record {
  failure_threshold = 2;
  reset_timeout = 60;
  name = "rss";
  state = open_circuit;
  failures = 2;
  opened_at = 31;
}

run-flaky :
    run flaky (new_breaker 2 60 "rss") ≡ (tripped, articles 3 ∷ failed ∷ failed ∷ circuit_open ∷ [])
unfolding run fetch
run-flaky = refl

run-closed_iff_example :
    let (b, replies) = run flaky (new_breaker 2 60 "rss") in
    (b.failures ≡ streak 0 replies) × ((b.state ≡ closed) ↔ (streak 0 replies < 2))
run-closed_iff_example = run-closed_iff 2 60 "rss" flaky (omega arith) (omega arith)

abbrev early : List (Attempt ℕ)
early = attempt 40 (fetched 5) ∷ attempt 90 adapter_error ∷ []

run-rejected_example : run early tripped ≡ (tripped, rejections early)
run-rejected_example = run-rejected early tripped refl (omega arith)

run-probe_example :
    AfterProbe {A = ℕ} tripped 93 (fetched 7) (fetch 92 93 (fetched 7) (run early tripped).0)
run-probe_example =
    run-probe early (attempt 92 (fetched 7)) tripped refl (omega arith) (omega arith)
