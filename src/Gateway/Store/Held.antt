-- ===== src/Gateway/Store/Held.antt =====
-- An attempt whose submission is in doubt keeps its provider from being used again.
use Prim.Native.String.{String}
use text.Mathlib.Text.{◌==◌ as str_eq}
use text.Mathlib.TextEquality.{eq_iff}
use stock_prediction.Base.{
  update, ℕ, ◌+◌, ltb, ◌≡◌, Bool, true, false, not, ◌&&◌, List, [], ◌∷◌, map, any, filter_by, All,
  arith, Bool-cases, inl, inr,
}
use stock_prediction.Gateway.Types.{Status}
use stock_prediction.Gateway.Store.{
  Attempt, Tables, is_active, is_late, is_open, without_repair, reserve, mark_submitted, finish,
  close_attempt, is_running, unsettled, terminal, reset, start,
}
use stock_prediction.Gateway.Store.Calls.{
  Call, reserving, submitting, finishing, ending, resetting, starting, step, run, or_unchanged,
}

-- The attempt with this id, of this provider, is unknown.
unfoldable pub in_doubt : String → String → String → Attempt → Bool
unfolding is_open
in_doubt id profile provider a = str_eq a.attempt_id id && is_open profile provider a

-- The call resolves the attempt: its end, a late result, or a reset of the profile.
unfoldable pub resolves : String → String → Call → Bool
resolves id profile (finishing retry clock now p q attempt result) = str_eq attempt id
resolves id profile (ending now p q attempt) = str_eq (without_repair attempt) id
resolves id profile (resetting now p) = str_eq p profile
resolves id profile _ = false

module _ {A : Type 0} (p : A → Bool) where
  any-map :
      (f : A → A) (xs : List A)
      → ((x : A) → p x ≡ true → p (f x) ≡ true)
      → any p xs ≡ true
      → any p (map f xs) ≡ true
  any-map f [] h e = ground arith
  any-map f (x ∷ xs) h e = ground (arith, h x, any-map f xs h)

  any-filter_by :
      (q : A → Bool) (xs : List A)
      → ((x : A) → p x ≡ true → q x ≡ true)
      → any p xs ≡ true
      → any p (filter_by q xs) ≡ true
  any-filter_by q [] h e = ground arith
  any-filter_by q (x ∷ xs) h e = ground (arith, h x, any-filter_by q xs h)

module _ (id profile provider : String) where
  doubt-close :
      (now : ℕ) (attempt : String) (status : Status) (rows : List Attempt)
      → str_eq attempt id ≡ false
      → any (in_doubt id profile provider) rows ≡ true
      → any (in_doubt id profile provider) (close_attempt now attempt status rows) ≡ true
  unfolding close_attempt in_doubt
  doubt-close now attempt status rows r h =
      any-map _ _ rows
        (λ a e.
          ground (arith, eq_iff a.attempt_id attempt, eq_iff a.attempt_id id, eq_iff attempt id))
        h

  doubt-terminal :
      (now : ℕ) (p q attempt : String) (t : Tables)
      → str_eq (without_repair attempt) id ≡ false
      → any (in_doubt id profile provider) t.attempts ≡ true
      → any (in_doubt id profile provider) (terminal now p q attempt t).attempts ≡ true
  unfolding terminal in_doubt
  doubt-terminal now p q attempt t r h = elim (Bool-cases (any (is_late p q attempt) t.attempts)) [
    | inr e ↦ rw e h
    | inl e ↦ rw e (
        any-map _ _ t.attempts
          (λ a d. ground (
            arith,
            eq_iff a.attempt_id (without_repair attempt),
            eq_iff a.attempt_id id,
            eq_iff (without_repair attempt) id,
          ))
          h)
  ]

  doubt-start :
      (retention now : ℕ) (t : Tables)
      → any (in_doubt id profile provider) t.attempts ≡ true
      → any (in_doubt id profile provider) (start retention now t).attempts ≡ true
  unfolding start in_doubt is_open
  doubt-start retention now t h =
      let marked =
        update (λ a. record a { state = unsettled; updated_at = now }) (λ a. is_running a.state)
          t.attempts in
      any-filter_by (in_doubt id profile provider)
        (λ a. not (not (is_active a.state) && ltb (a.updated_at + retention) now)) marked
        (λ a e. ground arith) (any-map _ _ t.attempts (λ a e. ground arith) h)

  doubt-step :
      (c : Call) (t : Tables)
      → resolves id profile c ≡ false
      → any (in_doubt id profile provider) t.attempts ≡ true
      → any (in_doubt id profile provider) (step c t).attempts ≡ true
  unfolding step or_unchanged reserve mark_submitted finish reset resolves in_doubt is_open
  doubt-step (reserving now p q attempt request slot) t r h = ground arith
  doubt-step (submitting now attempt) t r h = any-map _ _ t.attempts (λ a e. ground arith) h
  doubt-step (finishing retry clock now p q attempt result) t r h =
      ground (arith, doubt-close now attempt result.status t.attempts r h)
  doubt-step (ending now p q attempt) t r h = doubt-terminal now p q attempt t r h
  doubt-step (resetting now p) t r h =
      any-map _ _ t.attempts
        (λ a e.
          ground (arith, eq_iff a.profile_id p, eq_iff a.profile_id profile, eq_iff p profile))
        h
  doubt-step (starting retention now) t r h = doubt-start retention now t h

  doubt-run :
      (calls : List Call) (t : Tables)
      → All (λ c. resolves id profile c ≡ false) calls
      → any (in_doubt id profile provider) t.attempts ≡ true
      → any (in_doubt id profile provider) (run calls t).attempts ≡ true
  unfolding run
  doubt-run [] t r h = h
  doubt-run (c ∷ calls) t r h = doubt-run calls (step c t) r.1 (doubt-step c t r.0 h)

  open_of_doubt :
      (rows : List Attempt)
      → any (in_doubt id profile provider) rows ≡ true
      → any (is_open profile provider) rows ≡ true
  unfolding in_doubt
  open_of_doubt [] h = h
  open_of_doubt (a ∷ rest) h = ground (arith, open_of_doubt rest)

-- While an attempt is unknown, its provider gets no reservation: whatever calls have been made since,
-- of any requests and of restarts, other than the end of that attempt, a late result of it and a reset
-- of its profile, every reservation of the provider is refused, in any slot and at any time.
pub run-reserve_refused :
    (id profile provider : String) (calls : List Call) (t : Tables) (now : ℕ)
    (attempt request : String) (slot : ℕ)
    → any (in_doubt id profile provider) t.attempts ≡ true
    → All (λ c. resolves id profile c ≡ false) calls
    → reserve now profile provider attempt request slot (run calls t) ≡ (run calls t, false)
unfolding reserve
run-reserve_refused id profile provider calls t now attempt request slot h r = ground (
  arith,
  open_of_doubt id profile provider (run calls t).attempts
      (doubt-run id profile provider calls t r h),
)
