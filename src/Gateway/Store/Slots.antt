-- ===== src/Gateway/Store/Slots.antt =====
-- The index on the active slots, and what the updates of the attempts do to it.
use Prim.Native.String.{String}
use text.Mathlib.Text.{◌==◌ as str_eq}
use stock_prediction.Base.{
  ℕ, Bool, Option, some, true, false, List, [], ◌∷◌, any, filter_by, arith, ◌≡◌, ◌⊎◌, if◌then◌else◌,
  refl, map,
}
use stock_prediction.Gateway.Types.{Result}
use stock_prediction.Gateway.Availability.{blocks}
use stock_prediction.Gateway.Store.{
  Attempt, AttemptState, submitted, unsettled, finished, Outcome, reconciled, manual_reset, Tables,
  is_active, holds_slot, indexed, reserve, mark_submitted, finish, terminal, reset, start, is_late,
  is_open, new_attempt,
}
use stock_prediction.Gateway.Store.Calls.{
  Call, reserving, submitting, finishing, ending, resetting, starting, step, run, or_unchanged,
}

-- The change moves no row to another slot, and makes no row active.
pub record Deactivates (f : Attempt → Attempt) : Type 0 where
  pub same_profile : (a : Attempt) → (f a).profile_id ≡ a.profile_id
  pub same_provider : (a : Attempt) → (f a).provider ≡ a.provider
  pub same_slot : (a : Attempt) → (f a).slot ≡ a.slot
  pub same_id : (a : Attempt) → (f a).attempt_id ≡ a.attempt_id
  pub active : (a : Attempt) → is_active (f a).state ≡ true → is_active a.state ≡ true

module _ (f : Attempt → Attempt) (d : Deactivates f) (profile provider : String) (slot : ℕ) where
  pub holds_slot-set :
      (a : Attempt)
      → holds_slot profile provider slot a ≡ false
      → holds_slot profile provider slot (f a) ≡ false
  holds_slot-set a h =
      rw (d.same_profile a)
        (rw (d.same_provider a) (rw (d.same_slot a) (ground (arith, d.active a))))

  pub any-set :
      (rows : List Attempt)
      → any (holds_slot profile provider slot) rows ≡ false
      → any (holds_slot profile provider slot) (map f rows) ≡ false
  any-set [] h = refl
  any-set (a ∷ rest) h = ground (arith, any-set rest, holds_slot-set a)

pub indexed-set :
    (f : Attempt → Attempt)
    → Deactivates f
    → (rows : List Attempt) → indexed rows ≡ true
    → indexed (map f rows) ≡ true
unfolding indexed
indexed-set f d [] h = refl
indexed-set f d (a ∷ rest) h = rw (d.same_profile a) (
    rw (d.same_provider a) (
      rw (d.same_slot a) (
        ground (
          arith,
          d.active a,
          indexed-set f d rest,
          any-set f d a.profile_id a.provider a.slot rest,
        ))))

any-filter_by :
    {A : Type 0} (p q : A → Bool) (xs : List A) → any p xs ≡ false → any p (filter_by q xs) ≡ false
any-filter_by p q [] h = refl
any-filter_by p q (x ∷ xs) h = ground (arith, any-filter_by p q xs)

pub indexed-filter_by :
    (q : Attempt → Bool) (rows : List Attempt)
    → indexed rows ≡ true
    → indexed (filter_by q rows) ≡ true
unfolding indexed
indexed-filter_by q [] h = refl
indexed-filter_by q (a ∷ rest) h = ground (
  arith,
  indexed-filter_by q rest,
  any-filter_by (holds_slot a.profile_id a.provider a.slot) q rest,
)

-- The statements of the store write the state, the outcome and the time.
abbrev pub write :
    AttemptState → (Attempt → Option Outcome) → ℕ → (Attempt → Bool) → Attempt → Attempt
write state outcome now where_ a =
    if where_ a then record a { state = state; outcome = outcome a; updated_at = now } else a

pub Deactivates-write :
    (state : AttemptState) (outcome : Attempt → Option Outcome) (now : ℕ) (where_ : Attempt → Bool)
    → ((a : Attempt) → where_ a ≡ true → is_active state ≡ true → is_active a.state ≡ true)
    → Deactivates (write state outcome now where_)
Deactivates-write state outcome now where_ h = record {
  same_profile = λ a. ground arith;
  same_provider = λ a. ground arith;
  same_slot = λ a. ground arith;
  same_id = λ a. ground arith;
  active = λ a. ground (arith, h a);
}

-- Nothing stands in the way of the reservation.
pub record IsFree (now : ℕ) (profile provider attempt : String) (slot : ℕ) (t : Tables)
    : Type 0 where
  pub unblocked : any (blocks now profile provider) t.availability ≡ false
  pub settled : any (is_open profile provider) t.attempts ≡ false
  pub fresh : any (λ a. str_eq a.attempt_id attempt) t.attempts ≡ false
  pub vacant : any (holds_slot profile provider slot) t.attempts ≡ false

pub reserve-cases :
    (now : ℕ) (profile provider attempt request : String) (slot : ℕ) (t : Tables)
    → (reserve now profile provider attempt request slot t ≡ (t, false))
      ⊎ ((reserve now profile provider attempt request slot t ≡ (
        record t { attempts = new_attempt now profile provider attempt request slot ∷ t.attempts },
        true,
      ))
          × IsFree now profile provider attempt slot t)
unfolding reserve
reserve-cases now profile provider attempt request slot t = ground arith

indexed-reserve :
    (now : ℕ) (profile provider attempt request : String) (slot : ℕ) (t : Tables)
    → indexed t.attempts ≡ true
    → indexed (reserve now profile provider attempt request slot t).0.attempts ≡ true
unfolding reserve indexed
indexed-reserve now profile provider attempt request slot t h = ground arith

indexed-finish :
    (retry clock now : ℕ) (profile provider attempt : String) (result : Result) (t : Tables)
    → indexed t.attempts ≡ true
    → indexed (or_unchanged t (finish retry clock now profile provider attempt result t)).attempts
      ≡ true
unfolding or_unchanged finish
indexed-finish retry clock now profile provider attempt result t h = ground arith

-- The partial index holds after any call.
pub indexed-step :
    (c : Call) (t : Tables) → indexed t.attempts ≡ true → indexed (step c t).attempts ≡ true
unfolding step mark_submitted terminal reset start
indexed-step (reserving now profile provider attempt request slot) t h =
    indexed-reserve now profile provider attempt request slot t h
indexed-step (submitting now attempt) t h =
    indexed-set _ (Deactivates-write submitted (λ a. a.outcome) now _ (λ a. ground arith))
      t.attempts h
indexed-step (finishing retry clock now profile provider attempt result) t h =
    indexed-finish retry clock now profile provider attempt result t h
indexed-step (ending now profile provider attempt) t h = ground (
  arith,
  indexed-set _
      (Deactivates-write finished (λ _. some reconciled) now (is_late profile provider attempt)
        (λ a. ground arith))
      t.attempts h,
)
indexed-step (resetting now profile) t h =
    indexed-set _ (Deactivates-write finished (λ _. some manual_reset) now _ (λ a. ground arith))
      t.attempts h
indexed-step (starting retention now) t h = indexed-filter_by _ _ (
    indexed-set _ (Deactivates-write unsettled (λ a. a.outcome) now _ (λ a. ground arith))
      t.attempts h)

pub indexed-run :
    (calls : List Call) (t : Tables)
    → indexed t.attempts ≡ true
    → indexed (run calls t).attempts ≡ true
unfolding run
indexed-run [] t h = h
indexed-run (c ∷ calls) t h = indexed-run calls (step c t) (indexed-step c t h)
