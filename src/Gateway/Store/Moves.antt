-- ===== src/Gateway/Store/Moves.antt =====
-- Every call of the store moves the holder of a slot as the abstract view allows.
use Prim.Native.String.{String}
use text.Mathlib.Text.{◌==◌ as str_eq}
use text.Mathlib.TextEquality.{eq_iff}
use mathlib.Core.Path.{subst}
use stock_prediction.Base.{
  ℕ, ◌≡◌, inl, inr, refl, Bool, true, false, some, List, [], ◌∷◌, map, any, sym, ◌∙◌, ==_iff,
  filter_by, arith, Bool-cases,
}
use stock_prediction.Gateway.Types.{Status, Result, is_unknown}
use stock_prediction.Gateway.Store.{
  Attempt, submitted, unsettled, finished, ended, reconciled, manual_reset, mark_submitted, finish,
  terminal, reset, start, is_late, close_attempt, state_of, is_running, new_attempt, Tables,
  is_active, holds_slot, indexed, without_repair,
}
use stock_prediction.Gateway.Store.Calls.{
  Call, reserving, submitting, finishing, ending, resetting, starting, step, or_unchanged,
}
use stock_prediction.Gateway.Store.Slots.{reserve-cases, write}
use stock_prediction.Gateway.Store.Holder.{
  Slot, id_of, in_slot, holder, may_claim, may_release, SlotMove, unmoved, claimed, holder-none,
  holder-first, holder-later, SlotMove-down, SlotMove-up,
}

-- A new row takes its own slot, where that is vacant.
SlotMove-new :
    (now : ℕ) (profile provider attempt request : String) (slot : ℕ) (k : Slot)
    (rows : List Attempt)
    → any (holds_slot profile provider slot) rows ≡ false
    → SlotMove
        (reserving now profile provider attempt request slot)
        k
        (holder k rows)
        (holder k (new_attempt now profile provider attempt request slot ∷ rows))
unfolding may_claim
SlotMove-new now profile provider attempt request slot k rows vacant =
    let new = new_attempt now profile provider attempt request slot in
    let c = reserving now profile provider attempt request slot in
    elim (Bool-cases (in_slot k new)) [
      | inl t ↦
          subst (λ h. SlotMove c k h (holder k (new ∷ rows)))
            (sym (
              holder-none k rows (
                ground (
                  arith,
                  eq_iff profile k.profile,
                  eq_iff provider k.provider,
                  ==_iff slot k.number,
                ))))
            (rw (holder-first k new rows t)
              (claimed attempt (ground (arith, (eq_iff attempt attempt).1 refl))))
      | inr u ↦ rw (holder-later k new rows u) (unmoved (holder k rows))
    ]

SlotMove-reserve :
    (now : ℕ) (profile provider attempt request : String) (slot : ℕ) (k : Slot) (t : Tables)
    → let c = reserving now profile provider attempt request slot in
      SlotMove c k (holder k t.attempts) (holder k (step c t).attempts)
unfolding step
SlotMove-reserve now profile provider attempt request slot k t =
    elim (reserve-cases now profile provider attempt request slot t) [
      | inl e ↦ rw (e, step) (unmoved (holder k t.attempts))
      | inr (e, free) ↦
          rw (e, step)
            (SlotMove-new now profile provider attempt request slot k t.attempts free.vacant)
    ]

active-state_of : (s : Status) → is_active (state_of s) ≡ is_unknown s
unfolding state_of
active-state_of s = ground arith

SlotMove-close :
    (c : Call) (k : Slot) (now : ℕ) (attempt : String) (status : Status) (rows : List Attempt)
    → ((id : String)
        → str_eq id attempt ≡ true
        → is_unknown status ≡ true
        → may_claim c k id ≡ true)
    → ((id : String)
        → str_eq id attempt ≡ true
        → is_unknown status ≡ false
        → may_release c k id ≡ true)
    → indexed rows ≡ true
    → indexed (close_attempt now attempt status rows) ≡ true
    → SlotMove c k (holder k rows) (holder k (close_attempt now attempt status rows))
unfolding close_attempt
SlotMove-close c k now attempt status rows into out h e = elim (Bool-cases (is_unknown status)) [
  | inl t ↦
      SlotMove-up c k (state_of status) (λ _. some (ended status)) now _ rows
        (active-state_of status ∙ t) (λ a w. into a.attempt_id w t) e
  | inr u ↦
      SlotMove-down c k (state_of status) (λ _. some (ended status)) now _ rows
        (λ a w x. absurd (ground (arith, active-state_of status))) (λ a w x y. out a.attempt_id w u)
        h
]

SlotMove-finish :
    (retry clock now : ℕ) (profile provider attempt : String) (result : Result) (k : Slot)
    (t : Tables)
    → indexed t.attempts ≡ true
    → let c = finishing retry clock now profile provider attempt result in
      SlotMove c k (holder k t.attempts) (holder k (step c t).attempts)
unfolding step finish or_unchanged may_claim may_release
SlotMove-finish retry clock now profile provider attempt result k t h =
    let c = finishing retry clock now profile provider attempt result in
    let after = close_attempt now attempt result.status t.attempts in
    elim (Bool-cases (indexed after)) [
      | inr e ↦ rw e (unmoved (holder k t.attempts))
      | inl e ↦ rw e (
          SlotMove-close c k now attempt result.status t.attempts (λ id p q. ground arith)
            (λ id p q. ground arith) h e)
    ]

SlotMove-terminal :
    (now : ℕ) (profile provider attempt : String) (k : Slot) (t : Tables)
    → indexed t.attempts ≡ true
    → let c = ending now profile provider attempt in
      SlotMove c k (holder k t.attempts) (holder k (step c t).attempts)
unfolding step terminal may_release
SlotMove-terminal now profile provider attempt k t h =
    elim (Bool-cases (any (is_late profile provider attempt) t.attempts)) [
      | inr e ↦ rw e (unmoved (holder k t.attempts))
      | inl e ↦ rw e (
          SlotMove-down (ending now profile provider attempt) k finished (λ _. some reconciled) now
            (is_late profile provider attempt) t.attempts (λ a. ground arith)
            (λ a w p q. ground (
              arith,
              eq_iff a.attempt_id (without_repair attempt),
              eq_iff (without_repair attempt) a.attempt_id,
              eq_iff a.profile_id k.profile,
              eq_iff a.profile_id profile,
              eq_iff profile k.profile,
              eq_iff a.provider k.provider,
              eq_iff a.provider provider,
              eq_iff provider k.provider,
            ))
            h)
    ]

holder-filter_by :
    (k : Slot) (q : Attempt → Bool) (rows : List Attempt)
    → ((a : Attempt) → in_slot k a ≡ true → q a ≡ true)
    → holder k (filter_by q rows) ≡ holder k rows
unfolding holder id_of
holder-filter_by k q [] h = refl
holder-filter_by k q (a ∷ rest) h = ground (arith, holder-filter_by k q rest h, h a)

-- In tables that keep the index, a call of the store moves the attempt that holds a slot only as the
-- abstract view allows: it leaves it, gives an empty slot to the attempt that the call reserves in it
-- or leaves in doubt, or empties it of an attempt that the call ends, resolves late or resets. No call
-- hands a slot from one attempt to another.
pub step-SlotMove :
    (c : Call) (k : Slot) (t : Tables)
    → indexed t.attempts ≡ true
    → SlotMove c k (holder k t.attempts) (holder k (step c t).attempts)
unfolding step mark_submitted reset start may_release
step-SlotMove (reserving now profile provider attempt request slot) k t h =
    SlotMove-reserve now profile provider attempt request slot k t
step-SlotMove (submitting now attempt) k t h =
    SlotMove-down (submitting now attempt) k submitted (λ a. a.outcome) now _ t.attempts
      (λ a. ground arith) (λ a. ground arith) h
step-SlotMove (finishing retry clock now profile provider attempt result) k t h =
    SlotMove-finish retry clock now profile provider attempt result k t h
step-SlotMove (ending now profile provider attempt) k t h =
    SlotMove-terminal now profile provider attempt k t h
step-SlotMove (resetting now profile) k t h =
    SlotMove-down (resetting now profile) k finished (λ _. some manual_reset) now _ t.attempts
      (λ a. ground arith)
      (λ a w p q. ground (
        arith,
        eq_iff a.profile_id k.profile,
        eq_iff a.profile_id profile,
        eq_iff profile k.profile,
      ))
      h
step-SlotMove (starting retention now) k t h =
    let marked = map (write unsettled (λ a. a.outcome) now (λ a. is_running a.state)) t.attempts in
    subst (SlotMove (starting retention now) k (holder k t.attempts))
      (sym (holder-filter_by k _ marked (λ a e. ground arith)))
      (SlotMove-down (starting retention now) k unsettled (λ a. a.outcome) now _ t.attempts
        (λ a. ground arith) (λ a. ground arith) h)
