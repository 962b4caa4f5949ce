-- ===== src/Gateway/Store/Holder.antt =====
-- The abstract view of the attempts: which one holds each slot, and how calls may move it.
use Prim.Native.String.{String}
use text.Mathlib.Text.{◌==◌ as str_eq}
use text.Mathlib.TextEquality.{eq_iff}
use mathlib.Core.Path.{subst}
use stock_prediction.Base.{
  ℕ, ◌≡◌, inl, inr, refl, Bool, true, false, not, ◌&&◌, Option, none, some, List, [], ◌∷◌, map, ap,
  any, sym, ◌∙◌, ==_iff, find_first, arith, ◌==◌, Bool-cases,
}
use stock_prediction.Gateway.Types.{is_unknown}
use stock_prediction.Gateway.Store.{
  Attempt, AttemptState, Outcome, is_active, holds_slot, indexed, without_repair,
}
use stock_prediction.Gateway.Store.Calls.{Call, reserving, finishing, ending, resetting}
use stock_prediction.Gateway.Store.Slots.{write}

-- A slot of a provider of a profile.
pub record Slot : Type 0 where
  pub profile : String
  pub provider : String
  pub number : ℕ

unfoldable pub id_of : Option Attempt → Option String
id_of none = none
id_of (some a) = some a.attempt_id

abbrev pub in_slot : Slot → Attempt → Bool
in_slot k a = holds_slot k.profile k.provider k.number a

-- The attempt that holds the slot.
unfoldable pub holder : Slot → List Attempt → Option String
unfolding id_of
holder k rows = id_of (find_first (in_slot k) rows)

-- The call may give the slot to the attempt: its reservation, or an end that left it unknown.
unfoldable pub may_claim : Call → Slot → String → Bool
may_claim (reserving now profile provider attempt request slot) k id =
    str_eq id attempt
    && str_eq profile k.profile
    && str_eq provider k.provider
    && (slot == k.number)
may_claim (finishing retry clock now profile provider attempt result) k id =
    str_eq id attempt && is_unknown result.status
may_claim _ k id = false

-- The call may take the slot from the attempt: its end, a late result, or a reset of the profile.
unfoldable pub may_release : Call → Slot → String → Bool
may_release (finishing retry clock now profile provider attempt result) k id =
    str_eq id attempt && not (is_unknown result.status)
may_release (ending now profile provider attempt) k id =
    str_eq id (without_repair attempt) && str_eq profile k.profile && str_eq provider k.provider
may_release (resetting now profile) k id = str_eq profile k.profile
may_release _ k id = false

pub data SlotMove (c : Call) (k : Slot) : Option String → Option String → Type 0 where
  unmoved : (h : Option String) → SlotMove c k h h
  claimed : (id : String) → may_claim c k id ≡ true → SlotMove c k none (some id)
  released : (id : String) → may_release c k id ≡ true → SlotMove c k (some id) none

pub holder-none :
    (k : Slot) (rows : List Attempt) → any (in_slot k) rows ≡ false → holder k rows ≡ none
unfolding holder id_of
holder-none k [] h = refl
holder-none k (a ∷ rest) h = ground (arith, holder-none k rest)

-- In an indexed table, a row that holds the slot is the only one.
alone :
    (k : Slot) (a : Attempt) (rest : List Attempt)
    → indexed (a ∷ rest) ≡ true
    → in_slot k a ≡ true
    → any (in_slot k) rest ≡ false
unfolding indexed
alone k a rest h e =
    ground
      (arith, eq_iff a.profile_id k.profile, eq_iff a.provider k.provider, ==_iff a.slot k.number)

pub holder-first :
    (k : Slot) (a : Attempt) (rest : List Attempt)
    → in_slot k a ≡ true
    → holder k (a ∷ rest) ≡ some a.attempt_id
unfolding holder id_of
holder-first k a rest h = rw h

pub holder-later :
    (k : Slot) (a : Attempt) (rest : List Attempt)
    → in_slot k a ≡ false
    → holder k (a ∷ rest) ≡ holder k rest
unfolding holder
holder-later k a rest h = rw h

-- Two lists that differ in the state of some rows: the holder is the same, or a row that holds the
-- slot in the first list does not in the second.
pub data Leaves (g f : Attempt → Attempt) (k : Slot) : Option String → Option String → Type 0 where
  stays : (h h' : Option String) → h ≡ h' → Leaves g f k h h'
  leaves :
      (a : Attempt) (h h' : Option String)
      → h ≡ some (g a).attempt_id
      → h' ≡ none
      → in_slot k (g a) ≡ true
      → in_slot k (f a) ≡ false
      → Leaves g f k h h'

module _ (g f : Attempt → Attempt) (k : Slot)
    (ids : (a : Attempt) → (g a).attempt_id ≡ (f a).attempt_id)
    (fewer : (a : Attempt) → in_slot k (g a) ≡ false → in_slot k (f a) ≡ false) where
  any-fewer :
      (rows : List Attempt)
      → any (in_slot k) (map g rows) ≡ false
      → any (in_slot k) (map f rows) ≡ false
  any-fewer [] h = refl
  any-fewer (a ∷ rest) h = ground (arith, any-fewer rest, fewer a)

  holder-map :
      (rows : List Attempt)
      → indexed (map g rows) ≡ true
      → Leaves g f k (holder k (map g rows)) (holder k (map f rows))
  unfolding indexed
  holder-map [] h = stays _ _ refl
  holder-map (a ∷ rest) h = elim (Bool-cases (in_slot k (g a))) [
    | inl t ↦ elim (Bool-cases (in_slot k (f a))) [
      | inl u ↦ stays _ _ (
          holder-first k (g a) (map g rest) t
          ∙ ap some (ids a)
          ∙ sym (holder-first k (f a) (map f rest) u))
      | inr u ↦
          leaves a _ _ (holder-first k (g a) (map g rest) t)
            (holder-later k (f a) (map f rest) u
              ∙ holder-none k (map f rest) (any-fewer rest (alone k (g a) (map g rest) h t)))
            t u
    ]
    | inr t ↦
        rw (holder-later k (g a) (map g rest) t)
          (rw (holder-later k (f a) (map f rest) (fewer a t)) (holder-map rest (ground arith)))
  ]

same : Attempt → Attempt
same a = a

map-same : (rows : List Attempt) → map same rows ≡ rows
unfolding same
map-same [] = refl
map-same (a ∷ rest) = ap (λ rs. a ∷ rs) (map-same rest)

module _ (c : Call) (k : Slot) where
  released_by :
      (g f : Attempt → Attempt) (h h' : Option String)
      → Leaves g f k h h'
      → ((a : Attempt)
          → in_slot k (g a) ≡ true
          → in_slot k (f a) ≡ false
          → may_release c k (g a).attempt_id ≡ true)
      → SlotMove c k h h'
  released_by g f h h' (stays _ _ p) out = subst (SlotMove c k h) p (unmoved h)
  released_by g f h h' (leaves a _ _ p q t u) out =
      subst (λ x. SlotMove c k x h') (sym p)
        (subst (SlotMove c k (some (g a).attempt_id)) (sym q) (released _ (out a t u)))

  claimed_by :
      (g f : Attempt → Attempt) (h h' : Option String)
      → Leaves g f k h' h
      → ((a : Attempt)
          → in_slot k (g a) ≡ true
          → in_slot k (f a) ≡ false
          → may_claim c k (g a).attempt_id ≡ true)
      → SlotMove c k h h'
  claimed_by g f h h' (stays _ _ p) into = subst (λ x. SlotMove c k x h') p (unmoved h')
  claimed_by g f h h' (leaves a _ _ p q t u) into =
      subst (SlotMove c k h) (sym p)
        (subst (λ x. SlotMove c k x (some (g a).attempt_id)) (sym q) (claimed _ (into a t u)))

  module _ (state : AttemptState) (outcome : Attempt → Option Outcome) (now : ℕ)
      (where_ : Attempt → Bool) where
    same_id : (a : Attempt) → a.attempt_id ≡ (write state outcome now where_ a).attempt_id
    same_id a = ground arith

    -- A statement that makes no row active.
    pub SlotMove-down :
        (rows : List Attempt)
        → ((a : Attempt) → where_ a ≡ true → is_active state ≡ true → is_active a.state ≡ true)
        → ((a : Attempt)
            → where_ a ≡ true
            → in_slot k a ≡ true
            → is_active state ≡ false
            → may_release c k a.attempt_id ≡ true)
        → indexed rows ≡ true
        → SlotMove c k (holder k rows) (holder k (map (write state outcome now where_) rows))
    unfolding same
    SlotMove-down rows down out h =
        let set = write state outcome now where_ in
        released_by same set _ _
          (subst (λ rs. Leaves same set k (holder k rs) (holder k (map set rows))) (map-same rows)
            (holder-map same set k same_id (λ a e. ground (arith, down a)) rows
              (subst (λ rs. indexed rs ≡ true) (sym (map-same rows)) h)))
          (λ a t u. ground (arith, out a))

    -- A statement that makes no row inactive.
    pub SlotMove-up :
        (rows : List Attempt)
        → is_active state ≡ true
        → ((a : Attempt) → where_ a ≡ true → may_claim c k a.attempt_id ≡ true)
        → indexed (map (write state outcome now where_) rows) ≡ true
        → SlotMove c k (holder k rows) (holder k (map (write state outcome now where_) rows))
    unfolding same
    SlotMove-up rows up into h =
        let set = write state outcome now where_ in
        claimed_by set same _ _
          (subst (λ rs. Leaves set same k (holder k (map set rows)) (holder k rs)) (map-same rows)
            (holder-map set same k (λ a. sym (same_id a)) (λ a e. ground arith) rows h))
          (λ a t u. subst (λ id. may_claim c k id ≡ true) (same_id a) (ground (arith, into a)))
