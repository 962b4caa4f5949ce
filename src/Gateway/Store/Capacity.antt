-- ===== src/Gateway/Store/Capacity.antt =====
-- How many attempts hold the slots of a provider.
use Prim.Native.String.{String}
use text.Mathlib.TextEquality.{eq_iff}
use stock_prediction.Base.{
  ℕ, zero, suc, ◌+◌, ◌≤◌, ◌≡◌, refl, true, false, ◌&&◌, List, [], ◌∷◌, any, filter_by, length, ltb,
  arith, ==_iff,
}
use stock_prediction.Gateway.Store.{Attempt, Tables, is_active, holds_slot, is_of, indexed}
use stock_prediction.Gateway.Store.Calls.{Call, run}
use stock_prediction.Gateway.Store.Slots.{indexed-run}

-- How many attempts hold the slot.
abbrev pub holders : String → String → ℕ → List Attempt → ℕ
holders profile provider slot rows = length (filter_by (holds_slot profile provider slot) rows)

-- The attempts that hold a slot below the bound, of one provider.
abbrev pub holders_below : String → String → ℕ → List Attempt → ℕ
holders_below profile provider tabs rows =
    length (filter_by (λ a. is_of profile provider a && is_active a.state && ltb a.slot tabs) rows)

module _ (profile provider : String) where
  no_holders :
      (slot : ℕ) (rows : List Attempt)
      → any (holds_slot profile provider slot) rows ≡ false
      → holders profile provider slot rows ≡ 0
  no_holders slot [] h = refl
  no_holders slot (a ∷ rest) h = ground (arith, no_holders slot rest)

  pub holders_one :
      (slot : ℕ) (rows : List Attempt)
      → indexed rows ≡ true
      → holders profile provider slot rows ≤ 1
  unfolding indexed
  holders_one slot [] h = ground arith
  holders_one slot (a ∷ rest) h = ground (
    arith,
    eq_iff a.profile_id profile,
    eq_iff a.provider provider,
    ==_iff a.slot slot,
    holders_one slot rest,
    no_holders slot rest,
  )

  holders_split :
      (tabs : ℕ) (rows : List Attempt)
      → holders_below profile provider (suc tabs) rows
        ≡ holders profile provider tabs rows + holders_below profile provider tabs rows
  holders_split tabs [] = refl
  holders_split tabs (a ∷ rest) = ground (arith, holders_split tabs rest)

  holders_below_zero : (rows : List Attempt) → holders_below profile provider 0 rows ≡ 0
  holders_below_zero [] = refl
  holders_below_zero (a ∷ rest) = ground (arith, holders_below_zero rest)

  pub holders_bounded :
      (tabs : ℕ) (rows : List Attempt)
      → indexed rows ≡ true
      → holders_below profile provider tabs rows ≤ tabs
  holders_bounded zero rows h = omega (arith, holders_below_zero rows)
  holders_bounded (suc tabs) rows h =
      omega (arith, holders_split tabs rows, holders_one tabs rows h, holders_bounded tabs rows h)

-- From tables that keep the index, after any sequence of calls, of any number of requests: no slot of
-- a provider is held by two attempts, and at most as many attempts hold slots of the provider below a
-- bound as there are such slots.
pub run-holders :
    (calls : List Call) (t : Tables) (profile provider : String) (slot tabs : ℕ)
    → indexed t.attempts ≡ true
    → let rows = (run calls t).attempts in
      (holders profile provider slot rows ≤ 1) × (holders_below profile provider tabs rows ≤ tabs)
run-holders calls t profile provider slot tabs h =
    let e = indexed-run calls t h in
    (holders_one profile provider slot _ e, holders_bounded profile provider tabs _ e)
