-- ===== src/Gateway/Store/Reset.antt =====
-- What a reset of a profile frees.
use Prim.Native.String.{String}
use text.Mathlib.Text.{◌==◌ as str_eq}
use stock_prediction.Base.{
  update, ℕ, ◌==◌, ◌≡◌, refl, Bool, false, not, ◌&&◌, ◌||◌, some, List, [], ◌∷◌, any, filter_by,
  arith,
}
use stock_prediction.Gateway.Availability.{Row, blocks}
use stock_prediction.Gateway.Store.{
  Attempt, Tables, finished, manual_reset, is_unsettled, is_running, is_of, is_open, holds_slot,
  reserve, reset,
}

-- A request that is under way holds the slot.
abbrev pub is_running_in : String → String → ℕ → Attempt → Bool
is_running_in profile provider slot a =
    is_of profile provider a && (a.slot == slot) && is_running a.state

module _ (now : ℕ) (profile provider : String) where
  abbrev settle : List Attempt → List Attempt
  settle =
      update (λ a. record a { state = finished; outcome = some manual_reset; updated_at = now })
        (λ a. str_eq a.profile_id profile && is_unsettled a.state)

  unblocked :
      (later : ℕ) (rows : List Row)
      → any
          (blocks later profile provider)
          (filter_by (λ r. not (str_eq r.profile_id profile)) rows)
        ≡ false
  unfolding blocks
  unblocked later [] = refl
  unblocked later (r ∷ rest) = ground (arith, unblocked later rest)

  none_open : (rows : List Attempt) → any (is_open profile provider) (settle rows) ≡ false
  unfolding is_open
  none_open [] = refl
  none_open (a ∷ rest) = ground (arith, none_open rest)

  same_ids :
      (id : String) (rows : List Attempt)
      → any (λ a. str_eq a.attempt_id id) (settle rows) ≡ any (λ a. str_eq a.attempt_id id) rows
  same_ids id [] = refl
  same_ids id (a ∷ rest) = ground (arith, same_ids id rest)

  still_held :
      (slot : ℕ) (rows : List Attempt)
      → any (holds_slot profile provider slot) (settle rows)
        ≡ any (is_running_in profile provider slot) rows
  still_held slot [] = refl
  still_held slot (a ∷ rest) = ground (arith, still_held slot rest)

-- After a reset of a profile, each of its providers can be reserved at once and at any later time,
-- exactly if the id of the attempt is new and no request that is under way holds the slot: neither a
-- rate limit nor an attempt in doubt stands in the way.
pub reserve-reset :
    (now later : ℕ) (profile provider attempt request : String) (slot : ℕ) (t : Tables)
    → (reserve later profile provider attempt request slot (reset now profile t)).1
      ≡ not (
          any (λ a. str_eq a.attempt_id attempt) t.attempts
          || any (is_running_in profile provider slot) t.attempts)
unfolding reserve reset
reserve-reset now later profile provider attempt request slot t = ground (
  arith,
  unblocked now profile provider later t.availability,
  none_open now profile provider t.attempts,
  same_ids now profile provider attempt t.attempts,
  still_held now profile provider slot t.attempts,
)
