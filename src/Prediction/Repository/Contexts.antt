-- ===== src/Prediction/Repository/Contexts.antt =====
-- src/services/prediction/prediction/repository.py: the versions of a context, and how they are claimed.
use Prim.Native.String.{String}
use text.Mathlib.Text.{◌==◌ as str_eq}
use stock_prediction.Base.{
  ℕ, ◌+◌, Bool, ◌&&◌, Option, none, some, List, [], ◌∷◌, ◌++◌, map, any, filter_by, update, sort_by,
  take, leb, ◌==◌, if◌then◌else◌,
}
use stock_prediction.Prediction.Repository.{
  Context, ContextEvent, open_state, predicting, is_joinable, set_state, Tables,
}

-- A context of the window of the asset.
abbrev pub is_version : String → ℕ → Context → Bool
is_version asset window_start c = str_eq c.asset_id asset && (c.window_start == window_start)

later_version : Context → Option Context → Option Context
later_version c none = some c
later_version c (some d) = if leb d.context_version c.context_version then some c else some d

-- `ORDER BY context_version DESC LIMIT 1`
pub latest_version : String → ℕ → List Context → Option Context
unfolding later_version
latest_version asset window_start [] = none
latest_version asset window_start (c ∷ cs) =
    let rest = latest_version asset window_start cs in
    if is_version asset window_start c then later_version c rest else rest

-- `ON CONFLICT (context_id, event_id) DO NOTHING`
pub add_member : ℕ → ContextEvent → List (ℕ × ContextEvent) → List (ℕ × ContextEvent)
add_member id event members =
    if any (λ m. (m.0 == id) && (m.1.event_id == event.event_id)) members
    then members
    else members ++ ((id, event) ∷ [])

-- The members of the old context, for the new one.
pub carry : ℕ → ℕ → List (ℕ × ContextEvent) → List (ℕ × ContextEvent)
carry new old [] = []
carry new old ((id, event) ∷ rest) =
    let later = carry new old rest in if id == old then (new, event) ∷ later else later

max_of : ℕ → ℕ → ℕ
max_of a b = if leb a b then b else a

pub claim_all : List Context → List Context → List Context
unfolding set_state
claim_all [] contexts = contexts
claim_all (c ∷ cs) contexts = claim_all cs (set_state c.context_id predicting contexts)

abbrev pub as_claimed : Context → Context
as_claimed c = record c { state = predicting }

module _ {R : Type 0} where
  pub assign_to : ℕ → String → ContextEvent → ℕ → ℕ → Option Context → Tables R → Tables R
  unfolding add_member carry max_of
  assign_to fresh asset event window_start window_end none t = record t {
    contexts =
        record {
          context_id = fresh;
          asset_id = asset;
          context_version = 1;
          window_start = window_start;
          window_end = window_end;
          state = open_state;
          watermark = event.first_seen_at;
        }
        ∷ t.contexts;
    members = add_member fresh event t.members;
  }
  assign_to fresh asset event window_start window_end (some latest) t =
      if is_joinable latest.state
      then record t {
        contexts =
            update (λ c. record c { watermark = max_of c.watermark event.first_seen_at })
              (λ c. c.context_id == latest.context_id) t.contexts;
        members = add_member latest.context_id event t.members;
      }
      else record t {
        contexts =
            record {
              context_id = fresh;
              asset_id = asset;
              context_version = latest.context_version + 1;
              window_start = window_start;
              window_end = window_end;
              state = open_state;
              watermark = event.first_seen_at;
            }
            ∷ t.contexts;
        members = add_member fresh event (t.members ++ carry fresh latest.context_id t.members);
      }

  -- `assign_event`; `fresh` is the new id, which no row has.
  unfoldable pub assign_event : ℕ → String → ContextEvent → ℕ → ℕ → Tables R → Tables R
  unfolding assign_to latest_version
  assign_event fresh asset event window_start window_end t =
      assign_to fresh asset event window_start window_end
        (latest_version asset window_start t.contexts) t

  -- `claim_ready_contexts`, with its limit, in microseconds.
  unfoldable pub claim_ready_contexts : ℕ → ℕ → ℕ → Tables R → Tables R × List Context
  unfolding claim_all
  claim_ready_contexts now grace limit t =
      let due = take limit (
        sort_by (λ c. c.window_end)
          (filter_by (λ c. is_joinable c.state && leb (c.window_end + grace) now) t.contexts)) in
      (record t { contexts = claim_all due t.contexts }, map as_claimed due)
