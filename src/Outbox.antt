-- ===== src/Outbox.antt =====
-- src/services/prediction/prediction/outbox.py, and the same relay in cleansing/cleansing/outbox.py and
-- verification/verification/outbox.py: messages that wait in a table are published. Each statement of the
-- loop is a step, so that a run can stop between any two. The time that
-- prediction stamps on what it publishes is left out.
pub mod Lossless
mod Tests
use Prim.Native.String.{String}
use stock_prediction.Base.{
  ℕ, suc, ◌+◌, Bool, true, false, Option, none, some, List, [], ◌∷◌, filter_by, sort_by, take,
  update, ◌==◌,
}

pub data DeliveryStatus : Type 0 where
  pending delivered : DeliveryStatus

abbrev pub is_pending : DeliveryStatus → Bool
is_pending pending = true
is_pending delivered = false

-- A row of `outbox_events`.
pub record Row (M : Type 0) : Type 0 where
  pub message_id : ℕ
  pub payload : M
  pub created_at : ℕ
  pub delivery_status : DeliveryStatus
  pub attempts : ℕ
  pub last_error : Option String

-- The table, and what the broker has been given, the latest first.
pub record Relay (M : Type 0) : Type 0 where
  pub rows : List (Row M)
  pub published : List (ℕ × M)

-- What comes of a row: the broker takes it, the payload or the broker raises, or the service stops before
-- the message is published or after.
pub data Answer : Type 0 where
  accepted : Answer
  failed : String → Answer
  stopped_before stopped_after : Answer

module _ {M : Type 0} where
  publish : Row M → Relay M → Relay M
  publish r t = record t { published = (r.message_id, r.payload) ∷ t.published }

  mark_failed : Row M → String → Relay M → Relay M
  mark_failed r error t = record t {
    rows =
        update (λ x. record x { attempts = x.attempts + 1; last_error = some error })
          (λ x. x.message_id == r.message_id) t.rows;
  }

  mark_delivered : Row M → Relay M → Relay M
  mark_delivered r t = record t {
    rows =
        update (λ x. record x { delivery_status = delivered; last_error = none })
          (λ x. x.message_id == r.message_id) t.rows;
  }

  -- One turn of the loop, with what the rest of it does. A run that stops leaves the rest.
  publish_row : Answer → Row M → (Relay M → ℕ → Relay M × ℕ) → Relay M → ℕ → Relay M × ℕ
  unfolding publish mark_failed mark_delivered
  publish_row accepted r rest t n = rest (mark_delivered r (publish r t)) (n + 1)
  publish_row (failed error) r rest t n = rest (mark_failed r error t) n
  publish_row stopped_before r rest t n = (t, n)
  publish_row stopped_after r rest t n = (publish r t, n)

  -- The loop, with the number of the rows that were delivered.
  publish_rows : (ℕ → Answer) → List (Row M) → Relay M → ℕ → Relay M × ℕ
  unfolding publish_row
  publish_rows answers [] t n = (t, n)
  publish_rows answers (r ∷ rs) t n =
      publish_row (answers r.message_id) r (publish_rows answers rs) t n

  pub waiting : ℕ → Relay M → List (Row M)
  waiting batch_size t =
      take batch_size
        (sort_by (λ r. r.created_at) (filter_by (λ r. is_pending r.delivery_status) t.rows))

  unfoldable pub publish_pending : (ℕ → Answer) → ℕ → Relay M → Relay M × ℕ
  unfolding publish_rows waiting
  publish_pending answers batch_size t = publish_rows answers (waiting batch_size t) t 0

  -- One run after the other.
  unfoldable pub publish_runs : List ((ℕ → Answer) × ℕ) → Relay M → Relay M
  publish_runs [] t = t
  publish_runs ((answers, batch_size) ∷ rest) t =
      publish_runs rest (publish_pending answers batch_size t).0
