-- ===== src/Outbox/Lossless.antt =====
-- What a relay keeps, wherever its runs stop.
use Prim.Native.String.{String}
use stock_prediction.Base.{
  ℕ, ◌+◌, ◌≡◌, refl, ◌∙◌, Bool, true, ◌||◌, none, some, List, [], ◌∷◌, map, any, update, All,
  All-update, ◌==◌, ==_iff, arith,
}
use stock_prediction.Outbox.{
  Row, Relay, Answer, accepted, failed, stopped_before, stopped_after, is_pending, delivered,
  publish, mark_failed, mark_delivered, publish_row, publish_rows, waiting, publish_pending,
  publish_runs,
}

module _ {M : Type 0} where
  -- The messages of the table.
  abbrev pub messages : List (Row M) → List (ℕ × M)
  messages rows = map (λ r. (r.message_id, r.payload)) rows

  -- A row that is not pending has its message at the broker.
  abbrev pub IsBacked : List (ℕ × M) → Row M → Type 0
  IsBacked published r =
      (is_pending r.delivery_status || any (λ p. p.0 == r.message_id) published) ≡ true

  pub record IsLossless (before : List (ℕ × M)) (t : Relay M) : Type 0 where
    pub kept : messages t.rows ≡ before
    pub backed : All (IsBacked t.published) t.rows

  messages-update :
      (set : Row M → Row M) (where_ : Row M → Bool) (rows : List (Row M))
      → ((r : Row M) → (set r).message_id ≡ r.message_id)
      → ((r : Row M) → (set r).payload ≡ r.payload)
      → messages (update set where_ rows) ≡ messages rows
  messages-update set where_ [] h k = refl
  messages-update set where_ (r ∷ rows) h k =
      ground (arith, messages-update set where_ rows h k, h r, k r)

  mark_failed-IsLossless :
      (before : List (ℕ × M)) (r : Row M) (error : String) (t : Relay M)
      → IsLossless before t
      → IsLossless before (mark_failed r error t)
  unfolding mark_failed
  mark_failed-IsLossless before r error t v = record {
    kept = messages-update _ _ t.rows (λ x. refl) (λ x. refl) ∙ v.kept;
    backed =
        All-update (IsBacked t.published) (IsBacked t.published)
          (λ x. record x { attempts = x.attempts + 1; last_error = some error })
          (λ x. x.message_id == r.message_id) t.rows (λ x h q. h) (λ x h q. h) v.backed;
  }

  All-published :
      (p : ℕ × M) (published : List (ℕ × M)) (rows : List (Row M))
      → All (IsBacked published) rows
      → All (IsBacked (p ∷ published)) rows
  All-published p published [] h = tt
  All-published p published (r ∷ rows) (h, hs) = (ground arith, All-published p published rows hs)

  publish-IsLossless :
      (before : List (ℕ × M)) (r : Row M) (t : Relay M)
      → IsLossless before t
      → IsLossless before (publish r t)
  unfolding publish
  publish-IsLossless before r t v = record {
    kept = v.kept;
    backed = All-published (r.message_id, r.payload) t.published t.rows v.backed;
  }

  mark_delivered-IsLossless :
      (before : List (ℕ × M)) (r : Row M) (t : Relay M)
      → IsLossless before t
      → IsLossless before (mark_delivered r (publish r t))
  unfolding mark_delivered publish
  mark_delivered-IsLossless before r t v =
      let published = (r.message_id, r.payload) ∷ t.published in
      record {
        kept = messages-update _ _ t.rows (λ x. refl) (λ x. refl) ∙ v.kept;
        backed =
            All-update (IsBacked t.published) (IsBacked published)
              (λ x. record x { delivery_status = delivered; last_error = none })
              (λ x. x.message_id == r.message_id) t.rows
              (λ x h q.
                ground (arith, ==_iff x.message_id r.message_id, ==_iff r.message_id x.message_id))
              (λ x h q. ground arith) v.backed;
      }

  publish_row-IsLossless :
      (before : List (ℕ × M)) (a : Answer) (r : Row M) (rest : Relay M → ℕ → Relay M × ℕ)
      (t : Relay M) (n : ℕ)
      → ((u : Relay M) (k : ℕ) → IsLossless before u → IsLossless before (rest u k).0)
      → IsLossless before t
      → IsLossless before (publish_row a r rest t n).0
  unfolding publish_row
  publish_row-IsLossless before accepted r rest t n h v =
      h _ _ (mark_delivered-IsLossless before r t v)
  publish_row-IsLossless before (failed error) r rest t n h v =
      h _ _ (mark_failed-IsLossless before r error t v)
  publish_row-IsLossless before stopped_before r rest t n h v = v
  publish_row-IsLossless before stopped_after r rest t n h v = publish-IsLossless before r t v

  publish_rows-IsLossless :
      (before : List (ℕ × M)) (answers : ℕ → Answer) (rows : List (Row M)) (t : Relay M) (n : ℕ)
      → IsLossless before t
      → IsLossless before (publish_rows answers rows t n).0
  unfolding publish_rows
  publish_rows-IsLossless before answers [] t n v = v
  publish_rows-IsLossless before answers (r ∷ rs) t n v =
      publish_row-IsLossless before (answers r.message_id) r (publish_rows answers rs) t n
        (λ u k w. publish_rows-IsLossless before answers rs u k w) v

-- From a table in which each row that is not pending has its message at the broker: after any runs of the
-- relay, wherever they stop and whatever fails, the table has the same messages in the same order, and each
-- row that is not pending has its message at the broker.
pub publish_runs-IsLossless :
    {M : Type 0} (runs : List ((ℕ → Answer) × ℕ)) (before : List (ℕ × M)) (t : Relay M)
    → IsLossless before t
    → IsLossless before (publish_runs runs t)
unfolding publish_runs publish_pending
publish_runs-IsLossless [] before t v = v
publish_runs-IsLossless ((answers, batch_size) ∷ rest) before t v =
    publish_runs-IsLossless rest before _
      (publish_rows-IsLossless before answers (waiting batch_size t) t 0 v)
