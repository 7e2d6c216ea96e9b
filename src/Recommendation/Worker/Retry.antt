-- ===== src/Recommendation/Worker/Retry.antt =====
-- A message that goes back to the queue finds its batch still in flight.
use laburi_to.Base.{
  ℤ, String, ◌≡◌, refl, true, false, Option, none, some, List, [], ◌∷◌, any, arith, Bool-cases, inl,
  inr,
}
use laburi_to.Errors.{
  GoError, Result, ok, err, error_of, is, sentinel, wrap_both, scoring_failed, scoring_unavailable,
  subject_not_found,
}
use laburi_to.Scoring.Models.{Pair, Outcome}
use laburi_to.Scoring.Scorer.{Scorer, MeetsContract}
use laburi_to.Recommendation.Models.{Batch, failed}
use laburi_to.Recommendation.Events.{Codec, decode_job_requested_event}
use laburi_to.Database.Schema.{Tables}
use laburi_to.Database.Connection.{Connection, pure, raise}
use laburi_to.Database.Triples.{Triple, Triple-on_error, Triple-bind, Triple-then}
use laburi_to.Database.InFlight.{IsOpen}
use laburi_to.Recommendation.Repo.Failures.{
  transition_batch-err, complete_batch-err, claim_batch-IsOpen,
}
use laburi_to.Recommendation.Worker.{
  acknowledges, is_terminal, resolve_candidates, candidates_from, scoring_available, complete_empty,
  fail_batch, store_results, evaluate, work, process_batch, decoded, batch_id_of, handle,
}
use laburi_to.Recommendation.Worker.Keeps.{get_batch-Keeps_any, resolve_candidates-Keeps}

-- If the message is not acknowledged, the property holds.
abbrev Unacknowledged : {A : Type 0} → (Tables → Type 0) → Result A → Tables → Type 0
Unacknowledged P r t = acknowledges (error_of r) ≡ false → P t

pub acknowledges-scoring_failed :
    (e : GoError) → acknowledges (some (wrap_both (sentinel scoring_failed) e)) ≡ true
unfolding acknowledges any is
acknowledges-scoring_failed e = ground arith

pub acknowledges-scoring_unavailable :
    (e : GoError) → is e scoring_unavailable ≡ true → acknowledges (some e) ≡ true
unfolding acknowledges any
acknowledges-scoring_unavailable e h = ground arith

acknowledged_raise :
    (P : Tables → Type 0) (e : GoError)
    → acknowledges (some e) ≡ true
    → Triple (λ t. Unit {0}) (raise {A = Unit {0}} e) (Unacknowledged P)
unfolding raise
acknowledged_raise P e a = record { at = λ c h k. cc }

verdict_unavailable :
    {F : Type 0} (scorer : Scorer F) (e : GoError)
    → MeetsContract scorer
    → scoring_available scorer ≡ some e
    → is e scoring_unavailable ≡ true
unfolding scoring_available
verdict_unavailable scorer e m h = m.unavailability e (ground arith)

Unacknowledged-ok :
    {A : Type 0} (P : Tables → Type 0) (a : A) → Triple (λ t. Unit {0}) (pure a) (Unacknowledged P)
unfolding pure acknowledges
Unacknowledged-ok P a = record { at = λ c h k. cc }

module _ {F : Type 0} (format : F → String) (scorer : Scorer F) (codec : Codec)
    (contract : MeetsContract scorer) (i : ℤ) where
  complete_empty-retry :
      (batch : Batch)
      → Triple (IsOpen i) (complete_empty format scorer codec batch) (Unacknowledged (IsOpen i))
  unfolding complete_empty
  complete_empty-retry batch =
      Triple-then (IsOpen i) (IsOpen i) (Unacknowledged (IsOpen i)) _ _
        (claim_batch-IsOpen i batch.id) (λ e t h k. h)
        λ _.
          Triple-bind (IsOpen i) (IsOpen i) (Unacknowledged (IsOpen i)) _ _
            (Triple-on_error (IsOpen i) _ _
              (complete_batch-err (IsOpen i) format batch.id [] (λ t n h. h)))
            (λ e t h k. h) (λ _. Unacknowledged-ok (IsOpen i) tt)

  store_results-retry :
      (batch : Batch) (r : Result (List (Outcome F)))
      → Triple (IsOpen i) (store_results format scorer codec batch r) (Unacknowledged (IsOpen i))
  unfolding store_results fail_batch
  store_results-retry batch (err e) = record { at = λ c h k. cc (acknowledges-scoring_failed e) }
  store_results-retry batch (ok results) =
      Triple-bind (IsOpen i) (IsOpen i) (Unacknowledged (IsOpen i)) _ _
        (Triple-on_error (IsOpen i) _ _
          (complete_batch-err (IsOpen i) format batch.id (candidates_from results) (λ t n h. h)))
        (λ e t h k. h) (λ _. Unacknowledged-ok (IsOpen i) tt)

  evaluate-retry :
      (batch : Batch) (pairs : List Pair) (verdict : Option GoError)
      → scoring_available scorer ≡ verdict
      → Triple
          (IsOpen i)
          (evaluate format scorer codec batch pairs verdict)
          (Unacknowledged (IsOpen i))
  unfolding evaluate
  evaluate-retry batch pairs (some e) h =
      Triple-bind (IsOpen i) (IsOpen i) (Unacknowledged (IsOpen i)) _ _
        (Triple-on_error (IsOpen i) _ _ (transition_batch-err (IsOpen i) batch.id failed))
        (λ e' t o k. o)
        λ _.
          acknowledged_raise (IsOpen i) e
            (acknowledges-scoring_unavailable e (verdict_unavailable scorer e contract h))
  evaluate-retry batch pairs none h =
      Triple-then (IsOpen i) (IsOpen i) (Unacknowledged (IsOpen i)) _ _
        (claim_batch-IsOpen i batch.id) (λ e t o k. o)
        (λ _. store_results-retry batch (scorer.score_all pairs))

  work-retry :
      (batch : Batch) (r : Result (List Pair)) (c : Connection)
      → IsOpen i c.tables
      → Unacknowledged
          (IsOpen i)
          (work format scorer codec batch (r, c)).0
          (work format scorer codec batch (r, c)).1.tables
  unfolding work
  work-retry batch (ok []) c o = (complete_empty-retry batch).at c o
  work-retry batch (ok (pair ∷ pairs)) c o =
      (evaluate-retry batch (pair ∷ pairs) (scoring_available scorer) refl).at c o
  work-retry batch (err e) c o = elim (Bool-cases (is e subject_not_found)) [
    | inl gone ↦ rw gone ((complete_empty-retry batch).at c o)
    | inr there ↦ rw there (λ k. o)
  ]

  process_batch-retry :
      (batch : Batch)
      → Triple (IsOpen i) (process_batch format scorer codec batch) (Unacknowledged (IsOpen i))
  unfolding process_batch
  process_batch-retry batch = elim (Bool-cases (is_terminal batch.status)) [
    | inl closed ↦ record { at = λ c o. rw closed (λ k. o) }
    | inr open_still ↦ record {
      at = λ c o.
          let (r, after) = resolve_candidates batch c in
          rw open_still
            (work-retry batch r after ((resolve_candidates-Keeps (IsOpen i) batch).at c o));
    }
  ]

  decoded-retry :
      (r : Result ℤ) → Triple (IsOpen i) (decoded format scorer codec r) (Unacknowledged (IsOpen i))
  unfolding decoded
  decoded-retry (err e) = record { at = λ c o k. unfold raise in o }
  decoded-retry (ok j) =
      Triple-then (IsOpen i) (IsOpen i) (Unacknowledged (IsOpen i)) _ _
        (get_batch-Keeps_any (IsOpen i) j) (λ e t o k. o) process_batch-retry

  -- With a scorer that keeps its contract, a message that is not acknowledged, whichever calls of
  -- the database failed, leaves every batch that was in flight in flight: the next delivery finds
  -- work to do.
  pub handle_retryable :
      (body : String) (c : Connection)
      → IsOpen i c.tables
      → acknowledges (error_of (handle format scorer codec body c).0) ≡ false
      → IsOpen i (handle format scorer codec body c).1.tables
  unfolding handle
  handle_retryable body c o k =
      (decoded-retry (batch_id_of (decode_job_requested_event codec body))).at c o k
