-- ===== src/Recommendation/Repo.antt =====
-- internal/recommendation/repo.go: the operations of RecommendationRepository that write, each a
-- computation over a connection. `F` is float64 and `format` is strconv.FormatFloat at the scale of
-- the column.
pub mod Consistency
pub mod Failures
pub mod Progress
use laburi_to.Base.{ℤ, String, Option, none, some, List, [], ◌∷◌, ◌==◌, string_eq, if◌then◌else◌}
use laburi_to.Errors.{
  GoError, Result, ok, err, sentinel, wrap, is, as_pq, no_rows, batch_not_found,
  batch_already_in_flight, subject_not_found, batch_not_claimable, invalid_subject,
  invalid_batch_status,
}
use laburi_to.Recommendation.Models.{
  Batch, BatchStatus, Subject, Candidate, completed, status_valid, subject_valid,
}
use laburi_to.Database.Schema.{BatchRow}
use laburi_to.Database.Connection.{
  Connection, M, call, pure, raise, on_error, transaction, idle, ◌>>=◌, ◌>>◌,
}
use laburi_to.Database.Batches.{
  create_batch_row, transition_row, claim_row, get_batch_row, insert_recommendation,
  delete_others_for_employee, delete_others_for_job_position,
}

unfoldable pub batch_from_database : BatchRow → Batch
batch_from_database row = record {
  id = row.id;
  subject_type = row.subject_type;
  employee_id = row.employee_id;
  job_position_id = row.job_position_id;
  status = row.status;
  created_at = row.created_at;
  updated_at = row.updated_at;
}

by_create_state : Option String → GoError → GoError
by_create_state none e = wrap e
by_create_state (some state) e =
    if state == "23505"
    then sentinel batch_already_in_flight
    else if state == "23503"
    then sentinel subject_not_found
    else if state == "23514"
    then sentinel invalid_subject
    else wrap e

unfoldable pub classify_create_batch_error : GoError → GoError
unfolding by_create_state
classify_create_batch_error e = by_create_state (as_pq e) e

by_insert_state : Option String → GoError → GoError
by_insert_state none e = wrap e
by_insert_state (some state) e = if state == "23503" then sentinel subject_not_found else wrap e

unfoldable pub classify_insert_recommendation_error : GoError → GoError
unfolding by_insert_state
classify_insert_recommendation_error e = by_insert_state (as_pq e) e

-- `if errors.Is(err, sql.ErrNoRows) { return ErrBatchNotFound }`, any other error wrapped
unfoldable pub missing_batch : GoError → GoError
missing_batch e = if is e no_rows then sentinel batch_not_found else wrap e

unfoldable pub create_batch : Subject → M Batch
create_batch subject =
    if subject_valid subject
    then (do
      row ← on_error classify_create_batch_error (
          call (
            create_batch_row (record {
              subject_type = subject.type;
              employee_id = subject.employee_id;
              job_position_id = subject.job_position_id;
            })))
      pure (batch_from_database row))
    else raise (sentinel invalid_subject)

unfoldable pub get_batch : ℤ → M Batch
unfolding missing_batch
get_batch i = do
  row ← on_error missing_batch (call (get_batch_row i))
  pure (batch_from_database row)

-- The second query tells a batch that is gone from one that is closed.
unfoldable pub reread : ℤ → M Batch
reread i = do get_batch i; raise (sentinel batch_not_claimable)

unfoldable pub claimed : ℤ → Result BatchRow × Connection → Result Batch × Connection
claimed i (ok row, c) = (ok (batch_from_database row), c)
claimed i (err e, c) = if is e no_rows then reread i c else (err (wrap e), c)

unfoldable pub claim_batch : ℤ → M Batch
unfolding claimed reread
claim_batch i c = claimed i (call (claim_row i) c)

unfoldable pub transition_batch : ℤ → BatchStatus → M Batch
transition_batch i status =
    if status_valid status
    then (do
      row ← on_error missing_batch (call (transition_row i status))
      pure (batch_from_database row))
    else raise (sentinel invalid_batch_status)

unfoldable pub prune_subject : Option ℤ → Option ℤ → ℤ → M (Unit {0})
prune_subject (some employee_id) _ i =
    on_error wrap (call (delete_others_for_employee employee_id i))
prune_subject none (some job_position_id) i =
    on_error wrap (call (delete_others_for_job_position job_position_id i))
prune_subject none none i = raise (sentinel invalid_subject)

-- The switch of CompleteBatch: the subject comes from the row that was completed.
unfoldable pub prune : BatchRow → ℤ → M (Unit {0})
unfolding prune_subject
prune row i = prune_subject row.employee_id row.job_position_id i

module _ {F : Type 0} (format : F → String) where
  unfoldable pub score_to_database : Option F → Option String
  score_to_database none = none
  score_to_database (some score) = some (format score)

  unfoldable pub insert_all : ℤ → List (Candidate F) → M (Unit {0})
  unfolding score_to_database
  insert_all i [] = pure tt
  insert_all i (candidate ∷ rest) = do
    on_error classify_insert_recommendation_error (
        call (
          insert_recommendation (record {
            batch_id = i;
            employee_id = candidate.employee_id;
            job_position_id = candidate.job_position_id;
            score = score_to_database candidate.score;
          })))
    insert_all i rest

  -- The steps of the transaction, the commit last.
  unfoldable pub complete_steps : ℤ → List (Candidate F) → M Batch
  complete_steps i candidates = do
    row ← on_error missing_batch (call (transition_row i completed))
    insert_all i candidates
    prune row i
    on_error wrap (call idle)
    pure (batch_from_database row)

  unfoldable pub complete_batch : ℤ → List (Candidate F) → M Batch
  unfolding complete_steps
  complete_batch i candidates = do
    on_error wrap (call idle)
    transaction (complete_steps i candidates)
