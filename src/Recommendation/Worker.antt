-- ===== src/Recommendation/Worker.antt =====
-- internal/recommendation/worker.go: what the worker does with one message. The renewal of the
-- message's visibility runs beside the handling and touches neither the database nor its outcome.
pub mod Keeps
pub mod Safety
pub mod Retry
pub mod Redelivery
pub mod Closing
pub mod Serve
use laburi_to.Base.{
  ℤ, String, Bool, true, false, Option, none, some, List, [], ◌∷◌, if◌then◌else◌, any,
}
use laburi_to.Errors.{
  Sentinel, GoError, Result, ok, err, sentinel, wrap, wrap_both, is, unreadable_message,
  unknown_version, scoring_failed, scoring_unavailable, invalid_pair, batch_not_found,
  batch_not_claimable, invalid_subject, subject_not_found,
}
use laburi_to.Scoring.Models.{Pair, Outcome}
use laburi_to.Scoring.Scorer.{Scorer}
use laburi_to.Recommendation.Models.{
  SubjectType, employee, job_position, other, Batch, BatchStatus, completed, failed, Candidate,
  batch_subject_id,
}
use laburi_to.Recommendation.Events.{JobRequestedEvent, Codec, decode_job_requested_event}
use laburi_to.Recommendation.Candidates.{pairs_for_employee, pairs_for_job_position}
use laburi_to.Recommendation.Repo.{get_batch, claim_batch, transition_batch, complete_batch}
use laburi_to.Database.Connection.{Connection, M, pure, raise, on_error, ◌>>=◌, ◌>>◌}

abbrev pub terminal_failures : List Sentinel
terminal_failures =
    unreadable_message ∷ unknown_version ∷ scoring_failed ∷ scoring_unavailable ∷ invalid_pair
    ∷ batch_not_found ∷ batch_not_claimable ∷ invalid_subject ∷ subject_not_found ∷ []

-- none is Go's nil error
unfoldable pub acknowledges : Option GoError → Bool
acknowledges none = true
acknowledges (some e) = any (is e) terminal_failures

unfoldable pub is_terminal : BatchStatus → Bool
is_terminal completed = true
is_terminal failed = true
is_terminal _ = false

unfoldable pub pairs_of : SubjectType → ℤ → M (List Pair)
pairs_of employee i = pairs_for_employee i
pairs_of job_position i = pairs_for_job_position i
pairs_of (other _) i = raise (sentinel invalid_subject)

unfoldable pub resolve_subject : SubjectType → Result ℤ → M (List Pair)
unfolding pairs_of
resolve_subject type (err e) = raise e
resolve_subject type (ok i) = pairs_of type i

unfoldable pub resolve_candidates : Batch → M (List Pair)
unfolding resolve_subject
resolve_candidates batch = resolve_subject batch.subject_type (batch_subject_id batch)

module _ {F : Type 0} where
  -- The ineligible results do not become candidates; the others keep their total as it is.
  unfoldable pub candidates_from : List (Outcome F) → List (Candidate F)
  candidates_from [] = []
  candidates_from (result ∷ rest) =
      let candidates = candidates_from rest in
      if result.eligible
      then record {
        employee_id = result.employee_id;
        job_position_id = result.job_position_id;
        score = result.total;
      }
        ∷ candidates
      else candidates

  -- The probe is optional: a scorer without it counts as available.
  unfoldable pub scoring_available : Scorer F → Option GoError
  scoring_available scorer = elim scorer.available [ none ↦ none | some verdict ↦ verdict ]

unfoldable pub batch_id_of : Result JobRequestedEvent → Result ℤ
batch_id_of (err e) = err e
batch_id_of (ok event) = ok event.batch_id

module _ {F : Type 0} (format : F → String) (scorer : Scorer F) (codec : Codec) where
  unfoldable pub complete_empty : Batch → M (Unit {0})
  complete_empty batch = do
    claim_batch batch.id
    on_error wrap (complete_batch format batch.id [])
    pure tt

  -- The cause is returned whether or not the transition succeeds.
  unfoldable pub fail_batch : ℤ → GoError → M (Unit {0})
  fail_batch i cause c = (err cause, (transition_batch i failed c).1)

  unfoldable pub fail_without_scoring : Batch → GoError → M (Unit {0})
  fail_without_scoring batch e = do on_error wrap (transition_batch batch.id failed); raise e

  unfoldable pub store_results : Batch → Result (List (Outcome F)) → M (Unit {0})
  unfolding fail_batch
  store_results batch (err e) = fail_batch batch.id (wrap_both (sentinel scoring_failed) e)
  store_results batch (ok results) = do
    on_error wrap (complete_batch format batch.id (candidates_from results))
    pure tt

  unfoldable pub score_and_store : Batch → List Pair → M (Unit {0})
  unfolding store_results
  score_and_store batch pairs = do
    claim_batch batch.id
    store_results batch (scorer.score_all pairs)

  unfoldable pub evaluate : Batch → List Pair → Option GoError → M (Unit {0})
  unfolding score_and_store fail_without_scoring
  evaluate batch pairs (some e) = fail_without_scoring batch e
  evaluate batch pairs none = score_and_store batch pairs

  unfoldable pub work : Batch → Result (List Pair) × Connection → Result (Unit {0}) × Connection
  unfolding complete_empty evaluate
  work batch (err e, c) = if is e subject_not_found then complete_empty batch c else (err e, c)
  work batch (ok [], c) = complete_empty batch c
  work batch (ok (pair ∷ pairs), c) = evaluate batch (pair ∷ pairs) (scoring_available scorer) c

  unfoldable pub process_batch : Batch → M (Unit {0})
  unfolding work resolve_candidates
  process_batch batch c =
      if is_terminal batch.status then (ok tt, c) else work batch (resolve_candidates batch c)

  unfoldable pub decoded : Result ℤ → M (Unit {0})
  unfolding process_batch
  decoded (err e) = raise e
  decoded (ok batch_id) = do batch ← get_batch batch_id; process_batch batch

  -- Worker.handle on the body of a message; of the event only the batch identifier is used.
  unfoldable pub handle : String → M (Unit {0})
  unfolding decoded
  handle body = decoded (batch_id_of (decode_job_requested_event codec body))
