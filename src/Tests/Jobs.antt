-- ===== src/Tests/Jobs.antt =====
-- The handling of a message, at concrete inputs.
use laburi_to.Recommendation.Publisher.{World}
use laburi_to.Queue.Client.{Message}
use laburi_to.Queue.Fake.{Fake, Receipt, receipt, new, send}
use laburi_to.Base.{
  ℕ, ℤ, pos, String, ◌≡◌, refl, Bool, true, false, Option, none, some, List, [], ◌∷◌, count, find,
  any, All, arith, Bool-cases, inl, inr, weight, ◌≤◌, ◌<◌, ◌⊎◌, ◌↔◌, int_eq, nat_eq, int_leb, ltb,
}
use laburi_to.Errors.{
  GoError, Result, ok, err, error_of, is, sentinel, foreign, wrap, scoring_unavailable,
  subject_not_found, invalid_pair,
}
use laburi_to.Scoring.Models.{Outcome}
use laburi_to.Scoring.Scorer.{unavailable, unavailable-MeetsContract}
use laburi_to.Recommendation.Models.{
  employee, job_position, pending, completed, failed, processing, Batch, Page, status_valid,
  exclusive, new_employee_subject, Candidate,
}
use laburi_to.Recommendation.Events.{decode_job_requested_event}
use laburi_to.Database.Schema.{
  BatchRow, EmployeeRow, JobPositionRow, EmployerRow, RecommendationRow, Tables, IsConsistent,
  has_id, in_flight, row_checked, issued, of_employee, of_job_position, employee_in_flight,
  job_position_in_flight, batch_exists,
}
use laburi_to.Database.Connection.{Connection}
use laburi_to.Database.Total.{calm}
use laburi_to.Database.InFlight.{IsOpen, open_batch}
use laburi_to.Recommendation.Worker.{
  handle, acknowledges, scoring_available, store_results, candidates_from,
}
use laburi_to.Recommendation.Worker.Closing.{handle_closes, IsSettled}
use laburi_to.Recommendation.Worker.Redelivery.{store_results_stranded, store_results_vanished}
use laburi_to.Recommendation.Repo.{complete_batch}
use laburi_to.Recommendation.Repo.Failures.{complete_batch_atomic}
use laburi_to.Recommendation.Worker.Retry.{handle_retryable}
use laburi_to.Recommendation.Worker.Safety.{handle-IsConsistent}
use laburi_to.Tests.{
  waiting, tables_with, waiting-IsConsistent, waiting-IsActive, one_event, asked, asked_decodes,
  two_places,
}

no_scoring : scoring_available (unavailable {F = ℕ}) ≡ some (sentinel scoring_unavailable)
unfolding scoring_available unavailable
no_scoring = refl

handle_closes_example :
    IsSettled (pos 1) (handle two_places unavailable one_event "job" (calm (tables_with waiting)))
handle_closes_example =
    handle_closes two_places unavailable one_event "job" asked (sentinel scoring_unavailable)
      (tables_with waiting) unavailable-MeetsContract no_scoring asked_decodes waiting-IsActive

-- The first call to come fails.
abbrev cut_off : Tables → Connection
cut_off t = record { tables = t; faults = some "connection reset" ∷ [] }

waiting-IsOpen : IsOpen (pos 1) (tables_with waiting)
unfolding any open_batch has_id laburi_to.Base.int_beq in_flight
waiting-IsOpen = refl

goes_back :
    acknowledges
      (error_of (handle two_places unavailable one_event "job" (cut_off (tables_with waiting))).0)
    ≡ false
unfolding handle acknowledges laburi_to.Recommendation.Worker.batch_id_of decode_job_requested_event
    laburi_to.Base.int_beq int_leb laburi_to.Recommendation.Models.subject_type_valid
    laburi_to.Database.Connection.◌>>=◌ laburi_to.Recommendation.Repo.get_batch
    laburi_to.Database.Connection.on_error laburi_to.Database.Connection.call any is
goes_back = refl

handle_retryable_example :
    IsOpen
      (pos 1)
      (handle two_places unavailable one_event "job" (cut_off (tables_with waiting))).1.tables
handle_retryable_example =
    handle_retryable two_places unavailable one_event unavailable-MeetsContract (pos 1) "job"
      (cut_off (tables_with waiting)) waiting-IsOpen goes_back

handle-IsConsistent_example :
    IsConsistent
      (handle two_places unavailable one_event "job" (calm (tables_with waiting))).1.tables
handle-IsConsistent_example =
    handle-IsConsistent two_places unavailable one_event "job" (calm (tables_with waiting))
      waiting-IsConsistent

-- The second candidate is an employee who does not exist.
abbrev good_and_gone : List (Candidate ℕ)
good_and_gone =
    record { employee_id = pos 7; job_position_id = pos 5; score = some 1 }
    ∷ record { employee_id = pos 99; job_position_id = pos 5; score = none }
    ∷ []

refused_set :
    (complete_batch two_places (pos 1) good_and_gone (calm (tables_with waiting))).0
    ≡ err (sentinel subject_not_found)
unfolding complete_batch laburi_to.Database.Connection.◌>>=◌ laburi_to.Database.Connection.on_error
    laburi_to.Database.Connection.call laburi_to.Database.Connection.idle
    laburi_to.Database.Connection.transaction laburi_to.Database.Batches.transition_row find has_id
    laburi_to.Base.int_beq laburi_to.Database.Batches.refusal row_checked exclusive status_valid
    in_flight laburi_to.Recommendation.Repo.insert_all
    laburi_to.Database.Batches.insert_recommendation any batch_exists laburi_to.Base.overwrite
    laburi_to.Database.Schema.employee_exists laburi_to.Database.Schema.job_position_exists
    laburi_to.Recommendation.Repo.classify_insert_recommendation_error laburi_to.Errors.as_pq
refused_set = refl

complete_batch_atomic_example :
    ((complete_batch two_places (pos 1) good_and_gone (calm (tables_with waiting))).1.tables.batches
      ≡ waiting ∷ [])
    × ((complete_batch two_places
          (pos 1)
          good_and_gone
          (calm (tables_with waiting))).1.tables.recommendations
        ≡ [])
complete_batch_atomic_example =
    complete_batch_atomic two_places (pos 1) good_and_gone (calm (tables_with waiting))
      (sentinel subject_not_found) refused_set

abbrev claimed_batch : Batch
claimed_batch = record {
  id = pos 1;
  subject_type = employee;
  employee_id = some (pos 7);
  job_position_id = none;
  status = processing;
  created_at = 3;
  updated_at = 10;
}

abbrev in_progress : BatchRow
in_progress = record waiting { status = processing; updated_at = 10 }

in_progress-IsOpen : IsOpen (pos 1) (tables_with in_progress)
unfolding any open_batch has_id laburi_to.Base.int_beq in_flight
in_progress-IsOpen = refl

store_results_stranded_example :
    (acknowledges (
        error_of
          (store_results two_places unavailable one_event claimed_batch
            (err (foreign "model down"))
            (cut_off (tables_with in_progress))).0)
      ≡ true)
    × IsOpen
        (pos 1)
        (store_results two_places unavailable one_event claimed_batch
          (err (foreign "model down"))
          (cut_off (tables_with in_progress))).1.tables
store_results_stranded_example =
    store_results_stranded two_places unavailable one_event claimed_batch (foreign "model down")
      "connection reset" [] (tables_with in_progress) in_progress-IsOpen

abbrev gone_result : List (Outcome ℕ)
gone_result =
    record {
      employee_id = pos 99;
      job_position_id = pos 5;
      eligible = true;
      reason = "";
      total = some 1;
      indicators = [];
    }
    ∷ []

refused_result :
    (complete_batch two_places
      (pos 1)
      (candidates_from gone_result)
      (calm (tables_with in_progress))).0
    ≡ err (sentinel subject_not_found)
unfolding complete_batch laburi_to.Database.Connection.◌>>=◌ laburi_to.Database.Connection.on_error
    laburi_to.Database.Connection.call laburi_to.Database.Connection.idle
    laburi_to.Database.Connection.transaction laburi_to.Database.Batches.transition_row find has_id
    laburi_to.Base.int_beq laburi_to.Database.Batches.refusal row_checked exclusive status_valid
    in_flight laburi_to.Recommendation.Repo.insert_all candidates_from
    laburi_to.Database.Batches.insert_recommendation any batch_exists laburi_to.Base.overwrite
    laburi_to.Database.Schema.employee_exists
    laburi_to.Recommendation.Repo.classify_insert_recommendation_error laburi_to.Errors.as_pq
refused_result = refl

gone_is_gone : is (sentinel subject_not_found) subject_not_found ≡ true
unfolding is
gone_is_gone = refl

store_results_vanished_example :
    (acknowledges (
        error_of
          (store_results two_places unavailable one_event claimed_batch
            (ok gone_result)
            (calm (tables_with in_progress))).0)
      ≡ true)
    × ((store_results two_places unavailable one_event claimed_batch
          (ok gone_result)
          (calm (tables_with in_progress))).1.tables.batches
        ≡ in_progress ∷ [])
store_results_vanished_example =
    store_results_vanished two_places unavailable one_event claimed_batch gone_result
      (calm (tables_with in_progress)) (sentinel subject_not_found) refused_result gone_is_gone

-- One message in the in-memory queue.
abbrev queued : World Fake
queued = record { connection = calm (tables_with waiting); queue = (send "job" new).1 }

abbrev job_message : Message Receipt
job_message = record { id = 1; body = "job"; receipt_handle = receipt 1 1; receive_count = 1 }

abbrev cut_off_world : World Fake
cut_off_world = record { connection = cut_off (tables_with waiting); queue = (send "job" new).1 }
