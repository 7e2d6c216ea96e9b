-- ===== src/Recommendation/Worker/Redelivery.antt =====
-- A message of a batch that is already closed, and failures that are acknowledged.
use laburi_to.Base.{ℤ, String, ◌≡◌, refl, true, Option, some, List, ◌∷◌, any, arith, find}
use laburi_to.Errors.{GoError, Result, ok, err, error_of, is}
use laburi_to.Scoring.Models.{Outcome}
use laburi_to.Scoring.Scorer.{Scorer}
use laburi_to.Recommendation.Models.{Batch, status_valid}
use laburi_to.Recommendation.Events.{Codec}
use laburi_to.Database.Schema.{Tables, BatchRow, has_id}
use laburi_to.Database.Connection.{Connection, call, called, answered, on_error, pure, ◌>>=◌}
use laburi_to.Database.Batches.{get_batch_row}
use laburi_to.Database.Total.{calm}
use laburi_to.Recommendation.Repo.{get_batch, batch_from_database, transition_batch}
use laburi_to.Database.InFlight.{IsOpen}
use laburi_to.Recommendation.Worker.Retry.{acknowledges-scoring_failed}
use laburi_to.Recommendation.Repo.Failures.{complete_batch_atomic}
use laburi_to.Database.Connection.{continue, translated}
use laburi_to.Errors.{wrap}
use laburi_to.Recommendation.Repo.{complete_batch}
use laburi_to.Errors.{subject_not_found}
use laburi_to.Recommendation.Worker.{candidates_from, acknowledges, store_results, fail_batch}

-- Without faults, a batch that exists is read as it is.
pub get_batch-found :
    (i : ℤ) (t : Tables) (row : BatchRow)
    → find (has_id i) t.batches ≡ some row
    → get_batch i (calm t) ≡ (ok (batch_from_database row), calm t)
unfolding get_batch get_batch_row call called answered on_error pure ◌>>=◌
get_batch-found i t row h = rw h refl

acknowledges-vanished :
    (e : GoError) → is e subject_not_found ≡ true → acknowledges (some (wrap e)) ≡ true
unfolding acknowledges any is
acknowledges-vanished e h = ground arith

failing_step :
    {A : Type 0} (e : GoError) (r : Result A) (c : Connection)
    → r ≡ err e
    → continue (λ a. pure tt) (translated wrap (r, c)) ≡ (err (wrap e), c)
failing_step e (ok a) c h = cc
failing_step e (err e') c h = cc

module _ {F : Type 0} (format : F → String) (scorer : Scorer F) (codec : Codec) where
  -- When the scorer fails on a batch and the statement that would mark the batch as failed fails
  -- too, whatever the reason, the message is acknowledged and the batch is still in flight.
  pub store_results_stranded :
      (batch : Batch) (e : GoError) (reason : String) (rest : List (Option String)) (t : Tables)
      → IsOpen batch.id t
      → (acknowledges (
            error_of
              (store_results format scorer codec batch
                (err e)
                (record { tables = t; faults = some reason ∷ rest })).0)
          ≡ true)
        × IsOpen batch.id
            (store_results format scorer codec batch
              (err e)
              (record { tables = t; faults = some reason ∷ rest })).1.tables
  unfolding store_results fail_batch transition_batch status_valid call called on_error ◌>>=◌
  store_results_stranded batch e reason rest t h = (acknowledges-scoring_failed e, h)

  -- When the set of a batch cannot be stored because a recommended subject is gone, the message is
  -- acknowledged and the batch keeps its status.
  pub store_results_vanished :
      (batch : Batch) (results : List (Outcome F)) (c : Connection) (e : GoError)
      → (complete_batch format batch.id (candidates_from results) c).0 ≡ err e
      → is e subject_not_found ≡ true
      → (acknowledges (error_of (store_results format scorer codec batch (ok results) c).0) ≡ true)
        × ((store_results format scorer codec batch (ok results) c).1.tables.batches
            ≡ c.tables.batches)
  unfolding store_results ◌>>=◌ on_error
  store_results_vanished batch results c e h k =
      let (r, after) = complete_batch format batch.id (candidates_from results) c in
      let step = failing_step e r after h in
      rw step (
        acknowledges-vanished e k,
        (complete_batch_atomic format batch.id (candidates_from results) c e h).0,
      )
