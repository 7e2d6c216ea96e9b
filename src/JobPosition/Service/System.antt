-- ===== src/JobPosition/Service/System.antt =====
-- The service of job positions with the publisher of recommendations behind it.
use laburi_to.Base.{ℕ, ℤ, String, Bool, Option, none, some, List}
use laburi_to.Errors.{Result, ok, err}
use laburi_to.Database.Schema.{Tables, JobPositionRow, IsConsistent}
use laburi_to.Database.Connection.{
  Connection, Keeps, Keeps-call, Keeps-pure, Keeps-on_error, Keeps-bind,
}
use laburi_to.Database.JobPositions.{
  PositionColumns, changed, put_position, updated_position, update_active_job_position_row,
}
use laburi_to.Queue.Client.{Client}
use laburi_to.Recommendation.Events.{Codec}
use laburi_to.Recommendation.Models.{new_job_position_subject}
use laburi_to.Recommendation.Publisher.{World, Request, publish_job, job_position_published}
use laburi_to.Recommendation.Publisher.Safety.{publish_job-IsConsistent}
use laburi_to.Recommendation.Service.{Principal}
use laburi_to.JobPosition.Models.{JobPosition, CreateJobPositionRequest}
use laburi_to.JobPosition.Repo
use laburi_to.JobPosition.Repo.{repository}
use laburi_to.JobPosition.Service.{publish, published, edited_position, update_job_position}
use laburi_to.JobPosition.Service.Denied.{resolve_owned_position-Keeps, validate_timezone-Keeps}

-- The constraints on batches and recommendations do not read the job positions.
positions_free :
    (t : Tables) (rows : List JobPositionRow) (n : ℕ)
    → IsConsistent t
    → IsConsistent (record t { job_positions = rows; next_job_position_id = n })
positions_free t rows n v = record {
  ids_unique = v.ids_unique;
  one_per_employee = v.one_per_employee;
  one_per_job_position = v.one_per_job_position;
  rows_checked = v.rows_checked;
  ids_issued = v.ids_issued;
  referenced = v.referenced;
}

changed-IsConsistent :
    (i : ℤ) (o : Option String) (row : JobPositionRow) (t : Tables)
    → IsConsistent t
    → IsConsistent (changed i o row t).1
unfolding changed put_position
changed-IsConsistent i (some state) row t v = v
changed-IsConsistent i none row t v = positions_free t _ t.next_job_position_id v

updated_position-IsConsistent :
    (i : ℤ) (arg : PositionColumns) (resources : Option (List String)) (o : Option JobPositionRow)
    (t : Tables)
    → IsConsistent t
    → IsConsistent (updated_position i arg resources o t).1
unfolding updated_position
updated_position-IsConsistent i arg resources none t v = v
updated_position-IsConsistent i arg none (some row) t v = v
updated_position-IsConsistent i arg (some resources) (some row) t v = changed-IsConsistent i _ _ t v

module _ (timezones : String → Bool) (request : CreateJobPositionRequest)
    (principal : Principal) where
  edited_position-Keeps :
      (i : ℤ) → Keeps IsConsistent (edited_position (repository timezones) i request principal)
  unfolding edited_position repository Repo.update_active_job_position
      update_active_job_position_row
  edited_position-Keeps i =
      Keeps-bind IsConsistent _ _ (resolve_owned_position-Keeps IsConsistent timezones i principal)
        (λ own.
          Keeps-bind IsConsistent _ _
            (validate_timezone-Keeps IsConsistent timezones request.timezone)
            (λ _.
              Keeps-bind IsConsistent _ _
                (Keeps-on_error IsConsistent _ _ (
                  Keeps-call IsConsistent _ (λ t v.
                    updated_position-IsConsistent i request request.technical_resources _ t v)))
                (λ row. Keeps-pure IsConsistent _)))

module _ {Q H : Type 0} (client : Client Q H) (codec : Codec) (event_id : String) (now : ℕ) where
  -- JobPositionEventPublisher as the application wires it
  abbrev pub wired : Option (ℤ → Request Q)
  wired = some (job_position_published (publish_job client codec event_id now))

  published-IsConsistent :
      (q : Q) (r : Result JobPosition) (c : Connection)
      → IsConsistent c.tables
      → IsConsistent (published wired q (r, c)).1.connection.tables
  unfolding published publish job_position_published
  published-IsConsistent q (err e) c v = v
  published-IsConsistent q (ok position) c v =
      publish_job-IsConsistent client codec event_id now (new_job_position_subject position.id)
        (record { connection = c; queue = q }) v

  module _ (timezones : String → Bool) (request : CreateJobPositionRequest) (principal : Principal)
      (w : World Q) where
    pub update_job_position-IsConsistent :
        (i : ℤ)
        → IsConsistent w.connection.tables
        → IsConsistent
            (update_job_position
              (repository timezones)
              wired
              i
              request
              principal
              w).1.connection.tables
    unfolding update_job_position
    update_job_position-IsConsistent i v =
        published-IsConsistent w.queue _ _
          ((edited_position-Keeps timezones request principal i).at w.connection v)
