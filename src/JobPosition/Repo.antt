-- ===== src/JobPosition/Repo.antt =====
-- internal/jobposition/repo.go. `timezones` tells the names in pg_timezone_names, a catalogue of
-- the server.
use laburi_to.Base.{ℤ, String, Bool, some, List, map, if◌then◌else◌}
use laburi_to.Errors.{
  GoError, ok, sentinel, wrap, is, no_rows, employer_profile_required, job_position_not_found,
  invalid_timezone,
}
use laburi_to.Database.Schema.{JobPositionRow}
use laburi_to.Database.Connection.{M, Query, call, pure, raise, on_error, ◌>>=◌, ◌>>◌}
use laburi_to.Database.JobPositions.{
  create_job_position_row, get_active_job_position_row, list_active_job_position_rows,
  update_active_job_position_row, soft_delete_job_position_row, get_employer_by_user_id,
}
use laburi_to.JobPosition.Models.{
  CreateJobPositionRequest, JobPosition, JobPositionStore, normalize,
}

unfoldable pub job_position_from_database : JobPositionRow → JobPosition
job_position_from_database row = normalize (record {
  id = row.id;
  employer_id = row.employer_id;
  position = row.position;
  role = row.role;
  required_experience = row.required_experience;
  required_education_level = row.required_education_level;
  available_hours_per_day = row.available_hours_per_day;
  timezone = row.timezone;
  technical_resources = some row.technical_resources;
  created_at = row.created_at;
  updated_at = row.updated_at;
})

-- `if errors.Is(err, sql.ErrNoRows) { return ErrEmployerProfileRequired }`
unfoldable pub missing_employer : GoError → GoError
missing_employer e = if is e no_rows then sentinel employer_profile_required else wrap e

-- `if errors.Is(err, sql.ErrNoRows) { return ErrJobPositionNotFound }`
unfoldable pub missing_position : GoError → GoError
missing_position e = if is e no_rows then sentinel job_position_not_found else wrap e

unfoldable pub get_employer_id_by_user_id : ℤ → M ℤ
unfolding missing_employer
get_employer_id_by_user_id user_id = do
  row ← on_error missing_employer (call (get_employer_by_user_id user_id))
  pure row.id

unfoldable pub get_active_job_position_by_id : ℤ → M JobPosition
unfolding job_position_from_database missing_position
get_active_job_position_by_id i = do
  row ← on_error missing_position (call (get_active_job_position_row i))
  pure (job_position_from_database row)

unfoldable pub list_active_job_positions_by_employer : ℤ → M (List JobPosition)
unfolding job_position_from_database
list_active_job_positions_by_employer employer_id = do
  rows ← on_error wrap (call (list_active_job_position_rows employer_id))
  pure (map job_position_from_database rows)

unfoldable pub soft_delete_job_position : ℤ → M (Unit {0})
unfolding missing_position
soft_delete_job_position i = do
  on_error missing_position (call (soft_delete_job_position_row i))
  pure tt

module _ (timezones : String → Bool) where
  unfoldable pub timezone_exists : String → Query Bool
  timezone_exists timezone t = (ok (timezones timezone), t)

  unfoldable pub validate_timezone : String → M (Unit {0})
  unfolding timezone_exists
  validate_timezone timezone = do
    exists ← call (timezone_exists timezone)
    if exists then pure tt else raise (sentinel invalid_timezone)

  unfoldable pub create_job_position : ℤ → CreateJobPositionRequest → M JobPosition
  unfolding validate_timezone job_position_from_database
  create_job_position employer_id request = do
    validate_timezone request.timezone
    row ← on_error wrap (call (create_job_position_row employer_id request))
    pure (job_position_from_database row)

  unfoldable pub update_active_job_position : ℤ → CreateJobPositionRequest → M JobPosition
  unfolding validate_timezone job_position_from_database missing_position
  update_active_job_position i request = do
    validate_timezone request.timezone
    row ← on_error missing_position (call (update_active_job_position_row i request))
    pure (job_position_from_database row)

  -- The repository as the store of the service.
  unfoldable pub repository : JobPositionStore
  repository = record {
    get_employer_id_by_user_id = get_employer_id_by_user_id;
    create_job_position = create_job_position;
    get_active_job_position_by_id = get_active_job_position_by_id;
    list_active_job_positions_by_employer = list_active_job_positions_by_employer;
    update_active_job_position = update_active_job_position;
    soft_delete_job_position = soft_delete_job_position;
  }
