-- ===== src/Employer/Repo.antt =====
-- internal/employer/repo.go.
use laburi_to.Base.{ℤ, String, Option, none, some, ◌==◌, string_eq, if◌then◌else◌}
use laburi_to.Errors.{
  GoError, sentinel, wrap, is, as_pq, no_rows, employer_not_found, employer_already_exists,
  employer_profile_conflict,
}
use laburi_to.Database.Schema.{EmployerRow}
use laburi_to.Database.Connection.{M, call, pure, on_error, ◌>>=◌}
use laburi_to.Database.Employers.{create_employer_row}
use laburi_to.Database.JobPositions
use laburi_to.Employer.Models.{CreateEmployerRequest, Employer, EmployerStore, normalize}

unfoldable pub employer_from_database : EmployerRow → Employer
employer_from_database row = normalize (record {
  id = row.id;
  user_id = row.user_id;
  name = row.name;
  industry = row.industry;
  location = row.location;
  hiring_modalities = some row.hiring_modalities;
  created_at = row.created_at;
  updated_at = row.updated_at;
})

by_employer_state : Option String → GoError → GoError
by_employer_state none e = wrap e
by_employer_state (some state) e =
    if state == "23505"
    then sentinel employer_already_exists
    else if state == "23514"
    then sentinel employer_profile_conflict
    else wrap e

unfoldable pub classify_create_employer_error : GoError → GoError
unfolding by_employer_state
classify_create_employer_error e = by_employer_state (as_pq e) e

-- `if errors.Is(err, sql.ErrNoRows) { return ErrEmployerNotFound }`
unfoldable pub absent_employer : GoError → GoError
absent_employer e = if is e no_rows then sentinel employer_not_found else wrap e

unfoldable pub create_employer : CreateEmployerRequest → ℤ → M Employer
unfolding employer_from_database classify_create_employer_error
create_employer request user_id = do
  row ← on_error classify_create_employer_error (
      call (
        create_employer_row (record {
          user_id = user_id;
          name = request.name;
          industry = request.industry;
          location = request.location;
          hiring_modalities = request.hiring_modalities;
        })))
  pure (employer_from_database row)

unfoldable pub get_employer_by_user_id : ℤ → M Employer
unfolding employer_from_database absent_employer
get_employer_by_user_id user_id = do
  row ← on_error absent_employer (call (JobPositions.get_employer_by_user_id user_id))
  pure (employer_from_database row)

-- The repository as the store of the service.
unfoldable pub repository : EmployerStore
repository = record {
  create_employer = create_employer;
  get_employer_by_user_id = get_employer_by_user_id;
}
