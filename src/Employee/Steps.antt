-- ===== src/Employee/Steps.antt =====
-- The other four steps of a profile: CreateLocation and UpdateLocation of crud_location.go with the
-- repository's transactions of repo.go, and both layers of crud_tech.go, crud_availability.go and
-- of the rows of crud_education.go. `timezones` is pg_timezone_names, `trim_space` strings.TrimSpace.
pub mod Presence
pub mod Statements
pub mod Rows
pub mod Writes
pub mod Runs
pub mod Completed
use Prim.Native.Nat.{◌%◌}
use laburi_to.Base.{
  ℤ, pos, negsuc, String, Bool, ◌-◌, ltb, Option, none, some, List, [], ◌∷◌, ◌==◌, string_eq,
  if◌then◌else◌,
}
use laburi_to.Errors.{Result, ok, err, sentinel, invalid_profile_timezone}
use laburi_to.Database.Schema.{TechRow, ConnectionRow}
use laburi_to.Database.Connection.{
  Connection, Query, M, call, pure, raise, transaction, idle, ◌>>=◌, ◌>>◌,
}
use laburi_to.Database.Employees.{
  create_employee_connection, delete_employee_connections, create_employee_location,
  upsert_employee_location, create_employee_profile_tech, upsert_employee_profile_tech,
  AvailabilityParams, create_employee_profile_availability, upsert_employee_profile_availability,
  CreateEmployeeEducationParams, create_employee_education, delete_employee_education,
}
use laburi_to.Recommendation.Publisher.{World, Request}
use laburi_to.Employee.Events.{publish_if_complete}
use laburi_to.Employee.Writes.{null_string}

pub record CreateEmployeeLocationRequest : Type 0 where
  pub internet_connections : List ConnectionRow
  pub timezone : String

pub record CreateEmployeeTechRequest : Type 0 where
  pub os : String
  pub paid_software : Option (List String)

pub record CreateEmployeeProfileAvailabilityRequest : Type 0 where
  pub available_hours_per_day : ℤ
  pub compatible_projects : Option ℤ
  pub incompatible_projects : Option ℤ

pub record EmployeeEducationTitles : Type 0 where
  pub title : String
  pub status : String
  pub education_type : String
  pub document : Option String

-- int16(n), which wraps around
unfoldable pub int16_of : ℤ → ℤ
int16_of (pos n) = let k = n % 65536 in if ltb k 32768 then pos k else negsuc (65535 - k)
int16_of (negsuc n) = let k = n % 65536 in if ltb k 32768 then negsuc k else pos (65535 - k)

unfoldable pub is_int16 : ℤ → Bool
is_int16 (pos n) = ltb n 32768
is_int16 (negsuc n) = ltb n 32768

-- intToNullInt16: a number out of range is stored as NULL.
unfoldable pub int_to_null_int16 : Option ℤ → Option ℤ
unfolding is_int16 int16_of
int_to_null_int16 none = none
int_to_null_int16 (some n) = if is_int16 n then some (int16_of n) else none

unfoldable pub create_connections : ℤ → List ConnectionRow → M (Unit {0})
create_connections i [] = pure tt
create_connections i (c ∷ cs) = do call (create_employee_connection i c); create_connections i cs

module _ (timezones : String → Bool) where
  unfoldable pub timezone_exists : String → Query Bool
  timezone_exists timezone t = (ok (timezones timezone), t)

  unfoldable pub validate_timezone : String → M (Unit {0})
  unfolding timezone_exists
  validate_timezone timezone = do
    exists ← call (timezone_exists timezone)
    if exists then pure tt else raise (sentinel invalid_profile_timezone)

  unfoldable pub create_location_steps : ℤ → CreateEmployeeLocationRequest → M (Unit {0})
  unfolding validate_timezone create_connections
  create_location_steps i request = do
    validate_timezone request.timezone
    create_connections i request.internet_connections
    call (create_employee_location i request.timezone)
    call idle

  unfoldable pub create_location_with_connections : ℤ → CreateEmployeeLocationRequest → M (Unit {0})
  unfolding create_location_steps
  create_location_with_connections i request = do
    call idle
    transaction (create_location_steps i request)

  unfoldable pub update_location_steps : ℤ → CreateEmployeeLocationRequest → M (Unit {0})
  unfolding validate_timezone create_connections
  update_location_steps i request = do
    validate_timezone request.timezone
    call (delete_employee_connections i)
    create_connections i request.internet_connections
    call (upsert_employee_location i request.timezone)
    call idle

  unfoldable pub update_location_with_connections : ℤ → CreateEmployeeLocationRequest → M (Unit {0})
  unfolding update_location_steps
  update_location_with_connections i request = do
    call idle
    transaction (update_location_steps i request)

-- A nil slice is stored as the empty list.
unfoldable pub tech_row : CreateEmployeeTechRequest → TechRow
unfolding null_string
tech_row request = record { os = null_string request.os; paid_software = request.paid_software }

unfoldable pub with_software : CreateEmployeeTechRequest → CreateEmployeeTechRequest
with_software request = record request {
  paid_software = some (elim request.paid_software [ none ↦ [] | some software ↦ software ]);
}

unfoldable pub create_tech : ℤ → CreateEmployeeTechRequest → M (Unit {0})
unfolding tech_row
create_tech i request = call (create_employee_profile_tech i (tech_row request))

unfoldable pub update_tech : ℤ → CreateEmployeeTechRequest → M (Unit {0})
unfolding tech_row
update_tech i request = call (upsert_employee_profile_tech i (tech_row request))

unfoldable pub availability_params : CreateEmployeeProfileAvailabilityRequest → AvailabilityParams
unfolding int16_of int_to_null_int16
availability_params request = record {
  available_hours_per_day = int16_of request.available_hours_per_day;
  compatible_projects = int_to_null_int16 request.compatible_projects;
  incompatible_projects = int_to_null_int16 request.incompatible_projects;
}

unfoldable pub create_availability : ℤ → CreateEmployeeProfileAvailabilityRequest → M (Unit {0})
unfolding availability_params
create_availability i request =
    call (create_employee_profile_availability i (availability_params request))

unfoldable pub update_availability : ℤ → CreateEmployeeProfileAvailabilityRequest → M (Unit {0})
unfolding availability_params
update_availability i request =
    call (upsert_employee_profile_availability i (availability_params request))

module _ (trim_space : String → String) where
  -- stringValue, valid where the text is not blank
  unfoldable pub certification_of : Option String → Option String
  certification_of none = none
  certification_of (some text) = if trim_space text == "" then none else some text

  unfoldable pub education_params : EmployeeEducationTitles → CreateEmployeeEducationParams
  unfolding certification_of
  education_params education = record {
    education_type = education.education_type;
    title = education.title;
    status = education.status;
    certification = certification_of education.document;
  }

  unfoldable pub create_titles : ℤ → List EmployeeEducationTitles → M (Unit {0})
  unfolding education_params
  create_titles i [] = pure tt
  create_titles i (education ∷ titles) = do
    call (create_employee_education i (education_params education))
    create_titles i titles

  unfoldable pub create_education_steps : ℤ → List EmployeeEducationTitles → M (Unit {0})
  unfolding create_titles
  create_education_steps i titles = do create_titles i titles; call idle

  unfoldable pub create_education : ℤ → List EmployeeEducationTitles → M (Unit {0})
  unfolding create_education_steps
  create_education i titles = do call idle; transaction (create_education_steps i titles)

  unfoldable pub update_education_steps : ℤ → List EmployeeEducationTitles → M (Unit {0})
  unfolding create_titles
  update_education_steps i titles = do
    call (delete_employee_education i)
    create_titles i titles
    call idle

  unfoldable pub update_education : ℤ → List EmployeeEducationTitles → M (Unit {0})
  unfolding update_education_steps
  update_education i titles = do call idle; transaction (update_education_steps i titles)

module _ {Q : Type 0} (is_profile_complete : ℤ → M Bool) (publisher : Option (ℤ → Request Q)) where
  unfoldable pub announced : ℤ → Q → Result (Unit {0}) × Connection → Result (Unit {0}) × World Q
  announced i q (err e, c) = (err e, record { connection = c; queue = q })
  announced i q (ok _, c) = (
    ok tt,
    publish_if_complete is_profile_complete publisher i (record { connection = c; queue = q }),
  )

  -- The service's operation over that of the repository: CreateLocation, UpdateLocation,
  -- CreateAvailability and UpdateAvailability
  unfoldable pub write_step : M (Unit {0}) → ℤ → World Q → Result (Unit {0}) × World Q
  unfolding announced
  write_step write i w = announced i w.queue (write w.connection)

  -- CreateTech and UpdateTech of the service
  unfoldable pub write_tech :
      (ℤ → CreateEmployeeTechRequest → M (Unit {0}))
      → ℤ
      → CreateEmployeeTechRequest
      → World Q
      → Result (Unit {0}) × World Q
  unfolding write_step with_software
  write_tech write i request w = write_step (write i (with_software request)) i w
