-- ===== src/Database/Employees.antt =====
-- The statements of sql/queries/employees.sql that write the five steps of a profile, with the
-- constraints of sql/schema that they meet: checks first, then unique constraints and foreign keys.
-- A row that a statement returns is discarded by its callers, and left out.
use laburi_to.Base.{
  ℕ, ℤ, pos, String, Bool, true, false, not, ◌&&◌, ◌||◌, ◌+◌, Option, none, some, List, [], ◌∷◌,
  ◌++◌, map, ◌==◌, int_eq, string_eq, int_leb, any, find, if◌then◌else◌,
}
use laburi_to.Errors.{Result, ok, err, pq_error}
use laburi_to.Database.Schema.{EmployeeRow, TechRow, ConnectionRow, Tables}
use laburi_to.Database.Connection.{Query}

abbrev pub is_some {ℓ} : {A : Type ℓ} → Option A → Bool
is_some none = false
is_some (some _) = true

abbrev pub one_of : List String → String → Bool
one_of texts text = any (λ t. t == text) texts

-- UPDATE employees ... WHERE id = $1
unfoldable pub amended : (EmployeeRow → EmployeeRow) → ℤ → EmployeeRow → EmployeeRow
amended f i e = if e.id == i then f e else e

unfoldable pub put_employee : ℤ → (EmployeeRow → EmployeeRow) → Tables → Tables
unfolding amended
put_employee i f t = record t { employees = map (amended f i) t.employees }

-- CreateEmployeeWithoutFileParams, but for the user, and UpdateEmployeeParams
pub record EmployeeColumns : Type 0 where
  pub position : String
  pub role : String
  pub years_of_experience : String
  pub certifications : Option (List String)
  pub portfolio_url : Option String

-- employee_years_of_experience_check
unfoldable pub years_known : String → Bool
years_known years = one_of ("less_1y" ∷ "1y" ∷ "2_to_5y" ∷ "5_to_10y" ∷ "more_10y" ∷ []) years

unfoldable pub new_employee : EmployeeColumns → ℤ → Tables → EmployeeRow
new_employee arg user t = record {
  id = pos t.next_employee_id;
  user_id = user;
  position = arg.position;
  role = arg.role;
  years_of_experience = arg.years_of_experience;
  certifications = arg.certifications;
  portfolio_url = arg.portfolio_url;
  created_at = t.now;
  updated_at = t.now;
  available_hours_per_day = none;
  compatible_projects = none;
  incompatible_projects = none;
  timezone = none;
  tech = none;
  internet_connections = [];
  education = [];
}

-- The trigger enforce_exclusive_employee_profile and the check, the unique user, the foreign key
unfoldable pub employee_refusal : EmployeeColumns → ℤ → Tables → Option String
unfolding years_known
employee_refusal arg user t =
    if any (λ e. e.user_id == user) t.employers
    then some "23514"
    else if years_known arg.years_of_experience
    then if any (λ e. e.user_id == user) t.employees
      then some "23505"
      else if any (λ u. u.id == user) t.users
      then none
      else some "23503"
    else some "23514"

unfoldable pub kept_employee : Option String → EmployeeRow → Tables → Result ℤ × Tables
kept_employee (some state) row t = (err (pq_error state), t)
kept_employee none row t = (ok row.id, record t { employees = t.employees ++ row ∷ [] })

-- CreateEmployeeWithoutFile. The sequence advances also when the row is refused.
unfoldable pub create_employee_without_file : EmployeeColumns → ℤ → Query ℤ
unfolding kept_employee employee_refusal new_employee
create_employee_without_file arg user t =
    kept_employee (employee_refusal arg user t) (new_employee arg user t)
      (record t { next_employee_id = t.next_employee_id + 1 })

unfoldable pub updated_employee : EmployeeColumns → ℕ → EmployeeRow → EmployeeRow
updated_employee arg now e = record e {
  position = arg.position;
  role = arg.role;
  years_of_experience = arg.years_of_experience;
  certifications = arg.certifications;
  portfolio_url = arg.portfolio_url;
  updated_at = now;
}

-- UpdateEmployee, whose check meets only a row that is there
unfoldable pub update_employee_row : ℤ → EmployeeColumns → Query (Unit {0})
unfolding put_employee updated_employee years_known
update_employee_row i arg t =
    if years_known arg.years_of_experience || not (any (λ e. e.id == i) t.employees)
    then (ok tt, put_employee i (updated_employee arg t.now) t)
    else (err (pq_error "23514"), t)

-- The check of a row, whether the employee has a row already that the unique constraint
-- excludes, and the foreign key of the employee.
unfoldable pub profile_refusal : Bool → (EmployeeRow → Bool) → Option EmployeeRow → Option String
profile_refusal false taken o = some "23514"
profile_refusal true taken none = some "23503"
profile_refusal true taken (some e) = if taken e then some "23505" else none

unfoldable pub filled : ℤ → (EmployeeRow → EmployeeRow) → Option String → Query (Unit {0})
unfolding put_employee
filled i f (some state) t = (err (pq_error state), t)
filled i f none t = (ok tt, put_employee i f t)

-- An insertion of a row that refers to employee `i`
unfoldable pub insert_profile :
    Bool → (EmployeeRow → Bool) → ℤ → (EmployeeRow → EmployeeRow) → Query (Unit {0})
unfolding profile_refusal filled
insert_profile checked taken i f t =
    filled i f (profile_refusal checked taken (find (λ e. e.id == i) t.employees)) t

unfoldable pub with_timezone : String → EmployeeRow → EmployeeRow
with_timezone timezone e = record e { timezone = some timezone }

-- CreateEmployeeLocation
unfoldable pub create_employee_location : ℤ → String → Query (Unit {0})
unfolding insert_profile with_timezone
create_employee_location i timezone =
    insert_profile true (λ e. is_some e.timezone) i (with_timezone timezone)

-- UpsertEmployeeLocation
unfoldable pub upsert_employee_location : ℤ → String → Query (Unit {0})
unfolding insert_profile with_timezone
upsert_employee_location i timezone = insert_profile true (λ e. false) i (with_timezone timezone)

-- employee_internet_connections_type_check and _speed_check
unfoldable pub connection_known : ConnectionRow → Bool
connection_known c =
    one_of ("fiber" ∷ "wifi" ∷ "coaxial" ∷ "adsl" ∷ "mobile" ∷ []) c.type
    && one_of ("less_10mb" ∷ "20mb" ∷ "30mb" ∷ "40mb" ∷ "more_50mb" ∷ []) c.speed

unfoldable pub with_connection : ConnectionRow → EmployeeRow → EmployeeRow
with_connection c e = record e { internet_connections = e.internet_connections ++ c ∷ [] }

-- CreateEmployeeConnection
unfoldable pub create_employee_connection : ℤ → ConnectionRow → Query (Unit {0})
unfolding insert_profile with_connection connection_known
create_employee_connection i c =
    insert_profile (connection_known c) (λ e. false) i (with_connection c)

unfoldable pub without_connections : EmployeeRow → EmployeeRow
without_connections e = record e { internet_connections = [] }

-- DeleteEmployeeConnections
unfoldable pub delete_employee_connections : ℤ → Query (Unit {0})
unfolding put_employee without_connections
delete_employee_connections i t = (ok tt, put_employee i without_connections t)

unfoldable pub with_tech : TechRow → EmployeeRow → EmployeeRow
with_tech row e = record e { tech = some row }

-- CreateEmployeeProfileTech
unfoldable pub create_employee_profile_tech : ℤ → TechRow → Query (Unit {0})
unfolding insert_profile with_tech
create_employee_profile_tech i row = insert_profile true (λ e. is_some e.tech) i (with_tech row)

-- UpsertEmployeeProfileTech
unfoldable pub upsert_employee_profile_tech : ℤ → TechRow → Query (Unit {0})
unfolding insert_profile with_tech
upsert_employee_profile_tech i row = insert_profile true (λ e. false) i (with_tech row)

pub record AvailabilityParams : Type 0 where
  pub available_hours_per_day : ℤ
  pub compatible_projects : Option ℤ
  pub incompatible_projects : Option ℤ

-- available_hours_per_day between 0 and 8
unfoldable pub hours_known : ℤ → Bool
hours_known hours = int_leb (pos 0) hours && int_leb hours (pos 8)

unfoldable pub with_availability : AvailabilityParams → EmployeeRow → EmployeeRow
with_availability arg e = record e {
  available_hours_per_day = some arg.available_hours_per_day;
  compatible_projects = arg.compatible_projects;
  incompatible_projects = arg.incompatible_projects;
}

-- CreateEmployeeProfileAvailability
unfoldable pub create_employee_profile_availability : ℤ → AvailabilityParams → Query (Unit {0})
unfolding insert_profile with_availability hours_known
create_employee_profile_availability i arg =
    insert_profile (hours_known arg.available_hours_per_day)
      (λ e. is_some e.available_hours_per_day) i (with_availability arg)

-- UpsertEmployeeProfileAvailability
unfoldable pub upsert_employee_profile_availability : ℤ → AvailabilityParams → Query (Unit {0})
unfolding insert_profile with_availability hours_known
upsert_employee_profile_availability i arg =
    insert_profile (hours_known arg.available_hours_per_day) (λ e. false) i (with_availability arg)

pub record CreateEmployeeEducationParams : Type 0 where
  pub education_type : String
  pub title : String
  pub status : String
  pub certification : Option String

-- employee_education_type_check and _status_check
unfoldable pub education_checked : CreateEmployeeEducationParams → Bool
education_checked arg =
    one_of ("university" ∷ "postgraduate" ∷ "high-school-orientation" ∷ "tertiary" ∷ [])
      arg.education_type
    && one_of ("in-progress" ∷ "completed" ∷ []) arg.status

unfoldable pub with_education : CreateEmployeeEducationParams → ℤ → EmployeeRow → EmployeeRow
with_education arg i e = record e {
  education =
      e.education
      ++ record {
        id = i;
        education_type = arg.education_type;
        title = arg.title;
        status = arg.status;
        certification = arg.certification;
      }
        ∷ [];
}

-- CreateEmployeeEducation. The sequence advances also when the row is refused.
unfoldable pub create_employee_education : ℤ → CreateEmployeeEducationParams → Query (Unit {0})
unfolding insert_profile with_education education_checked
create_employee_education i arg t =
    insert_profile (education_checked arg) (λ e. false) i
      (with_education arg (pos t.next_education_id))
      (record t { next_education_id = t.next_education_id + 1 })

unfoldable pub without_education : EmployeeRow → EmployeeRow
without_education e = record e { education = [] }

-- DeleteEmployeeEducation
unfoldable pub delete_employee_education : ℤ → Query (Unit {0})
unfolding put_employee without_education
delete_employee_education i t = (ok tt, put_employee i without_education t)
