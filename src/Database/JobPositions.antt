-- ===== src/Database/JobPositions.antt =====
-- The statements of sql/queries/job_positions.sql with the constraints of
-- sql/schema/0006_job_positions.sql that they meet, and GetEmployerByUserID of employers.sql.
use laburi_to.Base.{
  ℤ, pos, String, Bool, ◌&&◌, ◌||◌, ◌+◌, Option, none, some, List, [], ◌∷◌, ◌++◌, ◌==◌, int_eq,
  string_eq, int_leb, ltb, any, find, keep, overwrite, if◌then◌else◌,
}
use laburi_to.Errors.{Result, ok, err, pq_error, sentinel, no_rows}
use laburi_to.Database.Schema.{JobPositionRow, EmployerRow, Tables}
use laburi_to.Database.Connection.{Query}
use laburi_to.Database.Batches.{the_row}
use laburi_to.Database.Profiles.{is_active}
use laburi_to.Database.Listings.{ordered}

-- The columns that a request writes; a nil slice is sent as NULL.
pub record PositionColumns : Type 0 where
  pub position : String
  pub role : String
  pub required_experience : String
  pub required_education_level : String
  pub available_hours_per_day : ℤ
  pub timezone : String
  pub technical_resources : Option (List String)

unfoldable pub experience_admitted : String → Bool
experience_admitted text =
    text == "less_1y"
    || text == "1y"
    || text == "2_to_5y"
    || text == "5_to_10y"
    || text == "more_10y"

unfoldable pub education_admitted : String → Bool
education_admitted text =
    text == "university"
    || text == "postgraduate"
    || text == "high-school-orientation"
    || text == "tertiary"

-- job_positions_required_experience_check, _required_education_level_check and
-- _available_hours_per_day_check
unfoldable pub position_checked : JobPositionRow → Bool
unfolding experience_admitted education_admitted
position_checked j =
    experience_admitted j.required_experience
    && education_admitted j.required_education_level
    && int_leb (pos 1) j.available_hours_per_day
    && int_leb j.available_hours_per_day (pos 8)

-- The SQLSTATE with which a row is refused
unfoldable pub position_refusal : JobPositionRow → Tables → Option String
position_refusal row t =
    if position_checked row
    then if any (λ e. e.id == row.employer_id) t.employers then none else some "23503"
    else some "23514"

unfoldable pub new_position : ℤ → PositionColumns → List String → Tables → JobPositionRow
new_position employer_id arg resources t = record {
  id = pos t.next_job_position_id;
  employer_id = employer_id;
  position = arg.position;
  role = arg.role;
  required_experience = arg.required_experience;
  required_education_level = arg.required_education_level;
  available_hours_per_day = arg.available_hours_per_day;
  timezone = arg.timezone;
  technical_resources = resources;
  created_at = t.now;
  updated_at = t.now;
  deleted_at = none;
}

unfoldable pub added : Option String → JobPositionRow → Tables → Result JobPositionRow × Tables
added (some state) row t = (err (pq_error state), t)
added none row t = (ok row, record t { job_positions = t.job_positions ++ row ∷ [] })

unfoldable pub completed_position :
    ℤ → PositionColumns → Tables → Option (List String) → Tables → Result JobPositionRow × Tables
unfolding added new_position position_refusal
completed_position employer_id arg before none t = (err (pq_error "23502"), t)
completed_position employer_id arg before (some resources) t =
    let row = new_position employer_id arg resources before in
    added (position_refusal row before) row t

-- CreateJobPosition. The sequence advances also when the row is refused.
unfoldable pub create_job_position_row : ℤ → PositionColumns → Query JobPositionRow
unfolding completed_position
create_job_position_row employer_id arg t =
    completed_position employer_id arg t arg.technical_resources
      (record t { next_job_position_id = t.next_job_position_id + 1 })

unfoldable pub active_with_id : ℤ → JobPositionRow → Bool
active_with_id i j = j.id == i && is_active j

-- GetActiveJobPositionByID
unfoldable pub get_active_job_position_row : ℤ → Query JobPositionRow
unfolding active_with_id
get_active_job_position_row i t = (the_row (find (active_with_id i) t.job_positions), t)

-- ListActiveJobPositionsByEmployer. Rows created at one time are in the order of insertion here,
-- which the statement leaves open.
unfoldable pub list_active_job_position_rows : ℤ → Query (List JobPositionRow)
list_active_job_position_rows employer_id t = (
  ok (
      ordered (λ a b. ltb b.created_at a.created_at)
        (keep (λ j. j.employer_id == employer_id && is_active j) t.job_positions)),
  t,
)

unfoldable pub put_position : ℤ → JobPositionRow → Tables → Tables
unfolding active_with_id
put_position i row t = record t { job_positions = overwrite (active_with_id i) row t.job_positions }

unfoldable pub changed :
    ℤ → Option String → JobPositionRow → Tables → Result JobPositionRow × Tables
unfolding put_position
changed i (some state) row t = (err (pq_error state), t)
changed i none row t = (ok row, put_position i row t)

unfoldable pub set_columns :
    JobPositionRow → PositionColumns → List String → Tables → JobPositionRow
set_columns row arg resources t = record row {
  position = arg.position;
  role = arg.role;
  required_experience = arg.required_experience;
  required_education_level = arg.required_education_level;
  available_hours_per_day = arg.available_hours_per_day;
  timezone = arg.timezone;
  technical_resources = resources;
  updated_at = t.now;
}

unfoldable pub updated_position :
    ℤ → PositionColumns → Option (List String) → Option JobPositionRow → Query JobPositionRow
unfolding changed set_columns
updated_position i arg resources none t = (err (sentinel no_rows), t)
updated_position i arg none (some row) t = (err (pq_error "23502"), t)
updated_position i arg (some resources) (some row) t =
    let row' = set_columns row arg resources t in
    changed i (if position_checked row' then none else some "23514") row' t

-- UpdateActiveJobPosition
unfoldable pub update_active_job_position_row : ℤ → PositionColumns → Query JobPositionRow
unfolding updated_position active_with_id
update_active_job_position_row i arg t =
    updated_position i arg arg.technical_resources (find (active_with_id i) t.job_positions) t

unfoldable pub deleted_position : ℤ → Option JobPositionRow → Query JobPositionRow
unfolding put_position
deleted_position i none t = (err (sentinel no_rows), t)
deleted_position i (some row) t =
    let row' = record row { deleted_at = some t.now; updated_at = t.now } in
    (ok row', put_position i row' t)

-- SoftDeleteJobPosition
unfoldable pub soft_delete_job_position_row : ℤ → Query JobPositionRow
unfolding deleted_position active_with_id
soft_delete_job_position_row i t = deleted_position i (find (active_with_id i) t.job_positions) t

-- GetEmployerByUserID
unfoldable pub get_employer_by_user_id : ℤ → Query EmployerRow
get_employer_by_user_id i t = (the_row (find (λ e. e.user_id == i) t.employers), t)
